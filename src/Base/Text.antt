-- ===== src/Base/Text.antt =====
-- Texts: `fmt.Sprintf` with `%d` and `%x`, and `strings.Join`.
use Prim.Native.Nat.{ℕ, zero, suc, ◌/◌, ◌%◌}
use Prim.Native.String.{String, ◌++◌}
use mathlib.Core.Path.{◌≡◌, refl}
use mathlib.Core.List.{List, [], ◌∷◌}
use mathlib.Core.Option.{Option, none, some}
use dst_go.Base.Lists.{get_elem?}
use dst_go.Base.Tests.{ltb, if◌then◌else◌}

-- `s + t`. `++` is for lists.
infixr 65 ◌&◌
abbrev pub ◌&◌ : String → String → String
s & t = s ++ t

-- The digits below 16, in rows of four.
abbrev digit_rows : List (List String)
digit_rows =
    ("0" ∷ "1" ∷ "2" ∷ "3" ∷ [])
    ∷ ("4" ∷ "5" ∷ "6" ∷ "7" ∷ [])
    ∷ ("8" ∷ "9" ∷ "a" ∷ "b" ∷ [])
    ∷ ("c" ∷ "d" ∷ "e" ∷ "f" ∷ [])
    ∷ []

abbrev text_or_empty : Option String → String
text_or_empty (some s) = s
text_or_empty none = ""

abbrev in_row : Option (List String) → ℕ → String
in_row (some row) column = text_or_empty (get_elem? row column)
in_row none column = ""

abbrev hex_digit : ℕ → String
hex_digit d = in_row (get_elem? digit_rows (d / 4)) (d % 4)

-- One digit is dropped in each round, so `suc n` rounds are enough for the number `n`.
print_digits : ℕ → ℕ → String → String
print_digits zero n acc = acc
print_digits (suc fuel) n acc =
    let out = hex_digit (n % 10) ++ acc in
    let rest = print_digits fuel (n / 10) out in if ltb n 10 then out else rest

-- `%d` of a number that is not negative.
unfoldable pub print_uint : ℕ → String
unfolding print_digits
print_uint n = print_digits (suc n) n ""

-- `%x` of a byte string.
unfoldable pub print_hex : List ℕ → String
print_hex [] = ""
print_hex (b ∷ bs) = hex_digit (b / 16 % 16) ++ (hex_digit (b % 16) ++ print_hex bs)

-- `strings.Join(parts, sep)`
unfoldable pub join : List String → String → String
join [] sep = ""
join (s ∷ []) sep = s
join (s ∷ t ∷ parts) sep = s ++ (sep ++ join (t ∷ parts) sep)

print_uint_example : print_uint 10450 ≡ "10450"
unfolding print_uint
print_uint_example = refl

print_hex_example : print_hex (16 ∷ 255 ∷ []) ≡ "10ff"
unfolding print_hex
print_hex_example = refl

join_example : join ("self" ∷ "bob" ∷ []) "," ≡ "self,bob"
unfolding join
join_example = refl
