-- ===== src/Tui/Text.antt =====
-- cmd/perunnodetui/channels.go: what it does to texts, with `strings.TrimRight`, `strings.Contains`
-- of one character, `strconv.Atoi` and `strconv.Itoa`.
use Prim.Native.Char.{Char, code}
use Prim.Native.String.{String, [], ◌∷◌, len}
use dst_go.Tui.Words.{one_word, next_word, in_front}
use dst_go.Base.{
  ℕ, suc, zero, ◌+◌, ◌*◌, ◌-◌, ◌^◌, Bool, true, false, ◌&&◌, ◌||◌, Option, none, some, ◌==◌, leb,
  ltb, ℤ, pos, List, negsuc, print_uint, ◌&◌, if◌then◌else◌,
}

abbrev is_empty : String → Bool
is_empty [] = true
is_empty (c ∷ s) = false

-- `strings.TrimRight(s, cutset)`, for the cutset of one character.
unfoldable pub trim_right : ℕ → String → String
trim_right x [] = []
trim_right x (c ∷ s) =
    let rest = trim_right x s in if is_empty rest && (code c == x) then [] else c ∷ rest

-- `strings.Contains(s, substr)`, for a text of one character.
unfoldable pub contains : ℕ → String → Bool
contains x [] = false
contains x (c ∷ s) = (code c == x) || contains x s

abbrev pub dot : ℕ
dot = 46

abbrev pub nought : ℕ
nought = 48

unfoldable pub trim_zeros : String → String
unfolding trim_right contains
trim_zeros s = if contains dot s then trim_right dot (trim_right nought s) else s

abbrev amount_max_length : ℕ
amount_max_length = 10

unfoldable pub take_chars : ℕ → String → String
take_chars zero s = []
take_chars (suc n) [] = []
take_chars (suc n) (c ∷ s) = c ∷ take_chars n s

-- The texts of amounts have one byte for each character.
unfoldable pub truncate_at_amount_max_len : String → String
unfolding take_chars
truncate_at_amount_max_len s =
    if ltb amount_max_length (len s) then take_chars amount_max_length s else s

abbrev is_digit : Char → Bool
is_digit c = leb 48 (code c) && leb (code c) 57

-- The number that the digits make behind those that came before; none when one is not a digit.
unfoldable pub digits_from : ℕ → String → Option ℕ
digits_from n [] = some n
digits_from n (c ∷ s) =
    let rest = digits_from (n * 10 + (code c - 48)) s in if is_digit c then rest else none

-- At least one digit.
unfoldable pub digits : String → Option ℕ
unfolding digits_from
digits [] = none
digits (c ∷ s) = digits_from 0 (c ∷ s)

unfoldable pub negated : ℕ → ℤ
negated zero = pos zero
negated (suc n) = negsuc n

-- The range of an int.
unfoldable pub in_range : Bool → ℕ → Option ℤ
unfolding negated
in_range true n = if leb n (2 ^ 63) then some (negated n) else none
in_range false n = if ltb n (2 ^ 63) then some (pos n) else none

unfoldable pub signed : Bool → Option ℕ → Option ℤ
unfolding in_range
signed neg none = none
signed neg (some n) = in_range neg n

-- `strconv.Atoi`; none is an error.
unfoldable pub atoi : String → Option ℤ
unfolding digits signed
atoi [] = none
atoi (c ∷ s) =
    if code c == 45
    then signed true (digits s)
    else if code c == 43
    then signed false (digits s)
    else signed false (digits (c ∷ s))

-- `n + 1` of an int.
unfoldable pub next_int : ℤ → ℤ
unfolding negated
next_int (pos n) = if suc n == 2 ^ 63 then negated (2 ^ 63) else pos (suc n)
next_int (negsuc n) = negated n

-- `strconv.Itoa`
unfoldable pub itoa : ℤ → String
itoa (pos n) = print_uint n
itoa (negsuc n) = "-" & print_uint (suc n)

-- `strings.Split(s, " ")`
unfoldable pub split_spaces : String → List String
split_spaces [] = one_word
split_spaces (c ∷ s) =
    let rest = split_spaces s in if code c == 32 then next_word rest else in_front (λ w. c ∷ w) rest
