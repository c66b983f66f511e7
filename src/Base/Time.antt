-- ===== src/Base/Time.antt =====
-- `time.Duration`: an int64 count of nanoseconds, as its bit pattern below 2 ^ 64, and its text.
use Prim.Native.Nat.{ℕ, zero, suc, ◌-◌, ◌/◌, ◌%◌, ◌^◌}
use Prim.Native.String.{String}
use mathlib.Core.Path.{◌≡◌, refl}
use mathlib.Core.Bool.{Bool, false, ◌||◌, not}
use dst_go.Base.Tests.{ltb, leb, ◌==◌, if◌then◌else◌}
use dst_go.Base.Text.{◌&◌, print_uint}

abbrev pub Duration : Type 0
Duration = ℕ

abbrev pub i64 : ℕ → ℕ
i64 n = n % 2 ^ 64

abbrev pub second : Duration
second = 1_000_000_000

-- `fmtFrac`: the last `prec` digits of `v` behind a point, with no zeros at the end.
fmt_frac : ℕ → ℕ → Bool → String → String
fmt_frac zero v shown acc = if shown then "." & acc else acc
fmt_frac (suc prec) v shown acc =
    let shown' = shown || not (v % 10 == 0) in
    fmt_frac prec (v / 10) shown' (if shown' then print_uint (v % 10) & acc else acc)

minutes_string : ℕ → String
minutes_string u =
    if u == 0
    then ""
    else (if u / 60 == 0 then "" else print_uint (u / 60) & "h") & print_uint (u % 60) & "m"

magnitude_string : ℕ → String
unfolding fmt_frac minutes_string
magnitude_string u =
    if u == 0
    then "0s"
    else if ltb u 1_000
    then print_uint u & "ns"
    else if ltb u 1_000_000
    then print_uint (u / 1_000) & fmt_frac 3 u false "" & "µs"
    else if ltb u second
    then print_uint (u / 1_000_000) & fmt_frac 6 u false "" & "ms"
    else minutes_string (u / second / 60)
      & print_uint (u / second % 60)
      & fmt_frac 9 u false ""
      & "s"

-- `Duration.String`
unfoldable pub duration_string : Duration → String
unfolding magnitude_string
duration_string d =
    if leb (2 ^ 63) d then "-" & magnitude_string (2 ^ 64 - d) else magnitude_string d

duration_string_example : duration_string 5_400_500_000_000 ≡ "1h30m0.5s"
unfolding duration_string print_uint
duration_string_example = refl
