-- ===== src/Text/Duration.antt =====
-- time.Duration's String, on durations that are not negative.
use ctf_agent.Base.{
  ℕ, zero, suc, ◌+◌, ◌/◌, ◌%◌, ◌^◌, Bool, false, ◌||◌, not, ◌∷◌, ◌++◌, ltb, ◌==◌, if◌then◌else◌,
}
use ctf_agent.Text.{Text, utf8, itoa}

-- fmtFrac: the last `n` decimal digits of `v` without the zeros at the end, in front of `out`.
-- `printing` is set from the last digit that is not 0 on.
unfoldable pub fmt_frac : ℕ → ℕ → Bool → Text → Text
fmt_frac zero v printing out = if printing then b'.' ∷ out else out
fmt_frac (suc n) v printing out =
    let print = printing || not (v % 10 == 0) in
    fmt_frac n (v / 10) print (if print then (b'0' + v % 10) ∷ out else out)

unfoldable pub small : ℕ → ℕ → Text → Text
unfolding fmt_frac
small digits d suffix = itoa (d / 10 ^ digits) ++ fmt_frac digits d false suffix

unfoldable pub hours_minutes : ℕ → Text → Text
hours_minutes m seconds =
    if m == 0
    then seconds
    else if m / 60 == 0
    then itoa m ++ b'm' ∷ seconds
    else itoa (m / 60) ++ b'h' ∷ itoa (m % 60) ++ b'm' ∷ seconds

unfoldable pub duration_text : ℕ → Text
unfolding utf8 small hours_minutes fmt_frac
duration_text d =
    if d == 0
    then utf8 "0s"
    else if ltb d 1000
    then itoa d ++ utf8 "ns"
    else if ltb d 1000000
    then small 3 d (utf8 "µs")
    else if ltb d 1000000000
    then small 6 d (utf8 "ms")
    else hours_minutes (d / 1000000000 / 60)
        (itoa (d / 1000000000 % 60) ++ fmt_frac 9 d false (utf8 "s"))
