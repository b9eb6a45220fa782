-- ===== src/Text/Parse.antt =====
-- Numbers in texts: strconv.Atoi, ParseInt and ParseUint in base 10 with 64 bits, ParseBool.
use ctf_agent.Base.{
  ℕ, zero, suc, ◌+◌, ◌-◌, ◌*◌, ◌/◌, ◌%◌, ◌^◌, ◌≡◌, ◌<◌, refl, ap, ◌∙◌, Bool, true, false, ◌&&◌,
  Option, none, some, List, [], ◌∷◌, ltb, leb, ◌==◌, if◌then◌else◌, arith, Bool-cases, inl, inr,
}
use ctf_agent.Base.Int.{ℤ, pos, negsuc}
use ctf_agent.Text.{Text, utf8, text_eq, itoa, digits_go}

abbrev pub is_digit : ℕ → Bool
is_digit c = leb b'0' c && leb c b'9'

-- The value of digits behind the number `acc`.
unfoldable pub digits_value : ℕ → Text → Option ℕ
digits_value acc [] = some acc
digits_value acc (c ∷ s) =
    let rest = digits_value (acc * 10 + (c - b'0')) s in if is_digit c then rest else none

abbrev pub within : ℕ → Option ℕ → Option ℕ
within limit none = none
within limit (some n) = if ltb n limit then some n else none

-- ParseUint
unfoldable pub parse_uint : Text → Option ℕ
unfolding digits_value
parse_uint [] = none
parse_uint (c ∷ s) = within (2 ^ 64) (digits_value 0 (c ∷ s))

abbrev pub negated : ℕ → ℤ
negated zero = pos 0
negated (suc n) = negsuc n

abbrev pub as_pos : Option ℕ → Option ℤ
as_pos none = none
as_pos (some n) = some (pos n)

abbrev pub as_negated : Option ℕ → Option ℤ
as_negated none = none
as_negated (some n) = some (negated n)

unfoldable pub natural : Text → Option ℕ
unfolding digits_value
natural [] = none
natural (c ∷ s) = digits_value 0 (c ∷ s)

-- Atoi and ParseInt
unfoldable pub parse_int : Text → Option ℤ
unfolding natural
parse_int [] = none
parse_int (c ∷ s) =
    if c == b'-'
    then as_negated (within (2 ^ 63 + 1) (natural s))
    else if c == b'+'
    then as_pos (within (2 ^ 63) (natural s))
    else as_pos (within (2 ^ 63) (natural (c ∷ s)))

unfoldable pub one_of : Text → List Text → Bool
unfolding text_eq
one_of s [] = false
one_of s (t ∷ ts) = if text_eq s t then true else one_of s ts

abbrev true_words : List Text
unfolding utf8
true_words = utf8 "1" ∷ utf8 "t" ∷ utf8 "T" ∷ utf8 "TRUE" ∷ utf8 "true" ∷ utf8 "True" ∷ []

abbrev false_words : List Text
unfolding utf8
false_words = utf8 "0" ∷ utf8 "f" ∷ utf8 "F" ∷ utf8 "FALSE" ∷ utf8 "false" ∷ utf8 "False" ∷ []

-- ParseBool
unfoldable pub parse_bool : Text → Option Bool
unfolding one_of true_words false_words
parse_bool s =
    if one_of s true_words then some true else if one_of s false_words then some false else none

-- Digits that are read are those of the number and what follows.
digits_go_value :
    (fuel n : ℕ) (out : Text)
    → n < fuel
    → digits_value 0 (digits_go fuel n out) ≡ digits_value n out
unfolding digits_go digits_value
digits_go_value zero n out h = absurd (omega arith)
digits_go_value (suc fuel) n out h = elim (Bool-cases (ltb n 10)) [
  | inl d ↦
      let digit : is_digit (b'0' + n) ≡ true = ground arith in
      let value : 0 * 10 + (b'0' + n - b'0') ≡ n = omega arith in
      rw (d, digits_value, digit, value) refl
  | inr d ↦
      let digit : is_digit (b'0' + n % 10) ≡ true = ground arith in
      let value : n / 10 * 10 + (b'0' + n % 10 - b'0') ≡ n = omega arith in
      let fits : n / 10 < fuel = ground arith in
      rw d (
        digits_go_value fuel (n / 10) ((b'0' + n % 10) ∷ out) fits
        ∙ rw (digits_value, digit, value) refl)
]

digits_value_nil : (n : ℕ) → digits_value n [] ≡ some n
unfolding digits_value
digits_value_nil n = refl

-- A text begins with a digit.
record BeginsWithDigit (s : Text) : Type 0 where
  first : ℕ
  rest : Text
  parts : s ≡ first ∷ rest
  digit : is_digit first ≡ true

digits_go-BeginsWithDigit :
    (fuel n : ℕ) (out : Text) → n < fuel → BeginsWithDigit (digits_go fuel n out)
unfolding digits_go
digits_go-BeginsWithDigit zero n out h = absurd (omega arith)
digits_go-BeginsWithDigit (suc fuel) n out h = elim (Bool-cases (ltb n 10)) [
  | inl d ↦ rw d (record { first = b'0' + n; rest = out; parts = refl; digit = ground arith })
  | inr d ↦ rw d (digits_go-BeginsWithDigit fuel (n / 10) ((b'0' + n % 10) ∷ out) (ground arith))
]

natural_lem : (s : Text) (b : BeginsWithDigit s) → natural s ≡ digits_value 0 s
unfolding natural
natural_lem s b = rw b.parts refl

-- No sign is in front of a digit.
parse_natural : (s : Text) → BeginsWithDigit s → parse_int s ≡ as_pos (within (2 ^ 63) (natural s))
unfolding parse_int
parse_natural s b =
    let minus : b.first == b'-' ≡ false = (let d = b.digit in ground arith) in
    let plus : b.first == b'+' ≡ false = (let d = b.digit in ground arith) in
    rw (b.parts, parse_int, minus, plus) refl

pub natural-itoa : (n : ℕ) → natural (itoa n) ≡ some n
unfolding itoa
natural-itoa n =
    let fits : n < suc n = omega arith in
    natural_lem (itoa n) (digits_go-BeginsWithDigit (suc n) n [] fits)
    ∙ digits_go_value (suc n) n [] fits
    ∙ digits_value_nil n

-- A number below 2 ^ 63 that is printed by strconv.Itoa is read back by strconv.Atoi.
pub parse_int-itoa : (n : ℕ) → n < 2 ^ 63 → parse_int (itoa n) ≡ some (pos n)
unfolding itoa
parse_int-itoa n h =
    let first = digits_go-BeginsWithDigit (suc n) n [] (omega arith) in
    let small : ltb n (2 ^ 63) ≡ true = ground arith in
    parse_natural (itoa n) first
    ∙ ap (λ o. as_pos (within (2 ^ 63) o)) (natural-itoa n)
    ∙ ap (λ b. as_pos (if b then some n else none)) small
