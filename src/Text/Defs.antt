-- ===== src/Text/Defs.antt =====
-- Byte strings: literals in UTF-8, comparison, trimming, case, searching, splitting.
use Prim.Native.Char.{code}
use Prim.Native.String.{String}
use ctf_agent.Base.{
  ℕ, zero, suc, ◌+◌, ◌/◌, ◌%◌, Bool, true, false, ◌&&◌, ◌||◌, List, [], ◌∷◌, ◌++◌, reverse, Option,
  none, some, ltb, leb, ◌==◌, if◌then◌else◌, get_or, length, drop,
}

-- A Go string is a sequence of bytes.
abbrev pub Text : Type 0
Text = List ℕ

-- The UTF-8 form of one code point.
unfoldable pub encode_rune : ℕ → Text
encode_rune c =
    if ltb c 0x80
    then c ∷ []
    else if ltb c 0x800
    then (0xC0 + c / 64) ∷ (0x80 + c % 64) ∷ []
    else if ltb c 0x10000
    then (0xE0 + c / 4096) ∷ (0x80 + c / 64 % 64) ∷ (0x80 + c % 64) ∷ []
    else (0xF0 + c / 262144) ∷ (0x80 + c / 4096 % 64) ∷ (0x80 + c / 64 % 64) ∷ (0x80 + c % 64) ∷ []

-- The bytes of a string literal.
unfoldable pub utf8 : String → Text
unfolding encode_rune
utf8 String.[] = []
utf8 (String.◌∷◌ c s) = encode_rune (code c) ++ utf8 s

unfoldable pub text_eq : Text → Text → Bool
text_eq [] [] = true
text_eq [] (b ∷ t) = false
text_eq (a ∷ s) [] = false
text_eq (a ∷ s) (b ∷ t) = a == b && text_eq s t

abbrev pub is_empty : Text → Bool
is_empty [] = true
is_empty (a ∷ s) = false

-- unicode.IsSpace, on the UTF-8 form: the number of bytes of the white space that a text begins
-- with, 0 if it begins with none. The code points are U+0009 to U+000D, U+0020, U+0085, U+00A0,
-- U+1680, U+2000 to U+200A, U+2028, U+2029, U+202F, U+205F and U+3000.
unfoldable pub ascii_space : ℕ → Bool
ascii_space a = (leb 9 a && leb a 13) || a == 32

unfoldable pub wide_space : ℕ → ℕ → ℕ → Bool
wide_space a b c =
    (a == 0xE1 && b == 0x9A && c == 0x80)
    || (a == 0xE2
        && b == 0x80
        && ((leb 0x80 c && leb c 0x8A) || c == 0xA8 || c == 0xA9 || c == 0xAF))
    || (a == 0xE2 && b == 0x81 && c == 0x9F)
    || (a == 0xE3 && b == 0x80 && c == 0x80)

unfoldable pub space_width : Text → ℕ
unfolding ascii_space wide_space
space_width [] = 0
space_width (a ∷ s) =
    let b = get_or s 0 0 in
    let c = get_or s 1 0 in
    if ascii_space a
    then 1
    else if a == 0xC2 && (b == 0x85 || b == 0xA0)
    then 2
    else if wide_space a b c
    then 3
    else 0

-- The same at the end of a text, which is given backwards.
unfoldable pub space_width_back : Text → ℕ
unfolding ascii_space wide_space
space_width_back [] = 0
space_width_back (a ∷ s) =
    let b = get_or s 0 0 in
    let c = get_or s 1 0 in
    if ascii_space a
    then 1
    else if b == 0xC2 && (a == 0x85 || a == 0xA0)
    then 2
    else if wide_space c b a
    then 3
    else 0

-- The first argument counts the bytes of the current white space that are still to be skipped.
unfoldable pub skip : (Text → ℕ) → ℕ → Text → Text
skip width k [] = []
skip width (suc k) (a ∷ s) = skip width k s
skip width zero (a ∷ s) = elim (width (a ∷ s)) [ zero ↦ a ∷ s | suc k ↦ skip width k s ]

-- strings.TrimSpace
unfoldable pub trim_space : Text → Text
unfolding skip space_width space_width_back
trim_space s = reverse (skip space_width_back 0 (reverse (skip space_width 0 s)))

unfoldable pub is_blank : Text → Bool
unfolding trim_space
is_blank s = is_empty (trim_space s)

-- strings.HasPrefix, with the prefix first.
unfoldable pub has_prefix : Text → Text → Bool
has_prefix [] s = true
has_prefix (a ∷ p) [] = false
has_prefix (a ∷ p) (b ∷ s) = a == b && has_prefix p s

-- strings.TrimPrefix, with the prefix first.
unfoldable pub trim_prefix : Text → Text → Text
unfolding has_prefix
trim_prefix p s = if has_prefix p s then drop (length p) s else s

-- strings.Contains, with the pattern first.
unfoldable pub contains : Text → Text → Bool
unfolding has_prefix
contains p [] = has_prefix p []
contains p (a ∷ s) = has_prefix p (a ∷ s) || contains p s

-- strings.LastIndex, with the pattern first.
unfoldable pub last_index : Text → Text → Option ℕ
unfolding has_prefix
last_index p [] = if has_prefix p [] then some 0 else none
last_index p (a ∷ s) = elim (last_index p s) [
  | some i ↦ some (suc i)
  | none ↦ if has_prefix p (a ∷ s) then some 0 else none
]

unfoldable pub has_byte : ℕ → Text → Bool
has_byte c [] = false
has_byte c (a ∷ s) = a == c || has_byte c s

-- strings.Split by a separator of one byte: at least one part.
unfoldable pub split_go : ℕ → Text → Text → List Text
split_go sep part [] = reverse part ∷ []
split_go sep part (a ∷ s) = elim (a == sep) [
  | true ↦ reverse part ∷ split_go sep [] s
  | false ↦ split_go sep (a ∷ part) s
]

unfoldable pub split : ℕ → Text → List Text
unfolding split_go
split sep s = split_go sep [] s

-- strings.ReplaceAll(s, "\r\n", "\n"): a return before a line feed is dropped.
unfoldable pub unix_lines : Text → Text
unix_lines [] = []
unix_lines (a ∷ s) =
    let rest = unix_lines s in if a == 13 && get_or s 0 0 == 10 then rest else a ∷ rest

-- strings.ToLower. Beside A to Z two letters have an ASCII letter for lower case: U+0130
-- has `i` and U+212A has `k`. Letters with no ASCII lower case stay as they are.
unfoldable pub lower : Text → Text
lower [] = []
lower (a ∷ []) = (if leb b'A' a && leb a b'Z' then a + 32 else a) ∷ []
lower (a ∷ b ∷ s) = elim (a == 0xC4 && b == 0xB0) [
  | true ↦ b'i' ∷ lower s
  | false ↦ elim (a == 0xE2 && b == 0x84 && get_or s 0 0 == 0xAA) [
    | true ↦ b'k' ∷ drop 1 (lower s)
    | false ↦ (if leb b'A' a && leb a b'Z' then a + 32 else a) ∷ lower (b ∷ s)
  ]
]

-- Decimal digits of a number: strconv.Itoa on the native numbers, least digit last.
unfoldable pub digits_go : ℕ → ℕ → Text → Text
digits_go zero n out = out
digits_go (suc fuel) n out =
    let more = digits_go fuel (n / 10) ((b'0' + n % 10) ∷ out) in
    if ltb n 10 then (b'0' + n) ∷ out else more

unfoldable pub itoa : ℕ → Text
unfolding digits_go
itoa n = digits_go (suc n) n []
