-- ===== src/Text/Cut.antt =====
-- More of package strings: EqualFold, Cut, Fields, TrimRight and Trim of given bytes, ContainsAny.
use ctf_agent.Base.{
  ℕ, zero, suc, ◌+◌, ◌-◌, Bool, false, ◌&&◌, ◌||◌, Option, none, some, List, [], ◌∷◌, reverse, leb,
  ◌==◌, if◌then◌else◌,
}
use ctf_agent.Text.{Text, text_eq, has_byte, has_prefix, space_width}

abbrev pub kelvin_sign : Text
kelvin_sign = 0xE2 ∷ 0x84 ∷ 0xAA ∷ []

abbrev pub long_s : Text
long_s = 0xC5 ∷ 0xBF ∷ []

abbrev pub lower_byte : ℕ → ℕ
lower_byte c = if leb b'A' c && leb c b'Z' then c + 32 else c

-- A form in which texts agree that differ in the case of ASCII letters; the first argument counts
-- the bytes left of a letter that has been folded. Beside the ASCII letters U+017F folds to s and
-- U+212A to k. Other letters stay as they are, so texts are compared as by EqualFold where one of
-- the two is ASCII.
unfoldable pub fold_go : ℕ → Text → Text
unfolding has_prefix
fold_go k [] = []
fold_go (suc k) (c ∷ s) = fold_go k s
fold_go zero (c ∷ s) =
    let k = b'k' ∷ fold_go 2 s in
    let long = b's' ∷ fold_go 1 s in
    let plain = lower_byte c ∷ fold_go 0 s in
    if has_prefix kelvin_sign (c ∷ s) then k else if has_prefix long_s (c ∷ s) then long else plain

-- strings.EqualFold, where one of the texts is ASCII.
unfoldable pub equal_fold : Text → Text → Bool
unfolding fold_go text_eq
equal_fold s t = text_eq (fold_go 0 s) (fold_go 0 t)

abbrev pub put_first : ℕ → Option (Text × Text) → Option (Text × Text)
put_first c none = none
put_first c (some (before, after)) = some (c ∷ before, after)

-- strings.Cut at a separator of one byte; `none` where it is not found.
unfoldable pub cut : ℕ → Text → Option (Text × Text)
cut sep [] = none
cut sep (c ∷ s) = let rest = cut sep s in if c == sep then some ([], s) else put_first c rest

-- strings.ContainsAny with a set of ASCII bytes.
unfoldable pub contains_any : Text → Text → Bool
unfolding has_byte
contains_any bytes [] = false
contains_any bytes (c ∷ s) = has_byte c bytes || contains_any bytes s

unfoldable pub trim_left : Text → Text → Text
unfolding has_byte
trim_left bytes [] = []
trim_left bytes (c ∷ s) = if has_byte c bytes then trim_left bytes s else c ∷ s

-- strings.TrimRight and strings.Trim with a set of ASCII bytes.
unfoldable pub trim_right : Text → Text → Text
unfolding trim_left
trim_right bytes s = reverse (trim_left bytes (reverse s))

unfoldable pub trim_bytes : Text → Text → Text
unfolding trim_right trim_left
trim_bytes bytes s = trim_right bytes (trim_left bytes s)

abbrev pub flush : Text → List Text → List Text
flush [] fields = fields
flush (c ∷ part) fields = reverse (c ∷ part) ∷ fields

-- strings.Fields: `k` bytes of a space are left, `part` is the field so far, reversed.
unfoldable pub fields_go : ℕ → Text → Text → List Text
unfolding space_width
fields_go k part [] = flush part []
fields_go (suc k) part (c ∷ s) = fields_go k part s
fields_go zero part (c ∷ s) =
    let more = fields_go 0 (c ∷ part) s in
    let next = flush part (fields_go (space_width (c ∷ s) - 1) [] s) in
    if space_width (c ∷ s) == 0 then more else next

unfoldable pub fields : Text → List Text
unfolding fields_go
fields s = fields_go 0 [] s
