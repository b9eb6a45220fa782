-- ===== src/Text/Laws.antt =====
-- Laws of comparison, prefixes and splitting.
use mathlib.Core.List.{reverse-cons, reverse-reverse, append_assoc, append-nil}
use ctf_agent.Base.{
  ℕ, ◌≡◌, refl, sym, ap, ◌∙◌, ◌≢◌, ◌↔◌, true, false, [], ◌∷◌, ◌++◌, reverse, arith, drop-append,
  All,
}
use ctf_agent.Text.Defs.{Text, text_eq, has_prefix, trim_prefix, has_byte, split, split_go}

pub text_eq_sound : (s t : Text) → text_eq s t ≡ true → s ≡ t
unfolding text_eq
text_eq_sound [] [] h = refl
text_eq_sound [] (b ∷ t) h = cc
text_eq_sound (a ∷ s) [] h = cc
text_eq_sound (a ∷ s) (b ∷ t) h = ground (arith, text_eq_sound s t)

pub text_eq_refl : (s : Text) → text_eq s s ≡ true
unfolding text_eq
text_eq_refl [] = refl
text_eq_refl (a ∷ s) = ground (arith, text_eq_refl s)

pub text_eq_iff : (s t : Text) → (text_eq s t ≡ true) ↔ (s ≡ t)
text_eq_iff s t = (text_eq_sound s t, λ e. ap (text_eq s) (sym e) ∙ text_eq_refl s)

pub has_prefix-append : (p s : Text) → has_prefix p (p ++ s) ≡ true
unfolding has_prefix
has_prefix-append [] s = refl
has_prefix-append (a ∷ p) s = ground (arith, has_prefix-append p s)

pub trim_prefix-append : (p s : Text) → trim_prefix p (p ++ s) ≡ s
unfolding trim_prefix
trim_prefix-append p s = rw has_prefix-append (drop-append p s)

-- No byte of the text is `c`.
abbrev pub Lacks : ℕ → Text → Type 0
Lacks c = All (λ a. a ≢ c)

pub has_byte-Lacks : (c : ℕ) (s : Text) → has_byte c s ≡ false → Lacks c s
unfolding has_byte
has_byte-Lacks c [] h = tt
has_byte-Lacks c (a ∷ s) h = ground (arith, has_byte-Lacks c s)

split_go-append :
    (sep : ℕ) (p part s : Text)
    → Lacks sep p
    → split_go sep part (p ++ s) ≡ split_go sep (reverse p ++ part) s
unfolding split_go
split_go-append sep [] part s h = refl
split_go-append sep (a ∷ p) part s (ha, hp) =
    let step : split_go sep part (a ∷ (p ++ s)) ≡ split_go sep (a ∷ part) (p ++ s) = ground arith in
    step
    ∙ split_go-append sep p (a ∷ part) s hp
    ∙ ap (λ q. split_go sep q s) (simp (reverse-cons, append_assoc))

split_go_at : (sep : ℕ) (part s : Text) → split_go sep part (sep ∷ s) ≡ reverse part ∷ split sep s
unfolding split_go split
split_go_at sep part s = ground arith

-- A text up to its first separator is the first part.
pub split_first : (sep : ℕ) (p s : Text) → Lacks sep p → split sep (p ++ sep ∷ s) ≡ p ∷ split sep s
unfolding split
split_first sep p s h =
    split_go-append sep p [] (sep ∷ s) h
    ∙ split_go_at sep (reverse p ++ []) s
    ∙ simp (append-nil, reverse-reverse)

pub split_last : (sep : ℕ) (p : Text) → Lacks sep p → split sep p ≡ p ∷ []
unfolding split split_go
split_last sep p h =
    ap (split sep) (sym (append-nil p))
    ∙ split_go-append sep p [] [] h
    ∙ simp (append-nil, reverse-reverse)
