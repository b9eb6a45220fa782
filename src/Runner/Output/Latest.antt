-- ===== src/Runner/Output/Latest.antt =====
-- What the last readable output of a log is (internal/app/result_parser.go).
use ctf_agent.Base.{
  ℕ, suc, ◌+◌, ◌≡◌, ◌≢◌, ◌≤◌, ◌↔◌, ◌⊎◌, inl, inr, refl, sym, subst, ap, ◌∙◌, true, false, Option,
  none, some, [], ◌∷◌, ◌++◌, length, drop, drop-append, arith, Bool-cases, Option-cases,
  if◌then◌else◌,
}
use ctf_agent.Runner.Output.{after_marker, final_readable_marker, latest_final_readable_output}
use ctf_agent.Text.{Text, has_prefix, last_index, trim_space, unix_lines, has_prefix-append}

-- The pattern stands nowhere in the text.
abbrev pub Absent : Text → Text → Type 0
Absent p s = (a b : Text) → s ≢ a ++ (p ++ b)

-- The pattern stands between the two parts, and nowhere behind.
pub record LastAt (p s before rest : Text) : Type 0 where
  pub split : s ≡ before ++ (p ++ rest)
  pub latest : (a b : Text) → s ≡ a ++ (p ++ b) → length a ≤ length before

-- The text is what follows the last marker of the log, trimmed; it is empty if there is none.
abbrev pub IsLastOutput : Text → Text → Type 0
IsLastOutput logs text =
    (Absent final_readable_marker (unix_lines logs) × (text ≡ []))
    ⊎ ((before : Text) × (rest : Text) × LastAt final_readable_marker (unix_lines logs) before rest
        × (text ≡ trim_space rest))

has_prefix_sound : (p s : Text) → has_prefix p s ≡ true → s ≡ p ++ drop (length p) s
unfolding has_prefix
has_prefix_sound [] s h = refl
has_prefix_sound (c ∷ p) [] h = absurd (cc)
has_prefix_sound (c ∷ p) (x ∷ s) h =
    let rest : has_prefix p s ≡ true = ground arith in
    let same : x ≡ c = ground arith in
    ap (λ y. y ∷ s) same ∙ ap (λ t. c ∷ t) (has_prefix_sound p s rest)

not_in_front : (p s : Text) → has_prefix p s ≡ false → (b : Text) → s ≢ p ++ b
not_in_front p s h b e = absurd (let t = ap (has_prefix p) e ∙ has_prefix-append p b in cc)

-- What last_index answers.
abbrev Located : Text → Text → Option ℕ → Type 0
Located p s none = Absent p s
Located p s (some i) =
    (before : Text) × (rest : Text) × (length before ≡ i) × LastAt p s before rest

tail_same : (c x : ℕ) (s t : Text) → c ∷ s ≡ x ∷ t → s ≡ t
tail_same c x s t e = ap (drop 1) e

first_latest :
    (p s : Text) (c : ℕ) → Absent p s → (a b : Text) → c ∷ s ≡ a ++ (p ++ b) → length a ≤ 0
first_latest p s c gone [] b e = omega arith
first_latest p s c gone (x ∷ a) b e = absurd (gone a b (tail_same c x s (a ++ (p ++ b)) e))

later_latest :
    (p s : Text) (c n : ℕ)
    → ((a b : Text) → s ≡ a ++ (p ++ b) → length a ≤ n)
    → (a b : Text) → c ∷ s ≡ a ++ (p ++ b)
    → length a ≤ suc n
later_latest p s c n most [] b e = omega arith
later_latest p s c n most (x ∷ a) b e =
    let h = most a b (tail_same c x s (a ++ (p ++ b)) e) in omega arith

still-Absent : (p s : Text) (c : ℕ) → Absent p s → has_prefix p (c ∷ s) ≡ false → Absent p (c ∷ s)
still-Absent p s c gone h [] b e = not_in_front p (c ∷ s) h b e
still-Absent p s c gone h (x ∷ a) b e = gone a b (tail_same c x s (a ++ (p ++ b)) e)

empty_latest : (p a b : Text) → [] ≡ a ++ (p ++ b) → length a ≤ 0
empty_latest p [] b e = omega arith
empty_latest p (x ∷ a) b e = absurd (cc)

empty-Absent : (p : Text) → has_prefix p [] ≡ false → Absent p []
empty-Absent p h [] b e = not_in_front p [] h b e
empty-Absent p h (x ∷ a) b e = absurd (cc)

in_front :
    (p s : Text)
    → has_prefix p s ≡ true
    → ((a b : Text) → s ≡ a ++ (p ++ b) → length a ≤ 0)
    → Located p s (some 0)
in_front p s h most =
    ([], drop (length p) s, refl, record { split = has_prefix_sound p s h; latest = most })

-- One byte more in front: the pattern may stand there, if it stands nowhere behind.
Located-front :
    (p s : Text) (c : ℕ)
    → Absent p s
    → Located p (c ∷ s) (if has_prefix p (c ∷ s) then some 0 else none)
Located-front p s c gone = elim (Bool-cases (has_prefix p (c ∷ s))) [
  | inl e ↦ rw e (in_front p (c ∷ s) e (first_latest p s c gone))
  | inr e ↦ rw e (still-Absent p s c gone e)
]

Located-later : (p s : Text) (c i : ℕ) → Located p s (some i) → Located p (c ∷ s) (some (suc i))
Located-later p s c i (before, rest, e, at) = (
  c ∷ before,
  rest,
  ap (λ n. suc n) e,
  record {
    split = ap (λ t. c ∷ t) at.split;
    latest = later_latest p s c (length before) at.latest;
  },
)

last_index-Located : (p s : Text) → Located p s (last_index p s)
unfolding last_index
last_index-Located p [] = elim (Bool-cases (has_prefix p [])) [
  | inl e ↦ rw (e, last_index) (in_front p [] e (empty_latest p))
  | inr e ↦ rw (e, last_index) (empty-Absent p e)
]
last_index-Located p (c ∷ s) =
    let known = last_index-Located p s in
    elim (Option-cases (last_index p s)) [
      | inl e ↦ rw (e, last_index) (Located-front p s c (subst (Located p s) e known))
      | inr (i, e) ↦ rw (e, last_index) (Located-later p s c i (subst (Located p s) e known))
    ]

drop_both : (a p b : Text) → drop (length a + length p) (a ++ (p ++ b)) ≡ b
drop_both [] p b =
    let same : 0 + length p ≡ length p = omega arith in
    ap (λ n. drop n (p ++ b)) same ∙ drop-append p b
drop_both (x ∷ a) p b =
    let same : suc (length a) + length p ≡ suc (length a + length p) = omega arith in
    ap (λ n. drop n (x ∷ (a ++ (p ++ b)))) same ∙ drop_both a p b

-- What follows a marker that is found.
after_marker-LastAt :
    (s before rest : Text) (i : ℕ)
    → length before ≡ i
    → s ≡ before ++ (final_readable_marker ++ rest)
    → after_marker s (some i) ≡ trim_space rest
after_marker-LastAt s before rest i n e = ap trim_space (
    ap (λ k. drop (k + length final_readable_marker) s) (sym n)
    ∙ ap (drop (length before + length final_readable_marker)) e
    ∙ drop_both before final_readable_marker rest)

output-Located :
    (logs : Text) (o : Option ℕ)
    → Located final_readable_marker (unix_lines logs) o
    → IsLastOutput logs (after_marker (unix_lines logs) o)
output-Located logs none gone = inl (gone, refl)
output-Located logs (some i) (before, rest, n, at) =
    inr (before, rest, at, after_marker-LastAt (unix_lines logs) before rest i n at.split)

output_unique :
    (logs text : Text) (o : Option ℕ)
    → Located final_readable_marker (unix_lines logs) o
    → IsLastOutput logs text
    → after_marker (unix_lines logs) o ≡ text
output_unique logs text none gone (inl (absent, e)) = sym e
output_unique logs text none gone (inr (before, rest, at, e)) = absurd (gone before rest at.split)
output_unique logs text (some i) (b, r, n, found) (inl (absent, e)) =
    absurd (absent b r found.split)
output_unique logs text (some i) (b, r, n, found) (inr (before, rest, at, e)) =
    let most = found.latest before rest at.split in
    let least = at.latest b r found.split in
    after_marker-LastAt (unix_lines logs) before rest i (omega arith) at.split ∙ sym e

-- The one text that is the last output of a log is what the code takes.
pub latest_final_readable_output_iff :
    (logs text : Text) → (latest_final_readable_output logs ≡ text) ↔ IsLastOutput logs text
unfolding latest_final_readable_output
latest_final_readable_output_iff logs text =
    let s = unix_lines logs in
    let o = last_index final_readable_marker s in
    let known = last_index-Located final_readable_marker s in
    (
      λ e. subst (IsLastOutput logs) e (output-Located logs o known),
      output_unique logs text o known,
    )
