-- ===== src/Map.antt =====
-- Go's map[string]V: an association list in the order in which a `range` may visit it. Keys keep
-- their place when they are written again.
use ctf_agent.Base.{
  ◌≡◌, refl, inl, inr, List, [], ◌∷◌, Option, none, some, arith, if◌then◌else◌, Bool-cases, subst,
  sym,
}
use ctf_agent.Text.{Text, text_eq, text_eq_iff, text_eq_sound}

abbrev pub Map {ℓ} : Type ℓ → Type ℓ
Map V = List (Text × V)

module _ {ℓ} {V : Type ℓ} where
  unfoldable pub lookup : Text → Map V → Option V
  lookup k [] = none
  lookup k ((j, v) ∷ m) = if text_eq j k then some v else lookup k m

  unfoldable pub insert : Text → V → Map V → Map V
  insert k v [] = (k, v) ∷ []
  insert k v ((j, w) ∷ m) = if text_eq j k then (j, v) ∷ m else (j, w) ∷ insert k v m

  unfoldable pub delete : Text → Map V → Map V
  delete k [] = []
  delete k ((j, w) ∷ m) = let rest = delete k m in if text_eq j k then rest else (j, w) ∷ rest

  pub lookup-insert :
      (k j : Text) (v : V) (m : Map V)
      → lookup j (insert k v m) ≡ (if text_eq k j then some v else lookup j m)
  unfolding lookup insert
  lookup-insert k j v [] = refl
  lookup-insert k j v ((i, w) ∷ m) =
      ground (arith, text_eq_iff k j, text_eq_iff i k, text_eq_iff i j, lookup-insert k j v m)

  pub lookup-delete :
      (k j : Text) (m : Map V) → lookup j (delete k m) ≡ (if text_eq k j then none else lookup j m)
  unfolding lookup delete
  lookup-delete k j [] = ground arith
  lookup-delete k j ((i, w) ∷ m) =
      ground (arith, text_eq_iff k j, text_eq_iff i k, text_eq_iff i j, lookup-delete k j m)

  -- Every entry satisfies `P`, which may speak of its key.
  abbrev pub Entries {κ} : (Text → V → Type κ) → Map V → Type κ
  Entries P [] = Unit
  Entries P ((k, v) ∷ m) = P k v × Entries P m

  pub lookup-Entries {κ} :
      (P : Text → V → Type κ) (k : Text) (m : Map V) {v : V}
      → Entries P m
      → lookup k m ≡ some v
      → P k v
  unfolding lookup
  lookup-Entries P k [] h e = absurd (cc)
  lookup-Entries P k ((j, w) ∷ m) {v} h e = elim (Bool-cases (text_eq j k)) [
    | inl hit ↦
        let same : w ≡ v = ground arith in
        subst (λ i. P i v) (text_eq_sound j k hit) (subst (P j) same h.0)
    | inr miss ↦ lookup-Entries P k m h.1 (rw (miss, lookup) at e)
  ]

  pub insert-Entries {κ} :
      (P : Text → V → Type κ) (k : Text) (v : V) (m : Map V)
      → Entries P m
      → P k v
      → Entries P (insert k v m)
  unfolding insert
  insert-Entries P k v [] h p = (p, tt)
  insert-Entries P k v ((j, w) ∷ m) h p = elim (Bool-cases (text_eq j k)) [
    | inl hit ↦ rw (hit, insert) (subst (λ i. P i v) (sym (text_eq_sound j k hit)) p, h.1)
    | inr miss ↦ rw (miss, insert) (h.0, insert-Entries P k v m h.1 p)
  ]
