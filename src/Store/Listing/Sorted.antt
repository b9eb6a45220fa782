-- ===== src/Store/Listing/Sorted.antt =====
-- The order of the lists of tasks (internal/app/store.go).
use ctf_agent.Base.{◌≡◌, ◌↔◌, ◌⊎◌, inl, inr, Bool, true, false, List, [], ◌∷◌, arith, Bool-cases}
use ctf_agent.Store.{Store}
use ctf_agent.Store.Listing.{insert_sorted, sort_slice, values, newer, list_tasks}
use ctf_agent.Task.{Task}

-- No task of the list comes before one that it should follow.
abbrev Heads : (Task → Task → Bool) → Task → List Task → Type 0
Heads before t [] = Unit
Heads before t (u ∷ us) = (before u t ≡ false) × Heads before t us

abbrev pub Sorted : (Task → Task → Bool) → List Task → Type 0
Sorted before [] = Unit
Sorted before (t ∷ ts) = Heads before t ts × Sorted before ts

abbrev pub In : Task → List Task → Type 0
In t [] = ⊥
In t (u ∷ us) = (u ≡ t) ⊎ In t us

module _ (before : Task → Task → Bool)
    (asym : (t u : Task) → before t u ≡ true → before u t ≡ false)
    (chain : (t u v : Task) → before u t ≡ false → before v u ≡ false → before v t ≡ false) where
  insert-Heads :
      (t x : Task) (l : List Task)
      → before x t ≡ false
      → Heads before t l
      → Heads before t (insert_sorted before x l)
  unfolding insert_sorted
  insert-Heads t x [] e h = (e, _)
  insert-Heads t x (y ∷ ys) e (f, h) = elim (Bool-cases (before y x)) [
    | inl b ↦ rw b (f, insert-Heads t x ys e h)
    | inr b ↦ rw b (e, (f, h))
  ]

  weaken-Heads :
      (x y : Task) (l : List Task) → before y x ≡ false → Heads before y l → Heads before x l
  weaken-Heads x y [] e h = _
  weaken-Heads x y (z ∷ l) e (f, h) = (chain x y z e f, weaken-Heads x y l e h)

  insert-Sorted :
      (x : Task) (l : List Task) → Sorted before l → Sorted before (insert_sorted before x l)
  unfolding insert_sorted
  insert-Sorted x [] s = (_, _)
  insert-Sorted x (y ∷ ys) (h, s) = elim (Bool-cases (before y x)) [
    | inl b ↦ rw b (insert-Heads y x ys (asym y x b) h, insert-Sorted x ys s)
    | inr b ↦ rw b ((b, weaken-Heads x y ys b h), (h, s))
  ]

  sort-Sorted : (l : List Task) → Sorted before (sort_slice before l)
  unfolding sort_slice
  sort-Sorted [] = _
  sort-Sorted (x ∷ xs) = insert-Sorted x (sort_slice before xs) (sort-Sorted xs)

module _ (before : Task → Task → Bool) where
  insert-In : (x t : Task) (l : List Task) → In t (insert_sorted before x l) ↔ ((x ≡ t) ⊎ In t l)
  unfolding insert_sorted
  insert-In x t [] = ground arith
  insert-In x t (y ∷ ys) = elim (Bool-cases (before y x)) [
    | inl b ↦ rw b (ground (arith, insert-In x t ys))
    | inr b ↦ rw b (ground arith)
  ]

  sort-In : (t : Task) (l : List Task) → In t (sort_slice before l) ↔ In t l
  unfolding sort_slice
  sort-In t [] = ground arith
  sort-In t (x ∷ xs) = ground (arith, insert-In x t (sort_slice before xs), sort-In t xs)

-- The list that the pages are built from holds the tasks of the store, each of them and nothing
-- else, and no task in it is newer than one before it.
pub list_tasks_lem :
    (s : Store)
    → Sorted newer (list_tasks s) × ((t : Task) → In t (list_tasks s) ↔ In t (values s.tasks))
unfolding list_tasks
list_tasks_lem s = (
  sort-Sorted newer (λ t u h. ground arith) (λ t u v h k. ground arith) (values s.tasks),
  λ t. sort-In newer t (values s.tasks),
)
