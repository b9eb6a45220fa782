-- ===== src/Store/Listing.antt =====
-- The orders of the store's tasks: List and RecoverableIDs (internal/app/store.go). Go leaves open
-- in which order tasks of the same time come; here they come in the order of the map.
pub mod Sorted
use ctf_agent.Base.{ℕ, Bool, true, false, ◌&&◌, ◌||◌, List, [], ◌∷◌, map, ltb, if◌then◌else◌}
use ctf_agent.Map.{Map}
use ctf_agent.Store.{Store}
use ctf_agent.Task.{Task, is_queued, is_running}
use ctf_agent.Text.{Text, is_empty}

-- sort.Slice with the comparison `before`.
unfoldable pub insert_sorted {ℓ} : {A : Type ℓ} → (A → A → Bool) → A → List A → List A
insert_sorted before x [] = x ∷ []
insert_sorted before x (y ∷ ys) =
    let rest = insert_sorted before x ys in if before y x then y ∷ rest else x ∷ y ∷ ys

unfoldable pub sort_slice {ℓ} : {A : Type ℓ} → (A → A → Bool) → List A → List A
unfolding insert_sorted
sort_slice before [] = []
sort_slice before (x ∷ xs) = insert_sorted before x (sort_slice before xs)

unfoldable pub values : Map Task → List Task
values [] = []
values ((id, task) ∷ m) = task ∷ values m

abbrev pub newer : Task → Task → Bool
newer t u = ltb u.created_at t.created_at

abbrev pub older : Task → Task → Bool
older t u = ltb t.created_at u.created_at

-- List
unfoldable pub list_tasks : Store → List Task
unfolding sort_slice values
list_tasks s = sort_slice newer (values s.tasks)

abbrev pub is_recoverable : Task → Bool
is_recoverable t = is_queued t.status || (is_running t.status && is_empty t.container_name)

unfoldable pub filter_tasks : (Task → Bool) → List Task → List Task
filter_tasks p [] = []
filter_tasks p (t ∷ ts) = let rest = filter_tasks p ts in if p t then t ∷ rest else rest

-- RecoverableIDs
unfoldable pub recoverable_ids : Store → List Text
unfolding sort_slice values filter_tasks
recoverable_ids s =
    map (λ t. t.id) (sort_slice older (filter_tasks is_recoverable (values s.tasks)))
