-- ===== src/Store/Moves.antt =====
-- One call of the store and the task with its id (internal/app/store.go).
use ctf_agent.Base.{
  ◌≡◌, refl, ap, ◌⊎◌, inl, inr, true, false, none, some, is_some, length, Bool-cases, Option-cases,
}
use ctf_agent.Base.Int.{pos}
use ctf_agent.Disk.{current_task_schema, write_task, dir_at}
use ctf_agent.Map.{lookup, insert, lookup-insert}
use ctf_agent.Names.{is_safe_task_id}
use ctf_agent.Store.{Store, Env, get, commit, update, update_found}
use ctf_agent.Store.Logs
use ctf_agent.Store.Logs.{LogIo, grow, append_found}
use ctf_agent.Task.{Task}
use ctf_agent.Text.{Text, text_eq, text_eq_refl}

abbrev pub stamped : (Task → Task) → Task → Task
stamped change t = record (change t) { schema_version = pos current_task_schema }

-- The task `id` of `s'` is that of `s`, or its image under `change`; no other task differs.
pub record Changed (id : Text) (change : Task → Task) (s s' : Store) : Type 0 where
  pub old : Task
  pub was : lookup id s.tasks ≡ some old
  pub now : s'.tasks ≡ insert id (change old) s.tasks

abbrev pub Moves : Text → (Task → Task) → Store → Store → Type 0
Moves id change s s' = (s'.tasks ≡ s.tasks) ⊎ Changed id change s s'

commit_moves :
    (env : Env) (id : Text) (change : Task → Task) (t : Task) (s : Store)
    → lookup id s.tasks ≡ some t
    → let r = commit env.io id (stamped change t) s in
      ((r.0.tasks ≡ s.tasks) × (is_some r.1 ≡ true))
      ⊎ (Changed id (stamped change) s r.0 × (r.1 ≡ none))
unfolding commit
commit_moves env id change t s e =
    elim (Option-cases (write_task env.io (stamped change t) s.disk).1) [
      | inl done ↦ rw (done, commit) (inr (record { old = t; was = e; now = refl }, refl))
      | inr (x, failed) ↦ rw (failed, commit) (inl (refl, refl))
    ]

-- A call of update fails and moves no task, or changes the one task and succeeds.
pub update_moves :
    (env : Env) (id : Text) (change : Task → Task) (s : Store)
    → let r = update env id change s in
      ((r.0.tasks ≡ s.tasks) × (is_some r.1 ≡ true))
      ⊎ (Changed id (stamped change) s r.0 × (r.1 ≡ none))
unfolding update update_found
update_moves env id change s = elim (Bool-cases (is_safe_task_id id)) [
  | inr unsafe ↦ rw unsafe (inl (refl, refl))
  | inl safe ↦ elim (Option-cases (lookup id s.tasks)) [
    | inl e ↦ rw (safe, e) (inl (refl, refl))
    | inr (t, e) ↦ rw (safe, e) (commit_moves env id change t s e)
  ]
]

append_found-Moves :
    (io : LogIo) (id text : Text) (t : Task) (s : Store)
    → lookup id s.tasks ≡ some t
    → Moves id (grow (length text)) s (append_found io id text (some t) s).0
unfolding append_found
append_found-Moves io id text t s e =
    elim (Option-cases
      (Logs.append_files io s.log_max_bytes s.log_max_backups text (dir_at id s.disk).log).1) [
        | inl done ↦ rw (done, append_found) (inr (record { old = t; was = e; now = refl }))
        | inr (x, failed) ↦ rw (failed, append_found) (inl refl)
      ]

pub append_log-Moves :
    (io : LogIo) (id text : Text) (s : Store)
    → Moves id (grow (length text)) s (Logs.append_log io id text s).0
unfolding Logs.append_log append_found
append_log-Moves io id text s = elim (Option-cases (lookup id s.tasks)) [
  | inl e ↦ rw (Logs.append_log, e, append_found) (inl refl)
  | inr (t, e) ↦ rw (Logs.append_log, e) (append_found-Moves io id text t s e)
]

pub get_same : (id : Text) (s s' : Store) → s'.tasks ≡ s.tasks → get id s' ≡ get id s
unfolding get
get_same id s s' e = rw e refl

-- What is read of the task after a change.
pub get-Changed :
    {id : Text} {change : Task → Task} {s s' : Store}
    → (c : Changed id change s s') → is_safe_task_id id ≡ true
    → (get id s ≡ some c.old) × (get id s' ≡ some (change c.old))
unfolding get
get-Changed {id} {change} {s} {s'} c safe = (
  rw safe c.was,
  rw (safe, c.now, lookup-insert id id (change c.old) s.tasks, text_eq_refl id) refl,
)

-- A call on one id leaves the other tasks as they are.
pub Moves-other :
    {id : Text} {change : Task → Task} (j : Text) (s s' : Store)
    → Moves id change s s'
    → text_eq id j ≡ false
    → lookup j s'.tasks ≡ lookup j s.tasks
Moves-other j s s' (inl same) e = ap (lookup j) same
Moves-other {id} {change} j s s' (inr c) e =
    rw (c.now, lookup-insert id j (change c.old) s.tasks, e) refl

pub update_other :
    (env : Env) (id : Text) (change : Task → Task) (j : Text) (s : Store)
    → text_eq id j ≡ false
    → lookup j (update env id change s).0.tasks ≡ lookup j s.tasks
update_other env id change j s e = elim (update_moves env id change s) [
  | inl (same, k) ↦ ap (lookup j) same
  | inr (c, k) ↦ Moves-other j s _ (inr c) e
]
