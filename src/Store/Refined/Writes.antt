-- ===== src/Store/Refined/Writes.antt =====
-- Store.update and Store.Add (internal/app/store.go) against the map that the store's clients see.
use ctf_agent.Base.{
  ◌≡◌, refl, sym, ap, ◌∙◌, subst, ◌⊎◌, inl, inr, false, Option, none, some, Bool-cases,
  Option-cases,
}
use ctf_agent.Base.Int.{pos}
use ctf_agent.Disk.{WriteIo, write_task, current_task_schema}
use ctf_agent.Errors.{Err}
use ctf_agent.Map.{lookup, insert, lookup-insert}
use ctf_agent.Names.{is_safe_task_id}
use ctf_agent.Store.{Store, Env, commit, add, update}
use ctf_agent.Store.Refined.{view, put, target, intent, needs_task, Step, refused, done}
use ctf_agent.Store.Durable.{stamped, update_cases}
use ctf_agent.Store.History.{Call, adds}
use ctf_agent.Task.{Task}
use ctf_agent.Text.{Text}

-- What a method did to the tasks in memory: nothing, with an error, or it put `new` under `id`.
abbrev Wrote : Text → Task → Store → Store × Option Err → Type 0
Wrote id new s r =
    ((r.1 ≡ none) × (r.0.tasks ≡ insert id new s.tasks))
    ⊎ ((e : Err) × (r.1 ≡ some e) × (r.0.tasks ≡ s.tasks))

commit-Wrote :
    (io : WriteIo) (id : Text) (new : Task) (s : Store) → Wrote id new s (commit io id new s)
unfolding commit
commit-Wrote io id new s = elim (Option-cases (write_task io new s.disk).1) [
  | inl e ↦ rw (e, commit) (inl (refl, refl))
  | inr (x, e) ↦ rw (e, commit) (inr (x, refl, refl))
]

pub shown_same : (s s' : Store) → s'.tasks ≡ s.tasks → (id : Text) → view s' id ≡ view s id
shown_same s s' same id = ap (lookup id) same

pub shown_put :
    (k : Text) (new : Task) (s s' : Store)
    → s'.tasks ≡ insert k new s.tasks
    → (id : Text) → view s' id ≡ put k new (view s) id
shown_put k new s s' same id = ap (lookup id) same ∙ lookup-insert k id new s.tasks

Wrote-Step :
    (c : Call) (old : Task) (s : Store) (r : Store × Option Err)
    → (view s (target c) ≡ some old) ⊎ (needs_task c ≡ false)
    → Wrote (target c) (intent c old) s r
    → Step (view s) c r.1 (view r.0)
Wrote-Step c old s r there wrote = elim wrote [
  | inl (e, same) ↦
      subst (λ x. Step (view s) c x (view r.0)) (sym e)
        (done old there (shown_put (target c) (intent c old) s r.0 same))
  | inr (x, e, same) ↦
      subst (λ x. Step (view s) c x (view r.0)) (sym e) (refused x (shown_same s r.0 same))
]

pub update-Step :
    (c : Call) (env : Env) (change : Task → Task) (s : Store)
    → ((old : Task) → intent c old ≡ stamped change old)
    → let r = update env (target c) change s in Step (view s) c r.1 (view r.0)
update-Step c env change s means = elim (update_cases env (target c) change s) [
  | inl (e, same) ↦ rw same (refused e (λ id. refl))
  | inr (old, there, same) ↦ rw same (
      Wrote-Step c old s (commit env.io (target c) (stamped change old) s) (inl there) (
        subst (λ t. Wrote (target c) t s (commit env.io (target c) (stamped change old) s))
          (sym (means old)) (commit-Wrote env.io (target c) (stamped change old) s)))
]

pub add-Step :
    (env : Env) (t : Task) (s : Store)
    → let r = add env (some t) s in Step (view s) (adds env t) r.1 (view r.0)
unfolding add
add-Step env t s = elim (Bool-cases (is_safe_task_id t.id)) [
  | inr unsafe ↦ rw (unsafe, add) (refused _ (λ id. refl))
  | inl safe ↦
      rw (safe, add)
        (Wrote-Step (adds env t) t s
          (commit env.io t.id (record t { schema_version = pos current_task_schema }) s) (inr refl)
          (commit-Wrote env.io t.id (record t { schema_version = pos current_task_schema }) s))
]
