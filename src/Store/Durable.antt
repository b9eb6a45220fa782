-- ===== src/Store/Durable.antt =====
-- The task on the disk after a change (internal/app/store.go).
pub mod Written
pub mod Completion
use ctf_agent.Store.Durable.Completion.{Restored, complete-Restored}
use ctf_agent.Base.{
  ◌≡◌, refl, sym, ap, ◌∙◌, subst, ◌⊎◌, inl, inr, true, false, Option, none, some, [], ◌∷◌, arith,
  Bool-cases, Option-cases, ℕ, length, is_some, if◌then◌else◌,
}
use ctf_agent.Base.Int.{pos}
use ctf_agent.Disk.{
  Disk, Dir, Doc, document, WriteIo, ReadIo, write_task, write_main, write_backup, write_meta,
  or_empty, dir_at, read_meta, migrate, validate, complete, finish_read, check_read, read_task,
  current_task_schema, attachments_path, settle_flag, log_size_or, read_doc,
}
use ctf_agent.Disk.Atomic.{write_file_cases}
use ctf_agent.Errors.{Err, Result, ok, err, system}
use ctf_agent.Map.{Map, lookup, insert, lookup-insert}
use ctf_agent.Names.{is_safe_task_id}
use ctf_agent.Names.Safety.{is_safe_task_id_iff}
use ctf_agent.Store.Durable.Written.{lookup-insert_self, write_task_OldOrNew, write_task_done}
use ctf_agent.Store.Invariant.{StoreOk}
use ctf_agent.Store.WellFormed.{WellFormed, Keeps}
use ctf_agent.Map.{lookup-Entries}
use ctf_agent.Store.{Store, Env, commit, update, update_found}
use ctf_agent.Task.{Task, solved, is_solved}
use ctf_agent.Text.{Text, is_empty, text_eq_refl}

read_meta_document :
    (io : ReadIo) (t : Task) (dir : Dir) (meta : Option Doc)
    → io.unreadable ≡ none
    → io.decode t ≡ t
    → meta ≡ some (document t)
    → read_meta io meta dir ≡ (dir, ok t)
unfolding read_meta
read_meta_document io t dir meta readable same e =
    ap (λ m. read_meta io m dir) e
    ∙ ap
        (λ u. elim u as (λ x. Dir × Result Task) [
          | some text ↦ (dir, err (system text))
          | none ↦ read_doc io (document t) dir
        ])
        readable
    ∙ ap (λ x. (dir, ok x)) same

safe_nonempty : (id : Text) → is_safe_task_id id ≡ true → is_empty id ≡ false
safe_nonempty [] h = absurd (((is_safe_task_id_iff []).0 h).0 refl)
safe_nonempty (c ∷ id) h = refl

migrate_current :
    (io : ReadIo) (t : Task) (dir : Dir)
    → t.schema_version ≡ pos current_task_schema
    → migrate io t dir ≡ (dir, ok t)
unfolding migrate
migrate_current io t dir h = ground arith

validated :
    (t : Task)
    → is_safe_task_id t.id ≡ true
    → t.schema_version ≡ pos current_task_schema
    → validate t.id t ≡ ok t
unfolding validate
validated t safe schema = ground (arith, text_eq_refl t.id, safe_nonempty t.id)

check_read_current :
    (io : ReadIo) (root : Text) (t : Task) (dir : Dir)
    → is_safe_task_id t.id ≡ true
    → t.schema_version ≡ pos current_task_schema
    → check_read io root t.id (dir, ok t) ≡ (dir, ok (complete root dir t))
unfolding check_read finish_read
check_read_current io root t dir safe schema =
    rw (validated t safe schema, check_read)
      (ap (finish_read root) (migrate_current io t dir schema))

-- A document of this schema under its own id is read as it stands, and completed.
read_current :
    (io : ReadIo) (root : Text) (t : Task) (dir : Dir)
    → io.unreadable ≡ none
    → io.decode t ≡ t
    → is_safe_task_id t.id ≡ true
    → t.schema_version ≡ pos current_task_schema
    → dir.meta ≡ some (document t)
    → read_task io root t.id dir ≡ (dir, ok (complete root dir t))
unfolding read_task
read_current io root t dir readable decodes safe schema meta =
    ap (check_read io root t.id) (read_meta_document io t dir dir.meta readable decodes meta)
    ∙ check_read_current io root t dir safe schema

-- Memory holds the task under the id, and reading its directory gives it back.
abbrev pub Restarts : ReadIo → Text → Store → Text → Task → Type 0
Restarts io root s id t =
    (lookup id s.tasks ≡ some t)
    × ((r : Task) × (read_task io root id (dir_at id s.disk) ≡ (dir_at id s.disk, ok r))
        × Restored root (dir_at id s.disk) t r)

commit-Restarts :
    (answers : ReadIo) (root : Text) (io : WriteIo) (id : Text) (copy : Task) (s : Store)
    → answers.unreadable ≡ none
    → answers.decode copy ≡ copy
    → copy.id ≡ id
    → copy.schema_version ≡ pos current_task_schema
    → (commit io id copy s).1 ≡ none
    → Restarts answers root (commit io id copy s).0 id copy
unfolding commit
commit-Restarts answers root io id copy s readable decodes key schema h =
    elim (Option-cases (write_task io copy s.disk).1) [
      | inr (x, e) ↦ absurd (ground arith)
      | inl e ↦
          let (safe, stored) = write_task_done io copy s.disk e in
          let (disk, _) = write_task io copy s.disk in
          rw (e, commit)
            (
              lookup-insert_self id copy s.tasks,
              (
                complete root (dir_at id disk) copy,
                subst
                    (λ k.
                      read_task answers root k (dir_at k disk)
                      ≡ (dir_at k disk, ok (complete root (dir_at k disk) copy)))
                    key
                    (read_current answers root copy (dir_at copy.id disk) readable decodes safe
                      schema stored),
                complete-Restored root (dir_at id disk) copy,
              ),
            )
    ]

abbrev pub stamped : (Task → Task) → Task → Task
stamped change t = record (change t) { schema_version = pos current_task_schema }

-- An update is refused with the store as it was, or commits the changed task.
pub update_cases :
    (env : Env) (id : Text) (change : Task → Task) (s : Store)
    → ((e : Err) × (update env id change s ≡ (s, some e)))
      ⊎ ((t : Task) × (lookup id s.tasks ≡ some t)
          × (update env id change s ≡ commit env.io id (stamped change t) s))
unfolding update update_found
update_cases env id change s = elim (Bool-cases (is_safe_task_id id)) [
  | inr unsafe ↦ rw (unsafe, update) (inl (_, refl))
  | inl safe ↦ elim (Option-cases (lookup id s.tasks)) [
    | inl e ↦ rw (safe, e, update, update_found) (inl (_, refl))
    | inr (t, e) ↦ inr (t, e, rw (safe, e, update, update_found))
  ]
]

-- In a well-formed store, a change that keeps tasks well formed and that Store.update accepts
-- survives a restart: memory holds the changed task, stamped with the schema, and where meta.json can
-- be read and encoding/json reads back what it wrote, readTask of its directory gives this task
-- again. Only an empty attachments path is then filled in, the log size is that of logs.txt if it is
-- there, and a task that has a flag and is not solved becomes solved, with no error and no kept
-- container.
pub update-Restarts :
    (env : Env) (io : ReadIo) (root id : Text) (change : Task → Task) (s : Store) (t : Task)
    → Keeps change
    → StoreOk s
    → lookup id s.tasks ≡ some t
    → (update env id change s).1 ≡ none
    → io.unreadable ≡ none
    → io.decode (stamped change t) ≡ stamped change t
    → Restarts io root (update env id change s).0 id (stamped change t)
update-Restarts env io root id change s t k h there done readable decodes =
    elim (update_cases env id change s) [
      | inl (e, refused) ↦ absurd (cc)
      | inr (u, e, same) ↦
          let key = (k.at t (lookup-Entries WellFormed id s.tasks h.tasks there)).keyed in
          let own : u ≡ t = cc in
          let same' = same ∙ ap (λ x. commit env.io id (stamped change x) s) own in
          rw same' (
            commit-Restarts io root env.io id (stamped change t) s readable decodes key refl
              (sym (ap (λ r. r.1) same') ∙ done))
    ]

commit_failed :
    (io : WriteIo) (id : Text) (copy : Task) (s : Store) (x : Err)
    → (commit io id copy s).1 ≡ some x
    → (commit io id copy s).0 ≡ record s { disk = (write_task io copy s.disk).0 }
unfolding commit
commit_failed io id copy s x h = elim (Option-cases (write_task io copy s.disk).1) [
  | inl e ↦ absurd (ground arith)
  | inr (y, e) ↦ rw (e, commit)
]

-- In a well-formed store, where a change keeps tasks well formed and Store.update reports it as
-- failed, it leaves every task in memory as it was, and the
-- meta.json of the task holds what it held before or the whole new document, never a part of it.
pub update_failed :
    (env : Env) (id : Text) (change : Task → Task) (s : Store) (x : Err)
    → Keeps change
    → StoreOk s
    → (update env id change s).1 ≡ some x
    → let s' = (update env id change s).0 in
      (s'.tasks ≡ s.tasks)
      × (((dir_at id s'.disk).meta ≡ (dir_at id s.disk).meta)
          ⊎ ((t : Task) × (lookup id s.tasks ≡ some t)
              × ((dir_at id s'.disk).meta
                  ≡ some
                      (document (record (change t) { schema_version = pos current_task_schema })))))
update_failed env id change s x k h fails = elim (update_cases env id change s) [
  | inl (e, refused) ↦ rw refused (refl, inl refl)
  | inr (t, e, same) ↦
      let key = (k.at t (lookup-Entries WellFormed id s.tasks h.tasks e)).keyed in
      let unwritten =
        commit_failed env.io id (stamped change t) s x (sym (ap (λ r. r.1) same) ∙ fails) in
      let left =
        subst
          (λ i.
            ((dir_at i (write_task env.io (stamped change t) s.disk).0).meta
              ≡ (dir_at i s.disk).meta)
            ⊎ ((dir_at i (write_task env.io (stamped change t) s.disk).0).meta
                ≡ some (document (stamped change t))))
          key (write_task_OldOrNew env.io (stamped change t) s.disk) in
      rw (same, unwritten) (refl, elim left [ inl old ↦ inl old | inr new ↦ inr (t, e, new) ])
]
