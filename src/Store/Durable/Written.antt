-- ===== src/Store/Durable/Written.antt =====
-- What writeTask leaves on the disk, and what readTask makes of it again (internal/app/store.go).
use ctf_agent.Base.{
  ◌≡◌, refl, sym, ap, ◌∙◌, ◌⊎◌, inl, inr, true, Option, none, some, arith, Bool-cases, Option-cases,
}
use ctf_agent.Disk.{
  Disk, Dir, Doc, document, WriteIo, write_task, write_main, write_backup, write_meta, or_empty,
  dir_at,
}
use ctf_agent.Disk.Atomic.{write_file_cases}
use ctf_agent.Errors.{Err}
use ctf_agent.Map.{Map, lookup, insert, lookup-insert}
use ctf_agent.Names.{is_safe_task_id}
use ctf_agent.Task.{Task}
use ctf_agent.Text.{Text, text_eq_refl}

pub lookup-insert_self {ℓ} :
    {V : Type ℓ} (k : Text) (v : V) (m : Map V) → lookup k (insert k v m) ≡ some v
lookup-insert_self k v m = rw (lookup-insert k k v m, text_eq_refl k)

write_main_done :
    (io : WriteIo) (t : Task) (r : Dir × Option Err)
    → (write_main io t r).1 ≡ none
    → (write_main io t r).0.meta ≡ some (document t)
unfolding write_main
write_main_done io t (dir, none) h = (write_file_cases io.main (document t) dir.meta).1 h
write_main_done io t (dir, some e) h = absurd (cc)

write_main_OldOrNew :
    (io : WriteIo) (t : Task) (old : Option Doc) (r : Dir × Option Err)
    → r.0.meta ≡ old
    → ((write_main io t r).0.meta ≡ old) ⊎ ((write_main io t r).0.meta ≡ some (document t))
unfolding write_main
write_main_OldOrNew io t old (dir, some e) h = inl h
write_main_OldOrNew io t old (dir, none) h =
    elim (write_file_cases io.main (document t) dir.meta).0 [
      | inl same ↦ inl (same ∙ h)
      | inr new ↦ inr new
    ]

write_backup_meta :
    (io : WriteIo) (c : Option Doc) (dir : Dir) → (write_backup io c dir).0.meta ≡ dir.meta
unfolding write_backup
write_backup_meta io none dir = refl
write_backup_meta io (some current) dir = ground arith

write_meta_OldOrNew :
    (io : WriteIo) (t : Task) (dir : Dir)
    → ((write_meta io t dir).0.meta ≡ dir.meta) ⊎ ((write_meta io t dir).0.meta ≡ some (document t))
unfolding write_meta
write_meta_OldOrNew io t dir =
    write_main_OldOrNew io t dir.meta _ (write_backup_meta io dir.meta dir)

dir_at-insert : (id : Text) (dir : Dir) (disk : Disk) → dir_at id (insert id dir disk) ≡ dir
unfolding dir_at
dir_at-insert id dir disk = ap or_empty (lookup-insert_self id dir disk)

-- A write of a task under a safe id whose directory could be made.
write_task_eq :
    (io : WriteIo) (t : Task) (disk : Disk)
    → is_safe_task_id t.id ≡ true
    → io.make_dir ≡ none
    → let r = write_meta io t (dir_at t.id disk) in
      write_task io t disk ≡ (insert t.id r.0 disk, r.1)
unfolding write_task
write_task_eq io t disk safe e = rw (safe, e, write_task)

-- Whatever the system answers, a write leaves in meta.json what was there or the new document.
pub write_task_OldOrNew :
    (io : WriteIo) (t : Task) (disk : Disk)
    → ((dir_at t.id (write_task io t disk).0).meta ≡ (dir_at t.id disk).meta)
      ⊎ ((dir_at t.id (write_task io t disk).0).meta ≡ some (document t))
unfolding write_task
write_task_OldOrNew io t disk = elim (Bool-cases (is_safe_task_id t.id)) [
  | inr unsafe ↦ rw (unsafe, write_task) (inl refl)
  | inl safe ↦ elim (Option-cases io.make_dir) [
    | inr (text, e) ↦ rw (safe, e, write_task) (inl refl)
    | inl e ↦
        rw (safe, e, write_task)
          (rw (dir_at-insert t.id (write_meta io t (dir_at t.id disk)).0 disk)
            (write_meta_OldOrNew io t (dir_at t.id disk)))
  ]
]

pub write_task_done :
    (io : WriteIo) (t : Task) (disk : Disk)
    → (write_task io t disk).1 ≡ none
    → (is_safe_task_id t.id ≡ true)
      × ((dir_at t.id (write_task io t disk).0).meta ≡ some (document t))
unfolding write_task
write_task_done io t disk h = elim (Bool-cases (is_safe_task_id t.id)) [
  | inr unsafe ↦ absurd (ground arith)
  | inl safe ↦ elim (Option-cases io.make_dir) [
    | inr (text, e) ↦ absurd (ground arith)
    | inl e ↦
        let same = write_task_eq io t disk safe e in
        (
          safe,
          ap (λ r. (dir_at t.id r.0).meta) same
              ∙ ap (λ d. d.meta) (dir_at-insert t.id _ disk)
              ∙ write_main_done io t _ (sym (ap (λ r. r.1) same) ∙ h),
        )
  ]
]
