-- ===== src/Store/Invariant.antt =====
-- When the tasks in memory and the documents on the disk are well formed (internal/app/store.go), and
-- the writes of writeTask, update and Add.
use ctf_agent.Base.{◌&&◌, sym, subst, inl, inr, Option, none, some, Bool-cases, Option-cases}
use ctf_agent.Disk.{
  Disk, Dir, Doc, document, foreign, malformed, WriteIo, write_task, write_main, write_backup,
  dir_at, is_json,
}
use ctf_agent.Disk.Atomic.{Fault, write_file, write_file_cases}
use ctf_agent.Errors.{Err}
use ctf_agent.Map.{lookup, Entries, lookup-Entries, insert-Entries}
use ctf_agent.Names.{is_safe_task_id}
use ctf_agent.Store.{Store, Env, commit, add, update, update_found, write_in_place}
use ctf_agent.Store.WellFormed.{WellFormed, Keeps, stamp-WellFormed}
use ctf_agent.Task.{Task}
use ctf_agent.Text.{Text}

abbrev pub DocOk : Text → Doc → Type 0
DocOk id (document t) = WellFormed id t
DocOk id foreign = Unit
DocOk id malformed = Unit

abbrev pub OptionDocOk : Text → Option Doc → Type 0
OptionDocOk id none = Unit
OptionDocOk id (some doc) = DocOk id doc

pub record DirOk (id : Text) (dir : Dir) : Type 0 where
  pub meta : OptionDocOk id dir.meta
  pub backup : OptionDocOk id dir.backup

abbrev pub DiskOk : Disk → Type 0
DiskOk = Entries DirOk

pub record StoreOk (s : Store) : Type 0 where
  pub tasks : Entries WellFormed s.tasks
  pub disk : DiskOk s.disk

pub dir_at-DirOk : (id : Text) (disk : Disk) → DiskOk disk → DirOk id (dir_at id disk)
unfolding dir_at
dir_at-DirOk id disk h = elim (Option-cases (lookup id disk)) [
  | inl e ↦ rw (e, dir_at) (record { meta = tt; backup = tt })
  | inr (d, e) ↦ rw (e, dir_at) (lookup-Entries DirOk id disk h e)
]

-- A file is replaced by a good document or left as it was.
pub write_file-OptionDocOk :
    (id : Text) (fault : Fault) (doc : Doc) (old : Option Doc)
    → DocOk id doc
    → OptionDocOk id old
    → OptionDocOk id (write_file fault doc old).0
write_file-OptionDocOk id fault doc old h k = elim (write_file_cases fault doc old).0 [
  | inl same ↦ subst (OptionDocOk id) (sym same) k
  | inr new ↦ subst (OptionDocOk id) (sym new) h
]

write_backup-DirOk :
    (id : Text) (io : WriteIo) (current : Option Doc) (dir : Dir)
    → OptionDocOk id current
    → DirOk id dir
    → DirOk id (write_backup io current dir).0
unfolding write_backup
write_backup-DirOk id io none dir h d = d
write_backup-DirOk id io (some current) dir h d =
    elim (Bool-cases (io.reads_meta && is_json current)) [
      | inl e ↦
          rw (e, write_backup)
            (record {
              meta = d.meta;
              backup = write_file-OptionDocOk id io.backup current dir.backup h d.backup;
            })
      | inr e ↦ rw (e, write_backup) d
    ]

write_main-DirOk :
    (id : Text) (io : WriteIo) (t : Task) (r : Dir × Option Err)
    → WellFormed id t
    → DirOk id r.0
    → DirOk id (write_main io t r).0
unfolding write_main
write_main-DirOk id io t (dir, none) w d = record {
  meta = write_file-OptionDocOk id io.main (document t) dir.meta w d.meta;
  backup = d.backup;
}
write_main-DirOk id io t (dir, some e) w d = d

pub own_key : {id : Text} {t : Task} → WellFormed id t → WellFormed t.id t
own_key {t = t} w = subst (λ i. WellFormed i t) (sym w.keyed) w

write_task_own :
    (io : WriteIo) (t : Task) (disk : Disk)
    → WellFormed t.id t
    → DiskOk disk
    → DiskOk (write_task io t disk).0
unfolding write_task
write_task_own io t disk w h = elim (Option-cases io.make_dir) [
  | inr (text, e) ↦ rw (w.safe, e, write_task) h
  | inl e ↦
      let d = dir_at-DirOk t.id disk h in
      rw (w.safe, e, write_task)
        (insert-Entries DirOk t.id _ disk h
          (write_main-DirOk t.id io t _ w (write_backup-DirOk t.id io _ _ d.meta d)))
]

pub write_task-DiskOk :
    {id : Text} (io : WriteIo) (t : Task) (disk : Disk)
    → WellFormed id t
    → DiskOk disk
    → DiskOk (write_task io t disk).0
write_task-DiskOk io t disk w = write_task_own io t disk (own_key w)

pub commit-StoreOk :
    (io : WriteIo) (id : Text) (copy : Task) (s : Store)
    → WellFormed id copy
    → StoreOk s
    → StoreOk (commit io id copy s).0
unfolding commit
commit-StoreOk io id copy s w h =
    let disk = write_task-DiskOk io copy s.disk w h.disk in
    elim (Option-cases (write_task io copy s.disk).1) [
      | inl e ↦
          rw (e, commit)
            (record { tasks = insert-Entries WellFormed id copy s.tasks h.tasks w; disk = disk })
      | inr (x, e) ↦ rw (e, commit) (record { tasks = h.tasks; disk = disk })
    ]

pub write_in_place-StoreOk :
    (io : WriteIo) (id : Text) (t : Task) (s : Store)
    → WellFormed id t
    → StoreOk s
    → StoreOk (write_in_place io id t s).0
unfolding write_in_place
write_in_place-StoreOk io id t s w h = record {
  tasks = insert-Entries WellFormed id t s.tasks h.tasks w;
  disk = write_task-DiskOk io t s.disk w h.disk;
}

pub update-StoreOk :
    (env : Env) (id : Text) (change : Task → Task) (s : Store)
    → Keeps change
    → StoreOk s
    → StoreOk (update env id change s).0
unfolding update
update-StoreOk env id change s k h = elim (Bool-cases (is_safe_task_id id)) [
  | inr unsafe ↦ rw (unsafe, update) h
  | inl safe ↦ elim (Option-cases (lookup id s.tasks)) [
    | inl e ↦ rw (safe, e, update, update_found) h
    | inr (t, e) ↦
        rw (safe, e, update, update_found)
          (commit-StoreOk env.io id _ s
            (stamp-WellFormed (change t) (k.at t (lookup-Entries WellFormed id s.tasks h.tasks e)))
            h)
  ]
]

-- Store.Add of a task that is well formed.
pub add-StoreOk :
    (env : Env) (t : Task) (s : Store)
    → WellFormed t.id t
    → StoreOk s
    → StoreOk (add env (some t) s).0
unfolding add
add-StoreOk env t s w h = rw (w.safe, add) (commit-StoreOk env.io t.id _ s (stamp-WellFormed t w) h)
