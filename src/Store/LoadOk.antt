-- ===== src/Store/LoadOk.antt =====
-- Loading and the invariant of the store (internal/app/store.go).
use ctf_agent.Base.{
  ◌≡◌, refl, ◌⊎◌, inl, inr, not, ◌||◌, Option, none, some, [], ◌∷◌, arith, Bool-cases, Option-cases,
}
use ctf_agent.Base.Int.{is_zero, is_above}
use ctf_agent.Disk.{
  Disk, Dir, Doc, document, foreign, malformed, ReadIo, read_backup, read_doc, read_meta, migrated,
  migrate, validate, settle_flag, complete, finish_read, check_read, read_task, current_task_schema,
}
use ctf_agent.Disk.Atomic.{write_file}
use ctf_agent.Errors.{Err, Result, ok, err}
use ctf_agent.Map.{Map, Entries, insert-Entries}
use ctf_agent.Store.{Store}
use ctf_agent.Store.Invariant.{OptionDocOk, DirOk, DiskOk, StoreOk, write_file-OptionDocOk, own_key}
use ctf_agent.Store.Load.{put_result, load_dirs, load}
use ctf_agent.Store.WellFormed.{WellFormed, stamp-WellFormed}
use ctf_agent.Task.{Task}
use ctf_agent.Text.{Text, is_empty, text_eq}
use ctf_agent.Names.{is_safe_task_id}

-- encoding/json reads a well-formed task from the document of one.
abbrev pub Decodes : ReadIo → Type 0
Decodes io = (id : Text) (t : Task) → WellFormed id t → WellFormed id (io.decode t)

-- A result of reading: a good directory, and a good task if there is one.
abbrev ResultOk : Text → Result Task → Type 0
ResultOk id (ok t) = WellFormed id t
ResultOk id (err e) = Unit

record ReadOk (id : Text) (r : Dir × Result Task) : Type 0 where
  dir : DirOk id r.0
  result : ResultOk id r.1

ok_unless :
    (id : Text) (t : Task) (e : Option Err)
    → WellFormed id t
    → ResultOk id (elim e [ none ↦ ok t | some x ↦ err x ])
ok_unless id t none w = w
ok_unless id t (some x) w = tt

read_backup-ReadOk :
    (io : ReadIo) (id : Text) (doc : Option Doc) (dir : Dir)
    → Decodes io
    → OptionDocOk id doc
    → DirOk id dir
    → ReadOk id (read_backup io doc dir)
unfolding read_backup
read_backup-ReadOk io id none dir c k d = record { dir = d; result = tt }
read_backup-ReadOk io id (some foreign) dir c k d = record { dir = d; result = tt }
read_backup-ReadOk io id (some malformed) dir c k d = record { dir = d; result = tt }
read_backup-ReadOk io id (some (document t)) dir c k d = elim (Bool-cases io.reads_backup) [
  | inl e ↦
      rw (e, read_backup)
        (record {
          dir = record {
            meta = write_file-OptionDocOk id io.restore (document t) dir.meta k d.meta;
            backup = d.backup;
          };
          result =
              ok_unless id (io.decode t) (write_file io.restore (document t) dir.meta).1 (c id t k);
        })
  | inr e ↦ rw (e, read_backup) (record { dir = d; result = tt })
]

read_doc-ReadOk :
    (io : ReadIo) (id : Text) (doc : Doc) (dir : Dir)
    → Decodes io
    → OptionDocOk id (some doc)
    → DirOk id dir
    → ReadOk id (read_doc io doc dir)
read_doc-ReadOk io id (document t) dir c k d = record { dir = d; result = c id t k }
read_doc-ReadOk io id foreign dir c k d = read_backup-ReadOk io id dir.backup dir c d.backup d
read_doc-ReadOk io id malformed dir c k d = read_backup-ReadOk io id dir.backup dir c d.backup d

read_meta-ReadOk :
    (io : ReadIo) (id : Text) (doc : Option Doc) (dir : Dir)
    → Decodes io
    → OptionDocOk id doc
    → DirOk id dir
    → ReadOk id (read_meta io doc dir)
unfolding read_meta
read_meta-ReadOk io id none dir c k d = record { dir = d; result = tt }
read_meta-ReadOk io id (some doc) dir c k d = elim (Option-cases io.unreadable) [
  | inl e ↦ rw (e, read_meta) (read_doc-ReadOk io id doc dir c k d)
  | inr (text, e) ↦ rw (e, read_meta) (record { dir = d; result = tt })
]

migrated-ReadOk :
    (io : ReadIo) (id : Text) (t : Task) (dir : Dir)
    → WellFormed id t
    → DirOk id dir
    → ReadOk id (migrated io t dir)
unfolding migrated
migrated-ReadOk io id t dir w d = record {
  dir = record {
    meta = write_file-OptionDocOk id io.migrate (document t) dir.meta w d.meta;
    backup = d.backup;
  };
  result = ok_unless id t (write_file io.migrate (document t) dir.meta).1 w;
}

migrate-ReadOk :
    (io : ReadIo) (id : Text) (t : Task) (dir : Dir)
    → WellFormed id t
    → DirOk id dir
    → ReadOk id (migrate io t dir)
unfolding migrate
migrate-ReadOk io id t dir w d = elim (Bool-cases (is_zero t.schema_version)) [
  | inr newer ↦ rw (newer, migrate) (record { dir = d; result = w })
  | inl old ↦ rw (old, migrate) (migrated-ReadOk io id _ dir (stamp-WellFormed t w) d)
]

settle_flag-WellFormed :
    (id : Text) (flag : Option Text) (t : Task)
    → t.flag ≡ flag
    → WellFormed id t
    → WellFormed id (settle_flag flag t)
unfolding settle_flag
settle_flag-WellFormed id none t e w = w
settle_flag-WellFormed id (some flag) t e w = ground arith

finish_read-ReadOk :
    (id root : Text) (r : Dir × Result Task) → ReadOk id r → ReadOk id (finish_read root r)
unfolding finish_read complete
finish_read-ReadOk id root (dir, ok t) k = record {
  dir = k.dir;
  result = settle_flag-WellFormed id t.flag _ refl (ground (arith, k.result));
}
finish_read-ReadOk id root (dir, err e) k = record { dir = k.dir; result = tt }

validate_same :
    (id : Text) (t : Task) → (validate id t ≡ ok t) ⊎ ((e : Err) × (validate id t ≡ err e))
unfolding validate
validate_same id t = elim (Bool-cases (is_empty t.id)) [
  | inl a ↦ rw (a, validate) (inr (_, refl))
  | inr a ↦ elim (Bool-cases (not (is_safe_task_id t.id) || not (text_eq t.id id))) [
    | inl b ↦ rw (a, b, validate) (inr (_, refl))
    | inr b ↦ elim (Bool-cases (is_above t.schema_version current_task_schema)) [
      | inl c ↦ rw (a, b, c, validate) (inr (_, refl))
      | inr c ↦ rw (a, b, c, validate) (inl refl)
    ]
  ]
]

check_read-ReadOk :
    (io : ReadIo) (root id : Text) (r : Dir × Result Task)
    → ReadOk id r
    → ReadOk id (check_read io root id r)
unfolding check_read
check_read-ReadOk io root id (dir, err e) k = record { dir = k.dir; result = tt }
check_read-ReadOk io root id (dir, ok t) k = elim (validate_same id t) [
  | inr (e, rejected) ↦ rw (rejected, check_read) (record { dir = k.dir; result = tt })
  | inl accepted ↦
      rw (accepted, check_read)
        (finish_read-ReadOk id root _ (migrate-ReadOk io id t dir k.result k.dir))
]

read_task-ReadOk :
    (io : ReadIo) (root id : Text) (dir : Dir)
    → Decodes io
    → DirOk id dir
    → ReadOk id (read_task io root id dir)
unfolding read_task
read_task-ReadOk io root id dir c d =
    check_read-ReadOk io root id _ (read_meta-ReadOk io id dir.meta dir c d.meta d)

put_result-Entries :
    (id : Text) (r : Result Task) (tasks : Map Task)
    → ResultOk id r
    → Entries WellFormed tasks
    → Entries WellFormed (put_result r tasks)
put_result-Entries id (ok t) tasks w h = insert-Entries WellFormed t.id t tasks h (own_key w)
put_result-Entries id (err e) tasks w h = h

load_dirs-Entries :
    (io : Text → ReadIo) (root : Text) (disk : Disk) (tasks : Map Task)
    → ((name : Text) → Decodes (io name))
    → DiskOk disk
    → Entries WellFormed tasks
    → Entries WellFormed (load_dirs io root disk tasks).0 × DiskOk (load_dirs io root disk tasks).1
unfolding load_dirs
load_dirs-Entries io root [] tasks c d h = (h, tt)
load_dirs-Entries io root ((name, dir) ∷ rest) tasks c d h =
    let r = read_task-ReadOk (io name) root name dir (c name) d.0 in
    let more =
      load_dirs-Entries io root rest (put_result (read_task (io name) root name dir).1 tasks) c d.1
        (put_result-Entries name (read_task (io name) root name dir).1 tasks r.result h) in
    (more.0, (r.dir, more.1))

-- Loading the data directory of a well-formed store keeps the tasks in memory and the documents on
-- the disk well formed, whatever the system answers, where encoding/json reads well-formed tasks.
pub load-StoreOk :
    (read_dir : Option Text) (io : Text → ReadIo) (s : Store)
    → ((name : Text) → Decodes (io name))
    → StoreOk s
    → StoreOk (load read_dir io s).0
unfolding load
load-StoreOk (some text) io s c h = h
load-StoreOk none io s c h =
    let r = load_dirs-Entries io s.root s.disk [] c h.disk tt in record { tasks = r.0; disk = r.1 }
