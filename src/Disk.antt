-- ===== src/Disk.antt =====
-- The files of the data directory (internal/app/store.go): for each task a directory with meta.json,
-- its backup, the log with its archives, and writeups; writeTask and readTask.
-- A meta.json is the document that encoding/json writes for a task, another valid JSON text that is
-- no task, or a text that is no JSON. What encoding/json reads from the document of a task is an
-- argument, `decode`: it gives the task back where its texts are valid UTF-8.
pub mod Atomic
pub mod Files
use ctf_agent.Base.{
  ℕ, zero, suc, ◌+◌, Bool, true, false, not, ◌&&◌, ◌||◌, Option, none, some, [], ◌∷◌, ◌++◌, length,
  ◌==◌, if◌then◌else◌,
}
use ctf_agent.Base.Int.{ℤ, pos, is_zero, is_above}
use ctf_agent.Errors.{
  Err, invalid_task_id, missing_task_id, unsupported_schema, not_exist, system, Result, ok, err,
}
use ctf_agent.Text.{Text, utf8, text_eq, is_empty}
use ctf_agent.Map.{Map, lookup, insert}
use ctf_agent.Names.{slash, is_safe_task_id}
use ctf_agent.Task.{Task, TaskStatus, solved, is_solved}
use Atomic.{Fault, write_file}

pub data Doc : Type 0 where
  document : Task → Doc
  foreign malformed : Doc

-- json.Valid
abbrev pub is_json : Doc → Bool
is_json (document t) = true
is_json foreign = true
is_json malformed = false

-- logs.txt, and logs.txt.1, logs.txt.2, … by their numbers.
pub record LogFiles : Type 0 where
  pub current : Option Text
  pub archived : ℕ → Option Text

pub record Dir : Type 0 where
  pub meta : Option Doc
  pub backup : Option Doc
  pub log : LogFiles
  pub files : Map Text

abbrev pub Disk : Type 0
Disk = Map Dir

abbrev pub empty_dir : Dir
empty_dir = record {
  meta = none;
  backup = none;
  log = record { current = none; archived = λ _. none };
  files = [];
}

abbrev pub or_empty : Option Dir → Dir
or_empty none = empty_dir
or_empty (some d) = d

unfoldable pub dir_at : Text → Disk → Dir
dir_at id disk = or_empty (lookup id disk)

-- What the system answers to the calls of one writeTask; `reads_meta` tells whether meta.json, if it
-- is there, can be read.
pub record WriteIo : Type 0 where
  pub make_dir : Option Text
  pub reads_meta : Bool
  pub backup : Fault
  pub main : Fault

abbrev pub current_task_schema : ℕ
current_task_schema = 1

-- The main write of writeTask, after a backup that returned `e`.
unfoldable pub write_main : WriteIo → Task → Dir × Option Err → Dir × Option Err
write_main io task (dir, some e) = (dir, some e)
write_main io task (dir, none) =
    let (meta, e) = write_file io.main (document task) dir.meta in (record dir { meta = meta }, e)

-- The current meta.json is copied to meta.json.bak if it can be read and is valid JSON.
unfoldable pub write_backup : WriteIo → Option Doc → Dir → Dir × Option Err
write_backup io none dir = (dir, none)
write_backup io (some current) dir =
    if io.reads_meta && is_json current
    then (let (backup, e) = write_file io.backup current dir.backup in
        (record dir { backup = backup }, e))
    else (dir, none)

-- The two writes.
unfoldable pub write_meta : WriteIo → Task → Dir → Dir × Option Err
unfolding write_main write_backup
write_meta io task dir = write_main io task (write_backup io dir.meta dir)

-- writeTask
unfoldable pub write_task : WriteIo → Task → Disk → Disk × Option Err
unfolding write_meta dir_at
write_task io task disk =
    if not (is_safe_task_id task.id) then (disk, some invalid_task_id) else elim io.make_dir [
      | some text ↦ (disk, some (system text))
      | none ↦
          let (dir', e) = write_meta io task (dir_at task.id disk) in (insert task.id dir' disk, e)
    ]

-- What the system answers to the calls of one readTask: the error of os.ReadFile of a meta.json that
-- is there, and whether the backup can be read; and what encoding/json reads from a document.
pub record ReadIo : Type 0 where
  pub unreadable : Option Text
  pub reads_backup : Bool
  pub decode : Task → Task
  -- the text of json.Unmarshal's error
  pub bad_json : Text
  pub restore : Fault
  pub migrate : Fault

-- json.Unmarshal of meta.json, or of its backup, which is then copied over meta.json.
unfoldable pub read_backup : ReadIo → Option Doc → Dir → Dir × Result Task
read_backup io (some (document t)) dir =
    let (meta, e) = write_file io.restore (document t) dir.meta in
    if io.reads_backup
    then (record dir { meta = meta }, elim e [ none ↦ ok (io.decode t) | some x ↦ err x ])
    else (dir, err (system io.bad_json))
read_backup io _ dir = (dir, err (system io.bad_json))

abbrev pub read_doc : ReadIo → Doc → Dir → Dir × Result Task
read_doc io (document t) dir = (dir, ok (io.decode t))
read_doc io _ dir = read_backup io dir.backup dir

unfoldable pub read_meta : ReadIo → Option Doc → Dir → Dir × Result Task
unfolding read_backup
read_meta io none dir = (dir, err not_exist)
read_meta io (some doc) dir = elim io.unreadable [
  | some text ↦ (dir, err (system text))
  | none ↦ read_doc io doc dir
]

unfoldable pub migrated : ReadIo → Task → Dir → Dir × Result Task
migrated io t dir =
    let (meta, e) = write_file io.migrate (document t) dir.meta in
    (record dir { meta = meta }, elim e [ none ↦ ok t | some x ↦ err x ])

-- A document of schema 0 is rewritten as schema 1.
unfoldable pub migrate : ReadIo → Task → Dir → Dir × Result Task
unfolding migrated
migrate io t dir =
    if is_zero t.schema_version
    then migrated io (record t { schema_version = pos current_task_schema }) dir
    else (dir, ok t)

unfoldable pub validate : Text → Task → Result Task
validate dir_id t =
    if is_empty t.id
    then err missing_task_id
    else if not (is_safe_task_id t.id) || not (text_eq t.id dir_id)
    then err invalid_task_id
    else if is_above t.schema_version current_task_schema
    then err unsupported_schema
    else ok t

-- filepath.Join of a clean directory and a name of one element.
abbrev pub join_path : Text → Text → Text
join_path dir name = if text_eq dir (slash ∷ []) then slash ∷ name else dir ++ slash ∷ name

abbrev pub attachments_path : Text → Text → Text
unfolding utf8
attachments_path root id = join_path (join_path root id) (utf8 "attachments")

abbrev pub log_size_or : Option Text → ℕ → ℕ
log_size_or none n = n
log_size_or (some text) n = length text

-- A flag with another status makes the task solved.
unfoldable pub settle_flag : Option Text → Task → Task
settle_flag none t = t
settle_flag (some flag) t =
    if is_solved t.status
    then t
    else record t { status = solved; error = none; container_kept = false }

-- What readTask fills in after the document is accepted.
unfoldable pub complete : Text → Dir → Task → Task
unfolding settle_flag
complete root dir t =
    let t' = record t {
      attachments_dir =
          if is_empty t.attachments_dir then attachments_path root t.id else t.attachments_dir;
      log_size = log_size_or dir.log.current t.log_size;
    } in
    settle_flag t'.flag t'

unfoldable pub finish_read : Text → Dir × Result Task → Dir × Result Task
unfolding complete
finish_read root (dir, ok t) = (dir, ok (complete root dir t))
finish_read root (dir, err e) = (dir, err e)

unfoldable pub check_read : ReadIo → Text → Text → Dir × Result Task → Dir × Result Task
check_read io root dir_id (dir, err e) = (dir, err e)
check_read io root dir_id (dir, ok t) = elim (validate dir_id t) [
  | err e ↦ (dir, err e)
  | ok t' ↦ finish_read root (migrate io t' dir)
]

-- readTask
unfoldable pub read_task : ReadIo → Text → Text → Dir → Dir × Result Task
unfolding read_meta check_read validate migrate finish_read
read_task io root dir_id dir = check_read io root dir_id (read_meta io dir.meta dir)
