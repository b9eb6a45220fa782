-- ===== src/Store/Logs.antt =====
-- AppendLog, Logs and rotateLogIfNeeded (internal/app/store.go).
pub mod Rotation
pub mod Limits
use ctf_agent.Base.{
  ℕ, zero, suc, ◌+◌, Bool, true, false, ◌&&◌, ◌||◌, Option, none, some, List, [], ◌∷◌, ◌++◌, length,
  take, leb, ◌==◌, if◌then◌else◌,
}
use ctf_agent.Disk.{Disk, Dir, LogFiles, dir_at}
use ctf_agent.Errors.{Err, task_not_found, system}
use ctf_agent.Map.{insert, lookup}
use ctf_agent.Store.{Store, get}
use ctf_agent.Task.{Task}
use ctf_agent.Text.{Text}

-- What the system answers to the calls of one AppendLog. `rename` is the file whose rename fails:
-- 0 for logs.txt, n for logs.txt.n; `keeps` tells of which archives the removal fails.
pub record LogIo : Type 0 where
  pub stat : Option Text
  pub rename : Option (ℕ × Text)
  pub keeps : ℕ → Bool
  pub open_file : Option Text
  pub write : Option (ℕ × Text)

unfoldable pub set_archive : ℕ → Option Text → LogFiles → LogFiles
set_archive n content log = record log {
  archived = λ i. if i == n then content else log.archived i;
}

-- os.Remove of an archive, its error dropped.
unfoldable pub drop_archive : LogIo → ℕ → LogFiles → LogFiles
unfolding set_archive
drop_archive io n log = if io.keeps n then log else set_archive n none log

unfoldable pub rename_fails : LogIo → ℕ → Option Text
rename_fails io n = elim io.rename [
  | none ↦ none
  | some (k, text) ↦ if k == n then some text else none
]

-- os.Rename(path.n, path.(n+1)), which replaces a target that could not be removed: a file that is
-- not there is no error.
unfoldable pub shift_one : LogIo → ℕ → LogFiles → LogFiles × Option Err
unfolding set_archive drop_archive rename_fails
shift_one io n log =
    let cleared = drop_archive io (suc n) log in
    elim (cleared.archived n) [
      | none ↦ (cleared, none)
      | some content ↦ elim (rename_fails io n) [
        | some text ↦ (cleared, some (system text))
        | none ↦ (set_archive n none (set_archive (suc n) (some content) cleared), none)
      ]
    ]

infixl 5 ◌then_do◌
abbrev pub ◌then_do◌ :
    LogFiles × Option Err → (LogFiles → LogFiles × Option Err) → LogFiles × Option Err
(log, none) then_do f = f log
(log, some e) then_do f = (log, some e)

-- The loop from `n` down to 1.
unfoldable pub shift_all : LogIo → ℕ → LogFiles → LogFiles × Option Err
unfolding shift_one
shift_all io zero log = (log, none)
shift_all io (suc n) log = shift_one io (suc n) log then_do shift_all io n

unfoldable pub archive_current : LogIo → Text → LogFiles → LogFiles × Option Err
unfolding set_archive drop_archive rename_fails
archive_current io content log =
    let cleared = drop_archive io 1 log in
    elim (rename_fails io 0) [
      | some text ↦ (cleared, some (system text))
      | none ↦ (record (set_archive 1 (some content) cleared) { current = none }, none)
    ]

-- The part of rotateLogIfNeeded after its early returns; `backups` is not 0.
unfoldable pub rotate : LogIo → ℕ → Text → LogFiles → LogFiles × Option Err
unfolding shift_all archive_current drop_archive
rotate io zero content log = (log, none)
rotate io (suc n) content log =
    shift_all io n (drop_archive io (suc n) log) then_do archive_current io content

unfoldable pub rotate_present : LogIo → ℕ → ℕ → ℕ → Option Text → LogFiles → LogFiles × Option Err
unfolding rotate
rotate_present io max_bytes backups incoming none log = (log, none)
rotate_present io max_bytes backups incoming (some content) log = elim io.stat [
  | some text ↦ (log, some (system text))
  | none ↦
      if leb (length content + incoming) max_bytes
      then (log, none)
      else rotate io backups content log
]

-- rotateLogIfNeeded
unfoldable pub rotate_log_if_needed : LogIo → ℕ → ℕ → ℕ → LogFiles → LogFiles × Option Err
unfolding rotate_present
rotate_log_if_needed io max_bytes backups incoming log =
    if max_bytes == 0 || backups == 0
    then (log, none)
    else rotate_present io max_bytes backups incoming log.current log

abbrev pub or_nothing : Option Text → Text
or_nothing none = []
or_nothing (some text) = text

-- The write at the end of the file: where it fails, a part of the text may have been written.
unfoldable pub write_log : LogIo → Text → LogFiles → LogFiles × Option Err
write_log io text log = elim io.open_file [
  | some message ↦ (log, some (system message))
  | none ↦ elim io.write [
    | some (n, message) ↦ (
      record log { current = some (or_nothing log.current ++ take n text) },
      some (system message),
    )
    | none ↦ (record log { current = some (or_nothing log.current ++ text) }, none)
  ]
]

-- The files after one AppendLog.
unfoldable pub append_files : LogIo → ℕ → ℕ → Text → LogFiles → LogFiles × Option Err
unfolding rotate_log_if_needed write_log
append_files io max_bytes backups text log =
    rotate_log_if_needed io max_bytes backups (length text) log then_do write_log io text

abbrev pub grow : ℕ → Task → Task
grow n t = record t { log_size = t.log_size + n }

unfoldable pub append_found : LogIo → Text → Text → Option Task → Store → Store × Option Err
unfolding append_files dir_at
append_found io id text none s = (s, some task_not_found)
append_found io id text (some task) s =
    let dir = dir_at id s.disk in
    let (log, e) = append_files io s.log_max_bytes s.log_max_backups text dir.log in
    let s' = record s { disk = insert id (record dir { log = log }) s.disk } in
    elim e [
      | some x ↦ (s', some x)
      | none ↦ (record s' { tasks = insert id (grow (length text) task) s.tasks }, none)
    ]

-- AppendLog
unfoldable pub append_log : LogIo → Text → Text → Store → Store × Option Err
unfolding append_found
append_log io id text s = append_found io id text (lookup id s.tasks) s

-- The texts of the archives from `n` down to 1, then of logs.txt.
unfoldable pub archives : ℕ → LogFiles → Text
archives zero log = []
archives (suc n) log = or_nothing (log.archived (suc n)) ++ archives n log

unfoldable pub whole_log : ℕ → LogFiles → Text
unfolding archives
whole_log backups log = archives backups log ++ or_nothing log.current

-- Logs; files that are there can be read.
unfoldable pub logs : Text → Store → Option Text
unfolding get whole_log dir_at
logs id s = elim (get id s) [
  | none ↦ none
  | some task ↦ some (whole_log s.log_max_backups (dir_at id s.disk).log)
]
