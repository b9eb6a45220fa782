-- ===== src/Store.antt =====
-- The task store (internal/app/store.go): tasks in memory over the files of the data directory.
-- A method is a function of the store that returns the new store and its result. The mutex makes
-- each method one step. `update` and what stands on it are in Store/Changes.antt, the log files in
-- Store/Logs.antt, the orders of List and RecoverableIDs in Store/Listing.antt.
pub mod Changes
pub mod Marks
pub mod Results
pub mod Load
pub mod WellFormed
pub mod Invariant
pub mod ResultsOk
pub mod LoadOk
pub mod History
pub mod Durable
pub mod Refined
pub mod Moves
pub mod Listing
pub mod Logs
use ctf_agent.Base.{
  ℕ, Bool, true, false, not, ◌&&◌, Option, none, some, List, [], ◌∷◌, length, if◌then◌else◌,
}
use ctf_agent.Base.Int.{ℤ, pos, is_positive, is_negative}
use ctf_agent.Errors.{
  Err, task_not_found, invalid_task_id, nil_task, invalid_writeup_filename, system, Result, ok, err,
}
use ctf_agent.Text.{Text, utf8, is_empty}
use ctf_agent.Map.{Map, lookup, insert, delete}
use ctf_agent.Names.{is_safe_task_id, is_safe_stored_filename}
use ctf_agent.Task.{Task, is_solved}
use ctf_agent.Disk.{Disk, Dir, WriteIo, write_task, dir_at, current_task_schema}
use ctf_agent.Disk.Atomic.{Fault, write_file}

pub record Store : Type 0 where
  pub root : Text
  pub tasks : Map Task
  pub disk : Disk
  pub log_max_bytes : ℕ
  pub log_max_backups : ℕ

-- What a call takes from its surroundings: the time, and the system's answers.
pub record Env : Type 0 where
  pub now : ℕ
  pub io : WriteIo

-- Store.Get. The copy that it returns is the value.
unfoldable pub get : Text → Store → Option Task
get id s = if is_safe_task_id id then lookup id s.tasks else none

-- The end of Add and of update: the copy enters the map only if it has been written.
unfoldable pub commit : WriteIo → Text → Task → Store → Store × Option Err
commit io id copy s =
    let (disk, e) = write_task io copy s.disk in
    elim e [
      | none ↦ (record s { tasks = insert id copy s.tasks; disk = disk }, none)
      | some x ↦ (record s { disk = disk }, some x)
    ]

-- Store.Add; `none` stands for nil.
unfoldable pub add : Env → Option Task → Store → Store × Option Err
unfolding commit
add env none s = (s, some nil_task)
add env (some task) s =
    if not (is_safe_task_id task.id)
    then (s, some invalid_task_id)
    else commit env.io task.id (record task { schema_version = pos current_task_schema }) s

unfoldable pub update_found : Env → Text → (Task → Task) → Option Task → Store → Store × Option Err
unfolding commit
update_found env id fn none s = (s, some task_not_found)
update_found env id fn (some task) s =
    commit env.io id (record (fn task) { schema_version = pos current_task_schema }) s

-- Store.update
unfoldable pub update : Env → Text → (Task → Task) → Store → Store × Option Err
unfolding update_found
update env id fn s =
    if not (is_safe_task_id id)
    then (s, some invalid_task_id)
    else update_found env id fn (lookup id s.tasks) s

-- A change of the shared task in place, written afterwards: memory has it even if the write fails.
unfoldable pub write_in_place : WriteIo → Text → Task → Store → Store × Option Err
write_in_place io id task s =
    let (disk, e) = write_task io task s.disk in
    (record s { tasks = insert id task s.tasks; disk = disk }, e)
