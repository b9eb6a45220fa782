-- ===== src/Store/Results.antt =====
-- The methods of Store about writeups and results: MarkFalseLiveCapture, SaveWriteup, WriteupPath,
-- ClearResultData. They change the shared task in place, so memory keeps the change when the write
-- that follows fails.
use ctf_agent.Base.{ℕ, ◌+◌, not, ◌&&◌, ◌||◌, Option, none, some, List, [], ◌∷◌, if◌then◌else◌}
use ctf_agent.Disk.{Dir, Doc, WriteIo, dir_at, join_path}
use ctf_agent.Disk.Atomic.{Fault, sync_dir}
use ctf_agent.Disk.Files.{slot_of, put_file, remove_file, file_exists}
use ctf_agent.Errors.{
  Err, invalid_task_id, task_not_found, invalid_writeup_filename, store_root_empty, system,
}
use ctf_agent.Map.{insert, lookup}
use ctf_agent.Names.{is_safe_task_id, is_safe_stored_filename}
use ctf_agent.Store.{Store, Env, get, write_in_place}
use ctf_agent.Store.Changes.{revoke_capture, clear_results, has_results}
use ctf_agent.Task.{Task, is_solved}
use ctf_agent.Text.{Text, is_empty}

unfoldable pub set_dir : Text → Dir → Store → Store
set_dir id dir s = record s { disk = insert id dir s.disk }

-- os.Remove of a task's file, errors ignored.
unfoldable pub drop_file : Text → Text → Store → Store
unfolding slot_of remove_file set_dir dir_at
drop_file id name s = set_dir id (remove_file (slot_of s.log_max_backups name) (dir_at id s.disk)) s

unfoldable pub revoke_found : Env → Text → Text → Option Task → Store → Store × Option Err
unfolding drop_file
revoke_found env id message none s = (s, some task_not_found)
revoke_found env id message (some task) s =
    let named = not (is_empty task.writeup_file_name) in
    let s' =
      if named && is_safe_stored_filename task.writeup_file_name
      then drop_file id task.writeup_file_name s
      else s in
    write_in_place env.io id (revoke_capture env.now message task) s'

unfoldable pub mark_false_live_capture : Env → Text → Text → Store → Store × Option Err
unfolding revoke_found
mark_false_live_capture env id message s =
    if not (is_safe_task_id id)
    then (s, some invalid_task_id)
    else revoke_found env id message (lookup id s.tasks) s

-- What the system answers to the write of a writeup, and what encoding/json makes of its content.
pub record WriteupIo : Type 0 where
  pub fault : Fault
  pub as_doc : Doc

-- The store after an atomicWriteFile: the file is written unless a call before the sync of the
-- directory fails.
unfoldable pub after_fault : Fault → Store → Store → Store × Option Err
after_fault none written s = (written, none)
after_fault (some (sync_dir, text, removes)) written s = (written, some (system text))
after_fault (some (_, text, removes)) written s = (s, some (system text))

unfoldable pub write_named : WriteupIo → Text → Text → Text → Store → Store × Option Err
unfolding set_dir slot_of put_file dir_at after_fault
write_named io id filename content s =
    after_fault io.fault
      (set_dir id
        (put_file (slot_of s.log_max_backups filename) content io.as_doc (dir_at id s.disk)) s)
      s

abbrev pub save_name : Env → Text → Text → Task → Store × Option Err → Store × Option Err
save_name env id filename task (s, some e) = (s, some e)
save_name env id filename task (s, none) =
    write_in_place env.io id (record task { writeup_file_name = filename }) s

unfoldable pub save_found :
    Env → WriteupIo → Text → Text → Text → Option Task → Store → Store × Option Err
unfolding write_named write_in_place
save_found env io id filename content none s = (s, some task_not_found)
save_found env io id filename content (some task) s =
    save_name env id filename task (write_named io id filename content s)

unfoldable pub save_writeup : Env → WriteupIo → Text → Text → Text → Store → Store × Option Err
unfolding save_found
save_writeup env io id filename content s =
    if not (is_safe_stored_filename filename)
    then (s, some invalid_writeup_filename)
    else save_found env io id filename content (lookup id s.tasks) s

unfoldable pub writeup_of : Store → Text → Option Task → Option (Text × Text)
unfolding slot_of file_exists dir_at
writeup_of s id none = none
writeup_of s id (some task) =
    if not (is_solved task.status) || is_empty task.writeup_file_name
    then none
    else if not (is_safe_stored_filename task.writeup_file_name)
    then none
    else if file_exists (slot_of s.log_max_backups task.writeup_file_name) (dir_at id s.disk)
    then some (join_path (join_path s.root id) task.writeup_file_name, task.writeup_file_name)
    else none

-- WriteupPath: the path and the file name.
unfoldable pub writeup_path : Text → Store → Option (Text × Text)
unfolding writeup_of
writeup_path id s = writeup_of s id (get id s)

-- What the system answers to the calls of ClearResultData for one task.
pub record ClearIo : Type 0 where
  pub remove : Option Text
  pub write : WriteIo

-- The tasks updated and the files removed so far.
pub record Tally : Type 0 where
  pub updated : ℕ
  pub removed : ℕ

-- Where the flag is cleared and the file could not be removed, the task is not written.
abbrev pub flag_cleared : Task → Task
flag_cleared t = record t { flag = none }

unfoldable pub clear_write : ClearIo → Text → Task → Store → Tally → Store × Tally × Option Err
unfolding write_in_place
clear_write io id task s n =
    if has_results task
    then (let (s', e) = write_in_place io.write id (clear_results task) s in
        (s', record n { updated = n.updated + 1 }, e))
    else (s, n, none)

unfoldable pub clear_one : ClearIo → Text → Task → Store → Tally → Store × Tally × Option Err
unfolding clear_write drop_file slot_of file_exists dir_at
clear_one io id task s n =
    if not (is_empty task.writeup_file_name) && is_safe_stored_filename task.writeup_file_name
    then elim io.remove [
      | some text ↦
          (record s { tasks = insert id (flag_cleared task) s.tasks }, n, some (system text))
      | none ↦
          let slot = slot_of s.log_max_backups task.writeup_file_name in
          if file_exists slot (dir_at task.id s.disk)
          then clear_write io id task (drop_file task.id task.writeup_file_name s)
              (record n { removed = n.removed + 1 })
          else clear_write io id task s n
    ]
    else clear_write io id task s n

abbrev pub ClearResult : Type 0
ClearResult = Store × Tally × Option Err

-- The loop over the tasks, which ends at the first error.
unfoldable pub clear_loop : (Text → ClearIo) → List (Text × Task) → ClearResult → ClearResult
clear_loop io [] r = r
clear_loop io ((id, task) ∷ rest) (s, n, some e) = (s, n, some e)
clear_loop io ((id, task) ∷ rest) (s, n, none) = clear_loop io rest (clear_one (io id) id task s n)

unfoldable pub clear_result_data : (Text → ClearIo) → Store → ClearResult
unfolding clear_loop
clear_result_data io s =
    let none_yet : Tally = record { updated = 0; removed = 0 } in
    if is_empty s.root
    then (s, none_yet, some store_root_empty)
    else clear_loop io s.tasks (s, none_yet, none)
