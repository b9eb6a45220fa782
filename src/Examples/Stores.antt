-- ===== src/Examples/Stores.antt =====
-- The theorems of the store at concrete tasks.
use ctf_agent.Base.{◌≡◌, refl, ◌⊎◌, ◌↔◌, none, some, true, List, [], ◌∷◌, ◌++◌, arith}
use ctf_agent.Base.Int.{pos}
use ctf_agent.Disk.{WriteIo, ReadIo, document, dir_at, LogFiles, write_task, current_task_schema}
use ctf_agent.Disk.Atomic.{Fault, replace, OldOrNew, atomic_write, atomic_write-OldOrNew}
use ctf_agent.Errors.{system}
use ctf_agent.Examples.{
  one, task_one, calm_env, empty_store, store_with, empty_store-StoreOk, store_one-StoreOk,
  task_one-WellFormed,
}
use ctf_agent.Map.{lookup}
use ctf_agent.Store.{Env, update}
use ctf_agent.Store.Changes.{capture}
use ctf_agent.Store.Durable.{Restarts, stamped, update-Restarts, update_failed}
use ctf_agent.Store.History.{Call, adds, flags, loads, perform, run_calls, run_calls-StoreOk}
use ctf_agent.Store.Invariant.{StoreOk}
use ctf_agent.Store.Listing.{newer, list_tasks, values}
use ctf_agent.Store.Listing.Sorted.{Sorted, In, list_tasks_lem}
use ctf_agent.Store.Logs.{append_files, whole_log}
use ctf_agent.Store.Logs.Limits.{WithinLimit, append_files-WithinLimit}
use ctf_agent.Store.Logs.Rotation.{calm, survivors_of, append_files_read}
use ctf_agent.Store.Refined.{view, MapRun, answers}
use ctf_agent.Store.Refined.Steps.{run_calls-MapRun}
use ctf_agent.Store.WellFormed.{capture-Keeps}
use ctf_agent.Task.{Task}
use ctf_agent.Text.{Text, utf8}

abbrev found_flag : Text
unfolding utf8
found_flag = utf8 "flag{1}"

abbrev readable : Text → ReadIo
readable id = record {
  unreadable = none;
  reads_backup = true;
  decode = λ t. t;
  bad_json = [];
  restore = none;
  migrate = none;
}

abbrev some_calls : List Call
some_calls = adds calm_env task_one ∷ flags calm_env one found_flag ∷ loads none readable ∷ []

run_calls-StoreOk_example : StoreOk (run_calls some_calls empty_store)
unfolding task_one one
run_calls-StoreOk_example =
    run_calls-StoreOk some_calls empty_store (task_one-WellFormed, (tt, ((λ name id t w. w), tt)))
      empty_store-StoreOk

abbrev single_calls : List Call
single_calls = adds calm_env task_one ∷ flags calm_env one found_flag ∷ []

run_calls-MapRun_example :
    MapRun
      (view empty_store)
      single_calls
      (answers single_calls empty_store)
      (view (run_calls single_calls empty_store))
run_calls-MapRun_example = run_calls-MapRun single_calls empty_store (tt, (tt, tt))

single_calls_answers : answers single_calls empty_store ≡ none ∷ none ∷ []
unfolding answers perform ctf_agent.Store.add ctf_agent.Store.Marks.mark_flag update
    ctf_agent.Names.is_safe_task_id one lookup write_task capture ctf_agent.Disk.Atomic.write_file
    ctf_agent.Map.insert
single_calls_answers = refl

one_stored : lookup one (store_with task_one).tasks ≡ some task_one
unfolding lookup task_one one ctf_agent.Text.text_eq
one_stored = refl

flag_written : (update calm_env one (capture 100 found_flag) (store_with task_one)).1 ≡ none
unfolding update ctf_agent.Names.is_safe_task_id one lookup write_task capture
    ctf_agent.Disk.Atomic.write_file
flag_written = refl

update-Restarts_example :
    Restarts
      (readable one)
      found_flag
      (update calm_env one (capture 100 found_flag) (store_with task_one)).0
      one
      (stamped (capture 100 found_flag) task_one)
update-Restarts_example =
    update-Restarts calm_env (readable one) found_flag one (capture 100 found_flag)
      (store_with task_one) task_one (capture-Keeps 100 found_flag) store_one-StoreOk one_stored
      flag_written refl refl

abbrev no_space : Text
unfolding utf8
no_space = utf8 "no space left on device"

abbrev full_env : Env
full_env = record {
  now = 100;
  io = record {
    make_dir = none;
    reads_meta = true;
    backup = none;
    main = some (replace, no_space, true);
  };
}

flag_unwritten :
    (update full_env one (capture 100 found_flag) (store_with task_one)).1 ≡ some (system no_space)
unfolding update ctf_agent.Names.is_safe_task_id one lookup write_task capture
    ctf_agent.Disk.Atomic.write_file
flag_unwritten = refl

update_failed_example :
    let s = store_with task_one in
    let s' = (update full_env one (capture 100 found_flag) s).0 in
    (s'.tasks ≡ s.tasks)
    × (((dir_at one s'.disk).meta ≡ (dir_at one s.disk).meta)
        ⊎ ((t : Task) × (lookup one s.tasks ≡ some t)
            × ((dir_at one s'.disk).meta
                ≡ some (
                    document (record (capture 100 found_flag t) {
                      schema_version = pos current_task_schema;
                    })))))
update_failed_example =
    update_failed full_env one (capture 100 found_flag) (store_with task_one) (system no_space)
      (capture-Keeps 100 found_flag) store_one-StoreOk flag_unwritten

atomic_write-OldOrNew_example :
    OldOrNew {A = Text} (some (replace, no_space, true)) (some found_flag) no_space (
      atomic_write
        (some (replace, no_space, true))
        no_space
        (record { target = some found_flag; temporary = none }))
atomic_write-OldOrNew_example =
    atomic_write-OldOrNew (some (replace, no_space, true)) no_space (some found_flag)

abbrev full_log : LogFiles
unfolding utf8
full_log = record { current = some (utf8 "0123456789"); archived = λ _. none }

abbrev line : Text
unfolding utf8
line = utf8 "abcdefgh"

append_files_read_example :
    let r = append_files calm 16 3 line full_log in
    (r.1 ≡ none) × (whole_log 3 r.0 ≡ survivors_of 16 2 line full_log full_log.current ++ line)
append_files_read_example = append_files_read 15 2 line full_log

full_log-WithinLimit : WithinLimit 16 full_log
unfolding full_log
full_log-WithinLimit = record { current = omega arith; archived = λ i. omega arith }

append_files-WithinLimit_example : WithinLimit 16 (append_files calm 16 3 line full_log).0
unfolding line
append_files-WithinLimit_example =
    append_files-WithinLimit calm 15 2 line full_log (omega arith) full_log-WithinLimit

list_tasks_lem_example :
    Sorted newer (list_tasks (store_with task_one))
    × ((t : Task)
        → In t (list_tasks (store_with task_one)) ↔ In t (values (store_with task_one).tasks))
list_tasks_lem_example = list_tasks_lem (store_with task_one)
