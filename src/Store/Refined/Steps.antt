-- ===== src/Store/Refined/Steps.antt =====
-- The store's methods that concern one task (internal/app/store.go) against the map that its clients
-- see.
use ctf_agent.Base.{
  ◌≡◌, refl, sym, ap, subst, inl, inr, true, Option, none, some, List, [], ◌∷◌, All, length, arith,
  Bool-cases, Option-cases,
}
use ctf_agent.Disk.{WriteIo, dir_at}
use ctf_agent.Disk.Atomic.{Fault}
use ctf_agent.Errors.{Err, invalid_task_id, invalid_writeup_filename}
use ctf_agent.Map.{lookup, insert, lookup-insert}
use ctf_agent.Names.{is_safe_task_id, is_safe_stored_filename}
use ctf_agent.Store.{Store, Env, write_in_place}
use ctf_agent.Store.Refined.{
  view, put, OneTask, target, intent, in_place, Step, refused, done, unwritten, MapRun, ends, goes,
  answers,
}
use ctf_agent.Store.Refined.Writes.{shown_same, shown_put, update-Step, add-Step}
use ctf_agent.Store.Results.{
  WriteupIo, drop_file, set_dir, revoke_found, mark_false_live_capture, after_fault, write_named,
  save_name, save_found, save_writeup,
}
use ctf_agent.Store.Marks.{
  mark_running, mark_completed, mark_finished_with_failure_message, mark_flag, mark_invalid_flag,
  mark_failed, mark_runtime_container, mark_opencode_session, mark_container_closed, mark_stopped,
  mark_recovered, mark_interrupted_container_retained,
}
use ctf_agent.Store.History.{
  Call, adds, runs, closes, recovers, retains, completes, finishes, flags, rejects, fails,
  sets_container, sets_session, stops, revokes, saves, clears, appends, loads, perform, run_call,
  run_calls,
}
use ctf_agent.Store.Logs.{LogIo, grow, append_files, append_found, append_log}
use ctf_agent.Task.{Task}
use ctf_agent.Text.{Text}

write_in_place-Step :
    (c : Call) (io : WriteIo) (old : Task) (s s' : Store)
    → in_place c ≡ true
    → view s (target c) ≡ some old
    → s'.tasks ≡ s.tasks
    → let r = write_in_place io (target c) (intent c old) s' in Step (view s) c r.1 (view r.0)
unfolding write_in_place
write_in_place-Step c io old s s' works there same =
    let r = write_in_place io (target c) (intent c old) s' in
    let shown : (id : Text) → view r.0 id ≡ put (target c) (intent c old) (view s) id =
      shown_put (target c) (intent c old) s r.0 (ap (insert (target c) (intent c old)) same) in
    elim (Option-cases r.1) [
      | inl e ↦ subst (λ x. Step (view s) c x (view r.0)) (sym e) (done old (inl there) shown)
      | inr (x, e) ↦
          subst (λ y. Step (view s) c y (view r.0)) (sym e) (unwritten x old works there shown)
    ]

drop_file-tasks : (id name : Text) (s : Store) → (drop_file id name s).tasks ≡ s.tasks
unfolding drop_file set_dir
drop_file-tasks id name s = refl

revoke_found-Step :
    (env : Env) (id message : Text) (s : Store) (found : Option Task)
    → lookup id s.tasks ≡ found
    → let r = revoke_found env id message found s in
      Step (view s) (revokes env id message) r.1 (view r.0)
unfolding revoke_found
revoke_found-Step env id message s none h = refused _ (λ j. refl)
revoke_found-Step env id message s (some old) h =
    write_in_place-Step (revokes env id message) env.io old s _ refl h (ground arith)

revokes-Step :
    (env : Env) (id message : Text) (s : Store)
    → let r = mark_false_live_capture env id message s in
      Step (view s) (revokes env id message) r.1 (view r.0)
unfolding mark_false_live_capture
revokes-Step env id message s = elim (Bool-cases (is_safe_task_id id)) [
  | inr unsafe ↦ rw (unsafe, mark_false_live_capture) (refused invalid_task_id (λ j. refl))
  | inl safe ↦
      rw (safe, mark_false_live_capture)
        (revoke_found-Step env id message s (lookup id s.tasks) refl)
]

after_fault-tasks :
    (f : Fault) (written s : Store)
    → written.tasks ≡ s.tasks
    → (after_fault f written s).0.tasks ≡ s.tasks
unfolding after_fault
after_fault-tasks none written s same = same
after_fault-tasks (some (call, text, removes)) written s same = ground arith

write_named-tasks :
    (io : WriteupIo) (id filename content : Text) (s : Store)
    → (write_named io id filename content s).0.tasks ≡ s.tasks
unfolding write_named set_dir
write_named-tasks io id filename content s = after_fault-tasks io.fault _ s refl

save_name-Step :
    (env : Env) (io : WriteupIo) (id filename content : Text) (s : Store) (old : Task)
    (r : Store × Option Err)
    → lookup id s.tasks ≡ some old
    → r.0.tasks ≡ s.tasks
    → let r' = save_name env id filename old r in
      Step (view s) (saves env io id filename content) r'.1 (view r'.0)
save_name-Step env io id filename content s old (s', some e) there same =
    refused e (shown_same s s' same)
save_name-Step env io id filename content s old (s', none) there same =
    write_in_place-Step (saves env io id filename content) env.io old s s' refl there same

save_found-Step :
    (env : Env) (io : WriteupIo) (id filename content : Text) (s : Store) (found : Option Task)
    → lookup id s.tasks ≡ found
    → let r = save_found env io id filename content found s in
      Step (view s) (saves env io id filename content) r.1 (view r.0)
unfolding save_found
save_found-Step env io id filename content s none there = refused _ (λ j. refl)
save_found-Step env io id filename content s (some old) there =
    save_name-Step env io id filename content s old (write_named io id filename content s) there
      (write_named-tasks io id filename content s)

saves-Step :
    (env : Env) (io : WriteupIo) (id filename content : Text) (s : Store)
    → let r = save_writeup env io id filename content s in
      Step (view s) (saves env io id filename content) r.1 (view r.0)
unfolding save_writeup
saves-Step env io id filename content s = elim (Bool-cases (is_safe_stored_filename filename)) [
  | inr unsafe ↦ rw (unsafe, save_writeup) (refused invalid_writeup_filename (λ j. refl))
  | inl safe ↦
      rw (safe, save_writeup)
        (save_found-Step env io id filename content s (lookup id s.tasks) refl)
]

append_found-Step :
    (io : LogIo) (id text : Text) (s : Store) (found : Option Task)
    → lookup id s.tasks ≡ found
    → let r = append_found io id text found s in Step (view s) (appends io id text) r.1 (view r.0)
unfolding append_found
append_found-Step io id text s none there = refused _ (λ j. refl)
append_found-Step io id text s (some old) there =
    let e = (append_files io s.log_max_bytes s.log_max_backups text (dir_at id s.disk).log).1 in
    elim (Option-cases e) [
      | inl none_left ↦
          rw (none_left, append_found)
            (done old (inl there) (λ j. lookup-insert id j (grow (length text) old) s.tasks))
      | inr (x, failed) ↦ rw (failed, append_found) (refused x (λ j. refl))
    ]

perform-Step :
    (c : Call) (s : Store) → OneTask c → Step (view s) c (perform c s).1 (view (perform c s).0)
unfolding perform mark_running mark_completed mark_finished_with_failure_message mark_flag
    mark_invalid_flag mark_failed mark_runtime_container mark_opencode_session mark_container_closed
    mark_stopped mark_recovered mark_interrupted_container_retained append_log
perform-Step (adds env t) s one = add-Step env t s
perform-Step (revokes env id message) s one = revokes-Step env id message s
perform-Step (saves env io id filename content) s one = saves-Step env io id filename content s
perform-Step (appends io id text) s one = append_found-Step io id text s (lookup id s.tasks) refl
perform-Step (clears io) s one = absurd one
perform-Step (loads read_dir io) s one = absurd one
perform-Step (runs env id) s one = update-Step (runs env id) env _ s (λ t. refl)
perform-Step (closes env id) s one = update-Step (closes env id) env _ s (λ t. refl)
perform-Step (recovers env id) s one = update-Step (recovers env id) env _ s (λ t. refl)
perform-Step (retains env id) s one = update-Step (retains env id) env _ s (λ t. refl)
perform-Step (completes env id code step container kept) s one =
    update-Step (completes env id code step container kept) env _ s (λ t. refl)
perform-Step (finishes env id code flag step container kept message) s one =
    update-Step (finishes env id code flag step container kept message) env _ s (λ t. refl)
perform-Step (flags env id flag) s one = update-Step (flags env id flag) env _ s (λ t. refl)
perform-Step (rejects env id message) s one =
    update-Step (rejects env id message) env _ s (λ t. refl)
perform-Step (fails env id message) s one = update-Step (fails env id message) env _ s (λ t. refl)
perform-Step (sets_container env id name) s one =
    update-Step (sets_container env id name) env _ s (λ t. refl)
perform-Step (sets_session env id session) s one =
    update-Step (sets_session env id session) env _ s (λ t. refl)
perform-Step (stops env id message) s one = update-Step (stops env id message) env _ s (λ t. refl)

-- The tasks in memory refine a map from ids to tasks: any sequence of the store's methods that
-- concern one task (all but ClearResultData and Load) is, with the errors that they return, a run of
-- the map, whatever the system answers. A method that reports no error has made of the task it
-- names, and of no other, what the method means; one that reports an error has changed nothing,
-- except that MarkFalseLiveCapture and SaveWriteup may then have changed their task in memory.
pub run_calls-MapRun :
    (cs : List Call) (s : Store)
    → All OneTask cs
    → MapRun (view s) cs (answers cs s) (view (run_calls cs s))
unfolding answers
run_calls-MapRun [] s one = ends
run_calls-MapRun (c ∷ cs) s one =
    goes (perform-Step c s one.0) (run_calls-MapRun cs (run_call c s) one.1)
