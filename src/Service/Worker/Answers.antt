-- ===== src/Service/Worker/Answers.antt =====
-- finishRun and the task whose result it has recorded (internal/app/service.go).
use ctf_agent.Base.{
  ◌≡◌, refl, ap, inl, inr, true, not, ◌||◌, Option, none, some, is_some, Bool-cases, Option-cases,
  arith,
}
use ctf_agent.Base.Int.{is_zero}
use ctf_agent.Config.{Config}
use ctf_agent.Disk.Atomic.{Fault, sync_dir}
use ctf_agent.Docker.{DockerResult}
use ctf_agent.Errors.{Err}
use ctf_agent.Map.{lookup, insert, lookup-insert}
use ctf_agent.Names.{is_safe_task_id, is_safe_stored_filename}
use ctf_agent.Service.{World, Supply, Service, publish_task_changed, later}
use ctf_agent.Service.Finish.{Label, task_was_stopped, keep_writeup, mark_runner_result}
use ctf_agent.Service.Runs.{Outcome, HintRunner, run_until_solved}
use ctf_agent.Service.Worker.{finish_run, end_rounds}
use ctf_agent.Service.Worker.Ends.{record_result, after_mark, log_status}
use ctf_agent.Store.{Store, Env, get, update, write_in_place}
use ctf_agent.Store.Marks.{mark_completed, mark_finished, mark_finished_with_failure_message}
use ctf_agent.Store.Moves.{update_moves, get-Changed}
use ctf_agent.Store.Results.{
  WriteupIo, after_fault, write_named, save_name, save_found, save_writeup, set_dir,
}
use ctf_agent.Task.{Task}
use ctf_agent.Text.{Text, is_empty, text_eq_refl}

abbrev Found : Text → Store → Type 0
Found id s = is_some (get id s) ≡ true

update_found_lem :
    (env : Env) (id : Text) (change : Task → Task) (s : Store)
    → (update env id change s).1 ≡ none
    → Found id (update env id change s).0
unfolding update
update_found_lem env id change s done = elim (Bool-cases (is_safe_task_id id)) [
  | inr unsafe ↦ absurd (ground arith)
  | inl safe ↦ elim (update_moves env id change s) [
    | inl (same, failed) ↦ absurd (ground arith)
    | inr (c, e) ↦ ap is_some (get-Changed c safe).1
  ]
]

Found-insert :
    (id : Text) (t : Task) (s s' : Store)
    → Found id s
    → s'.tasks ≡ insert id t s.tasks
    → Found id s'
unfolding get
Found-insert id t s s' h e = elim (Bool-cases (is_safe_task_id id)) [
  | inr unsafe ↦ absurd (ground arith)
  | inl safe ↦ rw (safe, e, lookup-insert id id t s.tasks, text_eq_refl id) refl
]

fault-Found :
    (id : Text) (fault : Fault) (written s : Store)
    → Found id s
    → written.tasks ≡ s.tasks
    → Found id (after_fault fault written s).0
unfolding after_fault get
fault-Found id none written s h e = rw e h
fault-Found id (some (sync_dir, text, removes)) written s h e = rw e h
fault-Found id (some (step, text, removes)) written s h e = h

save_name-Found :
    (env : Env) (id filename : Text) (t : Task) (r : Store × Option Err)
    → Found id r.0
    → Found id (save_name env id filename t r).0
unfolding write_in_place
save_name-Found env id filename t (s, some e) h = h
save_name-Found env id filename t (s, none) h = Found-insert id _ s _ h refl

write_named-Found :
    (io : WriteupIo) (id filename content : Text) (s : Store)
    → Found id s
    → Found id (write_named io id filename content s).0
unfolding write_named set_dir
write_named-Found io id filename content s h = fault-Found id io.fault _ s h refl

save_found-Found :
    (env : Env) (io : WriteupIo) (id filename content : Text) (t : Option Task) (s : Store)
    → Found id s
    → Found id (save_found env io id filename content t s).0
unfolding save_found
save_found-Found env io id filename content none s h = h
save_found-Found env io id filename content (some t) s h =
    save_name-Found env id filename t _ (write_named-Found io id filename content s h)

save_writeup-Found :
    (env : Env) (io : WriteupIo) (id filename content : Text) (s : Store)
    → Found id s
    → Found id (save_writeup env io id filename content s).0
unfolding save_writeup
save_writeup-Found env io id filename content s h =
    elim (Bool-cases (is_safe_stored_filename filename)) [
      | inr unsafe ↦ rw (unsafe, save_writeup) h
      | inl safe ↦
          rw (safe, save_writeup)
            (save_found-Found env io id filename content (lookup id s.tasks) s h)
    ]

keep_writeup-Found :
    (w : World) (io : WriteupIo) (id : Text) (r : DockerResult) (m : Store × Option Err)
    → (m.1 ≡ none → Found id m.0)
    → (keep_writeup w io id r m).1 ≡ none
    → Found id (keep_writeup w io id r m).0
unfolding keep_writeup
keep_writeup-Found w io id r (s, some e) k done = k done
keep_writeup-Found w io id r (s, none) k done =
    elim (Bool-cases (is_empty r.writeup_file_name || is_empty r.writeup_content)) [
      | inl e ↦ rw (e, keep_writeup) (k refl)
      | inr e ↦
          rw (e, keep_writeup)
            (save_writeup-Found w.env io id r.writeup_file_name r.writeup_content s (k refl))
    ]

mark-Found :
    (w : World) (io : WriteupIo) (id : Text) (r : DockerResult) (label : Label) (cfg : Config)
    (s : Store)
    → let m = mark_runner_result w io id r label cfg s in m.1 ≡ none → Found id m.0
unfolding mark_runner_result mark_completed mark_finished mark_finished_with_failure_message
mark-Found w io id r label cfg s = elim (Bool-cases r.solved) [
  | inl e ↦
      rw (mark_runner_result, e) (keep_writeup-Found w io id r _ (update_found_lem w.env id _ s))
  | inr e ↦ elim (Bool-cases (is_zero r.exit_code)) [
    | inl z ↦ rw (mark_runner_result, e, z) (update_found_lem w.env id _ s)
    | inr z ↦ rw (mark_runner_result, e, z) (update_found_lem w.env id _ s)
  ]
]

log_status_answers :
    (w : World) (id : Text) (t : Option Task) (s : Service)
    → is_some t ≡ true
    → (log_status w id t s).1 ≡ some true
unfolding log_status
log_status_answers w id none s h = absurd (ground arith)
log_status_answers w id (some t) s h = refl

after_mark_answers :
    (w : Supply) (id : Text) (r : Store × Option Err) (s : Service)
    → (r.1 ≡ none → Found id r.0)
    → (after_mark w id r s).1 ≡ some (not (is_some r.1))
unfolding after_mark publish_task_changed
after_mark_answers w id (store, some e) s k = refl
after_mark_answers w id (store, none) s k = log_status_answers (w 0) id _ _ (k refl)

end_rounds_answers :
    (w : Supply) (io : WriteupIo) (id : Text) (label : Label) (o : Outcome) (s : Service)
    → is_some (end_rounds w io id label o s).1 ≡ true
unfolding end_rounds record_result
end_rounds_answers w io id label o s = elim (Option-cases o.error) [
  | inr (x, e) ↦ rw (end_rounds, e) refl
  | inl e ↦ elim (Bool-cases (task_was_stopped id s)) [
    | inl h ↦ rw (end_rounds, e, h) refl
    | inr h ↦
        rw (end_rounds, e, h)
          (ap is_some (
            after_mark_answers (later 1 w) id _ s
              (mark-Found (w 0) io id o.result label s.cfg s.store)))
  ]
]

-- finishRun answers true or false: whatever the runners and the system answer and whatever other
-- goroutines do while a runner runs, it does not read the status of a task that is not there.
pub finish_run_answers :
    (w rounds : Supply) (run : HintRunner) (io : WriteupIo) (id : Text) (label : Label)
    (first : Outcome)
    → is_some (finish_run w rounds run io id label first).1 ≡ true
unfolding finish_run
finish_run_answers w rounds run io id label first = elim (Option-cases first.error) [
  | inr (x, e) ↦ rw (finish_run, e) refl
  | inl e ↦ elim (Bool-cases (task_was_stopped id first.service)) [
    | inl h ↦ rw (finish_run, e, h) refl
    | inr h ↦
        rw (finish_run, e, h)
          (let o = run_until_solved rounds run id first.result first.service in
            end_rounds_answers w io id label o o.service)
  ]
]
