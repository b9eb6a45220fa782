-- ===== src/Service/Worker/Ends.antt =====
-- How finishRun ends a run (internal/app/service.go).
use ctf_agent.Base.{Bool, true, false, not, ◌&&◌, Option, none, some, [], ◌∷◌, ◌++◌, if◌then◌else◌}
use ctf_agent.Docker.{DockerResult}
use ctf_agent.Errors.{Err, deadline_exceeded, message}
use ctf_agent.Service.{World, Supply, later, Service, publish_task_changed, append_log}
use ctf_agent.Service.Finish.{Label, label_text, mark_runner_result, task_was_stopped}
use ctf_agent.Store.{Store, get}
use ctf_agent.Store.Changes.{task_timeout_message}
use ctf_agent.Store.Marks.{mark_failed}
use ctf_agent.Store.Results.{WriteupIo}
use ctf_agent.Task.{Task, TaskStatus, queued, running, completed, solved, failed, other}
use ctf_agent.Text.{Text, utf8}

-- string(task.Status)
abbrev pub status_text : TaskStatus → Text
unfolding utf8
status_text queued = utf8 "queued"
status_text running = utf8 "running"
status_text completed = utf8 "completed"
status_text solved = utf8 "solved"
status_text failed = utf8 "failed"
status_text (other text) = text

-- A line of the dispatcher.
unfoldable pub dispatcher : Text → Text
unfolding utf8
dispatcher text = utf8 "[dispatcher] " ++ text ++ b'\n' ∷ []

-- The result of finishRun; `none` is the panic on a task that is not there.
abbrev pub Finished : Type 0
Finished = Service × Option Bool

-- MarkFailed, whose error is dropped, and the event.
unfoldable pub fail_task : World → Text → Text → Service → Service
fail_task w id text s =
    publish_task_changed id (record s { store = (mark_failed w.env id text s.store).0 })

abbrev pub is_deadline : Option Err → Bool
is_deadline none = false
is_deadline (some deadline_exceeded) = true
is_deadline (some _) = false

unfoldable pub stopped_by_user : World → Text → Text → Service → Service
unfolding dispatcher utf8
stopped_by_user w id what s =
    publish_task_changed id (append_log w id (dispatcher (what ++ utf8 " stopped by user")) s)

unfoldable pub timed_out : Supply → Text → Text → Service → Service
unfolding dispatcher fail_task utf8
timed_out w id what s =
    append_log (w 1) id (dispatcher (what ++ utf8 " status=failed reason=timeout"))
      (fail_task (w 0) id task_timeout_message s)

unfoldable pub run_failed : Supply → Text → Text → Err → Service → Service
unfolding dispatcher fail_task utf8
run_failed w id what e s =
    fail_task (w 1) id (message e)
      (append_log (w 0) id (dispatcher (what ++ utf8 " failed before completion: " ++ message e)) s)

-- The run's error: a user's stop first, then the timeout, then the failure.
unfoldable pub end_with_error : Supply → Text → Text → Err → Service → Service
unfolding stopped_by_user timed_out run_failed
end_with_error w id what e s =
    if task_was_stopped id s
    then stopped_by_user (w 0) id what s
    else if is_deadline (w 0).ctx
    then timed_out w id what s
    else run_failed w id what e s

-- After an error of the first run alone the failed status is logged too.
unfoldable pub log_failed_status : World → Text → Bool → Service → Service
unfolding dispatcher utf8
log_failed_status w id due s =
    if due then append_log w id (dispatcher (utf8 "task status=failed")) s else s

unfoldable pub end_first_run : Supply → Text → Label → Err → Service → Service
unfolding end_with_error log_failed_status
end_first_run w id label e s =
    log_failed_status (w 2) id (not (task_was_stopped id s) && not (is_deadline (w 0).ctx))
      (end_with_error w id (label_text label) e s)

unfoldable pub log_status : World → Text → Option Task → Service → Finished
unfolding dispatcher utf8
log_status w id none s = (s, none)
log_status w id (some t) s =
    (append_log w id (dispatcher (utf8 "task status=" ++ status_text t.status)) s, some true)

unfoldable pub after_mark : Supply → Text → Store × Option Err → Service → Finished
unfolding dispatcher log_status utf8
after_mark w id (store, some e) s = (
  append_log (w 0) id (dispatcher (utf8 "failed to mark finished: " ++ message e))
      (record s { store = store }),
  some false,
)
after_mark w id (store, none) s =
    let s' = publish_task_changed id (record s { store = store }) in
    log_status (w 0) id (get id s'.store) s'

unfoldable pub record_result : Supply → WriteupIo → Text → Label → DockerResult → Service → Finished
unfolding after_mark
record_result w io id label r s =
    after_mark (later 1 w) id (mark_runner_result (w 0) io id r label s.cfg s.store) s
