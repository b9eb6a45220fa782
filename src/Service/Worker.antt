-- ===== src/Service/Worker.antt =====
-- What a worker does with a task (internal/app/service.go): finishRun, runTask, runContinuation and
-- one turn of worker.
pub mod Stopped
pub mod Answers
pub mod Ends
use ctf_agent.Base.{
  ℕ, zero, suc, ◌+◌, ◌*◌, Bool, true, false, not, ◌&&◌, ◌||◌, Option, none, some, is_some, List, [],
  ◌∷◌, ◌++◌, ltb, if◌then◌else◌,
}
use ctf_agent.Config.{Config}
use ctf_agent.Docker.{DockerResult}
use ctf_agent.Errors.{Err, deadline_exceeded, canceled, message}
use ctf_agent.Map.{insert, delete}
use ctf_agent.Service.{
  World, Supply, later, Service, publish_task_changed, append_log, take_queued_message,
  release_task_slot,
}
use ctf_agent.Service.Finish.{
  Label, initial_run, continuation_run, label_text, mark_runner_result, task_was_stopped,
}
use ctf_agent.Service.Runs.{
  Outcome, TaskRunner, HintRunner, can_continue, run_until_solved, initial_docker_run,
  continue_docker_run,
}
use ctf_agent.Service.Worker.Ends.{
  dispatcher, Finished, stopped_by_user, end_with_error, end_first_run, record_result,
}
use ctf_agent.Store.{Store, get}
use ctf_agent.Store.Changes.{task_timeout_message}
use ctf_agent.Store.Marks.{mark_running, mark_failed}
use ctf_agent.Store.Results.{WriteupIo}
use ctf_agent.Task.{
  Task, TaskStatus, is_queued, is_running, queued, running, completed, solved, failed, other,
}
use ctf_agent.Text.{Text, utf8, is_blank, is_empty, itoa}

abbrev pub task_word : Text
unfolding utf8
task_word = utf8 "task"

unfoldable pub end_rounds : Supply → WriteupIo → Text → Label → Outcome → Service → Finished
unfolding end_with_error record_result stopped_by_user
end_rounds w io id label o s = elim o.error [
  | some e ↦ (end_with_error w id task_word e s, some false)
  | none ↦
      if task_was_stopped id s
      then (stopped_by_user (w 0) id task_word s, some false)
      else record_result w io id label o.result s
]

-- finishRun. The worlds of the rounds are `rounds`.
unfoldable pub finish_run :
    Supply → Supply → HintRunner → WriteupIo → Text → Label → Outcome → Finished
unfolding end_first_run end_rounds stopped_by_user
finish_run w rounds run io id label first = elim first.error [
  | some e ↦ (end_first_run w id label e first.service, some false)
  | none ↦
      if task_was_stopped id first.service
      then (stopped_by_user (w 0) id (label_text label) first.service, some false)
      else (let o = run_until_solved rounds run id first.result first.service in
          end_rounds w io id label o o.service)
]

-- taskRunContext: the cancel function of the run is kept. It is called at once if the service has
-- been stopped.
unfoldable pub task_run_context : Text → Service → Service
task_run_context id s = record s { runs = insert id s.stopped s.runs }

-- clearTaskCancel
unfoldable pub clear_task_cancel : Text → Service → Service
clear_task_cancel id s = record s { runs = delete id s.runs }

-- A run from its start to its end, between the two deferred calls.
unfoldable pub with_run_context : Text → (Service → Finished) → Service → Service
unfolding task_run_context clear_task_cancel
with_run_context id body s = clear_task_cancel id (body (task_run_context id s)).0

unfoldable pub marked_running :
    Supply → Text → Text → (Service → Service) → Store × Option Err → Service → Service
marked_running w id refused body (store, some e) s =
    append_log (w 0) id (refused ++ message e ++ b'\n' ∷ []) (record s { store = store })
marked_running w id refused body (store, none) s =
    body (publish_task_changed id (record s { store = store }))

abbrev pub mark_refused : Text
unfolding utf8
mark_refused = utf8 "[dispatcher] failed to mark running: "

abbrev pub continuation_refused : Text
unfolding utf8
continuation_refused = utf8 "[dispatcher] failed to mark continuation running: "

unfoldable pub picked : ℕ → Text → Text
unfolding dispatcher utf8
picked index what = dispatcher (utf8 "worker=" ++ itoa index ++ utf8 " picked " ++ what)

-- The runners of the service, and the worlds of one run: for the calls before and after it, for its
-- first result, for the rounds.
pub record Runners : Type 0 where
  pub task_runner : TaskRunner
  pub hint_runner : HintRunner
  pub steps : Supply
  pub first : World
  pub rounds : Supply
  pub writeup : WriteupIo

unfoldable pub run_task_body : Runners → ℕ → Text → Task → Service → Service
unfolding with_run_context finish_run picked utf8
run_task_body r index id task s =
    with_run_context id
      (λ s'.
        finish_run (later 2 r.steps) r.rounds r.hint_runner r.writeup id initial_run
          (initial_docker_run r.first r.task_runner task s'))
      (append_log (r.steps 1) id (picked index (utf8 "task=" ++ id)) s)

unfoldable pub run_found_task : Runners → ℕ → Text → Option Task → Service → Service
unfolding marked_running run_task_body
run_found_task r index id none s = s
run_found_task r index id (some task) s =
    if is_queued task.status
    then marked_running (later 1 r.steps) id mark_refused (run_task_body r index id task)
        (mark_running (r.steps 0).env id s.store) s
    else s

-- runTask
unfoldable pub run_task : Runners → ℕ → Text → Service → Service
unfolding run_found_task
run_task r index id s = run_found_task r index id (get id s.store) s

unfoldable pub user_message : Text → Text
unfolding dispatcher utf8
user_message text = b'\n' ∷ dispatcher (utf8 "user message: " ++ text)

unfoldable pub run_continuation_body : Runners → ℕ → Text → Text → Task → Service → Service
unfolding with_run_context finish_run picked user_message utf8
run_continuation_body r index id text current s =
    with_run_context id
      (λ s'.
        finish_run (later 3 r.steps) r.rounds r.hint_runner r.writeup id continuation_run
          (continue_docker_run r.first r.hint_runner current text s'))
      (append_log (r.steps 2) id (user_message text)
        (append_log (r.steps 1) id (picked index (utf8 "continuation")) s))

unfoldable pub continue_found_task : Runners → ℕ → Text → Text → Option Task → Service → Service
unfolding marked_running run_continuation_body
continue_found_task r index id text none s = s
continue_found_task r index id text (some current) s =
    if is_queued current.status || is_running current.status || not (can_continue current)
    then s
    else marked_running (later 1 r.steps) id continuation_refused
        (run_continuation_body r index id text current) (mark_running (r.steps 0).env id s.store) s

-- runContinuation
unfoldable pub run_continuation : Runners → ℕ → Text → Text → Service → Service
unfolding continue_found_task
run_continuation r index id text s = continue_found_task r index id text (get id s.store) s

unfoldable pub work_on : Runners → ℕ → Text → Service × Option Text → Service
unfolding run_task run_continuation
work_on r index id (s, none) = run_task r index id s
work_on r index id (s, some text) = release_task_slot id (run_continuation r index id text s)

unfoldable pub take_turn : Runners → ℕ → List Text → Service → Service
unfolding work_on
take_turn r index [] s = s
take_turn r index (id ∷ rest) s =
    work_on r index id (take_queued_message id (record s { queue = rest }))

-- One turn of the loop of worker: the id in front of the queue is received and worked on. A service
-- that has been stopped works on nothing, and an empty queue is waited for.
unfoldable pub worker_turn : Runners → ℕ → Service → Service
unfolding take_turn
worker_turn r index s = if s.stopped then s else take_turn r index s.queue s
