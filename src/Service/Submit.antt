-- ===== src/Service/Submit.antt =====
-- Submit (internal/app/service.go). Between the write of the task and the send to the queue other
-- goroutines may run: `others` is what they do.
pub mod Queued
use ctf_agent.Base.{◌++◌, Bool, true, false, Option, none, some, if◌then◌else◌}
use ctf_agent.Config.{OpenCodeProviderConfig}
use ctf_agent.Errors.{Err, queue_full, message, Result, ok, err}
use ctf_agent.Service.{
  Supply, Service, workers, publish_task_changed, append_log, queue_is_full, enqueue,
  active_opencode_provider,
}
use ctf_agent.Store.{Store, add}
use ctf_agent.Store.Marks.{mark_failed}
use ctf_agent.Task.{Task}
use ctf_agent.Text.{Text, utf8, itoa}

unfoldable pub queued_log : Service → Text
unfolding utf8
queued_log s = utf8 "[dispatcher] queued workers=" ++ itoa (workers s.cfg) ++ utf8 "\n"

-- After the send to the queue.
unfoldable pub sent : Supply → Text → Service × Bool → Service × Option Err
sent w id (s, true) = (append_log (w 2) id (queued_log s) s, none)
sent w id (s, false) =
    let (store, e) = mark_failed (w 1).env id (message queue_full) s.store in
    (publish_task_changed id (record s { store = store }), some queue_full)

abbrev pub added :
    Supply → Bool → (Service → Service) → Text → Store × Option Err → Service → Service × Option Err
added w pick others id (store, some e) s = (record s { store = store }, some e)
added w pick others id (store, none) s =
    sent w id (enqueue pick id (others (publish_task_changed id (record s { store = store }))))

abbrev pub admitted :
    Supply
    → Bool
    → (Service → Service)
    → Task
    → Result OpenCodeProviderConfig
    → Service
    → Service × Option Err
admitted w pick others task (err e) s = (s, some e)
admitted w pick others task (ok p) s =
    if queue_is_full s
    then (s, some queue_full)
    else added w pick others task.id (add (w 0).env (some task) s.store) s

-- Submit
unfoldable pub submit : Supply → Bool → (Service → Service) → Task → Service → Service × Option Err
unfolding sent queue_is_full
submit w pick others task s = admitted w pick others task (active_opencode_provider s) s
