-- ===== src/Service/Closing.antt =====
-- Stopping of runs and removal of containers (internal/app/service.go): cancelTask, cancelAllRuns,
-- CloseTaskContainer, recoverInterruptedRunningContainers, cleanupExpiredContainers.
pub mod Expired
pub mod Removals
pub mod Stop
use ctf_agent.Base.{
  ℕ, zero, suc, ◌+◌, ◌-◌, Bool, true, false, not, ◌&&◌, ◌||◌, Option, none, some, is_some, List, [],
  ◌∷◌, ltb, leb, if◌then◌else◌, ◌==◌,
}
use ctf_agent.Docker.{DockerContainer, Answer, close_task_container}
use ctf_agent.Docker.Listing.{list_docker_containers, docker_container_created_at}
use ctf_agent.Errors.{Err, not_exist, no_closable_container, Result, ok, err}
use ctf_agent.Map.{Map, lookup, insert}
use ctf_agent.Service.{
  World, Supply, later, Service, publish_task_changed, append_log, release_task_slot,
}
use ctf_agent.Service.Worker.Ends.{dispatcher}
use ctf_agent.Store.{Store, get}
use ctf_agent.Store.Changes.{task_stopped_message}
use ctf_agent.Store.Listing.{list_tasks}
use ctf_agent.Store.Marks.{mark_stopped, mark_container_closed, mark_interrupted_container_retained}
use ctf_agent.Task.{Task, is_queued, is_running}
use ctf_agent.Text.{Text, utf8, is_empty, text_eq}

-- cancelTask
unfoldable pub cancel_task : Text → Service → Service
cancel_task id s =
    if is_some (lookup id s.runs) then record s { runs = insert id true s.runs } else s

unfoldable pub all_canceled : Map Bool → Map Bool
all_canceled [] = []
all_canceled ((id, called) ∷ m) = (id, true) ∷ all_canceled m

-- cancelAllRuns
unfoldable pub cancel_all_runs : Service → Service
unfolding all_canceled
cancel_all_runs s = record s { runs = all_canceled s.runs }

-- What follows a change of the store that succeeded: the event and a line of the log.
unfoldable pub announce : World → Text → Text → Store × Option Err → Service → Service × Option Err
announce w id line (store, some e) s = (record s { store = store }, some e)
announce w id line (store, none) s =
    (append_log w id line (publish_task_changed id (record s { store = store })), none)

abbrev pub queued_stopped : Text
unfolding dispatcher utf8
queued_stopped = dispatcher (utf8 "queued task stopped by user")

abbrev pub closed_by_user : Text
unfolding dispatcher utf8
closed_by_user = dispatcher (utf8 "container closed by user")

-- The container of the task can be closed.
abbrev pub is_closable : Task → Bool
is_closable t = not (is_empty t.container_name) && (t.container_kept || is_running t.status)

abbrev after_removal : Supply → Text → Option Err → Service → Service × Option Err
after_removal w id (some e) s = (s, some e)
after_removal w id none s =
    announce (w 2) id closed_by_user (mark_container_closed (w 1).env id s.store) s

-- `others` is what other goroutines do before the queued task is marked, or while docker removes
-- the container: the canceled run may end in this time.
unfoldable pub close_found :
    Supply → (Service → Service) → Text → Task → Service → Service × Option Err
unfolding announce
close_found w others id t s =
    let s' = others s in
    if is_queued t.status
    then announce (w 1) id queued_stopped (mark_stopped (w 0).env id task_stopped_message s'.store)
        s'
    else if not (is_closable t)
    then (s, some no_closable_container)
    else after_removal w id (close_task_container (w 0).docker t.container_name) s'

abbrev pub canceled_by_user : Text → Service → Service
canceled_by_user id s = release_task_slot id (cancel_task id s)

abbrev close_read :
    Supply → (Service → Service) → Text → Option Task → Service → Service × Option Err
close_read w others id none s = (s, some not_exist)
close_read w others id (some t) s = close_found w others id t (canceled_by_user id s)

-- Service.CloseTaskContainer: stop of a task by its user.
unfoldable pub stop_task : Supply → (Service → Service) → Text → Service → Service × Option Err
unfolding close_found cancel_task
stop_task w others id s = close_read w others id (get id s.store) s

abbrev pub retained_line : Text
unfolding dispatcher utf8
retained_line =
    dispatcher (utf8 "service restarted; existing container retained for manual inspection")

abbrev pub retained_logged : World → Text → Store × Option Err → Service → Service
retained_logged w id (store, some e) s = record s { store = store }
retained_logged w id (store, none) s = append_log w id retained_line (record s { store = store })

unfoldable pub retain_interrupted : Supply → Task → Service → Service
retain_interrupted w t s =
    if is_running t.status && not (is_empty t.container_name)
    then retained_logged (w 1) t.id (mark_interrupted_container_retained (w 0).env t.id s.store) s
    else s

unfoldable pub retain_all : Supply → List Task → Service → Service
unfolding retain_interrupted
retain_all w [] s = s
retain_all w (t ∷ ts) s = retain_all (later 2 w) ts (retain_interrupted w t s)

-- recoverInterruptedRunningContainers
unfoldable pub recover_interrupted_running_containers : Supply → Service → Service
unfolding retain_all
recover_interrupted_running_containers w s = retain_all w (list_tasks s.store) s

abbrev pub finished_or_created : Task → Option ℕ → ℕ
finished_or_created t none = t.created_at
finished_or_created t (some at) = at

-- The time from which the retention of its container counts.
abbrev pub retained_at : Task → ℕ
retained_at t = finished_or_created t t.finished_at

-- now.Sub(t) >= retention; a time that lies ahead has a negative difference.
abbrev pub is_past : ℕ → ℕ → ℕ → Bool
is_past retention now t = leb (t + retention) now

-- The container of the task has been retained for long enough.
unfoldable pub is_expired : ℕ → ℕ → Bool → Task → Bool
is_expired retention now exists t =
    not (is_running t.status) && t.container_kept && exists && is_past retention now (retained_at t)

abbrev pub expired_line : Text
unfolding utf8
expired_line = utf8 "[maintenance] expired retained container removed\n"

-- The state of a pass: the service, the number of removed containers, and the containers for which
-- CloseTaskContainer has been called.
abbrev pub Pass : Type 0
Pass = Service × ℕ × List Text

-- After the removal of a container that has expired; the error of MarkContainerClosed is dropped.
unfoldable pub removed_expired : Supply → Text → Option Err → Pass → Pass
removed_expired w id (some e) (s, n, called) = (s, n, called)
removed_expired w id none (s, n, called) = (
  publish_task_changed id (
      append_log (w 2) id expired_line
        (record s { store = (mark_container_closed (w 1).env id s.store).0 })),
  n + 1,
  called,
)

-- One task of the loop; the container of a task that is kept and is no longer there is forgotten.
unfoldable pub clean_task : Supply → ℕ → ℕ → Map DockerContainer → Task → Pass → Pass
unfolding is_expired removed_expired
clean_task w retention now containers t (s, n, called) =
    if is_empty t.container_name
    then (s, n, called)
    else if t.container_kept && not (is_some (lookup t.container_name containers))
    then (record s { store = (mark_container_closed (w 1).env t.id s.store).0 }, n, called)
    else if is_expired retention now (is_some (lookup t.container_name containers)) t
    then removed_expired w t.id (close_task_container (w 0).docker t.container_name)
        (s, n, t.container_name ∷ called)
    else (s, n, called)

unfoldable pub clean_tasks : Supply → ℕ → ℕ → Map DockerContainer → List Task → Pass → Pass
unfolding clean_task
clean_tasks w retention now containers [] r = r
clean_tasks w retention now containers (t ∷ ts) r =
    clean_tasks (later 3 w) retention now containers ts (clean_task w retention now containers t r)

unfoldable pub is_tracked : Text → List Task → Bool
is_tracked name [] = false
is_tracked name (t ∷ ts) =
    let rest = is_tracked name ts in
    if not (is_empty t.container_name) && text_eq t.container_name name then true else rest

abbrev old_enough : ℕ → ℕ → Result ℕ → Bool
old_enough retention now (ok t) = is_past retention now t
old_enough retention now (err e) = false

-- A container that no task names and that is old enough.
unfoldable pub is_old_stray : (Text → Result ℕ) → Supply → ℕ → ℕ → List Task → Text → Bool
is_old_stray parse w retention now tasks name =
    not (is_tracked name tasks)
    && old_enough retention now (docker_container_created_at parse (w 0).docker name)

unfoldable pub clean_stray : Supply → Text → ℕ × List Text → ℕ × List Text
clean_stray w name (n, called) =
    (if is_some (close_task_container (w 1).docker name) then n else n + 1, name ∷ called)

unfoldable pub clean_strays :
    (Text → Result ℕ)
    → Supply
    → ℕ
    → ℕ
    → List Task
    → Map DockerContainer
    → ℕ × List Text
    → ℕ × List Text
unfolding is_old_stray is_tracked clean_stray
clean_strays parse w retention now tasks [] r = r
clean_strays parse w retention now tasks ((name, c) ∷ rest) r =
    clean_strays parse (later 2 w) retention now tasks rest
      (if is_old_stray parse w retention now tasks name then clean_stray w name r else r)

abbrev cleaned :
    (Text → Result ℕ)
    → Supply
    → Supply
    → ℕ
    → Result (Map DockerContainer)
    → Service
    → Service × List Text
cleaned parse w strays now (err e) s = (s, [])
cleaned parse w strays now (ok containers) s =
    let tasks = list_tasks s.store in
    let retention = s.cfg.container_retention in
    let (s', n, called) = clean_tasks w retention now containers tasks (s, 0, []) in
    let (removed, called') = clean_strays parse strays retention now tasks containers (n, called) in
    (record s' { last_cleanup_at = some now; last_cleanup_removed = removed }, called')

-- cleanupExpiredContainers, with the containers for which it calls CloseTaskContainer. The first world answers docker ps, `w` is for the tasks, `strays` for
-- the containers that no task names.
unfoldable pub cleanup_expired_containers :
    (Text → Result ℕ) → World → Supply → Supply → Service → Service × List Text
unfolding clean_tasks clean_strays
cleanup_expired_containers parse first w strays s =
    if s.cfg.container_retention == 0
    then (s, [])
    else cleaned parse w strays first.env.now (list_docker_containers first.docker) s
