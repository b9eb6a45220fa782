-- ===== src/Service/Messages.antt =====
-- SendTaskMessage (internal/app/service.go). Between the reading of the task and the reservation
-- other goroutines may run: `others` is what they do.
pub mod Accepted
use ctf_agent.Base.{ℕ, Bool, true, false, not, ◌&&◌, ◌||◌, Option, none, some, if◌then◌else◌}
use ctf_agent.Config.{OpenCodeProviderConfig}
use ctf_agent.Errors.{
  Err, not_exist, message_required, message_busy, container_not_retained, missing_session,
  queue_full, Result, ok, err,
}
use ctf_agent.Service.{
  World, Service, append_log, enqueue, active_opencode_provider, reserve_task_message,
  release_task_slot,
}
use ctf_agent.Store.{get}
use ctf_agent.Task.{Task, is_queued, is_running}
use ctf_agent.Text.{Text, utf8, is_blank, is_empty, trim_space}

abbrev pub continuation_queued : Text
unfolding utf8
continuation_queued = utf8 "[dispatcher] continuation queued\n"

abbrev pub provider_error : Result OpenCodeProviderConfig → Option Err
provider_error (ok p) = none
provider_error (err e) = some e

-- The checks, in their order, of a task that was found.
unfoldable pub refusal : Task → Text → Service → Option Err
refusal t text s =
    if is_empty text
    then some message_required
    else if is_running t.status || is_queued t.status
    then some message_busy
    else if not t.container_kept || is_empty t.container_name
    then some container_not_retained
    else if is_blank t.opencode_session
    then some missing_session
    else provider_error (active_opencode_provider s)

unfoldable pub after_enqueue : World → Text → Service × Bool → Service × Option Err
unfolding release_task_slot
after_enqueue w id (s, true) = (append_log w id continuation_queued s, none)
after_enqueue w id (s, false) = (release_task_slot id s, some queue_full)

unfoldable pub after_reserve : World → Bool → Text → Service × Bool → Service × Option Err
unfolding enqueue after_enqueue
after_reserve w pick id (s, true) = after_enqueue w id (enqueue pick id s)
after_reserve w pick id (s, false) = (s, some message_busy)

abbrev pub unless_refused :
    World → Bool → (Service → Service) → Text → Text → Option Err → Service → Service × Option Err
unless_refused w pick others id text (some e) s = (s, some e)
unless_refused w pick others id text none s =
    after_reserve w pick id (reserve_task_message id text (others s))

abbrev pub send_found :
    World → Bool → (Service → Service) → Text → Text → Option Task → Service → Service × Option Err
send_found w pick others id text none s = (s, some not_exist)
send_found w pick others id text (some t) s =
    unless_refused w pick others id text (refusal t text s) s

-- SendTaskMessage
unfoldable pub send_task_message :
    World → Bool → (Service → Service) → Text → Text → Service → Service × Option Err
unfolding refusal reserve_task_message after_reserve
send_task_message w pick others id text s =
    send_found w pick others id (trim_space text) (get id s.store) s
