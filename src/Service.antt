-- ===== src/Service.antt =====
-- The service state and its small methods (internal/app/service.go): log and event publication, the
-- queue, the providers, the reservation of a task for a message.
-- `World` holds what one call takes from its surroundings: the time, and the answers of the system
-- and of docker. A method that makes several such calls takes a supply of worlds, one for each.
pub mod Session
pub mod Start
pub mod Submit
pub mod Messages
pub mod Finish
pub mod Runs
pub mod Worker
pub mod Closing
pub mod Containers
pub mod Providers
use ctf_agent.Base.{
  ℕ, zero, suc, ◌+◌, ◌*◌, Bool, true, false, not, ◌&&◌, ◌||◌, Option, none, some, is_some, List, [],
  ◌∷◌, ◌++◌, length, leb, ltb, if◌then◌else◌,
}
use ctf_agent.Base.Int.{ℤ}
use ctf_agent.Config.{
  Config, OpenCodeProviderConfig, provider_for_format, with_opencode_provider, is_configured,
}
use ctf_agent.Docker.{Answer}
use ctf_agent.Errors.{
  Err, unsupported_provider, active_provider_not_configured, message, Result, ok, err,
}
use ctf_agent.Hub
use ctf_agent.Hub.{Hub}
use ctf_agent.Map.{Map, lookup, insert, delete}
use ctf_agent.Store.{Store, Env, get}
use ctf_agent.Store.Logs
use ctf_agent.Store.Logs.{LogIo}
use ctf_agent.Store.Marks.{mark_opencode_session}
use ctf_agent.Task.{Task, is_failed}
use ctf_agent.Text.{Text, utf8, text_eq, is_empty}
use Session.{extract_opencode_session_id}

pub record World : Type 0 where
  pub env : Env
  pub log : LogIo
  -- ctx.Err() of the run's context
  pub ctx : Option Err
  pub docker : Answer

abbrev pub Supply : Type 0
Supply = ℕ → World

-- The worlds from the `n`-th on.
abbrev pub later : ℕ → Supply → Supply
later n w i = w (n + i)

pub record Service : Type 0 where
  pub cfg : Config
  pub store : Store
  pub hub : Hub
  pub queue : List Text
  -- the channel `done` is closed
  pub stopped : Bool
  -- the runs with their cancel functions: whether it has been called
  pub runs : Map Bool
  pub busy : Map Bool
  pub queued_messages : Map Text
  pub active_provider_format : Text
  pub last_cleanup_at : Option ℕ
  pub last_cleanup_removed : ℕ

abbrev pub workers : Config → ℕ
workers cfg = if ltb cfg.max_containers 1 then 1 else cfg.max_containers

-- cap(s.queue)
abbrev pub queue_capacity : Service → ℕ
queue_capacity s = workers s.cfg * 4

-- json.Marshal of the task_changed event; a task id holds no byte that JSON escapes.
unfoldable pub task_changed_event : Text → Text
unfolding utf8
task_changed_event id =
    if is_empty id
    then utf8 "{\"type\":\"task_changed\"}"
    else utf8 "{\"type\":\"task_changed\",\"task_id\":\"" ++ id ++ utf8 "\"}"

-- No handler unsubscribes a channel twice, so a subscriber is open; where a publication would panic
-- the hub is taken to stay as it was.
unfoldable pub publish_task_changed : Text → Service → Service
publish_task_changed id s = record s {
  hub = Hub.or_same s.hub (Hub.publish_event (task_changed_event id) s.hub);
}

abbrev pub session_marked : Text → Store × Option Err → Service → Service
session_marked id (store, none) s = publish_task_changed id (record s { store = store })
session_marked id (store, some e) s = record s { store = store }

-- The session that a log text reports is recorded with the task.
unfoldable pub record_session : World → Text → Text → Service → Service
record_session w id session s =
    if is_empty session
    then s
    else session_marked id (mark_opencode_session w.env id session s.store) s

abbrev pub logged : World → Text → Text → Store × Option Err → Service → Service
logged w id text (store, some e) s = record s { store = store }
logged w id text (store, none) s =
    let s' = record_session w id (extract_opencode_session_id text) (record s { store = store }) in
    record s' { hub = Hub.or_same s'.hub (Hub.publish id text s'.hub) }

-- AppendLog
unfoldable pub append_log : World → Text → Text → Service → Service
append_log w id text s = logged w id text (Logs.append_log w.log id text s.store) s

unfoldable pub queue_is_full : Service → Bool
queue_is_full s = leb (queue_capacity s) (length s.queue)

-- enqueue: where the queue has room and the service is stopping, select may take either case, the
-- send if `pick` is true.
unfoldable pub enqueue : Bool → Text → Service → Service × Bool
enqueue pick id s =
    if ltb (length s.queue) (queue_capacity s) && (not s.stopped || pick)
    then (record s { queue = s.queue ++ id ∷ [] }, true)
    else (s, false)

abbrev configured_or : Option OpenCodeProviderConfig → Result OpenCodeProviderConfig
configured_or none = err unsupported_provider
configured_or (some p) = if is_configured p then ok p else err active_provider_not_configured

unfoldable pub active_opencode_provider : Service → Result OpenCodeProviderConfig
active_opencode_provider s = configured_or (provider_for_format s.cfg s.active_provider_format)

abbrev config_with : Config → Result OpenCodeProviderConfig → Config
config_with cfg (ok p) = with_opencode_provider cfg p
config_with cfg (err e) = cfg

unfoldable pub active_docker_config : Service → Config
active_docker_config s = config_with s.cfg (active_opencode_provider s)

abbrev pub is_busy : Option Bool → Bool
is_busy none = false
is_busy (some b) = b

-- reserveTaskMessage
unfoldable pub reserve_task_message : Text → Text → Service → Service × Bool
reserve_task_message id text s = if is_busy (lookup id s.busy) then (s, false) else (
  record s { busy = insert id true s.busy; queued_messages = insert id text s.queued_messages },
  true,
)

-- takeQueuedMessage
unfoldable pub take_queued_message : Text → Service → Service × Option Text
take_queued_message id s =
    (record s { queued_messages = delete id s.queued_messages }, lookup id s.queued_messages)

-- releaseTaskSlot
unfoldable pub release_task_slot : Text → Service → Service
release_task_slot id s = record s {
  busy = delete id s.busy;
  queued_messages = delete id s.queued_messages;
}
