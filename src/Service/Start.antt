-- ===== src/Service/Start.antt =====
-- NewService and Close (internal/app/service.go). The workers and the cleaner that NewService starts
-- run beside it: `others` is what they do before the queue is filled.
pub mod Requeued
use ctf_agent.Base.{
  ℕ, zero, suc, ◌+◌, Bool, true, false, not, ◌&&◌, Option, none, some, List, [], ◌∷◌, if◌then◌else◌,
}
use ctf_agent.Base.Int.{pos}
use ctf_agent.Config.{Config}
use ctf_agent.Config.Env.{Environment, env_value}
use ctf_agent.Config.Loaded.{with_opencode_provider_defaults}
use ctf_agent.Disk.{Disk}
use ctf_agent.Errors.{Err, system, Result, ok, err}
use ctf_agent.Hub.{new_hub}
use ctf_agent.Service.{World, Supply, later, Service, append_log, enqueue}
use ctf_agent.Service.Closing.{cancel_all_runs, recover_interrupted_running_containers}
use ctf_agent.Service.Providers.{ProviderFile, load_provider_format}
use ctf_agent.Service.Worker.Ends.{dispatcher}
use ctf_agent.Store.{Store}
use ctf_agent.Store.Listing.{list_tasks, recoverable_ids}
use ctf_agent.Store.Load.{OpenIo, new_store_with_options, default_log_max_backups}
use ctf_agent.Store.Marks.{mark_recovered}
use ctf_agent.Task.{Task, is_running}
use ctf_agent.Text.{Text, utf8, is_empty}

-- What the system answers while the service starts, and the state that it finds.
pub record StartIo : Type 0 where
  pub env : Environment
  pub provider_file : ProviderFile
  pub disk : Disk
  -- os.MkdirAll of the directory of the challenges
  pub made : Option Text
  pub store : OpenIo
  pub interrupted : Supply
  pub requeued : Supply
  pub pick : Bool
  pub others : Service → Service

abbrev pub recovered_line : Text
unfolding dispatcher utf8
recovered_line = dispatcher (utf8 "recovered queued task after service startup")

-- One turn of the loop over the recoverable tasks; what enqueue returns is ignored.
unfoldable pub requeued_after : World → Bool → Text → Store × Option Err → Service → Service
unfolding enqueue append_log
requeued_after w pick id (store, some e) s = record s { store = store }
requeued_after w pick id (store, none) s =
    (enqueue pick id (append_log w id recovered_line (record s { store = store }))).0

unfoldable pub requeue_all : Supply → Bool → List Text → Service → Service
unfolding requeued_after mark_recovered
requeue_all w pick [] s = s
requeue_all w pick (id ∷ ids) s =
    requeue_all (later 2 w) pick ids
      (requeued_after (w 1) pick id (mark_recovered (w 0).env id s.store) s)

-- The service before anything is recovered.
unfoldable pub empty_service : Config → Text → Store → Service
empty_service cfg format store = record {
  cfg = cfg;
  store = store;
  hub = new_hub;
  queue = [];
  stopped = false;
  runs = [];
  busy = [];
  queued_messages = [];
  active_provider_format = format;
  last_cleanup_at = none;
  last_cleanup_removed = 0;
}

unfoldable pub fill_queue : StartIo → Service → Service
unfolding requeue_all recoverable_ids
fill_queue io s = requeue_all io.requeued io.pick (recoverable_ids s.store) s

unfoldable pub with_loaded : StartIo → Config → Result Store → Result Service
unfolding empty_service load_provider_format recover_interrupted_running_containers fill_queue utf8
with_loaded io cfg (err e) = err e
with_loaded io cfg (ok store) =
    let format =
      load_provider_format cfg (env_value (utf8 "OPENCODE_PROVIDER_FORMAT") io.env)
        io.provider_file in
    let s =
      recover_interrupted_running_containers io.interrupted (empty_service cfg format store) in
    ok (fill_queue io (io.others s))

-- NewService
unfoldable pub new_service : StartIo → Config → Result Service
unfolding with_loaded with_opencode_provider_defaults
new_service io config =
    let cfg = with_opencode_provider_defaults io.env config in
    elim io.made [
      | some text ↦ err (system text)
      | none ↦ with_loaded io cfg (
          new_store_with_options io.store cfg.challenge_dir io.disk (pos cfg.log_max_bytes)
            (pos default_log_max_backups))
    ]

unfoldable pub running_containers : List Task → List Text
running_containers [] = []
running_containers (t ∷ ts) =
    let rest = running_containers ts in
    if is_running t.status && not (is_empty t.container_name) then t.container_name ∷ rest else rest

-- Close: the service, and the containers that it asks docker to remove. `waited` tells whether the
-- goroutines ended within ten seconds; `others` is what they do. A second call does nothing.
unfoldable pub close_service : Bool → (Service → Service) → Service → Service × List Text
unfolding cancel_all_runs running_containers list_tasks
close_service waited others s =
    let stopping = others (record (cancel_all_runs s) { stopped = true }) in
    if s.stopped
    then (s, [])
    else if waited
    then (stopping, [])
    else (stopping, running_containers (list_tasks stopping.store))
