-- ===== src/Examples/Services.antt =====
-- The theorems of the service and of the hub at concrete states.
use ctf_agent.Base.{
  arith, ◌++◌, ◌∷◌, ℕ, ◌≡◌, refl, ◌↔◌, inl, inr, true, false, none, some, is_some, subst, [],
  if◌then◌else◌,
}
use ctf_agent.Docker.{DockerResult, DockerContainer, no_result}
use ctf_agent.Docker.Listing.{list_docker_containers}
use ctf_agent.Errors.{canceled, Result, ok, err, not_exist}
use ctf_agent.Examples.{one, task_one, kept_one, calm_env, calm_world, settings, service_with}
use ctf_agent.Hub.{Hub, new_hub, subscribe, subscribers, publish, member}
use ctf_agent.Hub.Delivery.{received, publish_delivers}
use ctf_agent.Map.{Map, lookup}
use ctf_agent.Service.{World, Supply, Service}
use ctf_agent.Store.Marks.{mark_failed}
use ctf_agent.Service.Closing.{is_tracked, stop_task, canceled_by_user, cleanup_expired_containers}
use ctf_agent.Service.Closing.Expired.{is_spared, cleanup_spares}
use ctf_agent.Service.Closing.Removals.{is_among, cleanup_spares_container}
use ctf_agent.Service.Closing.Stop.{is_stoppable, stop_task_stops}
use ctf_agent.Service.Finish.{initial_run, task_was_stopped}
use ctf_agent.Service.Messages.{send_task_message}
use ctf_agent.Service.Messages.Accepted.{Accepts, send_task_message_iff}
use ctf_agent.Service.Runs.{Outcome, HintRunner, run_until_solved}
use ctf_agent.Service.Runs.Rounds.{Ends, run_until_solved-Ends}
use ctf_agent.Service.Worker.{finish_run}
use ctf_agent.Service.Worker.Answers.{finish_run_answers}
use ctf_agent.Service.Worker.Stopped.{after_runners, finish_run_stopped}
use ctf_agent.Config
use ctf_agent.Config.{OpenCodeProviderConfig}
use ctf_agent.Service.Providers.{SaveIo, set_provider_format}
use ctf_agent.Service.Providers.Choice.{FiledByFormat, Chooses, set_provider_format-Chooses}
use ctf_agent.Service.Submit.{submit}
use ctf_agent.Service.Submit.Queued.{submit_queues}
use ctf_agent.Store.{get}
use ctf_agent.Store.Changes.{task_stopped_message}
use ctf_agent.Store.Listing.{list_tasks}
use ctf_agent.Store.Listing.Sorted.{In}
use ctf_agent.Store.Results.{WriteupIo}
use ctf_agent.Disk.{malformed}
use ctf_agent.Task.{Task, failed}
use ctf_agent.Text.{Text, utf8, text_eq, text_eq_iff}

abbrev supply : Supply
supply n = calm_world

abbrev writeup_io : WriteupIo
writeup_io = record { fault = none; as_doc = malformed }

abbrev stopped_one : Task
stopped_one = record task_one {
  status = failed;
  container_name = [];
  last_step = task_stopped_message;
}

-- A result without a flag that leaves a container, and one with a flag.
abbrev unsolved : DockerResult
unsolved = record no_result { container_name = task_one.container_name; retained = true }

abbrev found : DockerResult
unfolding utf8
found = record unsolved { solved = true; flag = utf8 "flag{1}" }

abbrev solver : HintRunner
solver cfg t text s = record { service = service_with task_one; result = found; error = none }

abbrev interrupted : Outcome
interrupted = record {
  service = service_with stopped_one;
  result = no_result;
  error = some canceled;
}

interrupted_stopped : task_was_stopped one (after_runners supply solver one interrupted) ≡ true
unfolding task_was_stopped after_runners ctf_agent.Names.is_safe_task_id one lookup
interrupted_stopped = refl

finish_run_stopped_example :
    let r = finish_run supply supply solver writeup_io one initial_run interrupted in
    (r.1 ≡ some false) × (task_was_stopped one r.0 ≡ true)
finish_run_stopped_example =
    finish_run_stopped supply supply solver writeup_io one initial_run interrupted
      interrupted_stopped

abbrev first_round : Outcome
first_round = record { service = service_with task_one; result = unsolved; error = none }

finish_run_answers_example :
    is_some (finish_run supply supply solver writeup_io one initial_run first_round).1 ≡ true
finish_run_answers_example =
    finish_run_answers supply supply solver writeup_io one initial_run first_round

solved_in_time : (run_until_solved supply solver one unsolved (service_with task_one)).error ≡ none
unfolding run_until_solved get ctf_agent.Names.is_safe_task_id lookup task_was_stopped
    ctf_agent.Text.is_blank ctf_agent.Service.Runs.enrich_runner_result ctf_agent.Store.Logs.logs
    ctf_agent.Runner.Output.parse_runner_output ctf_agent.Text.last_index ctf_agent.Text.unix_lines
    ctf_agent.Runner.Output.final_readable_marker ctf_agent.Text.split
    ctf_agent.Runner.Output.writeup_file_marker
solved_in_time = refl

run_until_solved-Ends_example :
    Ends solver one 2 1 unsolved
      (service_with task_one)
      (run_until_solved supply solver one unsolved (service_with task_one))
unfolding ctf_agent.Examples.settings
run_until_solved-Ends_example =
    run_until_solved-Ends supply solver one unsolved (service_with task_one) solved_in_time

kept_there : get one (service_with kept_one).store ≡ some kept_one
unfolding get ctf_agent.Names.is_safe_task_id one lookup
kept_there = refl

abbrev hint : Text
unfolding utf8
hint = utf8 " try sqlmap "

send_task_message_iff_example :
    ((send_task_message calm_world false (λ x. x) one hint (service_with kept_one)).1 ≡ none)
    ↔ Accepts false kept_one one hint (service_with kept_one)
send_task_message_iff_example =
    send_task_message_iff calm_world false one hint kept_one (service_with kept_one) kept_there

-- The canceled run ends as failed while docker removes the container.
abbrev run_fails : Service → Service
unfolding utf8
run_fails s = record s { store = (mark_failed calm_env one (utf8 "context canceled") s.store).0 }

one_stoppable :
    is_stoppable (get one (run_fails (canceled_by_user one (service_with task_one))).store) ≡ true
unfolding get ctf_agent.Names.is_safe_task_id one lookup mark_failed ctf_agent.Store.update
    ctf_agent.Service.release_task_slot ctf_agent.Disk.write_task ctf_agent.Disk.Atomic.write_file
    ctf_agent.Store.Changes.fail ctf_agent.Service.Closing.cancel_task ctf_agent.Map.insert
one_stoppable = refl

one_closes : (stop_task supply run_fails one (service_with task_one)).1 ≡ none
unfolding stop_task get ctf_agent.Names.is_safe_task_id one lookup
    ctf_agent.Docker.close_task_container ctf_agent.Text.is_blank
    ctf_agent.Names.is_managed_container_name ctf_agent.Text.has_prefix
    ctf_agent.Names.container_prefix ctf_agent.Text.trim_prefix
    ctf_agent.Store.Marks.mark_container_closed ctf_agent.Store.update
    ctf_agent.Service.release_task_slot ctf_agent.Disk.write_task
    ctf_agent.Store.Changes.close_container ctf_agent.Disk.Atomic.write_file mark_failed
    ctf_agent.Store.Changes.fail ctf_agent.Service.Closing.cancel_task ctf_agent.Map.insert
one_closes = refl

stop_task_stops_example :
    task_was_stopped one (stop_task supply run_fails one (service_with task_one)).0 ≡ true
stop_task_stops_example =
    stop_task_stops supply run_fails one (service_with task_one) one_stoppable one_closes

-- A date that cannot be read.
abbrev no_date : Text → Result ℕ
no_date text = err not_exist

one_spared :
    (containers : Map DockerContainer) (t : Task)
    → list_docker_containers calm_world.docker ≡ ok containers
    → In t (list_tasks (service_with task_one).store)
    → text_eq t.id one ≡ true
    → is_spared 1000 100 containers t ≡ true
unfolding list_tasks is_spared task_one
one_spared containers t e (inl p) k = subst (λ u. is_spared 1000 100 containers u ≡ true) p refl
one_spared containers t e (inr nowhere) k = elim nowhere [ ]

cleanup_spares_example :
    let s = service_with task_one in
    lookup one (cleanup_expired_containers no_date calm_world supply supply s).0.store.tasks
    ≡ lookup one s.store.tasks
unfolding ctf_agent.Examples.settings
cleanup_spares_example =
    cleanup_spares no_date calm_world supply supply (service_with task_one) one one_spared

abbrev its_container : Text
unfolding utf8
its_container = utf8 "ctf-agent-t1"

its_container_spared :
    (containers : Map DockerContainer) (t : Task)
    → list_docker_containers calm_world.docker ≡ ok containers
    → In t (list_tasks (service_with task_one).store)
    → text_eq t.container_name its_container ≡ true
    → is_spared 1000 100 containers t ≡ true
unfolding list_tasks is_spared task_one
its_container_spared containers t e (inl p) k =
    subst (λ u. is_spared 1000 100 containers u ≡ true) p refl
its_container_spared containers t e (inr nowhere) k = elim nowhere [ ]

its_container_tracked : is_tracked its_container (list_tasks (service_with task_one).store) ≡ true
unfolding is_tracked list_tasks task_one text_eq ctf_agent.Store.Listing.sort_slice
    ctf_agent.Store.Listing.values ctf_agent.Store.Listing.insert_sorted
its_container_tracked = refl

cleanup_spares_container_example :
    is_among its_container
      (cleanup_expired_containers no_date calm_world supply supply (service_with task_one)).1
    ≡ false
unfolding ctf_agent.Examples.settings
cleanup_spares_container_example =
    cleanup_spares_container no_date calm_world supply supply (service_with task_one) its_container
      its_container_tracked its_container_spared

abbrev watched : Hub
watched = subscribe one (subscribe one new_hub)

publish_delivers_example :
    (after : Hub) × (publish one hint watched ≡ some after)
    × ((ch : ℕ)
        → after.chans ch ≡ (
            if member ch (subscribers one watched)
            then received hint (watched.chans ch)
            else watched.chans ch))
unfolding subscribe subscribers member lookup ctf_agent.Map.insert text_eq one
publish_delivers_example = publish_delivers one hint watched (refl, (refl, tt)) (refl, (refl, tt))

submit_queues_example :
    let s = service_with kept_one in
    let r = submit supply false (λ x. x) task_one s in
    r.0.queue ≡ (if is_some r.1 then s.queue else s.queue ++ task_one.id ∷ [])
submit_queues_example = submit_queues supply false task_one (service_with kept_one)

settings_filed : FiledByFormat settings
unfolding lookup settings
settings_filed key p h = ground (arith, text_eq_iff Config.openai_compatible key)

abbrev save_io : SaveIo
save_io = record { make_dir = none; write = none }

chosen :
    (set_provider_format save_io Config.openai_compatible none (service_with task_one)).2 ≡ none
unfolding set_provider_format Config.provider_for_format Config.canonical_provider_format lookup
    Config.is_configured ctf_agent.Text.is_blank ctf_agent.Disk.Atomic.write_file
chosen = refl

set_provider_format-Chooses_example :
    Chooses settings
      (set_provider_format save_io Config.openai_compatible none (service_with task_one))
set_provider_format-Chooses_example =
    set_provider_format-Chooses save_io Config.openai_compatible none (service_with task_one)
      settings_filed chosen
