-- ===== src/Docker/Runner.antt =====
-- RunDockerTask and RunDockerHint (internal/app/docker.go) as runs.
pub mod Kept
pub mod Commands
use ctf_agent.Base.{
  ℕ, Bool, true, false, not, ◌&&◌, ◌||◌, Option, none, some, is_some, List, [], ◌∷◌, ◌++◌,
  if◌then◌else◌,
}
use ctf_agent.Base.Int.{pos, is_zero}
use ctf_agent.Config.{Config, normalize_category, image_for_category}
use ctf_agent.Docker.{DockerResult, no_result, Answer, command_error}
use ctf_agent.Docker.Limits.{ResourceLimits}
use ctf_agent.Docker.Run.{
  Action, command, says, names, Run, RunIo, dispatched, result_of, docker_host_gateway_args,
  opencode_provider_env, run_agent_with_diagnostics,
}
use ctf_agent.Docker.Run.Answers.{resolve_docker_resource_limits}
use ctf_agent.Docker.Runner.Commands.{remove_command, close_actions, start_command, starting}
use ctf_agent.Errors.{
  Err, agent_script_empty, skills_dir_empty, no_retained_container, unmanaged_container, system,
}
use ctf_agent.Names.{container_prefix, is_managed_container_name}
use ctf_agent.Task.{Task}
use ctf_agent.Text.{Text, utf8, is_empty, is_blank}
use ctf_agent.Text.Path.{clean}

abbrev pub failed_with : DockerResult → Err → Run
failed_with result e = record { actions = []; result = result; error = some e }

abbrev pub line : Text → Text → Action
line text name = says (text ++ name ++ b'\n' ∷ [])

abbrev pub keep : Run → Run
keep r = record r { result = record (r.result) { retained = true } }

abbrev pub with_action : Action → Run → Run
with_action a r = record r { actions = r.actions ++ a ∷ [] }

-- What both runners do behind the agent: the end of the context closes the container, an error is
-- returned as it is, any exit status keeps the container; one that is not 0 is logged.
unfoldable pub settle_run : Option Err → Text → Action → Run → Run
unfolding close_actions
settle_run (some e) name failure r = record r {
  actions = r.actions ++ close_actions name;
  error = some e;
}
settle_run none name failure r =
    if is_some r.error
    then r
    else if is_zero r.result.exit_code
    then keep r
    else with_action failure (keep r)

abbrev pub named : Text → Run → Run
named name r = record r { result = record (r.result) { container_name = name } }

abbrev pub container_line : Text
unfolding utf8
container_line = utf8 "[runner] container_name="

abbrev pub failed_line : Text
unfolding utf8
failed_line = utf8 "[runner] failed container retained for hints container_name="

-- Behind docker run.
unfoldable pub started_run : RunIo → Config → Text → ResourceLimits → Option Text → Run
unfolding settle_run run_agent_with_diagnostics opencode_provider_env
started_run io cfg name limits (some failure) =
    failed_with (result_of (pos 2) name) (system io.started.output)
started_run io cfg name limits none = dispatched (line container_line name ∷ names name ∷ []) (
    settle_run io.ctx name (line failed_line name) (
      named name
        (run_agent_with_diagnostics io name (opencode_provider_env io.urls cfg) limits.memory)))

unfoldable pub task_container : Task → Text
task_container task = container_prefix ++ task.id

-- RunDockerTask
unfoldable pub run_docker_task : RunIo → Config → Task → Run
unfolding started_run starting start_command remove_command resolve_docker_resource_limits
    task_container
run_docker_task io cfg task =
    let name = task_container task in
    let limits = resolve_docker_resource_limits io.info cfg.mem_limit cfg.cpus in
    let refused = record no_result { exit_code = pos 2 } in
    if is_empty cfg.agent_script
    then failed_with refused agent_script_empty
    else if is_empty cfg.skills_dir
    then failed_with refused skills_dir_empty
    else dispatched
        (command (remove_command name)
          ∷ starting cfg task limits
          ∷ command (start_command io cfg task name limits)
          ∷ [])
        (started_run io cfg name limits io.started.failure)

-- updateDockerResourceLimits
unfoldable pub update_command : Text → ResourceLimits → List Text
unfolding utf8
update_command name limits =
    utf8 "update"
    ∷ utf8 "--memory"
    ∷ limits.memory
    ∷ utf8 "--memory-swap"
    ∷ limits.memory
    ∷ utf8 "--cpus"
    ∷ limits.cpus
    ∷ name
    ∷ []

unfoldable pub hint_env : RunIo → Config → Task → Text → List Text
unfolding utf8 opencode_provider_env
hint_env io cfg task hint =
    opencode_provider_env io.urls cfg
    ++ (utf8 "CTF_AGENT_USER_HINT=" ++ hint)
      ∷ (if is_empty task.opencode_session
          then []
          else (utf8 "OPENCODE_SESSION_ID=" ++ task.opencode_session) ∷ [])

unfoldable pub updated_action : ResourceLimits → Action
unfolding utf8
updated_action limits = says (
    utf8 "[runner] retained container resources mem_limit="
    ++ limits.memory
    ++ utf8 " cpus="
    ++ limits.cpus
    ++ b'\n' ∷ [])

abbrev pub still_line : Text
unfolding utf8
still_line = utf8 "[runner] retained container still available for another hint container_name="

abbrev pub continuing_line : Text
unfolding utf8
continuing_line = utf8 "[runner] continuing retained container_name="

-- Behind docker update.
unfoldable pub updated_run : RunIo → Config → Task → Text → ResourceLimits → Option Text → Run
unfolding settle_run run_agent_with_diagnostics hint_env updated_action
updated_run io cfg task hint limits (some failure) =
    failed_with (record (result_of (pos 2) task.container_name) { retained = true })
      (command_error io.updated failure)
updated_run io cfg task hint limits none = dispatched (updated_action limits ∷ []) (
    settle_run io.ctx task.container_name (line still_line task.container_name)
      (run_agent_with_diagnostics io task.container_name (hint_env io cfg task hint) limits.memory))

-- RunDockerHint
unfoldable pub run_docker_hint : RunIo → Config → Task → Text → Run
unfolding updated_run update_command is_managed_container_name resolve_docker_resource_limits
run_docker_hint io cfg task hint =
    let name = task.container_name in
    let limits = resolve_docker_resource_limits io.info cfg.mem_limit cfg.cpus in
    let refused = record no_result { exit_code = pos 2 } in
    if is_empty name || not task.container_kept
    then failed_with refused no_retained_container
    else if not (is_managed_container_name name)
    then failed_with refused unmanaged_container
    else dispatched (line continuing_line name ∷ command (update_command name limits) ∷ [])
        (updated_run io cfg task hint limits io.updated.failure)
