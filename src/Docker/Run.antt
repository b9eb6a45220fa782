-- ===== src/Docker/Run.antt =====
-- The runs of the agent in a container (internal/app/docker.go): RunDockerTask, RunDockerHint and
-- what they call. A run is the list of what it does, in its order, with its result and its error.
-- What docker answers, what the context says and net/url are arguments. The host is no Windows.
pub mod Answers
use ctf_agent.Base.{
  ℕ, Bool, true, false, not, ◌&&◌, ◌||◌, Option, none, some, is_some, List, [], ◌∷◌, ◌++◌,
  if◌then◌else◌,
}
use ctf_agent.Base.Int.{ℤ, pos, negsuc, is_zero}
use ctf_agent.Config.{Config}
use ctf_agent.Docker.{DockerResult, no_result, Answer}
use ctf_agent.Docker.Limits.{
  ResourceLimits, auto_docker_resource_limits, OomSnapshot, docker_oom_occurred,
}
use ctf_agent.Docker.Run.Answers.{read_docker_oom_snapshot}
use ctf_agent.Errors.{Err, message, system}
use ctf_agent.Store.Changes.{itoa_int}
use ctf_agent.Text.{Text, utf8, text_eq, trim_space, split}
use ctf_agent.Text.Address.{is_loopback_ip}
use ctf_agent.Text.Cut.{equal_fold, fields}
use ctf_agent.Text.Duration.{duration_text}
use ctf_agent.Text.Parse.{parse_int, parse_uint, parse_bool}

-- A docker command with its arguments, a text for the log sink, a name for the container sink.
pub data Action : Type 0 where
  command : List Text → Action
  says : Text → Action
  names : Text → Action

pub record Run : Type 0 where
  pub actions : List Action
  pub result : DockerResult
  pub error : Option Err

-- docker exec of the agent: it cannot be started, it ends with an exit status, or waiting for it
-- fails otherwise; the texts are the pieces of its output.
pub data Agent : Type 0 where
  unstarted : Text → Agent
  exits : List Text → ℤ → Agent
  breaks : List Text → Text → Agent

-- net/url: the host name and the port of an address, none if it cannot be parsed or has no host,
-- and the address with its host replaced.
pub record Urls : Type 0 where
  pub parse : Text → Option (Text × Text)
  pub with_host : Text → Text → Text

pub record RunIo : Type 0 where
  pub urls : Urls
  pub info : Answer
  pub started : Answer
  pub updated : Answer
  pub events_before : Answer
  pub state_before : Answer
  pub events_after : Answer
  pub state_after : Answer
  pub agent : Agent
  -- ctx.Err() from the end of the agent on
  pub ctx : Option Err

abbrev pub dispatched : List Action → Run → Run
dispatched actions r = record r { actions = actions ++ r.actions }

abbrev pub result_of : ℤ → Text → DockerResult
result_of exit_code name = record no_result { exit_code = exit_code; container_name = name }

-- isLoopbackHost
unfoldable pub is_loopback_host : Text → Bool
unfolding utf8 equal_fold is_loopback_ip
is_loopback_host host = equal_fold host (utf8 "localhost") || is_loopback_ip host

abbrev pub host_internal : Text
unfolding utf8
host_internal = utf8 "host.docker.internal"

abbrev pub internal_host : Text → Text
internal_host [] = host_internal
internal_host (c ∷ port) = host_internal ++ b':' ∷ c ∷ port

abbrev pub reachable : Urls → Text → Option (Text × Text) → Text
reachable urls trimmed none = trimmed
reachable urls trimmed (some (host, port)) =
    if is_loopback_host host then urls.with_host trimmed (internal_host port) else trimmed

-- dockerReachableBaseURL
unfoldable pub docker_reachable_base_url : Urls → Text → Text
unfolding is_loopback_host trim_space
docker_reachable_base_url urls raw =
    let trimmed = trim_space raw in reachable urls trimmed (urls.parse trimmed)

abbrev pub is_internal : Option (Text × Text) → Bool
is_internal none = false
is_internal (some (host, port)) = equal_fold host host_internal

-- usesDockerHostInternal and dockerHostGatewayArgs
unfoldable pub docker_host_gateway_args : Urls → Text → List Text
unfolding docker_reachable_base_url equal_fold utf8
docker_host_gateway_args urls base_url =
    if is_internal (urls.parse (docker_reachable_base_url urls base_url))
    then utf8 "--add-host" ∷ (host_internal ++ utf8 ":host-gateway") ∷ []
    else []

-- openCodeProviderEnv
unfoldable pub opencode_provider_env : Urls → Config → List Text
unfolding utf8 docker_reachable_base_url duration_text
opencode_provider_env urls cfg =
    (utf8 "OPENCODE_PROVIDER_ID=" ++ cfg.opencode_provider_id)
    ∷ (utf8 "OPENCODE_PROVIDER_NAME=" ++ cfg.opencode_provider_name)
    ∷ (utf8 "OPENCODE_PROVIDER_NPM=" ++ cfg.opencode_provider_npm)
    ∷ (utf8 "OPENCODE_BASE_URL=" ++ docker_reachable_base_url urls cfg.opencode_base_url)
    ∷ (utf8 "OPENCODE_API_KEY=" ++ cfg.opencode_api_key)
    ∷ (utf8 "OPENCODE_MODEL=" ++ cfg.opencode_model)
    ∷ (utf8 "CTF_AGENT_OPENCODE_RUN_TIMEOUT=" ++ duration_text cfg.opencode_run_timeout)
    ∷ (utf8 "CTF_AGENT_OPENCODE_IDLE_TIMEOUT=" ++ duration_text cfg.opencode_idle_timeout)
    ∷ []

unfoldable pub env_args : List Text → List Text
unfolding utf8
env_args [] = []
env_args (item ∷ items) = utf8 "-e" ∷ item ∷ env_args items

unfoldable pub agent_command : Text → List Text → List Text
unfolding utf8 env_args
agent_command name env =
    utf8 "exec"
    ∷ utf8 "-w"
    ∷ utf8 "/workspace"
    ∷ (env_args env ++ name ∷ utf8 "python" ∷ utf8 "/opt/ctf_agent/agent.py" ∷ [])

unfoldable pub said : List Text → List Action
said [] = []
said (text ∷ texts) = says text ∷ said texts

unfoldable pub canceled_run : Text → List Text → Err → Run
unfolding utf8 said
canceled_run name output e = record {
  actions =
      said output
      ++ says (utf8 "[runner] agent execution canceled: " ++ message e ++ b'\n' ∷ []) ∷ [];
  result = result_of (pos 124) name;
  error = some e;
}

unfoldable pub exited_run : Text → List Text → ℤ → Run
unfolding utf8 said itoa_int
exited_run name output code = record {
  actions =
      said output
      ++ says (utf8 "[runner] agent exited with status=" ++ itoa_int code ++ b'\n' ∷ []) ∷ [];
  result = result_of code name;
  error = none;
}

unfoldable pub failed_run : Text → List Text → Err → Run
unfolding said
failed_run name output e = record {
  actions = said output;
  result = result_of (pos 2) name;
  error = some e;
}

-- An exit status other than 0 is an error of Wait, and so is a kill by the context.
abbrev pub waited : Text → Option Err → Agent → Run
waited name ctx (unstarted text) = failed_run name [] (system text)
waited name none (breaks output text) = failed_run name output (system text)
waited name (some e) (breaks output text) = canceled_run name output e
waited name none (exits output code) = exited_run name output code
waited name (some e) (exits output code) =
    if is_zero code then exited_run name output code else canceled_run name output e

-- runAgentInContainer
unfoldable pub run_agent_in_container : RunIo → Text → List Text → Run
unfolding agent_command
run_agent_in_container io name env =
    dispatched (command (agent_command name env) ∷ []) (waited name io.ctx io.agent)

unfoldable pub memory_exceeded : Text → Action
unfolding utf8
memory_exceeded limit = says (
    utf8 "[runner] container memory limit exceeded; OpenCode process was OOM-killed mem_limit="
    ++ limit
    ++ b'\n' ∷ [])

unfoldable pub oom_marked : RunIo → Text → Run → Run
unfolding read_docker_oom_snapshot docker_oom_occurred memory_exceeded
oom_marked io limit r =
    let before = read_docker_oom_snapshot io.events_before io.state_before in
    let after = read_docker_oom_snapshot io.events_after io.state_after in
    if docker_oom_occurred before after
    then record r {
      actions = r.actions ++ memory_exceeded limit ∷ [];
      result = record (r.result) { oom_killed = true };
    }
    else r

-- runAgentWithDiagnostics. The commands that read the snapshots are not among the actions.
unfoldable pub run_agent_with_diagnostics : RunIo → Text → List Text → Text → Run
unfolding run_agent_in_container oom_marked
run_agent_with_diagnostics io name env limit =
    let r = run_agent_in_container io name env in
    if is_zero r.result.exit_code || is_some io.ctx then r else oom_marked io limit r
