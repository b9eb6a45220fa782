-- ===== src/Docker/Run/Answers.antt =====
-- What docker info, the memory events of a container and its state are read as
-- (internal/app/docker.go).
use ctf_agent.Base.{
  ℕ, Bool, true, false, not, ◌&&◌, Option, none, some, List, [], ◌∷◌, if◌then◌else◌,
}
use ctf_agent.Base.Int.{ℤ, pos, negsuc}
use ctf_agent.Docker.{Answer}
use ctf_agent.Docker.Limits.{ResourceLimits, auto_docker_resource_limits, OomSnapshot}
use ctf_agent.Text.{Text, utf8, text_eq, trim_space, split}
use ctf_agent.Text.Cut.{equal_fold, fields}
use ctf_agent.Text.Parse.{parse_int, parse_uint, parse_bool}

abbrev pub auto_word : Text
unfolding utf8
auto_word = utf8 "auto"

abbrev pub default_limits : ResourceLimits
unfolding utf8
default_limits = record { memory = utf8 "4g"; cpus = utf8 "2" }

-- A negative number counts as 0: for both parameters autoDockerResourceLimits has its least result.
abbrev pub at_least_zero : ℤ → ℕ
at_least_zero (pos n) = n
at_least_zero (negsuc n) = 0

abbrev pub limits_of : Option ℤ → Option ℤ → ResourceLimits
limits_of (some ncpu) (some memory) =
    auto_docker_resource_limits (at_least_zero ncpu) (at_least_zero memory)
limits_of _ _ = default_limits

abbrev pub limits_of_fields : List Text → ResourceLimits
limits_of_fields (ncpu ∷ memory ∷ []) = limits_of (parse_int ncpu) (parse_int memory)
limits_of_fields _ = default_limits

abbrev pub host_limits : Answer → Option Text → ResourceLimits
host_limits info (some failure) = default_limits
host_limits info none = limits_of_fields (fields info.output)

-- resolveDockerResourceLimits; the answer is that of docker info.
unfoldable pub resolve_docker_resource_limits : Answer → Text → Text → ResourceLimits
unfolding trim_space equal_fold fields parse_int auto_docker_resource_limits
resolve_docker_resource_limits info memory cpus =
    let m = trim_space memory in
    let c = trim_space cpus in
    let auto = host_limits info info.failure in
    if not (equal_fold m auto_word) && not (equal_fold c auto_word)
    then record { memory = m; cpus = c }
    else record {
      memory = if equal_fold m auto_word then auto.memory else m;
      cpus = if equal_fold c auto_word then auto.cpus else c;
    }

unfoldable pub kill_count_of : List Text → Option (Option ℕ)
unfolding utf8 text_eq parse_uint
kill_count_of (key ∷ count ∷ []) =
    if text_eq key (utf8 "oom_kill") then some (parse_uint count) else none
kill_count_of _ = none

-- parseDockerOOMKillCount over the lines; the first line of the key decides.
unfoldable pub oom_kill_count : List Text → Option ℕ
unfolding fields kill_count_of
oom_kill_count [] = none
oom_kill_count (line ∷ lines) = elim (kill_count_of (fields line)) [
  | some count ↦ count
  | none ↦ oom_kill_count lines
]

abbrev pub events_count : Answer → Option Text → Option ℕ
events_count events (some failure) = none
events_count events none = oom_kill_count (split b'\n' (trim_space events.output))

abbrev pub no_snapshot : OomSnapshot
no_snapshot = record { kill_count = 0; has_count = false; killed = false; has_state = false }

abbrev pub with_state : Option Bool → OomSnapshot
with_state none = no_snapshot
with_state (some killed) = record no_snapshot { killed = killed; has_state = true }

abbrev pub state_of : Answer → Option Text → Option Bool
state_of state (some failure) = none
state_of state none = parse_bool (trim_space state.output)

abbrev pub snapshot_of : Answer → Option ℕ → OomSnapshot
snapshot_of state (some count) = record no_snapshot { kill_count = count; has_count = true }
snapshot_of state none = with_state (state_of state state.failure)

-- readDockerOOMSnapshot: the container's memory events, then its state.
unfoldable pub read_docker_oom_snapshot : Answer → Answer → OomSnapshot
unfolding oom_kill_count split trim_space parse_bool
read_docker_oom_snapshot events state = snapshot_of state (events_count events events.failure)
