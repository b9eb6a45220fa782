-- ===== src/Docker/Runner/Commands.antt =====
-- The docker commands that start and remove a task's container (internal/app/docker.go).
use ctf_agent.Base.{Bool, not, ◌||◌, List, [], ◌∷◌, ◌++◌, if◌then◌else◌}
use ctf_agent.Config.{Config, normalize_category, image_for_category}
use ctf_agent.Docker.Limits.{ResourceLimits}
use ctf_agent.Docker.Run.{Action, command, says, RunIo, docker_host_gateway_args}
use ctf_agent.Names.{is_managed_container_name}
use ctf_agent.Task.{Task}
use ctf_agent.Text.{Text, utf8, is_blank}
use ctf_agent.Text.Path.{clean}

-- docker rm -f
unfoldable pub remove_command : Text → List Text
unfolding utf8
remove_command name = utf8 "rm" ∷ utf8 "-f" ∷ name ∷ []

-- The command of CloseTaskContainer, behind its guards; its answer is dropped.
unfoldable pub close_actions : Text → List Action
unfolding remove_command is_blank is_managed_container_name
close_actions name =
    if is_blank name || not (is_managed_container_name name)
    then []
    else command (remove_command name) ∷ []

unfoldable pub limit_args : Text → ResourceLimits → Config → List Text
unfolding utf8
limit_args name limits cfg =
    utf8 "run"
    ∷ utf8 "-d"
    ∷ utf8 "--init"
    ∷ utf8 "--name"
    ∷ name
    ∷ utf8 "--memory"
    ∷ limits.memory
    ∷ utf8 "--memory-swap"
    ∷ limits.memory
    ∷ utf8 "--cpus"
    ∷ limits.cpus
    ∷ utf8 "--pids-limit"
    ∷ cfg.pids_limit
    ∷ utf8 "--cap-drop"
    ∷ utf8 "ALL"
    ∷ utf8 "--security-opt"
    ∷ utf8 "no-new-privileges:true"
    ∷ utf8 "--tmpfs"
    ∷ utf8 "/tmp:rw,noexec,nosuid,size=64m"
    ∷ utf8 "-w"
    ∷ utf8 "/workspace"
    ∷ []

-- dockerMount is filepath.Clean here.
unfoldable pub task_args : Config → Task → List Text
unfolding utf8 clean normalize_category
task_args cfg task =
    utf8 "-v"
    ∷ (clean cfg.agent_script ++ utf8 ":/opt/ctf_agent/agent.py:ro")
    ∷ utf8 "-v"
    ∷ (clean cfg.skills_dir ++ utf8 ":/skills:ro")
    ∷ utf8 "-v"
    ∷ (clean cfg.skills_dir ++ utf8 ":/workspace/.opencode/skills:ro")
    ∷ utf8 "-v"
    ∷ (clean task.attachments_dir ++ utf8 ":/attachments:ro")
    ∷ utf8 "-e"
    ∷ (utf8 "CHALLENGE_NAME=" ++ task.name)
    ∷ utf8 "-e"
    ∷ (utf8 "CHALLENGE_TYPE=" ++ task.category)
    ∷ utf8 "-e"
    ∷ (utf8 "CHALLENGE_DESC=" ++ task.description)
    ∷ utf8 "-e"
    ∷ (utf8 "TARGET_IP=" ++ task.target_ip)
    ∷ utf8 "-e"
    ∷ utf8 "ATTACHMENT_DIR=/attachments"
    ∷ utf8 "-e"
    ∷ utf8 "CTF_AGENT_SKILLS_DIR=/skills"
    ∷ utf8 "-e"
    ∷ (utf8 "CTF_AGENT_SKILL_IDS=" ++ normalize_category task.category)
    ∷ utf8 "-e"
    ∷ utf8 "CTF_AGENT_EXEC_DIR=/workspace/.tmp"
    ∷ utf8 "-e"
    ∷ utf8 "PYTHONUNBUFFERED=1"
    ∷ []

abbrev pub network_args : Bool → List Text
network_args disabled = if disabled then utf8 "--network" ∷ utf8 "none" ∷ [] else []

-- The command that starts the container.
unfoldable pub start_command : RunIo → Config → Task → Text → ResourceLimits → List Text
unfolding utf8 docker_host_gateway_args limit_args task_args image_for_category
start_command io cfg task name limits =
    limit_args name limits cfg
    ++ docker_host_gateway_args io.urls cfg.opencode_base_url
    ++ task_args cfg task
    ++ network_args cfg.disable_network
    ++ image_for_category cfg task.category ∷ utf8 "tail" ∷ utf8 "-f" ∷ utf8 "/dev/null" ∷ []

unfoldable pub starting : Config → Task → ResourceLimits → Action
unfolding utf8 image_for_category
starting cfg task limits = says (
    utf8 "[runner] starting container image="
    ++ image_for_category cfg task.category
    ++ utf8 " mem_limit="
    ++ limits.memory
    ++ utf8 " cpus="
    ++ limits.cpus
    ++ b'\n' ∷ [])
