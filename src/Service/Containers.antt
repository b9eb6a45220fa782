-- ===== src/Service/Containers.antt =====
-- ListManagedContainers (internal/app/service.go) and its response (internal/app/model.go).
pub mod Listed
use ctf_agent.Base.{
  ℕ, Bool, true, false, not, ◌&&◌, ◌||◌, Option, none, some, is_some, List, [], ◌∷◌, ◌++◌, length,
  if◌then◌else◌,
}
use ctf_agent.Config.{Config, image_for_category}
use ctf_agent.Docker.{Answer, DockerContainer, or_text}
use ctf_agent.Docker.Listing.{list_docker_containers}
use ctf_agent.Errors.{Err, message, Result, ok, err}
use ctf_agent.Map.{Map, lookup}
use ctf_agent.Service.{Service}
use ctf_agent.Store.Listing.{list_tasks}
use ctf_agent.Task.{
  Task, TaskStatus, is_running, open_code_state, terminal_message_state, has_writeup,
}
use ctf_agent.Text.{Text, utf8, is_empty}

pub record ContainerResponse : Type 0 where
  pub task_id : Text
  pub task_name : Text
  pub category : Text
  pub task_status : TaskStatus
  pub container_name : Text
  pub container_state : Text
  pub image : Text
  pub docker_status : Text
  pub disk_usage : Text
  pub docker_found : Bool
  pub docker_running : Bool
  pub last_step : Text
  pub opencode_session : Text
  pub opencode_available : Bool
  pub opencode_status : Text
  pub opencode_message : Text
  pub can_send_message : Bool
  pub message_status : Text
  pub has_writeup_file : Bool
  pub created_at : ℕ
  pub started_at : Option ℕ
  pub finished_at : Option ℕ
  pub log_size : ℕ

pub record ContainerListResponse : Type 0 where
  pub containers : List ContainerResponse
  pub docker_available : Bool
  pub docker_error : Text
  pub live_count : ℕ
  pub tracked_count : ℕ
  pub last_cleanup_at : Option ℕ
  pub cleanup_removed : ℕ

-- managedContainerState
unfoldable pub managed_container_state : Task → DockerContainer → Bool → Bool → Text
unfolding utf8
managed_container_state task info found available =
    if available && not found
    then utf8 "missing"
    else if found && not info.is_up
    then utf8 "exited"
    else if is_running task.status || info.is_up
    then utf8 "running"
    else utf8 "retained"

-- DockerContainer{}
abbrev pub no_container : DockerContainer
no_container = record { name = []; image = []; status = []; ports = []; size = []; is_up = false }

abbrev pub or_no_container : Option DockerContainer → DockerContainer
or_no_container none = no_container
or_no_container (some c) = c

-- The name of the task's container.
unfoldable pub managed_name : Task → Text
unfolding utf8
managed_name task = or_text task.container_name (utf8 "ctf-agent-" ++ task.id)

unfoldable pub container_response :
    Task → DockerContainer → Bool → Bool → Config → ContainerResponse
container_response task info found available cfg =
    let (status, message, opencode) = open_code_state (some task) in
    let (can_send, message_status) = terminal_message_state (some task) in
    record {
      task_id = task.id;
      task_name = task.name;
      category = task.category;
      task_status = task.status;
      container_name = managed_name task;
      container_state = managed_container_state task info found available;
      image = or_text info.image (image_for_category cfg task.category);
      docker_status = info.status;
      disk_usage = info.size;
      docker_found = found;
      docker_running = info.is_up;
      last_step = task.last_step;
      opencode_session = task.opencode_session;
      opencode_available = opencode;
      opencode_status = status;
      opencode_message = message;
      can_send_message = can_send;
      message_status = message_status;
      has_writeup_file = has_writeup task;
      created_at = task.created_at;
      started_at = task.started_at;
      finished_at = task.finished_at;
      log_size = task.log_size;
    }

-- The conditions of the three `continue` statements.
unfoldable pub is_skipped : Task → Bool → Bool → Bool
is_skipped task found available =
    (available && not found)
    || (not available && is_empty task.container_name)
    || not (found || is_running task.status || task.container_kept)

-- buildManagedContainerResponses
unfoldable pub build_managed_container_responses :
    List Task → Map DockerContainer → Bool → Config → List ContainerResponse
unfolding is_skipped container_response managed_name
build_managed_container_responses [] containers available cfg = []
build_managed_container_responses (task ∷ tasks) containers available cfg =
    let rest = build_managed_container_responses tasks containers available cfg in
    let info = lookup (managed_name task) containers in
    if is_skipped task (is_some info) available
    then rest
    else container_response task (or_no_container info) (is_some info) available cfg ∷ rest

abbrev pub containers_of : Result (Map DockerContainer) → Map DockerContainer
containers_of (ok m) = m
containers_of (err e) = []

abbrev pub succeeded : Result (Map DockerContainer) → Bool
succeeded (ok m) = true
succeeded (err e) = false

abbrev error_text : Result (Map DockerContainer) → Text
error_text (ok m) = []
error_text (err e) = message e

-- ListManagedContainers; the answer is that of docker ps.
unfoldable pub list_managed_containers : Answer → Service → ContainerListResponse
unfolding build_managed_container_responses list_docker_containers
list_managed_containers answer s =
    let listed = list_docker_containers answer in
    let rows =
      build_managed_container_responses (list_tasks s.store) (containers_of listed)
        (succeeded listed) s.cfg in
    record {
      containers = rows;
      docker_available = succeeded listed;
      docker_error = error_text listed;
      live_count = length (containers_of listed);
      tracked_count = length rows;
      last_cleanup_at = s.last_cleanup_at;
      cleanup_removed = s.last_cleanup_removed;
    }
