-- ===== src/Service/Containers/Listed.antt =====
-- Which containers the list of ListManagedContainers shows (internal/app/service.go).
use ctf_agent.Base.{◌⊎◌, ◌≡◌, Bool, true, false, not, ◌||◌, is_some, if◌then◌else◌}
use ctf_agent.Config.{Config}
use ctf_agent.Docker.{DockerContainer}
use ctf_agent.Service.{Service}
use ctf_agent.Map.{Map, lookup}
use ctf_agent.Service.Containers.{ContainerResponse}
use ctf_agent.Task.{Task}
use ctf_agent.Text.{utf8}

-- What a row says, given the containers that docker lists and whether it could be asked.
pub record TrueRow (containers : Map DockerContainer) (available : Bool) (row : ContainerResponse)
    : Type 0 where
  pub found_exactly : row.docker_found ≡ is_some (lookup row.container_name containers)
  pub found_if_available : (not available || row.docker_found) ≡ true
  pub state :
      (row.docker_found ≡ false)
      ⊎ (row.container_state ≡ (if row.docker_running then utf8 "running" else utf8 "exited"))
