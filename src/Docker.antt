-- ===== src/Docker.antt =====
-- Containers (internal/app/docker.go). What the docker command answers is an argument.
pub mod Limits
pub mod Run
pub mod Runner
pub mod Listing
use ctf_agent.Base.{
  ℕ, ◌+◌, Bool, true, false, not, ◌&&◌, ◌||◌, Option, none, some, [], ◌∷◌, ltb, if◌then◌else◌,
}
use ctf_agent.Base.Int.{ℤ, pos}
use ctf_agent.Errors.{
  Err, container_name_empty, unmanaged_container, invalid_workspace_filename, system, Result, ok,
  err,
}
use ctf_agent.Map.{Map}
use ctf_agent.Names.{is_managed_container_name, is_safe_stored_filename}
use ctf_agent.Text.{Text, utf8, contains, is_blank, is_empty, lower, trim_space}

pub record DockerResult : Type 0 where
  pub exit_code : ℤ
  pub container_name : Text
  pub retained : Bool
  pub oom_killed : Bool
  pub solved : Bool
  pub flag : Text
  pub writeup_file_name : Text
  pub writeup_content : Text

-- DockerResult{}
abbrev pub no_result : DockerResult
no_result = record {
  exit_code = pos 0;
  container_name = [];
  retained = false;
  oom_killed = false;
  solved = false;
  flag = [];
  writeup_file_name = [];
  writeup_content = [];
}

pub record DockerContainer : Type 0 where
  pub name : Text
  pub image : Text
  pub status : Text
  pub ports : Text
  pub size : Text
  pub is_up : Bool

-- What a docker command answers: its combined output, and the error's text if it failed.
pub record Answer : Type 0 where
  pub output : Text
  pub failure : Option Text

abbrev pub or_text : Text → Text → Text
or_text [] text = text
or_text (c ∷ message) text = c ∷ message

-- The error that a failed command is reported as.
unfoldable pub command_error : Answer → Text → Err
unfolding trim_space
command_error answer text = system (or_text (trim_space answer.output) text)

unfoldable pub rm_result : Answer → Option Text → Option Err
unfolding command_error
rm_result answer none = none
rm_result answer (some text) =
    if contains (utf8 "no such container") (lower (trim_space answer.output))
    then none
    else some (command_error answer text)

-- CloseTaskContainer; the answer is that of docker rm -f.
unfoldable pub close_task_container : Answer → Text → Option Err
unfolding rm_result
close_task_container answer name =
    if is_blank name
    then some container_name_empty
    else if not (is_managed_container_name name)
    then some unmanaged_container
    else rm_result answer answer.failure

abbrev output_or_error : Answer → Option Text → Result Text
output_or_error answer none = ok answer.output
output_or_error answer (some text) = err (command_error answer text)

-- ReadContainerWorkspaceFile; the answer is that of docker exec cat.
unfoldable pub read_container_workspace_file : Answer → Text → Text → Result Text
read_container_workspace_file answer name filename =
    if is_blank name
    then err container_name_empty
    else if not (is_managed_container_name name)
    then err unmanaged_container
    else if not (is_safe_stored_filename filename)
    then err invalid_workspace_filename
    else output_or_error answer answer.failure
