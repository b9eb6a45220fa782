-- ===== src/Task.antt =====
-- The task record and its views (internal/app/model.go).
-- A Go pointer field is an `Option`, a time.Time the number of nanoseconds since a fixed moment, and
-- TaskStatus, which is a string in Go, has a constructor for every other string.
pub mod View
use ctf_agent.Base.{
  ℕ, Bool, true, false, ◌&&◌, ◌||◌, not, List, [], ◌∷◌, Option, none, some, is_some, if◌then◌else◌,
}
use ctf_agent.Base.Int.{ℤ}
use ctf_agent.Text.{Text, utf8, is_empty, is_blank, trim_space, lower, contains}

pub data TaskStatus : Type 0 where
  queued running completed solved failed : TaskStatus
  other : Text → TaskStatus

pub record Task : Type 0 where
  pub schema_version : ℤ
  pub id : Text
  pub name : Text
  pub category : Text
  pub description : Text
  pub target_ip : Text
  pub attachments_dir : Text
  pub attachment_count : ℕ
  pub status : TaskStatus
  pub flag : Option Text
  pub exit_code : Option ℤ
  pub error : Option Text
  pub last_step : Text
  pub writeup_file_name : Text
  pub container_name : Text
  pub container_kept : Bool
  pub opencode_session : Text
  pub created_at : ℕ
  pub started_at : Option ℕ
  pub finished_at : Option ℕ
  pub log_size : ℕ

abbrev pub is_queued : TaskStatus → Bool
is_queued queued = true
is_queued _ = false

abbrev pub is_running : TaskStatus → Bool
is_running running = true
is_running _ = false

abbrev pub is_solved : TaskStatus → Bool
is_solved solved = true
is_solved _ = false

abbrev pub is_failed : TaskStatus → Bool
is_failed failed = true
is_failed _ = false

abbrev pub string_ptr_value : Option Text → Text
string_ptr_value none = []
string_ptr_value (some value) = value

unfoldable pub mentions_opencode : Text → Bool
unfolding contains utf8
mentions_opencode normalized =
    contains (utf8 "opencode") normalized
    || contains (utf8 "open code") normalized
    || contains (utf8 "model is not configured") normalized

-- The loop of openCodeErrorMessage over the two texts; "" if neither reports an error.
unfoldable pub first_opencode_error : List Text → Text
unfolding mentions_opencode
first_opencode_error [] = []
first_opencode_error (value ∷ rest) =
    let normalized = lower (trim_space value) in
    if not (is_empty normalized) && mentions_opencode normalized
    then trim_space value
    else first_opencode_error rest

unfoldable pub open_code_error_message : Task → Text
unfolding first_opencode_error
open_code_error_message task =
    first_opencode_error (string_ptr_value task.error ∷ task.last_step ∷ [])

-- The status, the message and whether a session is available.
abbrev pub OpenCodeState : Type 0
OpenCodeState = Text × Text × Bool

unfoldable pub open_code_state_of : Task → OpenCodeState
unfolding utf8
open_code_state_of task =
    let message = open_code_error_message task in
    if not (is_empty message)
    then (utf8 "error", message, false)
    else if is_running task.status && not (is_empty task.container_name)
    then if not (is_empty task.opencode_session)
      then (utf8 "ready", utf8 "OpenCode终端会话运行中", true)
      else (utf8 "starting", utf8 "OpenCode终端正在启动", false)
    else if not (is_empty task.opencode_session)
    then (utf8 "ready", utf8 "OpenCode终端会话已记录", true)
    else (utf8 "unavailable", utf8 "OpenCode服务不可用", false)

unfoldable pub open_code_state : Option Task → OpenCodeState
unfolding open_code_state_of
open_code_state none = (utf8 "unavailable", utf8 "任务不存在", false)
open_code_state (some task) = open_code_state_of task

unfoldable pub terminal_message_state : Option Task → Bool × Text
unfolding utf8 is_blank
terminal_message_state none = (false, utf8 "任务不存在")
terminal_message_state (some task) =
    if is_queued task.status || is_running task.status
    then (false, utf8 "当前回合运行中，结束后可继续发送")
    else if not task.container_kept || is_empty task.container_name
    then (false, utf8 "容器未保留，不能继续发送")
    else if is_blank task.opencode_session
    then (false, utf8 "缺少OpenCode终端会话，不能继续发送")
    else (true, utf8 "可以继续向OpenCode发送消息")

abbrev pub has_writeup : Task → Bool
has_writeup task = is_solved task.status && not (is_empty task.writeup_file_name)
