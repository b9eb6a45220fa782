-- ===== src/Store/Changes.antt =====
-- The functions that the Mark methods hand to Store.update, one for each method, with `now` for
-- time.Now().UTC().
use ctf_agent.Base.{ℕ, Bool, true, false, ◌||◌, Option, none, some, if◌then◌else◌, ◌++◌, is_some}
use ctf_agent.Base.Int.{ℤ, pos, negsuc}
use ctf_agent.Text.{Text, utf8, text_eq, is_empty, is_blank, trim_space, itoa}
use ctf_agent.Task.{
  Task, queued, running, completed, solved, failed, is_queued, is_running, is_solved,
}
use Prim.Native.Nat.{suc}
use mathlib.Core.List.{[]}

abbrev pub container_closed_message : Text
unfolding utf8
container_closed_message = utf8 "容器已关闭"

abbrev pub task_stopped_message : Text
unfolding utf8
task_stopped_message = utf8 "任务已停止"

abbrev pub task_timeout_message : Text
unfolding utf8
task_timeout_message = utf8 "任务执行超时"

abbrev pub executing_message : Text
unfolding utf8
executing_message = utf8 "任务正在执行"

abbrev pub flag_captured_message : Text
unfolding utf8
flag_captured_message = utf8 "Flag已捕获"

abbrev pub retained_message : Text
unfolding utf8
retained_message =
    utf8 "service restarted while task was running; container retained for manual inspection"

-- strconv.Itoa of an int
unfoldable pub itoa_int : ℤ → Text
unfolding itoa utf8
itoa_int (pos n) = itoa n
itoa_int (negsuc n) = utf8 "-" ++ itoa (suc n)

-- MarkRunning
unfoldable pub start : ℕ → Task → Task
start now t = record t {
  status = running;
  started_at = some now;
  error = none;
  last_step = executing_message;
}

-- MarkCompleted
unfoldable pub complete_round : ℕ → ℤ → Text → Text → Bool → Task → Task
unfolding utf8
complete_round now exit_code last_step container_name container_kept t = record t {
  exit_code = some exit_code;
  flag = none;
  error = none;
  finished_at = some now;
  last_step =
      let step = trim_space last_step in if is_empty step then utf8 "OpenCode本轮执行结束" else step;
  container_name = container_name;
  container_kept = container_kept;
  status = completed;
}

abbrev pub or_exit_status : Option Text → ℤ → Option Text
unfolding utf8
or_exit_status (some e) exit_code = some e
or_exit_status none exit_code = some (utf8 "runner exited with status " ++ itoa_int exit_code)

abbrev pub failure_error : Text → Option Text → ℤ → Option Text
failure_error message old exit_code =
    if is_empty message then or_exit_status old exit_code else some message

-- The last part of MarkFinishedWithFailureMessage, by whether a flag is given.
unfoldable pub settle : Option Text → Text → ℤ → Task → Task
settle (some flag) message exit_code t = record t { status = solved; error = none }
settle none message exit_code t = record t {
  status = failed;
  error = failure_error message t.error exit_code;
}

-- MarkFinishedWithFailureMessage; MarkFinished is the case of an empty message.
unfoldable pub finish : ℕ → ℤ → Option Text → Text → Text → Bool → Text → Task → Task
unfolding settle
finish now exit_code flag last_step container_name container_kept failure_message t =
    settle flag (trim_space failure_message) exit_code (record t {
      exit_code = some exit_code;
      flag = flag;
      finished_at = some now;
      last_step = last_step;
      container_name = container_name;
      container_kept = container_kept;
    })

abbrev pub or_now : ℕ → Option ℕ → Option ℕ
or_now now none = some now
or_now now (some t) = some t

-- MarkFlag
unfoldable pub capture : ℕ → Text → Task → Task
capture now flag t = record t {
  flag = some (trim_space flag);
  status = solved;
  error = none;
  finished_at = or_now now t.finished_at;
  last_step =
      if is_blank t.last_step || text_eq t.last_step executing_message
      then flag_captured_message
      else t.last_step;
  container_kept = false;
}

-- MarkInvalidFlag
unfoldable pub reject_flag : ℕ → Text → Task → Task
reject_flag now message t = record t {
  flag = none;
  status = failed;
  error = some message;
  last_step = message;
  finished_at = some now;
  container_kept = false;
}

-- MarkFailed
unfoldable pub fail : ℕ → Text → Task → Task
fail now message t = record t {
  status = failed;
  error = some message;
  last_step = message;
  finished_at = some now;
}

-- MarkRuntimeContainer
unfoldable pub set_container : Text → Task → Task
set_container name t = record t { container_name = name }

-- MarkOpenCodeSession
unfoldable pub set_session : Text → Task → Task
set_session session t = record t { opencode_session = trim_space session }

abbrev pub detach : Text → Task → Task
detach step t = record t {
  container_kept = false;
  container_name = [];
  opencode_session = [];
  last_step = step;
}

-- MarkContainerClosed
unfoldable pub close_container : ℕ → Task → Task
close_container now t =
    let closed = detach container_closed_message t in
    if is_running t.status || is_queued t.status
    then record closed {
      status = failed;
      error = some container_closed_message;
      finished_at = some now;
    }
    else closed

-- MarkStopped
unfoldable pub stop : ℕ → Text → Task → Task
stop now message t = record t {
  status = failed;
  error = some message;
  last_step = message;
  finished_at = some now;
  container_kept = false;
  container_name = [];
  opencode_session = [];
}

-- MarkRecovered
unfoldable pub recover : Task → Task
recover t =
    if is_running t.status
    then record t {
      status = queued;
      started_at = none;
      error = none;
      container_kept = false;
      container_name = [];
      opencode_session = [];
    }
    else t

-- MarkInterruptedContainerRetained
unfoldable pub retain : ℕ → Task → Task
retain now t = record t {
  status = failed;
  error = some retained_message;
  last_step = retained_message;
  finished_at = some now;
  container_kept = true;
}

-- MarkFalseLiveCapture, which changes the shared task in place.
unfoldable pub revoke_capture : ℕ → Text → Task → Task
revoke_capture now message t = record t {
  flag = none;
  status = failed;
  exit_code = none;
  error = some message;
  last_step = message;
  finished_at = some now;
  container_kept = true;
  writeup_file_name = [];
}

-- The changes of one round of the loop of ClearResultData.
unfoldable pub clear_results : Task → Task
unfolding utf8
clear_results t =
    let cleared = record t { flag = none; writeup_file_name = [] } in
    if is_solved t.status
    then record cleared {
      status = completed;
      error = none;
      last_step =
          if is_blank t.last_step || text_eq t.last_step flag_captured_message
          then utf8 "历史Flag/WP结果已清理"
          else t.last_step;
    }
    else cleared

-- The `changed` of that round.
unfoldable pub has_results : Task → Bool
has_results t =
    is_some t.flag || (if is_empty t.writeup_file_name then false else true) || is_solved t.status
