-- ===== src/Service/Finish.antt =====
-- How a run's result is recorded (internal/app/service.go): runnerFailureMessage,
-- markRunnerResult, taskWasStopped.
use ctf_agent.Base.{Bool, false, ◌&&◌, ◌||◌, Option, none, some, ◌++◌, if◌then◌else◌}
use ctf_agent.Base.Int.{is_int, is_zero}
use ctf_agent.Config.{Config}
use ctf_agent.Docker.{DockerResult}
use ctf_agent.Errors.{Err}
use ctf_agent.Service.{World, Service}
use ctf_agent.Store.{Store, get}
use ctf_agent.Store.Changes.{container_closed_message, task_stopped_message, flag_captured_message}
use ctf_agent.Store.Marks.{mark_completed, mark_finished, mark_finished_with_failure_message}
use ctf_agent.Store.Results.{WriteupIo, save_writeup}
use ctf_agent.Task.{Task, is_failed}
use ctf_agent.Text.{Text, utf8, text_eq, is_empty}
use ctf_agent.Text.Duration.{duration_text}

-- Which of the two callers of finishRun: its texts "task" and "continuation".
pub data Label : Type 0 where
  initial_run continuation_run : Label

abbrev pub label_text : Label → Text
unfolding utf8
label_text initial_run = utf8 "task"
label_text continuation_run = utf8 "continuation"

abbrev run_failed_message : Label → Text
unfolding utf8
run_failed_message continuation_run = utf8 "OpenCode继续执行失败"
run_failed_message initial_run = utf8 "OpenCode本轮执行失败"

-- runnerFailureMessage
unfoldable pub runner_failure_message : DockerResult → Label → Config → Text
unfolding utf8
runner_failure_message r label cfg =
    if r.oom_killed
    then utf8 "OpenCode因容器内存不足被系统终止（当前上限"
      ++ cfg.mem_limit
      ++ utf8 "），请提高CTF_AGENT_MEM_LIMIT并重启服务后重新提交任务"
    else if is_int r.exit_code 124
    then utf8 "OpenCode单轮执行超过"
      ++ duration_text cfg.opencode_run_timeout
      ++ utf8 "上限，容器已保留，可发送消息继续同一session"
    else if is_int r.exit_code 125
    then utf8 "OpenCode连续"
      ++ duration_text cfg.opencode_idle_timeout
      ++ utf8 "无输出，已停止本轮；容器已保留，可发送消息继续同一session"
    else run_failed_message label

abbrev pub not_solved_yet : Text
unfolding utf8
not_solved_yet = utf8 "OpenCode尚未解出，等待继续"

-- Solved results keep a write-up only if it has a name and a content.
unfoldable pub keep_writeup :
    World → WriteupIo → Text → DockerResult → Store × Option Err → Store × Option Err
keep_writeup w io id r (s, some e) = (s, some e)
keep_writeup w io id r (s, none) =
    if is_empty r.writeup_file_name || is_empty r.writeup_content
    then (s, none)
    else save_writeup w.env io id r.writeup_file_name r.writeup_content s

-- markRunnerResult on the store. What docker answers to the removal of the container is ignored.
unfoldable pub mark_runner_result :
    World → WriteupIo → Text → DockerResult → Label → Config → Store → Store × Option Err
unfolding keep_writeup
mark_runner_result w io id r label cfg s =
    if r.solved
    then keep_writeup w io id r (
        mark_finished w.env id r.exit_code (some r.flag) flag_captured_message r.container_name
          false s)
    else if is_zero r.exit_code
    then mark_completed w.env id r.exit_code not_solved_yet r.container_name r.retained s
    else mark_finished_with_failure_message w.env id r.exit_code none
        (runner_failure_message r label cfg) r.container_name r.retained
        (runner_failure_message r label cfg) s

abbrev pub stopped_task : Option Task → Bool
stopped_task none = false
stopped_task (some t) =
    is_failed t.status
    && is_empty t.container_name
    && (text_eq t.last_step container_closed_message || text_eq t.last_step task_stopped_message)

-- taskWasStopped
unfoldable pub task_was_stopped : Text → Service → Bool
unfolding get
task_was_stopped id s = stopped_task (get id s.store)
