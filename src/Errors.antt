-- ===== src/Errors.antt =====
-- The errors of the program, each with its text (the errors.New calls of internal/app), and the
-- results of fallible code.
use ctf_agent.Text.{Text, utf8}

pub data Err : Type 0 where
  nil_task invalid_task_id task_not_found missing_task_id unsupported_schema : Err
  invalid_writeup_filename store_root_empty : Err
  -- os.ErrNotExist, errTaskQueueFull, errContinueUnavailable, errTaskMessageBusy
  not_exist queue_full continue_unavailable message_busy : Err
  message_required container_not_retained missing_session no_closable_container : Err
  unsupported_provider provider_not_configured active_provider_not_configured : Err
  container_name_empty unmanaged_container invalid_workspace_filename no_retained_container : Err
  agent_script_empty skills_dir_empty upload_too_large : Err
  fragmented_frame unmasked_frame frame_too_long unsupported_opcode : Err
  control_too_large short_write : Err
  -- context.DeadlineExceeded and context.Canceled
  deadline_exceeded canceled : Err
  -- an error that the operating system or a command reports, with its text
  system : Text → Err

-- err.Error()
unfoldable pub message : Err → Text
unfolding utf8
message nil_task = utf8 "task is nil"
message invalid_task_id = utf8 "invalid task id"
message task_not_found = utf8 "task not found"
message missing_task_id = utf8 "missing task id"
message unsupported_schema = utf8 "unsupported task schema version"
message invalid_writeup_filename = utf8 "invalid writeup filename"
message store_root_empty = utf8 "store root is empty"
message not_exist = utf8 "file does not exist"
message queue_full = utf8 "任务队列已满，请稍后再提交"
message continue_unavailable = utf8 "OpenCode未解出且当前容器或session不可继续"
message message_busy = utf8 "当前回合运行中，结束后可继续发送"
message message_required = utf8 "message is required"
message container_not_retained = utf8 "容器未保留，不能继续发送"
message missing_session = utf8 "缺少OpenCode终端会话，不能继续发送"
message no_closable_container = utf8 "task has no closable container"
message unsupported_provider = utf8 "unsupported provider format"
message provider_not_configured = utf8 "provider is not fully configured"
message active_provider_not_configured = utf8 "active provider is not fully configured"
message container_name_empty = utf8 "container name is empty"
message unmanaged_container = utf8 "refusing unmanaged container name"
message invalid_workspace_filename = utf8 "invalid workspace filename"
message no_retained_container = utf8 "no retained container for this task"
message agent_script_empty = utf8 "CTF_AGENT_AGENT_SCRIPT is empty"
message skills_dir_empty = utf8 "CTF_AGENT_SKILLS_DIR is empty"
message upload_too_large = utf8 "uploaded file exceeds 256MiB limit"
message deadline_exceeded = utf8 "context deadline exceeded"
message canceled = utf8 "context canceled"
message fragmented_frame = utf8 "fragmented websocket frames are unsupported"
message unmasked_frame = utf8 "client websocket frame must be masked"
message frame_too_long = utf8 "websocket frame exceeds read limit"
message unsupported_opcode = utf8 "unsupported websocket opcode"
message control_too_large = utf8 "websocket control payload too large"
message short_write = utf8 "short write"
message (system text) = text

pub data Result {ℓ} (A : Type ℓ) : Type ℓ where
  ok : A → Result A
  err : Err → Result A

infixl 5 ◌>>=◌
abbrev pub ◌>>=◌ {ℓ κ} : {A : Type ℓ} {B : Type κ} → Result A → (A → Result B) → Result B
ok a >>= f = f a
err e >>= f = err e
