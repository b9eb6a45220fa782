-- ===== src/Task/View.antt =====
-- newTaskResponse (internal/app/model.go), and what a client may conclude from it.
use ctf_agent.Base.{ℕ, ◌≡◌, ◌≢◌, ◌↔◌, Bool, true, false, [], Option, some, arith}
use ctf_agent.Base.Int.{ℤ}
use ctf_agent.Text.{Text, is_blank}
use ctf_agent.Task.{
  Task, TaskStatus, queued, running, open_code_state, terminal_message_state, has_writeup,
}

pub record TaskResponse : Type 0 where
  pub id : Text
  pub name : Text
  pub category : Text
  pub description : Text
  pub target_ip : Text
  pub status : TaskStatus
  pub flag : Option Text
  pub exit_code : Option ℤ
  pub error : Option Text
  pub last_step : Text
  pub writeup_file_name : Text
  pub has_writeup_file : Bool
  pub container_name : Text
  pub container_kept : Bool
  pub opencode_session : Text
  pub opencode_available : Bool
  pub opencode_status : Text
  pub opencode_message : Text
  pub can_send_message : Bool
  pub message_status : Text
  pub created_at : ℕ
  pub started_at : Option ℕ
  pub finished_at : Option ℕ
  pub attachment_count : ℕ
  pub log_size : ℕ

unfoldable pub new_task_response : Task → TaskResponse
new_task_response task =
    let (status, message, available) = open_code_state (some task) in
    let (can_send, message_status) = terminal_message_state (some task) in
    record {
      id = task.id;
      name = task.name;
      category = task.category;
      description = task.description;
      target_ip = task.target_ip;
      status = task.status;
      flag = task.flag;
      exit_code = task.exit_code;
      error = task.error;
      last_step = task.last_step;
      writeup_file_name = task.writeup_file_name;
      has_writeup_file = has_writeup task;
      container_name = task.container_name;
      container_kept = task.container_kept;
      opencode_session = task.opencode_session;
      opencode_available = available;
      opencode_status = status;
      opencode_message = message;
      can_send_message = can_send;
      message_status = message_status;
      created_at = task.created_at;
      started_at = task.started_at;
      finished_at = task.finished_at;
      attachment_count = task.attachment_count;
      log_size = task.log_size;
    }

-- What SendTaskMessage demands of a task before it reserves the slot.
pub record Continuable (t : Task) : Type 0 where
  pub not_queued : t.status ≢ queued
  pub not_running : t.status ≢ running
  pub kept : t.container_kept ≡ true
  pub named : t.container_name ≢ []
  pub in_session : is_blank t.opencode_session ≡ false

can_send_sound : (t : Task) → (terminal_message_state (some t)).0 ≡ true → Continuable t
unfolding terminal_message_state
can_send_sound t h = ground arith

can_send_complete : (t : Task) → Continuable t → (terminal_message_state (some t)).0 ≡ true
unfolding terminal_message_state
can_send_complete t h = ground arith

-- The response for a task says that a message can be sent exactly when the task is neither queued
-- nor running and has a kept container with a name and a session.
pub can_send_message_iff :
    (t : Task) → ((new_task_response t).can_send_message ≡ true) ↔ Continuable t
unfolding new_task_response
can_send_message_iff t = (can_send_sound t, can_send_complete t)
