-- ===== src/Store/WellFormed.antt =====
-- The invariant of a stored task and the changes of the Mark methods (internal/app/store.go).
use ctf_agent.Base.{ℕ, ◌≡◌, refl, Bool, true, false, Option, none, some, [], ◌∷◌, is_some, arith}
use ctf_agent.Base.Int.{ℤ, pos}
use ctf_agent.Disk.{current_task_schema}
use ctf_agent.Names.{is_safe_task_id}
use ctf_agent.Store.Changes.{
  start, complete_round, finish, failure_error, capture, reject_flag, fail, set_container,
  set_session, close_container, stop, recover, retain, revoke_capture, clear_results,
}
use ctf_agent.Task.{Task, TaskStatus, running, completed, solved, failed}
use ctf_agent.Text.{Text, utf8, trim_space}

abbrev pub has_ended : TaskStatus → Bool
has_ended completed = true
has_ended solved = true
has_ended failed = true
has_ended _ = false

pub record WellFormed (id : Text) (t : Task) : Type 0 where
  pub keyed : t.id ≡ id
  pub safe : is_safe_task_id id ≡ true
  pub solved_flag : t.status ≡ solved → is_some t.flag ≡ true
  pub flag_finished : is_some t.flag ≡ true → is_some t.finished_at ≡ true
  pub ended_finished : has_ended t.status ≡ true → is_some t.finished_at ≡ true
  pub failed_error : t.status ≡ failed → is_some t.error ≡ true
  pub running_started : t.status ≡ running → is_some t.started_at ≡ true

-- A change that keeps the invariant.
pub record Keeps (change : Task → Task) : Type 0 where
  pub at : {id : Text} (t : Task) → WellFormed id t → WellFormed id (change t)

pub stamp-WellFormed :
    {id : Text} (t : Task)
    → WellFormed id t
    → WellFormed id (record t { schema_version = pos current_task_schema })
stamp-WellFormed t w = ground arith

failure_error_some :
    (message : Text) (old : Option Text) (exit_code : ℤ)
    → is_some (failure_error message old exit_code) ≡ true
unfolding utf8
failure_error_some [] none exit_code = refl
failure_error_some [] (some e) exit_code = refl
failure_error_some (c ∷ message) old exit_code = refl

module _ (now : ℕ) where
  pub start-Keeps : Keeps (start now)
  unfolding start
  start-Keeps = record { at = λ t w. ground arith }

  pub complete_round-Keeps :
      (exit_code : ℤ) (last_step container : Text) (kept : Bool)
      → Keeps (complete_round now exit_code last_step container kept)
  unfolding complete_round
  complete_round-Keeps exit_code last_step container kept = record { at = λ t w. ground arith }

  pub finish-Keeps :
      (exit_code : ℤ) (flag : Option Text) (last_step container : Text) (kept : Bool)
      (message : Text)
      → Keeps (finish now exit_code flag last_step container kept message)
  unfolding finish
  finish-Keeps exit_code none last_step container kept message = record {
    at = λ t w. ground (arith, failure_error_some (trim_space message) t.error exit_code);
  }
  finish-Keeps exit_code (some flag) last_step container kept message = record {
    at = λ t w. ground arith;
  }

  pub capture-Keeps : (flag : Text) → Keeps (capture now flag)
  unfolding capture
  capture-Keeps flag = record { at = λ t w. ground arith }

  pub reject_flag-Keeps : (message : Text) → Keeps (reject_flag now message)
  unfolding reject_flag
  reject_flag-Keeps message = record { at = λ t w. ground arith }

  pub fail-Keeps : (message : Text) → Keeps (fail now message)
  unfolding fail
  fail-Keeps message = record { at = λ t w. ground arith }

  pub close_container-Keeps : Keeps (close_container now)
  unfolding close_container
  close_container-Keeps = record { at = λ t w. ground arith }

  pub stop-Keeps : (message : Text) → Keeps (stop now message)
  unfolding stop
  stop-Keeps message = record { at = λ t w. ground arith }

  pub retain-Keeps : Keeps (retain now)
  unfolding retain
  retain-Keeps = record { at = λ t w. ground arith }

  pub revoke_capture-Keeps : (message : Text) → Keeps (revoke_capture now message)
  unfolding revoke_capture
  revoke_capture-Keeps message = record { at = λ t w. ground arith }

pub set_container-Keeps : (name : Text) → Keeps (set_container name)
unfolding set_container
set_container-Keeps name = record { at = λ t w. ground arith }

pub set_session-Keeps : (session : Text) → Keeps (set_session session)
unfolding set_session
set_session-Keeps session = record { at = λ t w. ground arith }

pub recover-Keeps : Keeps recover
unfolding recover
recover-Keeps = record { at = λ t w. ground arith }

pub clear_results-Keeps : Keeps clear_results
unfolding clear_results
clear_results-Keeps = record { at = λ t w. ground arith }

pub ruleset change_rules = (
  start-Keeps, complete_round-Keeps, finish-Keeps, capture-Keeps, reject_flag-Keeps, fail-Keeps,
  close_container-Keeps, stop-Keeps, retain-Keeps, set_container-Keeps, set_session-Keeps,
  recover-Keeps,
)
