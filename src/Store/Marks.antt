-- ===== src/Store/Marks.antt =====
-- The methods of Store that stand on update (internal/app/store.go).
use ctf_agent.Base.{Bool, Option, []}
use ctf_agent.Base.Int.{ℤ}
use ctf_agent.Errors.{Err}
use ctf_agent.Text.{Text}
use ctf_agent.Store.{Store, Env, update}
use ctf_agent.Store.Changes.{
  start, complete_round, finish, capture, reject_flag, fail, set_container, set_session,
  close_container, stop, recover, retain,
}

module _ (env : Env) (id : Text) where
  unfoldable pub mark_running : Store → Store × Option Err
  mark_running = update env id (start env.now)

  unfoldable pub mark_completed : ℤ → Text → Text → Bool → Store → Store × Option Err
  mark_completed exit_code last_step container kept =
      update env id (complete_round env.now exit_code last_step container kept)

  unfoldable pub mark_finished_with_failure_message :
      ℤ → Option Text → Text → Text → Bool → Text → Store → Store × Option Err
  mark_finished_with_failure_message exit_code flag last_step container kept message =
      update env id (finish env.now exit_code flag last_step container kept message)

  unfoldable pub mark_finished : ℤ → Option Text → Text → Text → Bool → Store → Store × Option Err
  unfolding mark_finished_with_failure_message
  mark_finished exit_code flag last_step container kept =
      mark_finished_with_failure_message exit_code flag last_step container kept []

  unfoldable pub mark_flag : Text → Store → Store × Option Err
  mark_flag flag = update env id (capture env.now flag)

  unfoldable pub mark_invalid_flag : Text → Store → Store × Option Err
  mark_invalid_flag message = update env id (reject_flag env.now message)

  unfoldable pub mark_failed : Text → Store → Store × Option Err
  mark_failed message = update env id (fail env.now message)

  unfoldable pub mark_runtime_container : Text → Store → Store × Option Err
  mark_runtime_container name = update env id (set_container name)

  unfoldable pub mark_opencode_session : Text → Store → Store × Option Err
  mark_opencode_session session = update env id (set_session session)

  unfoldable pub mark_container_closed : Store → Store × Option Err
  mark_container_closed = update env id (close_container env.now)

  unfoldable pub mark_stopped : Text → Store → Store × Option Err
  mark_stopped message = update env id (stop env.now message)

  unfoldable pub mark_recovered : Store → Store × Option Err
  mark_recovered = update env id recover

  unfoldable pub mark_interrupted_container_retained : Store → Store × Option Err
  mark_interrupted_container_retained = update env id (retain env.now)
