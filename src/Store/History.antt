-- ===== src/Store/History.antt =====
-- The calls of the store as data, and sequences of them (internal/app/store.go).
use ctf_agent.Base.{◌≡◌, Bool, Option, none, some, List, [], ◌∷◌, All}
use ctf_agent.Base.Int.{ℤ}
use ctf_agent.Disk.{ReadIo}
use ctf_agent.Errors.{Err}
use ctf_agent.Store.{Store, Env, add}
use ctf_agent.Store.Invariant.{DocOk, StoreOk, update-StoreOk, add-StoreOk}
use ctf_agent.Store.Load.{load}
use ctf_agent.Store.LoadOk.{Decodes, load-StoreOk}
use ctf_agent.Store.Logs.{LogIo, append_log}
use ctf_agent.Store.Marks.{
  mark_running, mark_completed, mark_finished_with_failure_message, mark_flag, mark_invalid_flag,
  mark_failed, mark_runtime_container, mark_opencode_session, mark_container_closed, mark_stopped,
  mark_recovered, mark_interrupted_container_retained,
}
use ctf_agent.Store.Results.{
  WriteupIo, ClearIo, mark_false_live_capture, save_writeup, clear_result_data,
}
use ctf_agent.Store.ResultsOk.{
  revoke-StoreOk, save_writeup-StoreOk, clear_result_data-StoreOk, append_log-StoreOk,
}
use ctf_agent.Store.WellFormed.{
  WellFormed, start-Keeps, complete_round-Keeps, finish-Keeps, capture-Keeps, reject_flag-Keeps,
  fail-Keeps, close_container-Keeps, stop-Keeps, retain-Keeps, set_container-Keeps,
  set_session-Keeps, recover-Keeps,
}
use ctf_agent.Task.{Task}
use ctf_agent.Text.{Text}

-- One constructor for each method that changes the store; the arguments are the method's, behind
-- what it takes from its surroundings.
pub data Call : Type 0 where
  adds : Env → Task → Call
  runs closes recovers retains : Env → Text → Call
  completes : Env → Text → ℤ → Text → Text → Bool → Call
  finishes : Env → Text → ℤ → Option Text → Text → Text → Bool → Text → Call
  flags rejects fails sets_container sets_session stops revokes : Env → Text → Text → Call
  saves : Env → WriteupIo → Text → Text → Text → Call
  clears : (Text → ClearIo) → Call
  appends : LogIo → Text → Text → Call
  loads : Option Text → (Text → ReadIo) → Call

-- The store after a call, and the error that the method returns.
unfoldable pub perform : Call → Store → Store × Option Err
perform (adds env t) s = add env (some t) s
perform (runs env id) s = mark_running env id s
perform (closes env id) s = mark_container_closed env id s
perform (recovers env id) s = mark_recovered env id s
perform (retains env id) s = mark_interrupted_container_retained env id s
perform (completes env id code step container kept) s =
    mark_completed env id code step container kept s
perform (finishes env id code flag step container kept message) s =
    mark_finished_with_failure_message env id code flag step container kept message s
perform (flags env id flag) s = mark_flag env id flag s
perform (rejects env id message) s = mark_invalid_flag env id message s
perform (fails env id message) s = mark_failed env id message s
perform (sets_container env id name) s = mark_runtime_container env id name s
perform (sets_session env id session) s = mark_opencode_session env id session s
perform (stops env id message) s = mark_stopped env id message s
perform (revokes env id message) s = mark_false_live_capture env id message s
perform (saves env io id filename content) s = save_writeup env io id filename content s
perform (clears io) s = let (s', tally, e) = clear_result_data io s in (s', e)
perform (appends io id text) s = append_log io id text s
perform (loads read_dir io) s = load read_dir io s

abbrev pub run_call : Call → Store → Store
unfolding perform
run_call c s = (perform c s).0

-- What the callers see to: an added task is well formed, a writeup whose name is that of a metadata
-- file is no ill-formed document, and os.Remove does not fail on a writeup in ClearResultData; and
-- what encoding/json reads from the document of a well-formed task is a well-formed task.
abbrev pub Admissible : Call → Type 0
Admissible (adds env t) = WellFormed t.id t
Admissible (saves env io id filename content) = DocOk id io.as_doc
Admissible (clears io) = (id : Text) → (io id).remove ≡ none
Admissible (loads read_dir io) = (name : Text) → Decodes (io name)
Admissible _ = Unit

run_call-StoreOk : (c : Call) (s : Store) → Admissible c → StoreOk s → StoreOk (run_call c s)
unfolding perform mark_running mark_completed mark_finished_with_failure_message mark_flag
    mark_invalid_flag mark_failed mark_runtime_container mark_opencode_session mark_container_closed
    mark_stopped mark_recovered mark_interrupted_container_retained
run_call-StoreOk (adds env t) s a h = add-StoreOk env t s a h
run_call-StoreOk (runs env id) s a h = update-StoreOk env id _ s (start-Keeps env.now) h
run_call-StoreOk (closes env id) s a h = update-StoreOk env id _ s (close_container-Keeps env.now) h
run_call-StoreOk (recovers env id) s a h = update-StoreOk env id _ s recover-Keeps h
run_call-StoreOk (retains env id) s a h = update-StoreOk env id _ s (retain-Keeps env.now) h
run_call-StoreOk (completes env id code step container kept) s a h =
    update-StoreOk env id _ s (complete_round-Keeps env.now code step container kept) h
run_call-StoreOk (finishes env id code flag step container kept message) s a h =
    update-StoreOk env id _ s (finish-Keeps env.now code flag step container kept message) h
run_call-StoreOk (flags env id flag) s a h =
    update-StoreOk env id _ s (capture-Keeps env.now flag) h
run_call-StoreOk (rejects env id message) s a h =
    update-StoreOk env id _ s (reject_flag-Keeps env.now message) h
run_call-StoreOk (fails env id message) s a h =
    update-StoreOk env id _ s (fail-Keeps env.now message) h
run_call-StoreOk (sets_container env id name) s a h =
    update-StoreOk env id _ s (set_container-Keeps name) h
run_call-StoreOk (sets_session env id session) s a h =
    update-StoreOk env id _ s (set_session-Keeps session) h
run_call-StoreOk (stops env id message) s a h =
    update-StoreOk env id _ s (stop-Keeps env.now message) h
run_call-StoreOk (revokes env id message) s a h = revoke-StoreOk env id message s h
run_call-StoreOk (saves env io id filename content) s a h =
    save_writeup-StoreOk env io id filename content s a h
run_call-StoreOk (clears io) s a h = clear_result_data-StoreOk io s a h
run_call-StoreOk (appends io id text) s a h = append_log-StoreOk io id text s h
run_call-StoreOk (loads read_dir io) s a h = load-StoreOk read_dir io s a h

abbrev pub run_calls : List Call → Store → Store
run_calls [] s = s
run_calls (c ∷ cs) s = run_calls cs (run_call c s)

-- From a well-formed store on, after any sequence of calls of the store's methods, the loading of the
-- disk again at any point included, every task in memory and every task document on the disk is well
-- formed. The calls are such that an added task is well formed, a write-up that is saved under the
-- name of a metadata file is no ill-formed document, ClearResultData removes write-ups without an
-- error, and encoding/json reads well-formed tasks; what else the system answers is free. Well
-- formed means: the task carries the safe id that it is filed under, a solved task has a flag, an ended task or
-- one with a flag has an end time, a failed task an error, a running task a start time.
pub run_calls-StoreOk :
    (cs : List Call) (s : Store) → All Admissible cs → StoreOk s → StoreOk (run_calls cs s)
run_calls-StoreOk [] s a h = h
run_calls-StoreOk (c ∷ cs) s a h =
    run_calls-StoreOk cs (run_call c s) a.1 (run_call-StoreOk c s a.0 h)
