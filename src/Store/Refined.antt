-- ===== src/Store/Refined.antt =====
-- The store as the map from ids to tasks that its clients see, and the methods of the store that
-- concern one task (internal/app/store.go) against it.
pub mod Steps
pub mod Writes
use ctf_agent.Base.{
  ◌≡◌, refl, sym, ap, ◌∙◌, subst, ◌⊎◌, inl, inr, Bool, true, false, Option, none, some, List, [],
  ◌∷◌, All, length, arith, if◌then◌else◌, Bool-cases, Option-cases,
}
use ctf_agent.Base.Int.{pos}
use ctf_agent.Disk.{WriteIo, write_task, current_task_schema}
use ctf_agent.Errors.{Err}
use ctf_agent.Map.{lookup, insert, lookup-insert}
use ctf_agent.Names.{is_safe_task_id}
use ctf_agent.Store.{Store, Env, commit, add, update}
use ctf_agent.Store.Changes.{
  start, complete_round, finish, capture, reject_flag, fail, set_container, set_session,
  close_container, stop, recover, retain, revoke_capture,
}
use ctf_agent.Store.Durable.{stamped, update_cases}
use ctf_agent.Store.History.{
  Call, adds, runs, closes, recovers, retains, completes, finishes, flags, rejects, fails,
  sets_container, sets_session, stops, revokes, saves, clears, appends, loads, perform, run_call,
  run_calls,
}
use ctf_agent.Store.Logs.{grow}
use ctf_agent.Task.{Task}
use ctf_agent.Text.{Text, text_eq}

abbrev pub View : Type 0
View = Text → Option Task

abbrev pub view : Store → View
view s id = lookup id s.tasks

abbrev pub put : Text → Task → View → View
put id t v j = if text_eq id j then some t else v j

-- The calls that concern one task: all but ClearResultData and Load.
abbrev pub OneTask : Call → Type 0
OneTask (clears io) = ⊥
OneTask (loads read_dir io) = ⊥
OneTask _ = Unit

-- The task that a call names.
abbrev pub target : Call → Text
target (adds env t) = t.id
target (runs env id) = id
target (closes env id) = id
target (recovers env id) = id
target (retains env id) = id
target (completes env id code step container kept) = id
target (finishes env id code flag step container kept message) = id
target (flags env id flag) = id
target (rejects env id message) = id
target (fails env id message) = id
target (sets_container env id name) = id
target (sets_session env id session) = id
target (stops env id message) = id
target (revokes env id message) = id
target (saves env io id filename content) = id
target (appends io id text) = id
target _ = []

-- What a call means to make of the task; update stamps it with the schema.
abbrev pub intent : Call → Task → Task
intent (adds env t) old = record t { schema_version = pos current_task_schema }
intent (runs env id) old = stamped (start env.now) old
intent (closes env id) old = stamped (close_container env.now) old
intent (recovers env id) old = stamped recover old
intent (retains env id) old = stamped (retain env.now) old
intent (completes env id code step container kept) old =
    stamped (complete_round env.now code step container kept) old
intent (finishes env id code flag step container kept message) old =
    stamped (finish env.now code flag step container kept message) old
intent (flags env id flag) old = stamped (capture env.now flag) old
intent (rejects env id message) old = stamped (reject_flag env.now message) old
intent (fails env id message) old = stamped (fail env.now message) old
intent (sets_container env id name) old = stamped (set_container name) old
intent (sets_session env id session) old = stamped (set_session session) old
intent (stops env id message) old = stamped (stop env.now message) old
intent (revokes env id message) old = revoke_capture env.now message old
intent (saves env io id filename content) old = record old { writeup_file_name = filename }
intent (appends io id text) old = grow (length text) old
intent _ old = old

-- Add needs no task under the id.
abbrev pub needs_task : Call → Bool
needs_task (adds env t) = false
needs_task _ = true

-- The methods that change the shared task in place.
abbrev pub in_place : Call → Bool
in_place (revokes env id message) = true
in_place (saves env io id filename content) = true
in_place _ = false

-- A call of the map that clients see, with the error that it returns: it is refused and nothing
-- changes, or it is done and the task it names becomes what the call means; a method that works in
-- place may do so and report an error.
pub data Step : View → Call → Option Err → View → Type 0 where
  refused : {v w : View} {c : Call} (e : Err) → ((id : Text) → w id ≡ v id) → Step v c (some e) w
  done :
      {v w : View} {c : Call} (old : Task)
      → (v (target c) ≡ some old) ⊎ (needs_task c ≡ false)
      → ((id : Text) → w id ≡ put (target c) (intent c old) v id)
      → Step v c none w
  unwritten :
      {v w : View} {c : Call} (e : Err) (old : Task)
      → in_place c ≡ true
      → v (target c) ≡ some old
      → ((id : Text) → w id ≡ put (target c) (intent c old) v id)
      → Step v c (some e) w

-- A run of the map, with the answer to each call.
pub data MapRun : View → List Call → List (Option Err) → View → Type 0 where
  ends : {v : View} → MapRun v [] [] v
  goes :
      {v u w : View} {c : Call} {e : Option Err} {cs : List Call} {es : List (Option Err)}
      → Step v c e u
      → MapRun u cs es w
      → MapRun v (c ∷ cs) (e ∷ es) w

unfoldable pub answers : List Call → Store → List (Option Err)
unfolding perform
answers [] s = []
answers (c ∷ cs) s = (perform c s).1 ∷ answers cs (run_call c s)
