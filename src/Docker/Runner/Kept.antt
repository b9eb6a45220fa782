-- ===== src/Docker/Runner/Kept.antt =====
-- What becomes of the container at the end of a run (internal/app/docker.go).
use ctf_agent.Base.{
  ◌≡◌, refl, sym, subst, ap, ◌∙◌, inl, inr, true, false, ◌||◌, Option, none, some, is_some, is_none,
  List, [], ◌∷◌, ◌++◌, Bool-cases, Option-cases, All-append,
}
use ctf_agent.Base.Int.{is_zero}
use ctf_agent.Config.{Config}
use ctf_agent.Docker.Limits.{ResourceLimits, docker_oom_occurred}
use ctf_agent.Docker.Run.{
  Action, command, names, Agent, unstarted, exits, breaks, Run, RunIo, dispatched, waited,
  oom_marked, run_agent_in_container, run_agent_with_diagnostics, opencode_provider_env,
}
use ctf_agent.Docker.Run.Answers.{read_docker_oom_snapshot, resolve_docker_resource_limits}
use ctf_agent.Docker.Runner.{
  settle_run, started_run, run_docker_task, task_container, line, container_line, failed_line,
  named,
}
use ctf_agent.Docker.Runner.Commands.{remove_command, close_actions, starting, start_command}
use ctf_agent.Errors.{Err}
use mathlib.Core.List.{append_assoc}
use ctf_agent.Names.{is_id_byte, container_prefix, is_safe_task_id}
use ctf_agent.Names.Safety.{
  container_of_task_managed, IsIdText, trim_space-IsIdText, is_safe_task_id_iff,
}
use ctf_agent.Task.{Task}
use ctf_agent.Text.{Text, is_empty, is_blank}

-- A container is kept exactly where a run reports no error.
abbrev pub KeptIfDone : Run → Type 0
KeptIfDone r = r.result.retained ≡ is_none r.error

waited_unkept :
    (name : Text) (ctx : Option Err) (a : Agent) → (waited name ctx a).result.retained ≡ false
unfolding ctf_agent.Docker.Run.failed_run ctf_agent.Docker.Run.exited_run
    ctf_agent.Docker.Run.canceled_run
waited_unkept name ctx (unstarted text) = refl
waited_unkept name none (breaks output text) = refl
waited_unkept name (some e) (breaks output text) = refl
waited_unkept name none (exits output code) = refl
waited_unkept name (some e) (exits output code) = elim (Bool-cases (is_zero code)) [
  | inl z ↦ rw z refl
  | inr z ↦ rw z refl
]

oom_unkept :
    (io : RunIo) (limit : Text) (r : Run)
    → r.result.retained ≡ false
    → (oom_marked io limit r).result.retained ≡ false
unfolding oom_marked
oom_unkept io limit r h =
    elim (Bool-cases (
      docker_oom_occurred (read_docker_oom_snapshot io.events_before io.state_before)
        (read_docker_oom_snapshot io.events_after io.state_after))) [
          | inl e ↦ rw e h
          | inr e ↦ rw e h
        ]

agent_unkept :
    (io : RunIo) (name : Text) (env : List Text) (limit : Text)
    → (run_agent_with_diagnostics io name env limit).result.retained ≡ false
unfolding run_agent_with_diagnostics run_agent_in_container
agent_unkept io name env limit =
    let plain : (run_agent_in_container io name env).result.retained ≡ false =
      waited_unkept name io.ctx io.agent in
    elim (Bool-cases
      (is_zero (run_agent_in_container io name env).result.exit_code || is_some io.ctx)) [
        | inl e ↦ rw e plain
        | inr e ↦ rw e (oom_unkept io limit (run_agent_in_container io name env) plain)
      ]

settle_run-KeptIfDone :
    (ctx : Option Err) (name : Text) (a : Action) (r : Run)
    → r.result.retained ≡ false
    → KeptIfDone (settle_run ctx name a r)
unfolding settle_run
settle_run-KeptIfDone (some e) name a r h = h
settle_run-KeptIfDone none name a r h = elim (Option-cases r.error) [
  | inr (x, f) ↦ rw (f, settle_run) h
  | inl f ↦ elim (Bool-cases (is_zero r.result.exit_code)) [
    | inl z ↦ rw (f, z, settle_run) refl
    | inr z ↦ rw (f, z, settle_run) refl
  ]
]

started_run-KeptIfDone :
    (io : RunIo) (cfg : Config) (name : Text) (limits : ResourceLimits) (failure : Option Text)
    → KeptIfDone (started_run io cfg name limits failure)
unfolding started_run
started_run-KeptIfDone io cfg name limits (some failure) = refl
started_run-KeptIfDone io cfg name limits none =
    settle_run-KeptIfDone io.ctx name _ _
      (agent_unkept io name (opencode_provider_env io.urls cfg) limits.memory)

-- For every configuration and task and whatever docker, the agent and the context answer,
-- RunDockerTask reports the container as retained exactly where it returns no error.
pub run_docker_task-KeptIfDone :
    (io : RunIo) (cfg : Config) (task : Task) → KeptIfDone (run_docker_task io cfg task)
unfolding run_docker_task
run_docker_task-KeptIfDone io cfg task = elim (Bool-cases (is_empty cfg.agent_script)) [
  | inl e ↦ rw (e, run_docker_task) refl
  | inr e ↦ elim (Bool-cases (is_empty cfg.skills_dir)) [
    | inl f ↦ rw (e, f, run_docker_task) refl
    | inr f ↦
        rw (e, f, run_docker_task)
          (started_run-KeptIfDone io cfg (task_container task)
            (resolve_docker_resource_limits io.info cfg.mem_limit cfg.cpus) io.started.failure)
  ]
]

prefix-IsIdText : IsIdText container_prefix
unfolding container_prefix is_id_byte
prefix-IsIdText = (refl, (refl, (refl, (refl, (refl, (refl, (refl, (refl, (refl, (refl, tt))))))))))

prefix_not_blank : (id : Text) → IsIdText id → is_blank (container_prefix ++ id) ≡ false
unfolding is_blank container_prefix
prefix_not_blank id h = ap is_empty (
    trim_space-IsIdText (container_prefix ++ id)
      (All-append (λ c. is_id_byte c ≡ true) container_prefix id prefix-IsIdText h))

close_actions_safe :
    (id : Text)
    → is_safe_task_id id ≡ true
    → close_actions (container_prefix ++ id)
      ≡ command (remove_command (container_prefix ++ id)) ∷ []
unfolding close_actions
close_actions_safe id safe =
    let ids = (is_safe_task_id_iff id).0 safe in
    rw (container_of_task_managed id, safe, prefix_not_blank id ids.3) refl

-- The last action is this one.
abbrev pub EndsWith : Action → List Action → Type 0
EndsWith a actions = (before : List Action) × (actions ≡ before ++ a ∷ [])

behind-EndsWith :
    (more actions : List Action) (a : Action) → EndsWith a actions → EndsWith a (more ++ actions)
behind-EndsWith more actions a (before, e) =
    (more ++ before, ap (λ x. more ++ x) e ∙ sym (append_assoc more before (a ∷ [])))

settle_run-EndsWith :
    (e : Err) (id : Text) (a : Action) (r : Run)
    → is_safe_task_id id ≡ true
    → EndsWith
        (command (remove_command (container_prefix ++ id)))
        (settle_run (some e) (container_prefix ++ id) a r).actions
unfolding settle_run
settle_run-EndsWith e id a r safe =
    (r.actions, ap (λ x. r.actions ++ x) (close_actions_safe id safe))

dispatched-EndsWith :
    (more : List Action) (r : Run) (a : Action)
    → EndsWith a r.actions
    → EndsWith a (dispatched more r).actions
dispatched-EndsWith more r a h = behind-EndsWith more r.actions a h

ended-EndsWith :
    (ctx : Option Err) (e : Err) (id : Text) (a : Action) (r : Run)
    → is_safe_task_id id ≡ true
    → ctx ≡ some e
    → EndsWith
        (command (remove_command (container_prefix ++ id)))
        (settle_run ctx (container_prefix ++ id) a r).actions
ended-EndsWith ctx e id a r safe ended =
    subst
      (λ c.
        EndsWith (command (remove_command (container_prefix ++ id)))
          (settle_run c (container_prefix ++ id) a r).actions)
      (sym ended) (settle_run-EndsWith e id a r safe)

started_run-EndsWith :
    (io : RunIo) (cfg : Config) (id : Text) (limits : ResourceLimits) (e : Err)
    (failure : Option Text)
    → is_safe_task_id id ≡ true
    → io.ctx ≡ some e
    → failure ≡ none
    → EndsWith
        (command (remove_command (container_prefix ++ id)))
        (started_run io cfg (container_prefix ++ id) limits failure).actions
unfolding started_run
started_run-EndsWith io cfg id limits e (some failure) safe ctx started = absurd (cc)
started_run-EndsWith io cfg id limits e none safe ctx started =
    let name = container_prefix ++ id in
    let agent =
      run_agent_with_diagnostics io name (opencode_provider_env io.urls cfg) limits.memory in
    dispatched-EndsWith (line container_line name ∷ names name ∷ [])
      (settle_run io.ctx name (line failed_line name) (named name agent))
      (command (remove_command name))
      (ended-EndsWith io.ctx e id (line failed_line name) (named name agent) safe ctx)

-- Where the context of a run of a task with a safe id ends behind the start of its container,
-- RunDockerTask removes the container as the last thing it does.
pub run_docker_task-EndsWith :
    (io : RunIo) (cfg : Config) (task : Task) (e : Err)
    → is_safe_task_id task.id ≡ true
    → is_empty cfg.agent_script ≡ false
    → is_empty cfg.skills_dir ≡ false
    → io.started.failure ≡ none
    → io.ctx ≡ some e
    → EndsWith
        (command (remove_command (task_container task)))
        (run_docker_task io cfg task).actions
unfolding run_docker_task task_container
run_docker_task-EndsWith io cfg task e safe script skills started ctx =
    let limits = resolve_docker_resource_limits io.info cfg.mem_limit cfg.cpus in
    let name = task_container task in
    rw (script, skills, run_docker_task)
      (dispatched-EndsWith
        (command (remove_command name)
          ∷ starting cfg task limits
          ∷ command (start_command io cfg task name limits)
          ∷ [])
        (started_run io cfg name limits io.started.failure) (command (remove_command name))
        (started_run-EndsWith io cfg task.id limits e io.started.failure safe ctx started))
