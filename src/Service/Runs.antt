-- ===== src/Service/Runs.antt =====
-- The runs of tasks (internal/app/service.go): enrichRunnerResult, runUntilSolved, finishRun,
-- runTask, runContinuation.
-- The two runners are fields of Service. A runner calls the sinks it is given, while it runs other
-- goroutines do too, and it answers a result and an error: here it is a function of the service.
-- Each call of the system takes a world of the supply.
pub mod Rounds
use ctf_agent.Base.{
  ℕ, zero, suc, ◌+◌, ◌*◌, Bool, true, false, not, ◌&&◌, ◌||◌, Option, none, some, is_some, List, [],
  ◌∷◌, ◌++◌, ltb, if◌then◌else◌,
}
use ctf_agent.Base.Int.{ℤ, pos, is_zero}
use ctf_agent.Config.{Config}
use ctf_agent.Docker.{DockerResult, read_container_workspace_file}
use ctf_agent.Errors.{
  Err, deadline_exceeded, continue_unavailable, not_exist, message, Result, ok, err,
}
use ctf_agent.Map.{insert, delete}
use ctf_agent.Runner.Output.{ParsedRunnerOutput, parse_runner_output}
use ctf_agent.Service.{
  World, Supply, later, Service, publish_task_changed, append_log, active_docker_config,
}
use ctf_agent.Service.Finish.{
  Label, initial_run, continuation_run, label_text, mark_runner_result, task_was_stopped,
}
use ctf_agent.Store.{Store, get}
use ctf_agent.Store.Changes.{task_timeout_message}
use ctf_agent.Store.Logs
use ctf_agent.Store.Marks.{mark_running, mark_failed}
use ctf_agent.Store.Results.{WriteupIo}
use ctf_agent.Task.{
  Task, TaskStatus, is_queued, is_running, queued, running, completed, solved, failed, other,
}
use ctf_agent.Text.{Text, utf8, is_blank, is_empty, itoa}

-- What a runner leaves: the service, its result, and its error.
pub record Outcome : Type 0 where
  pub service : Service
  pub result : DockerResult
  pub error : Option Err

abbrev pub TaskRunner : Type 0
TaskRunner = Config → Task → Service → Outcome

abbrev pub HintRunner : Type 0
HintRunner = Config → Task → Text → Service → Outcome

abbrev with_container : Option Task → DockerResult → DockerResult
with_container none r = r
with_container (some t) r = record r {
  container_name = t.container_name;
  retained = t.container_kept;
}

abbrev pub with_output : ParsedRunnerOutput → DockerResult → DockerResult
with_output parsed r = record r {
  solved = parsed.solved || r.solved;
  flag = if parsed.solved then parsed.flag else r.flag;
  writeup_file_name =
      if is_empty parsed.writeup_file_name then r.writeup_file_name else parsed.writeup_file_name;
}

abbrev pub wants_writeup : World → DockerResult → Bool
wants_writeup w r =
    r.solved
    && not (is_empty r.writeup_file_name)
    && is_empty r.writeup_content
    && not (is_empty r.container_name)
    && not (is_some w.ctx)

abbrev pub read_failed : Text
unfolding utf8
read_failed = utf8 "[dispatcher] failed to read writeup from container: "

unfoldable pub with_content :
    World → Text → DockerResult → Result Text → Service → Service × DockerResult
with_content w id r (ok content) s = (s, record r { writeup_content = content })
with_content w id r (err e) s = (append_log w id (read_failed ++ message e ++ b'\n' ∷ []) s, r)

abbrev read_writeup : World → Text → DockerResult → Service → Service × DockerResult
read_writeup w id r s =
    if wants_writeup w r
    then with_content w id r
        (read_container_workspace_file w.docker r.container_name r.writeup_file_name) s
    else (s, r)

unfoldable pub enrich_from :
    World → Text → DockerResult → Option Text → Service → Service × DockerResult
unfolding with_content
enrich_from w id r none s = (s, r)
enrich_from w id r (some logs) s = read_writeup w id (with_output (parse_runner_output logs) r) s

-- enrichRunnerResult
unfoldable pub enrich_runner_result : World → Text → DockerResult → Service → Service × DockerResult
unfolding enrich_from
enrich_runner_result w id r s =
    enrich_from w id (if is_empty r.container_name then with_container (get id s.store) r else r)
      (Logs.logs id s.store) s

unfoldable pub enriched : World → Text → Outcome → Outcome
enriched w id o =
    let (s, r) = enrich_runner_result w id o.result o.service in
    record { service = s; result = r; error = o.error }

-- initialDockerRun and continueDockerRun
unfoldable pub initial_docker_run : World → TaskRunner → Task → Service → Outcome
unfolding enriched
initial_docker_run w run task s = enriched w task.id (run (active_docker_config s) task s)

unfoldable pub continue_docker_run : World → HintRunner → Task → Text → Service → Outcome
unfolding enriched
continue_docker_run w run task text s =
    enriched w task.id (run (active_docker_config s) task text s)

unfoldable pub auto_continue_prompt : ℕ → Text
unfolding utf8
auto_continue_prompt round =
    utf8 "继续解这道CTF题。上一轮没有按协议输出“这道题目已经解出”。请基于已有文件、脚本和发现继续验证，不要重复无关枚举。第"
    ++ itoa round
    ++ utf8 "次自动续跑。只有确认Flag后，才按两行协议输出：第一行“这道题目已经解出”，第二行输出完整Flag。"

abbrev pub round_log : ℕ → Text
unfolding utf8
round_log round = utf8 "[dispatcher] auto-continue round=" ++ itoa round ++ utf8 " until solved\n"

abbrev pub limit_log : ℕ → Text
unfolding utf8
limit_log rounds =
    utf8 "[dispatcher] auto-continue limit reached rounds=" ++ itoa rounds ++ b'\n' ∷ []

abbrev pub is_final : DockerResult → Bool
is_final r = r.solved || not (is_zero r.exit_code)

-- The container that the last round left is that of the copy of the task.
abbrev pub attach : DockerResult → Task → Task
attach r t =
    if r.retained && not (is_empty r.container_name)
    then record t { container_kept = true; container_name = r.container_name }
    else t

abbrev pub can_continue : Task → Bool
can_continue t =
    t.container_kept && not (is_empty t.container_name) && not (is_blank t.opencode_session)

abbrev pub outcome : Service → DockerResult → Option Err → Outcome
outcome s r e = record { service = s; result = r; error = e }

-- One round: the outcome, and whether the loop goes on.
unfoldable pub one_round :
    Supply → HintRunner → Text → ℕ → DockerResult → Option Task → Service → Outcome × Bool
unfolding continue_docker_run auto_continue_prompt
one_round w run id round r none s = (outcome s r (some not_exist), false)
one_round w run id round r (some task) s =
    let current = attach r task in
    if task_was_stopped id s
    then (outcome s r none, false)
    else if not (can_continue current)
    then (outcome s r (some continue_unavailable), false)
    else (let next =
          continue_docker_run (w 1) run current (auto_continue_prompt round)
            (append_log (w 0) id (round_log round) s) in
        (next, not (is_some next.error) && not (is_final next.result)))

unfoldable pub rounds_over : World → Text → DockerResult → Service → Outcome
rounds_over w id r s =
    outcome
      (if ltb 0 s.cfg.auto_continue_rounds
        then append_log w id (limit_log s.cfg.auto_continue_rounds) s
        else s)
      r none

-- The loop from a round on, with the number of rounds left. It ends at the first round that is
-- final, fails or may not be run.
unfoldable pub continue_rounds :
    Supply → HintRunner → Text → ℕ → ℕ → DockerResult → Service → Outcome
unfolding one_round rounds_over
continue_rounds w run id zero round r s = rounds_over (w 0) id r s
continue_rounds w run id (suc left) round r s = elim ((w 0).ctx) [
  | some e ↦ outcome s r (some e)
  | none ↦
      let (o, goes_on) = one_round w run id round r (get id s.store) s in
      let rest = continue_rounds (later 2 w) run id left (suc round) o.result o.service in
      if goes_on then rest else o
]

-- runUntilSolved
unfoldable pub run_until_solved : Supply → HintRunner → Text → DockerResult → Service → Outcome
unfolding continue_rounds
run_until_solved w run id r s =
    if is_final r
    then outcome s r none
    else continue_rounds w run id s.cfg.auto_continue_rounds 1 r s
