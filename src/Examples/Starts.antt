-- ===== src/Examples/Starts.antt =====
-- The theorems of the configuration, the start, the readiness, uploads and containers at concrete
-- states.
use ctf_agent.Base.{
  ◌+◌, ◌≤◌, ◌≡◌, ◌↔◌, refl, true, false, Option, none, some, is_some, [], ◌∷◌, ◌++◌, length, arith,
}
use ctf_agent.Base.Int.{ℤ, pos}
use ctf_agent.Config.{Config}
use ctf_agent.Config.Env.{Environment, env_value, load_local_env_file}
use ctf_agent.Config.Loaded.{load_config}
use ctf_agent.Config.Loaded.Checked.{Sound, load_config-Sound, load_local_env_file_keeps}
use ctf_agent.Diagnostics.{ReadyIo, readiness}
use ctf_agent.Diagnostics.Ready.{IsReady, readiness_iff}
use ctf_agent.Docker.{Answer}
use ctf_agent.Docker.Run.{RunIo, command, exits}
use ctf_agent.Docker.Runner.{run_docker_task, task_container}
use ctf_agent.Docker.Runner.Commands.{remove_command}
use ctf_agent.Docker.Runner.Kept.{
  KeptIfDone, EndsWith, run_docker_task-KeptIfDone, run_docker_task-EndsWith,
}
use ctf_agent.Errors.{canceled, not_exist}
use ctf_agent.Examples.{one, task_one, calm_world, settings, service_with}
use ctf_agent.Map.{Map, lookup}
use ctf_agent.Service.{Supply}
use ctf_agent.Service.Start.{requeue_all}
use ctf_agent.Service.Start.Requeued.{accepted_ids, requeue_all_queues}
use ctf_agent.Storage.{Upload, fresh_name, file_exists}
use ctf_agent.Storage.Fresh.{fresh_name_found}
use ctf_agent.Text.{Text, utf8, is_blank}
use ctf_agent.Websocket.Reading.{read_until_close, read_until_close_ends}

abbrev env : Environment
unfolding utf8
env =
    (utf8 "CTF_AGENT_GO_ADDR", utf8 "127.0.0.1:9000")
    ∷ (utf8 "OPENCODE_PROVIDER_FORMAT", utf8 "claude")
    ∷ (utf8 "CTF_AGENT_MAX_CONTAINERS", utf8 "0")
    ∷ []

abbrev env_file : Text
unfolding utf8
env_file = utf8 "# local\nCTF_AGENT_GO_ADDR=0.0.0.0:80\nOPENCODE_ANTHROPIC_API_KEY=\"key\"\n"

abbrev address : Text
unfolding utf8
address = utf8 "CTF_AGENT_GO_ADDR"

abbrev no_duration : Text → Option ℤ
no_duration text = none

load_config-Sound_example : Sound (load_config no_duration none (some env_file) env)
load_config-Sound_example = load_config-Sound no_duration none (some env_file) env

has_address : is_blank (env_value address env) ≡ false
unfolding env_value lookup is_blank env ctf_agent.Text.text_eq
has_address = refl

load_local_env_file_keeps_example :
    env_value address (load_local_env_file (some env_file) env) ≡ env_value address env
load_local_env_file_keeps_example =
    load_local_env_file_keeps (some env_file) address env has_address

abbrev ready_io : ReadyIo
ready_io = record {
  makes_dir = true;
  creates = true;
  closes = true;
  removes = true;
  docker_runs = true;
  has_image = λ image. true;
  now = 5;
}

readiness_iff_example :
    ((readiness ready_io (service_with task_one)).is_ok ≡ true)
    ↔ IsReady ready_io (service_with task_one)
readiness_iff_example = readiness_iff ready_io (service_with task_one)

abbrev zip : Text
unfolding utf8
zip = utf8 "chal.zip"

abbrev files : Map Text
unfolding utf8
files = (zip, utf8 "old") ∷ (utf8 "chal-1.zip", utf8 "older") ∷ []

fresh_name_found_example :
    (fresh : Text) × (fresh_name files zip ≡ some fresh) × (file_exists files fresh ≡ false)
fresh_name_found_example = fresh_name_found files zip

abbrev upload : Upload
unfolding utf8
upload = record {
  filename = utf8 "../chal.zip";
  size = pos 3;
  content = utf8 "new";
  opened = none;
  created = none;
  copied = none;
  closed = none;
  removed = none;
}

abbrev listing : Answer
unfolding utf8
listing = record { output = utf8 "ctf-agent-t1\timage\tUp 2 hours\t\t1MB"; failure = none }

abbrev supply : Supply
supply n = calm_world

room : length (service_with task_one).queue + length (one ∷ []) ≤ 4
room = omega arith

requeue_all_queues_example :
    (requeue_all supply false (one ∷ []) (service_with task_one)).queue
    ≡ (service_with task_one).queue ++ accepted_ids supply false (one ∷ []) (service_with task_one)
unfolding settings
requeue_all_queues_example =
    requeue_all_queues supply false (one ∷ []) (service_with task_one) refl room

abbrev ping : Text
ping = 0x89 ∷ 0x80 ∷ 1 ∷ 2 ∷ 3 ∷ 4 ∷ 0x88 ∷ 0x80 ∷ 0 ∷ 0 ∷ 0 ∷ 0 ∷ []

read_until_close_ends_example :
    is_some (
      read_until_close 13 not_exist
        (λ n i. record { count = 9; failure = none })
        (λ n i. record { count = 9; failure = none })
        ping)
    ≡ true
read_until_close_ends_example =
    read_until_close_ends 13 not_exist (λ n i. record { count = 9; failure = none })
      (λ n i. record { count = 9; failure = none }) ping (omega arith)

abbrev ok_answer : Answer
ok_answer = record { output = []; failure = none }

abbrev run_io : RunIo
run_io = record {
  urls = record { parse = λ s. none; with_host = λ s host. s };
  info = ok_answer;
  started = ok_answer;
  updated = ok_answer;
  events_before = ok_answer;
  state_before = ok_answer;
  events_after = ok_answer;
  state_after = ok_answer;
  agent = exits [] (pos 137);
  ctx = some canceled;
}

abbrev runnable : Config
unfolding utf8
runnable = record settings { agent_script = utf8 "/agent.py"; skills_dir = utf8 "/skills" }

run_docker_task-KeptIfDone_example : KeptIfDone (run_docker_task run_io runnable task_one)
run_docker_task-KeptIfDone_example = run_docker_task-KeptIfDone run_io runnable task_one

one_safe : ctf_agent.Names.is_safe_task_id task_one.id ≡ true
unfolding ctf_agent.Names.is_safe_task_id one
one_safe = refl

run_docker_task-EndsWith_example :
    EndsWith
      (command (remove_command (task_container task_one)))
      (run_docker_task run_io runnable task_one).actions
unfolding runnable
run_docker_task-EndsWith_example =
    run_docker_task-EndsWith run_io runnable task_one canceled one_safe refl refl refl refl
