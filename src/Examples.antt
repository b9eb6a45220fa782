-- ===== src/Examples.antt =====
-- A concrete task, store and service, for the tests.
pub mod Stores
pub mod Services
pub mod Texts
pub mod Web
pub mod Starts
use ctf_agent.Base.{
  ℕ, ◌≡◌, refl, Bool, true, false, Option, none, some, is_some, List, [], ◌∷◌, arith,
}
use ctf_agent.Base.Int.{pos}
use ctf_agent.Config.{Config}
use ctf_agent.Config
use ctf_agent.Disk.{WriteIo}
use ctf_agent.Docker.{Answer}
use ctf_agent.Hub.{Hub, new_hub}
use ctf_agent.Names.{is_safe_task_id}
use ctf_agent.Service.{World, Service}
use ctf_agent.Store.{Store, Env}
use ctf_agent.Store.Invariant.{StoreOk}
use ctf_agent.Store.Logs.{LogIo}
use ctf_agent.Store.WellFormed.{WellFormed}
use ctf_agent.Task.{Task, TaskStatus, running, completed, solved, failed, queued}
use ctf_agent.Text.{Text, utf8}

abbrev pub one : Text
unfolding utf8
one = utf8 "t1"

-- A task that runs in a container.
abbrev pub task_one : Task
unfolding utf8
task_one = record {
  schema_version = pos 1;
  id = one;
  name = utf8 "warmup";
  category = utf8 "web";
  description = [];
  target_ip = [];
  attachments_dir = [];
  attachment_count = 0;
  status = running;
  flag = none;
  exit_code = none;
  error = none;
  last_step = [];
  writeup_file_name = [];
  container_name = utf8 "ctf-agent-t1";
  container_kept = false;
  opencode_session = utf8 "ses_1";
  created_at = 10;
  started_at = some 11;
  finished_at = none;
  log_size = 0;
}

-- The task after a round without a flag.
abbrev pub kept_one : Task
kept_one = record task_one { status = completed; finished_at = some 20; container_kept = true }

abbrev pub calm_io : WriteIo
calm_io = record { make_dir = none; reads_meta = true; backup = none; main = none }

abbrev pub calm_env : Env
calm_env = record { now = 100; io = calm_io }

abbrev pub empty_store : Store
unfolding utf8
empty_store = record {
  root = utf8 "/data";
  tasks = [];
  disk = [];
  log_max_bytes = 16;
  log_max_backups = 3;
}

abbrev pub store_with : Task → Store
store_with t = record empty_store { tasks = (t.id, t) ∷ [] }

one_safe : is_safe_task_id one ≡ true
unfolding utf8 is_safe_task_id
one_safe = refl

pub task_one-WellFormed : WellFormed one task_one
unfolding one task_one
task_one-WellFormed = record {
  keyed = refl;
  safe = one_safe;
  solved_flag = λ h. absurd (ground arith);
  flag_finished = λ h. absurd (ground arith);
  ended_finished = λ h. absurd (ground arith);
  failed_error = λ h. absurd (ground arith);
  running_started = λ h. refl;
}

pub empty_store-StoreOk : StoreOk empty_store
unfolding empty_store
empty_store-StoreOk = record { tasks = tt; disk = tt }

pub store_one-StoreOk : StoreOk (store_with task_one)
unfolding task_one one
store_one-StoreOk = record { tasks = (task_one-WellFormed, tt); disk = tt }

abbrev pub calm_world : World
calm_world = record {
  env = calm_env;
  log = record { stat = none; rename = none; keeps = λ _. false; open_file = none; write = none };
  ctx = none;
  docker = record { output = []; failure = none };
}

abbrev pub settings : Config
unfolding utf8
settings = record {
  addr = [];
  data_dir = [];
  challenge_dir = [];
  docker_image = [];
  category_images = [];
  mem_limit = utf8 "4g";
  cpus = utf8 "2";
  max_containers = 1;
  task_timeout = 0;
  auto_continue_rounds = 2;
  opencode_run_timeout = 1800000000000;
  opencode_idle_timeout = 600000000000;
  container_retention = 1000;
  log_max_bytes = 16;
  pids_limit = [];
  disable_network = false;
  access_token = [];
  allowed_origins = [];
  agent_script = [];
  skills_dir = [];
  opencode_provider_format = Config.openai_compatible;
  opencode_providers =
      (
        Config.openai_compatible,
        record {
          format = Config.openai_compatible;
          label = [];
          provider_id = utf8 "openai";
          provider_name = utf8 "openai";
          provider_npm = utf8 "npm";
          base_url = utf8 "http://localhost";
          api_key = utf8 "key";
          model = utf8 "model";
        },
      )
      ∷ [];
  opencode_provider_id = [];
  opencode_provider_name = [];
  opencode_provider_npm = [];
  opencode_base_url = [];
  opencode_api_key = [];
  opencode_model = [];
}

abbrev pub service_with : Task → Service
service_with t = record {
  cfg = settings;
  store = store_with t;
  hub = new_hub;
  queue = [];
  stopped = false;
  runs = [];
  busy = [];
  queued_messages = [];
  active_provider_format = Config.openai_compatible;
  last_cleanup_at = none;
  last_cleanup_removed = 0;
}
