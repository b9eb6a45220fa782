-- ===== src/Config/Loaded.antt =====
-- LoadConfig (internal/app/config.go) as a function of the environment, the working directory, the
-- content of opencode.env and time.ParseDuration.
pub mod Checked
use ctf_agent.Base.{
  ℕ, ◌*◌, Bool, true, false, not, ◌&&◌, ◌||◌, Option, none, some, is_some, List, [], ◌∷◌, ◌==◌,
  if◌then◌else◌,
}
use ctf_agent.Base.Int.{ℤ}
use ctf_agent.Config.{
  Config, OpenCodeProviderConfig, openai_compatible, anthropic, normalize_provider_format,
  normalize_category, provider_for_format, with_opencode_provider,
}
use ctf_agent.Config.Env.{
  Environment, env_value, trimmed_value, getenv, getenv_int, getenv_non_negative_int,
  getenv_duration, getenv_bool, split_csv, load_local_env_file,
}
use ctf_agent.Map.{Map, lookup, insert}
use ctf_agent.Names.{is_abs}
use ctf_agent.Text.{Text, utf8, text_eq, is_empty, is_blank, trim_space, split}
use ctf_agent.Text.Cut.{cut, equal_fold}
use ctf_agent.Text.Path.{clean, join_two}

abbrev anthropic_npm : Text
unfolding utf8
anthropic_npm = utf8 "@ai-sdk/anthropic"

unfoldable pub legacy_anthropic : Environment → Bool
unfolding utf8
legacy_anthropic env = equal_fold (trimmed_value (utf8 "OPENCODE_PROVIDER_NPM") env) anthropic_npm

-- The value of the first name, or of the second under the old variables for Anthropic.
unfoldable pub anthropic_value : Text → Text → Environment → Text
anthropic_value name old env =
    let value = trimmed_value name env in
    if legacy_anthropic env && is_empty value then trimmed_value old env else value

unfoldable pub openai_provider : Environment → OpenCodeProviderConfig
unfolding utf8
openai_provider env = record {
  format = openai_compatible;
  label = utf8 "OpenAI兼容";
  provider_id =
      getenv (utf8 "OPENCODE_OPENAI_PROVIDER_ID")
        (getenv (utf8 "OPENCODE_PROVIDER_ID") (utf8 "ctf") env) env;
  provider_name =
      getenv (utf8 "OPENCODE_OPENAI_PROVIDER_NAME")
        (getenv (utf8 "OPENCODE_PROVIDER_NAME") (utf8 "CTF Model Gateway") env) env;
  provider_npm =
      getenv (utf8 "OPENCODE_OPENAI_PROVIDER_NPM")
        (getenv (utf8 "OPENCODE_PROVIDER_NPM") (utf8 "@ai-sdk/openai-compatible") env) env;
  base_url =
      trim_space
        (getenv (utf8 "OPENCODE_OPENAI_BASE_URL") (env_value (utf8 "OPENCODE_BASE_URL") env) env);
  api_key =
      trim_space
        (getenv (utf8 "OPENCODE_OPENAI_API_KEY") (env_value (utf8 "OPENCODE_API_KEY") env) env);
  model =
      trim_space
        (getenv (utf8 "OPENCODE_OPENAI_MODEL") (env_value (utf8 "OPENCODE_MODEL") env) env);
}

unfoldable pub anthropic_provider : Environment → OpenCodeProviderConfig
unfolding utf8
anthropic_provider env = record {
  format = anthropic;
  label = utf8 "Anthropic";
  provider_id = getenv (utf8 "OPENCODE_ANTHROPIC_PROVIDER_ID") (utf8 "anthropic") env;
  provider_name = getenv (utf8 "OPENCODE_ANTHROPIC_PROVIDER_NAME") (utf8 "Anthropic") env;
  provider_npm = getenv (utf8 "OPENCODE_ANTHROPIC_PROVIDER_NPM") anthropic_npm env;
  base_url = getenv (utf8 "OPENCODE_ANTHROPIC_BASE_URL") (utf8 "https://api.anthropic.com/v1") env;
  api_key = anthropic_value (utf8 "OPENCODE_ANTHROPIC_API_KEY") (utf8 "OPENCODE_API_KEY") env;
  model = anthropic_value (utf8 "OPENCODE_ANTHROPIC_MODEL") (utf8 "OPENCODE_MODEL") env;
}

-- loadOpenCodeProviders
unfoldable pub load_opencode_providers : Environment → Map OpenCodeProviderConfig
load_opencode_providers env =
    (openai_compatible, openai_provider env) ∷ (anthropic, anthropic_provider env) ∷ []

-- defaultProviderFormat
unfoldable pub default_provider_format : Environment → Text
unfolding utf8
default_provider_format env =
    let value = trimmed_value (utf8 "OPENCODE_PROVIDER_FORMAT") env in
    if not (is_empty value)
    then normalize_provider_format value
    else if legacy_anthropic env
    then anthropic
    else openai_compatible

-- absPath
unfoldable pub abs_path : Text → Text → Text
abs_path root value = if is_abs value then clean value else join_two root value

-- The categories with the variables of their images.
abbrev image_variables : List (Text × Text)
unfolding utf8
image_variables =
    (utf8 "misc", utf8 "CTF_AGENT_IMAGE_MISC")
    ∷ (utf8 "web", utf8 "CTF_AGENT_IMAGE_WEB")
    ∷ (utf8 "pwn", utf8 "CTF_AGENT_IMAGE_PWN")
    ∷ (utf8 "crypto", utf8 "CTF_AGENT_IMAGE_CRYPTO")
    ∷ (utf8 "reverse", utf8 "CTF_AGENT_IMAGE_REVERSE")
    ∷ (utf8 "forensics", utf8 "CTF_AGENT_IMAGE_FORENSICS")
    ∷ []

unfoldable pub variable_images : List (Text × Text) → Environment → Map Text → Map Text
variable_images [] env images = images
variable_images ((category, name) ∷ rest) env images =
    let image = trimmed_value name env in
    variable_images rest env (if is_empty image then images else insert category image images)

abbrev put_item : Option (Text × Text) → Map Text → Map Text
put_item none images = images
put_item (some (category, image)) images =
    if is_blank image
    then images
    else insert (normalize_category category) (trim_space image) images

unfoldable pub item_images : List Text → Map Text → Map Text
item_images [] images = images
item_images (item ∷ items) images = item_images items (put_item (cut b'=' item) images)

unfoldable pub with_misc : Text → Map Text → Map Text
unfolding utf8
with_misc default [] = []
with_misc default (image ∷ images) =
    if is_some (lookup (utf8 "misc") (image ∷ images))
    then image ∷ images
    else insert (utf8 "misc") default (image ∷ images)

-- loadCategoryImages
unfoldable pub load_category_images : Text → Environment → Map Text
unfolding utf8
load_category_images default env = with_misc default (
    item_images (split b',' (env_value (utf8 "CTF_AGENT_CATEGORY_IMAGES") env))
      (variable_images image_variables env []))

abbrev pub no_provider : OpenCodeProviderConfig
no_provider = record {
  format = [];
  label = [];
  provider_id = [];
  provider_name = [];
  provider_npm = [];
  base_url = [];
  api_key = [];
  model = [];
}

abbrev pub or_no_provider : Option OpenCodeProviderConfig → OpenCodeProviderConfig
or_no_provider none = no_provider
or_no_provider (some p) = p

-- The record that LoadConfig returns, with the format and the provider that are active.
unfoldable pub loaded_with :
    (Text → Option ℤ) → Text → Environment → Text → OpenCodeProviderConfig → Config
unfolding utf8
loaded_with parse root env format active =
    let data_dir = abs_path root (getenv (utf8 "CTF_AGENT_DATA_DIR") (utf8 "data") env) in
    let image = getenv (utf8 "CTF_AGENT_DOCKER_IMAGE") (utf8 "ctf-agent-opencode:latest") env in
    record {
      addr = getenv (utf8 "CTF_AGENT_GO_ADDR") (utf8 "127.0.0.1:8000") env;
      data_dir = data_dir;
      challenge_dir = join_two data_dir (utf8 "challenges");
      docker_image = image;
      category_images = load_category_images image env;
      mem_limit = getenv (utf8 "CTF_AGENT_MEM_LIMIT") (utf8 "auto") env;
      cpus = getenv (utf8 "CTF_AGENT_CPUS") (utf8 "auto") env;
      max_containers = getenv_int (utf8 "CTF_AGENT_MAX_CONTAINERS") 1 env;
      task_timeout = getenv_duration parse (utf8 "CTF_AGENT_TASK_TIMEOUT") 0 env;
      auto_continue_rounds = getenv_non_negative_int (utf8 "CTF_AGENT_AUTO_CONTINUE_ROUNDS") 6 env;
      opencode_run_timeout = getenv_duration parse (utf8 "CTF_AGENT_OPENCODE_RUN_TIMEOUT") 0 env;
      opencode_idle_timeout = getenv_duration parse (utf8 "CTF_AGENT_OPENCODE_IDLE_TIMEOUT") 0 env;
      container_retention =
          getenv_duration parse (utf8 "CTF_AGENT_CONTAINER_RETENTION") 86400000000000 env;
      log_max_bytes = getenv_int (utf8 "CTF_AGENT_LOG_MAX_BYTES") 10485760 env;
      pids_limit = getenv (utf8 "CTF_AGENT_PIDS_LIMIT") (utf8 "1024") env;
      disable_network = getenv_bool (utf8 "CTF_AGENT_DISABLE_NETWORK") false env;
      access_token = trimmed_value (utf8 "CTF_AGENT_ACCESS_TOKEN") env;
      allowed_origins = split_csv (env_value (utf8 "CTF_AGENT_ALLOWED_ORIGINS") env);
      agent_script =
          abs_path root
            (getenv (utf8 "CTF_AGENT_AGENT_SCRIPT") (utf8 "runtime/opencode/bridge.py") env);
      skills_dir =
          abs_path root (getenv (utf8 "CTF_AGENT_SKILLS_DIR") (utf8 "runtime/opencode/skills") env);
      opencode_provider_format = format;
      opencode_providers = load_opencode_providers env;
      opencode_provider_id = active.provider_id;
      opencode_provider_name = active.provider_name;
      opencode_provider_npm = active.provider_npm;
      opencode_base_url = active.base_url;
      opencode_api_key = active.api_key;
      opencode_model = active.model;
    }

-- The configuration of an environment into which opencode.env has been read.
unfoldable pub config_of : (Text → Option ℤ) → Text → Environment → Config
config_of parse root env =
    let format = default_provider_format env in
    loaded_with parse root env format (or_no_provider (lookup format (load_opencode_providers env)))

abbrev or_here : Option Text → Text
or_here none = b'.' ∷ []
or_here (some dir) = dir

-- LoadConfig: the working directory (`none` is an error of os.Getwd), the content of opencode.env
-- in it, and the environment at the start.
unfoldable pub load_config : (Text → Option ℤ) → Option Text → Option Text → Environment → Config
load_config parse dir file env = config_of parse (or_here dir) (load_local_env_file file env)

abbrev pub or_loaded : Environment → Map OpenCodeProviderConfig → Map OpenCodeProviderConfig
or_loaded env [] = load_opencode_providers env
or_loaded env (p ∷ ps) = p ∷ ps

abbrev pub with_active : Config → Option OpenCodeProviderConfig → Config
with_active c none = c
with_active c (some p) = with_opencode_provider c p

-- withOpenCodeProviderDefaults; an empty map stands for nil, since loadOpenCodeProviders returns none
-- that is empty.
unfoldable pub with_opencode_provider_defaults : Environment → Config → Config
unfolding load_opencode_providers default_provider_format provider_for_format with_opencode_provider
    is_blank
with_opencode_provider_defaults env c =
    let format =
      if is_blank c.opencode_provider_format
      then default_provider_format env
      else c.opencode_provider_format in
    let c' = record c {
      opencode_providers = or_loaded env c.opencode_providers;
      opencode_provider_format = format;
    } in
    with_active c' (provider_for_format c' format)
