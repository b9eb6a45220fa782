-- ===== src/Config.antt =====
-- The configuration record, the model providers and the images (internal/app/config.go).
-- Durations are numbers of nanoseconds; getenvDuration and the other getenv functions admit no
-- negative value for any of these fields.
pub mod Env
pub mod Loaded
pub mod Listen
use ctf_agent.Base.{
  ℕ, Bool, true, false, not, ◌&&◌, Option, none, some, List, [], ◌∷◌, map, if◌then◌else◌, ◌==◌,
}
use ctf_agent.Map.{Map, lookup}
use ctf_agent.Text.Parse.{one_of}
use ctf_agent.Text.{Text, utf8, text_eq, is_blank, lower, trim_space}

pub record OpenCodeProviderConfig : Type 0 where
  pub format : Text
  pub label : Text
  pub provider_id : Text
  pub provider_name : Text
  pub provider_npm : Text
  pub base_url : Text
  pub api_key : Text
  pub model : Text

pub record Config : Type 0 where
  pub addr : Text
  pub data_dir : Text
  pub challenge_dir : Text
  pub docker_image : Text
  pub category_images : Map Text
  pub mem_limit : Text
  pub cpus : Text
  pub max_containers : ℕ
  pub task_timeout : ℕ
  pub auto_continue_rounds : ℕ
  pub opencode_run_timeout : ℕ
  pub opencode_idle_timeout : ℕ
  pub container_retention : ℕ
  pub log_max_bytes : ℕ
  pub pids_limit : Text
  pub disable_network : Bool
  pub access_token : Text
  pub allowed_origins : List Text
  pub agent_script : Text
  pub skills_dir : Text
  pub opencode_provider_format : Text
  pub opencode_providers : Map OpenCodeProviderConfig
  pub opencode_provider_id : Text
  pub opencode_provider_name : Text
  pub opencode_provider_npm : Text
  pub opencode_base_url : Text
  pub opencode_api_key : Text
  pub opencode_model : Text

abbrev pub openai_compatible : Text
unfolding utf8
openai_compatible = utf8 "openai-compatible"

abbrev pub anthropic : Text
unfolding utf8
anthropic = utf8 "anthropic"

abbrev pub anthropic_names : List Text
unfolding utf8
anthropic_names = utf8 "anthropic" ∷ utf8 "claude" ∷ []

abbrev pub openai_names : List Text
unfolding utf8
openai_names =
    utf8 "openai" ∷ utf8 "openai-compatible" ∷ utf8 "compatible" ∷ utf8 "openai_compatible" ∷ []

-- canonicalProviderFormat; `none` stands for the result ("", false).
unfoldable pub canonical_provider_format : Text → Option Text
unfolding one_of lower trim_space utf8
canonical_provider_format format =
    let name = lower (trim_space format) in
    if one_of name anthropic_names
    then some anthropic
    else if one_of name openai_names
    then some openai_compatible
    else none

abbrev or_openai : Option Text → Text
or_openai none = openai_compatible
or_openai (some f) = f

unfoldable pub normalize_provider_format : Text → Text
normalize_provider_format format = or_openai (canonical_provider_format format)

abbrev pub provider_at : Config → Option Text → Option OpenCodeProviderConfig
provider_at c none = none
provider_at c (some format) = lookup format c.opencode_providers

-- ProviderForFormat
unfoldable pub provider_for_format : Config → Text → Option OpenCodeProviderConfig
provider_for_format c format = provider_at c (canonical_provider_format format)

-- WithOpenCodeProvider
unfoldable pub with_opencode_provider : Config → OpenCodeProviderConfig → Config
with_opencode_provider c provider = record c {
  opencode_provider_format = provider.format;
  opencode_provider_id = provider.provider_id;
  opencode_provider_name = provider.provider_name;
  opencode_provider_npm = provider.provider_npm;
  opencode_base_url = provider.base_url;
  opencode_api_key = provider.api_key;
  opencode_model = provider.model;
}

-- IsConfigured
unfoldable pub is_configured : OpenCodeProviderConfig → Bool
is_configured p =
    not (is_blank p.provider_id)
    && not (is_blank p.provider_npm)
    && not (is_blank p.base_url)
    && not (is_blank p.api_key)
    && not (is_blank p.model)

abbrev dash_to_underscore : ℕ → ℕ
dash_to_underscore c = if c == b'-' then b'_' else c

unfoldable pub normalize_category : Text → Text
unfolding lower trim_space
normalize_category category = map dash_to_underscore (lower (trim_space category))

abbrev or_image : Text → Option Text → Text
or_image default none = default
or_image default (some image) = image

unfoldable pub image_for_category : Config → Text → Text
image_for_category c category =
    or_image c.docker_image (lookup (normalize_category category) c.category_images)
