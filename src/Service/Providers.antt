-- ===== src/Service/Providers.antt =====
-- The choice of the model provider (internal/app/service.go): loadProviderFormat,
-- saveProviderFormat, SetProviderFormat, ProviderSettings.
-- provider.json is modelled by what reading it gives: `none` if it cannot be read, `some none` if
-- it is no JSON of its type, else its format.
pub mod Choice
use ctf_agent.Base.{
  ℕ, Bool, true, false, not, ◌&&◌, Option, none, some, List, [], ◌∷◌, ◌++◌, if◌then◌else◌,
}
use ctf_agent.Config.{
  Config, OpenCodeProviderConfig, openai_compatible, anthropic, provider_for_format,
  normalize_provider_format, is_configured,
}
use ctf_agent.Disk.Atomic.{Fault, write_file}
use ctf_agent.Errors.{Err, unsupported_provider, provider_not_configured, system}
use ctf_agent.Service.{Service}
use ctf_agent.Text.{Text, is_blank, text_eq}

abbrev pub ProviderFile : Type 0
ProviderFile = Option (Option Text)

abbrev pub format_of : Option OpenCodeProviderConfig → Option Text
format_of none = none
format_of (some p) = if is_configured p then some p.format else none

-- The format of the provider, if there is one and it is configured.
unfoldable pub usable_format : Config → Text → Option Text
usable_format cfg format = format_of (provider_for_format cfg format)

abbrev pub or_format : Text → Option Text → Text
or_format default none = default
or_format default (some format) = format

abbrev pub saved_format : Config → ProviderFile → Option Text
saved_format cfg none = none
saved_format cfg (some none) = none
saved_format cfg (some (some format)) = usable_format cfg format

abbrev pub or_saved : Config → ProviderFile → Option Text → Text
or_saved cfg file (some format) = format
or_saved cfg file none = or_format cfg.opencode_provider_format (saved_format cfg file)

-- loadProviderFormat; `value` is that of OPENCODE_PROVIDER_FORMAT.
unfoldable pub load_provider_format : Config → Text → ProviderFile → Text
unfolding usable_format
load_provider_format cfg value file =
    or_saved cfg file
      (if is_blank value then none else usable_format cfg (normalize_provider_format value))

-- What the system answers to the calls of saveProviderFormat.
pub record SaveIo : Type 0 where
  pub make_dir : Option Text
  pub write : Fault

-- saveProviderFormat
unfoldable pub save_provider_format : SaveIo → Text → ProviderFile → ProviderFile × Option Err
save_provider_format io format file = elim io.make_dir [
  | some text ↦ (file, some (system text))
  | none ↦ write_file io.write (some format) file
]

abbrev pub Chosen : Type 0
Chosen = ProviderFile × Service × Option Err

abbrev pub activated : Text → ProviderFile × Option Err → Service → Chosen
activated format (file, some e) s = (file, s, some e)
activated format (file, none) s = (file, record s { active_provider_format = format }, none)

abbrev pub set_found : SaveIo → Option OpenCodeProviderConfig → ProviderFile → Service → Chosen
set_found io none file s = (file, s, some unsupported_provider)
set_found io (some p) file s =
    if is_configured p
    then activated p.format (save_provider_format io p.format file) s
    else (file, s, some provider_not_configured)

-- SetProviderFormat
unfoldable pub set_provider_format : SaveIo → Text → ProviderFile → Service → Chosen
unfolding save_provider_format
set_provider_format io format file s = set_found io (provider_for_format s.cfg format) file s

pub record ProviderOption : Type 0 where
  pub format : Text
  pub label : Text
  pub provider_id : Text
  pub provider_name : Text
  pub provider_npm : Text
  pub model : Text
  pub base_url_configured : Bool
  pub api_key_configured : Bool
  pub configured : Bool
  pub active : Bool

unfoldable pub provider_option : Text → OpenCodeProviderConfig → ProviderOption
provider_option active p = record {
  format = p.format;
  label = p.label;
  provider_id = p.provider_id;
  provider_name = p.provider_name;
  provider_npm = p.provider_npm;
  model = p.model;
  base_url_configured = not (is_blank p.base_url);
  api_key_configured = not (is_blank p.api_key);
  configured = is_configured p;
  active = text_eq p.format active;
}

abbrev pub options_of : Text → Option OpenCodeProviderConfig → List ProviderOption
options_of active none = []
options_of active (some p) = provider_option active p ∷ []

-- ProviderSettings: the active format and the options.
unfoldable pub provider_settings : Service → Text × List ProviderOption
unfolding provider_option
provider_settings s = (
  s.active_provider_format,
  options_of s.active_provider_format (provider_for_format s.cfg openai_compatible)
      ++ options_of s.active_provider_format (provider_for_format s.cfg anthropic),
)
