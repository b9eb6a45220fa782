-- ===== src/Config/Loaded/Checked.antt =====
-- What every configuration of LoadConfig satisfies (internal/app/config.go).
use ctf_agent.Base.{
  ℕ, ◌≡◌, refl, sym, subst, ◌||◌, ap, ◌∙◌, ◌<◌, ◌⊎◌, inl, inr, Bool, true, false, not, Option, none,
  some, List, [], ◌∷◌, arith, Bool-cases, if◌then◌else◌,
}
use ctf_agent.Base.Int.{ℤ, pos, negsuc}
use ctf_agent.Config.{
  Config, OpenCodeProviderConfig, provider_at, openai_compatible, anthropic,
  normalize_provider_format, canonical_provider_format, provider_for_format, with_opencode_provider,
}
use ctf_agent.Config.Env.{
  Environment, trimmed_value, getenv_int, set_env, set_if_blank, load_line, load_lines,
  load_local_env_file, env_value, or_default, unquote, load_cut, is_comment, positive_or,
}
use ctf_agent.Config.Loaded.{
  default_provider_format, load_opencode_providers, openai_provider, anthropic_provider,
  loaded_with, config_of, load_config, or_no_provider, legacy_anthropic,
}
use ctf_agent.Map.{lookup, lookup-insert, Entries}
use ctf_agent.Service.Providers.Choice.{canonical_cases, canonical_anthropic, canonical_openai}
use ctf_agent.Text.Cut.{cut, contains_any}
use ctf_agent.Text.Parse.{parse_int}
use ctf_agent.Text.{
  Text, has_byte, utf8, text_eq, text_eq_sound, is_empty, is_blank, trim_space, split, unix_lines,
}

abbrev KnownFormat : Text → Type 0
KnownFormat format = (format ≡ openai_compatible) ⊎ (format ≡ anthropic)

normalize_known : (name : Text) → KnownFormat (normalize_provider_format name)
unfolding normalize_provider_format
normalize_known name = elim (canonical_cases name) [
  | inl e ↦ rw e (inl refl)
  | inr (inl e) ↦ rw e (inr refl)
  | inr (inr e) ↦ rw e (inl refl)
]

legacy_known : (b : Bool) → KnownFormat (if b then anthropic else openai_compatible)
legacy_known true = inr refl
legacy_known false = inl refl

chosen_known :
    (b : Bool) (env : Environment) (value : Text)
    → KnownFormat (
        if b
        then normalize_provider_format value
        else if legacy_anthropic env
        then anthropic
        else openai_compatible)
chosen_known true env value = normalize_known value
chosen_known false env value = legacy_known (legacy_anthropic env)

default_known : (env : Environment) → KnownFormat (default_provider_format env)
unfolding default_provider_format
default_known env = chosen_known _ env _

positive_or_positive : (n : ℕ) (o : Option ℤ) → 0 < n → 0 < positive_or n o
positive_or_positive n none h = h
positive_or_positive n (some (pos k)) h = ground arith
positive_or_positive n (some (negsuc k)) h = h

getenv_int_positive : (name : Text) (n : ℕ) (env : Environment) → 0 < n → 0 < getenv_int name n env
unfolding getenv_int
getenv_int_positive name n env h = positive_or_positive n (parse_int (trimmed_value name env)) h

openai_listed :
    (env : Environment)
    → lookup openai_compatible (load_opencode_providers env) ≡ some (openai_provider env)
unfolding lookup load_opencode_providers text_eq openai_compatible
openai_listed env = refl

anthropic_listed :
    (env : Environment)
    → lookup anthropic (load_opencode_providers env) ≡ some (anthropic_provider env)
unfolding lookup load_opencode_providers text_eq openai_compatible
anthropic_listed env = refl

openai_own : (env : Environment) → (openai_provider env).format ≡ openai_compatible
unfolding openai_provider
openai_own env = refl

anthropic_own : (env : Environment) → (anthropic_provider env).format ≡ anthropic
unfolding anthropic_provider
anthropic_own env = refl

-- A known format is that of a provider under it.
record Offers (env : Environment) (format : Text) : Type 0 where
  provider : OpenCodeProviderConfig
  listed : lookup format (load_opencode_providers env) ≡ some provider
  own : provider.format ≡ format
  canonical : canonical_provider_format format ≡ some format

provider_known : (env : Environment) (format : Text) → KnownFormat format → Offers env format
provider_known env format (inl e) = subst (Offers env) (sym e) (record {
  provider = openai_provider env;
  listed = openai_listed env;
  own = openai_own env;
  canonical = canonical_openai;
})
provider_known env format (inr e) = subst (Offers env) (sym e) (record {
  provider = anthropic_provider env;
  listed = anthropic_listed env;
  own = anthropic_own env;
  canonical = canonical_anthropic;
})

env_value-set_env :
    (key value name : Text) (env : Environment)
    → is_blank (env_value key env) ≡ true
    → is_blank (env_value name env) ≡ false
    → env_value name (set_env key value env) ≡ env_value name env
unfolding env_value set_env
env_value-set_env key value name env b h = elim (Bool-cases (text_eq key name)) [
  | inl e ↦
      let same = text_eq_sound key name e in
      let blank : is_blank (env_value name env) ≡ true =
        sym (ap (λ k. is_blank (env_value k env)) same) ∙ b in
      absurd (cc)
  | inr e ↦ elim (Bool-cases (has_byte 0 key || has_byte 0 value)) [
    | inl z ↦ rw z refl
    | inr z ↦ rw z (
        ap (or_default []) (lookup-insert key name value env)
        ∙ ap (λ c. or_default [] (if c then some value else lookup name env)) e)
  ]
]

set_if_blank_cases :
    (key value : Text) (env : Environment)
    → (set_if_blank key value env ≡ env)
      ⊎ ((is_blank (env_value key env) ≡ true)
          × (set_if_blank key value env ≡ set_env key (unquote value) env))
unfolding set_if_blank
set_if_blank_cases key value env =
    elim (Bool-cases
      (is_empty key || contains_any (utf8 " \t") key || not (is_blank (env_value key env)))) [
        | inl e ↦ rw e (inl refl)
        | inr e ↦ rw e (inr (ground arith, refl))
      ]

env_value-set_if_blank :
    (key value name : Text) (env : Environment)
    → is_blank (env_value name env) ≡ false
    → env_value name (set_if_blank key value env) ≡ env_value name env
env_value-set_if_blank key value name env h = elim (set_if_blank_cases key value env) [
  | inl e ↦ ap (env_value name) e
  | inr (b, e) ↦ ap (env_value name) e ∙ env_value-set_env key (unquote value) name env b h
]

env_value-load_cut :
    (part : Option (Text × Text)) (name : Text) (env : Environment)
    → is_blank (env_value name env) ≡ false
    → env_value name (load_cut part env) ≡ env_value name env
env_value-load_cut none name env h = refl
env_value-load_cut (some (key, value)) name env h =
    env_value-set_if_blank (trim_space key) (trim_space value) name env h

env_value-load_line :
    (line name : Text) (env : Environment)
    → is_blank (env_value name env) ≡ false
    → env_value name (load_line line env) ≡ env_value name env
unfolding load_line
env_value-load_line line name env h = elim (Bool-cases (is_comment line)) [
  | inl e ↦ rw e refl
  | inr e ↦ rw e (env_value-load_cut (cut b'=' line) name env h)
]

env_value-load_lines :
    (lines : List Text) (name : Text) (env : Environment)
    → is_blank (env_value name env) ≡ false
    → env_value name (load_lines lines env) ≡ env_value name env
unfolding load_lines
env_value-load_lines [] name env h = refl
env_value-load_lines (raw ∷ lines) name env h =
    let one = env_value-load_line (trim_space raw) name env h in
    env_value-load_lines lines name (load_line (trim_space raw) env) (ap is_blank one ∙ h) ∙ one

-- Whatever opencode.env contains, a variable that has a value other than white space before the
-- file is read has the same value afterwards.
pub load_local_env_file_keeps :
    (file : Option Text) (name : Text) (env : Environment)
    → is_blank (env_value name env) ≡ false
    → env_value name (load_local_env_file file env) ≡ env_value name env
unfolding load_local_env_file
load_local_env_file_keeps none name env h = refl
load_local_env_file_keeps (some data_text) name env h =
    env_value-load_lines (split b'\n' (unix_lines data_text)) name env h

-- What the rest of the program relies on.
pub record Sound (cfg : Config) : Type 0 where
  -- each provider is filed under its format
  pub filed : Entries (λ key p. p.format ≡ key) cfg.opencode_providers
  pub has_worker : 0 < cfg.max_containers
  pub bounds_logs : 0 < cfg.log_max_bytes
  pub active : OpenCodeProviderConfig
  pub named : provider_for_format cfg cfg.opencode_provider_format ≡ some active
  pub in_use : with_opencode_provider cfg active ≡ cfg

active_in_use :
    (parse : Text → Option ℤ) (root : Text) (env : Environment) (format : Text)
    (p : OpenCodeProviderConfig) (o : Option OpenCodeProviderConfig)
    → p.format ≡ format
    → o ≡ some p
    → let cfg = loaded_with parse root env format (or_no_provider o) in
      with_opencode_provider cfg p ≡ cfg
unfolding loaded_with with_opencode_provider
active_in_use parse root env format p o own e =
    subst
      (λ o'.
        let cfg = loaded_with parse root env format (or_no_provider o') in
        with_opencode_provider cfg p ≡ cfg)
      (sym e)
      (ap (λ f. record (loaded_with parse root env format p) { opencode_provider_format = f }) own)

config_of-Sound :
    (parse : Text → Option ℤ) (root : Text) (env : Environment) → Sound (config_of parse root env)
unfolding config_of provider_for_format with_opencode_provider loaded_with load_opencode_providers
config_of-Sound parse root env =
    let offer = provider_known env (default_provider_format env) (default_known env) in
    record {
      filed = (openai_own env, (anthropic_own env, tt));
      has_worker = getenv_int_positive _ 1 env (omega arith);
      bounds_logs = getenv_int_positive _ 10485760 env (omega arith);
      active = offer.provider;
      named = ap (provider_at (config_of parse root env)) offer.canonical ∙ offer.listed;
      in_use =
          active_in_use parse root env (default_provider_format env) offer.provider
            (lookup (default_provider_format env) (load_opencode_providers env)) offer.own
            offer.listed;
    }

-- For every environment, opencode.env and duration parser, the configuration that LoadConfig
-- returns has at least one worker and a positive log limit, files each provider under its format,
-- and its default format names a provider whose fields are the active ones.
pub load_config-Sound :
    (parse : Text → Option ℤ) (dir file : Option Text) (env : Environment)
    → Sound (load_config parse dir file env)
unfolding load_config
load_config-Sound parse dir file env = config_of-Sound parse _ _
