-- ===== src/Service/Providers/Choice.antt =====
-- The provider in use after a choice and after a restart (internal/app/service.go).
use ctf_agent.Base.{
  ◌≡◌, refl, ap, ◌∙◌, ◌⊎◌, inl, inr, Bool, true, Option, none, some, [], Bool-cases, Option-cases,
  arith, if◌then◌else◌,
}
use ctf_agent.Config.{
  Config, OpenCodeProviderConfig, provider_at, canonical_provider_format, provider_for_format,
  is_configured, openai_compatible, anthropic, anthropic_names, openai_names,
}
use ctf_agent.Disk.Atomic.{write_file_cases}
use ctf_agent.Errors.{Err, ok}
use ctf_agent.Map.{lookup}
use ctf_agent.Service.{Service, active_opencode_provider}
use ctf_agent.Service.Providers.{
  ProviderFile, SaveIo, Chosen, or_format, format_of, usable_format, load_provider_format,
  save_provider_format, activated, set_found, set_provider_format,
}
use ctf_agent.Text.{Text, lower, trim_space, is_blank}
use ctf_agent.Text.Parse.{one_of}

-- Each provider is filed under its format, as loadOpenCodeProviders files it.
abbrev pub FiledByFormat : Config → Type 0
FiledByFormat cfg =
    (key : Text) (p : OpenCodeProviderConfig)
    → lookup key cfg.opencode_providers ≡ some p
    → p.format ≡ key

pub canonical_anthropic : canonical_provider_format anthropic ≡ some anthropic
unfolding canonical_provider_format
canonical_anthropic = refl

pub canonical_openai : canonical_provider_format openai_compatible ≡ some openai_compatible
unfolding canonical_provider_format
canonical_openai = refl

pub canonical_cases :
    (format : Text)
    → (canonical_provider_format format ≡ none)
      ⊎ ((canonical_provider_format format ≡ some anthropic)
          ⊎ (canonical_provider_format format ≡ some openai_compatible))
unfolding canonical_provider_format
canonical_cases format = elim (Bool-cases (one_of (lower (trim_space format)) anthropic_names)) [
  | inl a ↦ rw (canonical_provider_format, a) (inr (inl refl))
  | inr a ↦ elim (Bool-cases (one_of (lower (trim_space format)) openai_names)) [
    | inl b ↦ rw (canonical_provider_format, a, b) (inr (inr refl))
    | inr b ↦ rw (canonical_provider_format, a, b) (inl refl)
  ]
]

-- The provider that a format names is the one that its own format names.
named_again :
    (cfg : Config) (format : Text) (p : OpenCodeProviderConfig)
    → FiledByFormat cfg
    → provider_for_format cfg format ≡ some p
    → provider_for_format cfg p.format ≡ some p
unfolding provider_for_format
named_again cfg format p filed e = elim (canonical_cases format) [
  | inl c ↦ absurd (ground arith)
  | inr (inl c) ↦
      let there : lookup anthropic cfg.opencode_providers ≡ some p = rw c at e in
      ap (provider_for_format cfg) (filed anthropic p there)
      ∙ ap (provider_at cfg) canonical_anthropic
      ∙ there
  | inr (inr c) ↦
      let there : lookup openai_compatible cfg.opencode_providers ≡ some p = rw c at e in
      ap (provider_for_format cfg) (filed openai_compatible p there)
      ∙ ap (provider_at cfg) canonical_openai
      ∙ there
]

-- What a choice that succeeded leaves.
pub record Chooses (cfg : Config) (r : Chosen) : Type 0 where
  pub provider : OpenCodeProviderConfig
  pub in_use : active_opencode_provider r.1 ≡ ok provider
  pub configured : is_configured provider ≡ true
  pub kept : load_provider_format cfg [] r.0 ≡ r.1.active_provider_format

activated-Chooses :
    (io : SaveIo) (p : OpenCodeProviderConfig) (file : ProviderFile) (s : Service)
    → provider_for_format s.cfg p.format ≡ some p
    → is_configured p ≡ true
    → (save : ProviderFile × Option Err) → (save.1 ≡ none → save.0 ≡ some (some p.format))
    → (activated p.format save s).2 ≡ none
    → Chooses s.cfg (activated p.format save s)
unfolding active_opencode_provider load_provider_format usable_format is_blank
activated-Chooses io p file s named set (saved, some e) written done = absurd (ground arith)
activated-Chooses io p file s named set (saved, none) written done = record {
  provider = p;
  in_use = rw (active_opencode_provider, named, set) refl;
  configured = set;
  kept =
      ap (load_provider_format s.cfg []) (written refl)
      ∙ ap (λ o. or_format s.cfg.opencode_provider_format (format_of o)) named
      ∙ ap
          (λ (b : Bool).
            or_format s.cfg.opencode_provider_format (if b then some p.format else none))
          set;
}

save_writes :
    (io : SaveIo) (format : Text) (file : ProviderFile)
    → (save_provider_format io format file).1 ≡ none
    → (save_provider_format io format file).0 ≡ some (some format)
unfolding save_provider_format
save_writes io format file = elim (Option-cases io.make_dir) [
  | inr (x, e) ↦ rw (save_provider_format, e) (λ done. absurd (ground arith))
  | inl e ↦ rw (save_provider_format, e) (write_file_cases io.write (some format) file).1
]

set_found-Chooses :
    (io : SaveIo) (format : Text) (file : ProviderFile) (s : Service)
    (found : Option OpenCodeProviderConfig)
    → FiledByFormat s.cfg
    → provider_for_format s.cfg format ≡ found
    → (set_found io found file s).2 ≡ none
    → Chooses s.cfg (set_found io found file s)
set_found-Chooses io format file s none filed e = λ done. absurd (ground arith)
set_found-Chooses io format file s (some p) filed e = elim (Bool-cases (is_configured p)) [
  | inr c ↦ rw c (λ done. absurd (ground arith))
  | inl c ↦ rw c (
      activated-Chooses io p file s (named_again s.cfg format p filed e) c
        (save_provider_format io p.format file) (save_writes io p.format file))
]

-- Where the providers are filed by their formats and SetProviderFormat returns no error, the active
-- provider is one that is configured, and a service that reads provider.json again, with no format
-- in its environment, has the same active format.
pub set_provider_format-Chooses :
    (io : SaveIo) (format : Text) (file : ProviderFile) (s : Service)
    → FiledByFormat s.cfg
    → (set_provider_format io format file s).2 ≡ none
    → Chooses s.cfg (set_provider_format io format file s)
unfolding set_provider_format
set_provider_format-Chooses io format file s filed =
    set_found-Chooses io format file s (provider_for_format s.cfg format) filed refl
