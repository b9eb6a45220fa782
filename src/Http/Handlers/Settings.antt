-- ===== src/Http/Handlers/Settings.antt =====
-- The handlers of the provider's settings (internal/app/router.go).
use ctf_agent.Base.{ℕ, ◌||◌, Option, none, some, if◌then◌else◌}
use ctf_agent.Diagnostics.{test_provider, ProviderTestResponse}
use ctf_agent.Errors.{message}
use ctf_agent.Http.{Response, Server, HttpIo, Handler, respond, detail, settings, tested}
use ctf_agent.Service.{Service}
use ctf_agent.Service.Providers.{ProviderFile, Chosen, set_provider_format, provider_settings}
use ctf_agent.Text.{Text, utf8, text_eq, is_blank}

-- providerSettings
unfoldable pub provider_settings_handler : Handler
unfolding provider_settings
provider_settings_handler io r s = (s, respond 200 (settings (provider_settings s.service)))

abbrev pub chosen_server : ProviderFile → Service → Server → Server
chosen_server provider_file service s = record s {
  service = service;
  provider_file = provider_file;
}

abbrev pub chosen : Server → Chosen → Server × Response
chosen s (provider_file, service, some e) =
    (chosen_server provider_file service s, respond 400 (detail (message e)))
chosen s (provider_file, service, none) =
    (chosen_server provider_file service s, respond 200 (settings (provider_settings service)))

unfoldable pub update_settings : HttpIo → Option Text → Server → Server × Response
unfolding utf8
update_settings io none s = (s, respond 400 (detail (utf8 "invalid provider payload")))
update_settings io (some format) s =
    chosen s (set_provider_format io.save format s.provider_file s.service)

-- updateProviderSettings
unfoldable pub update_provider_settings : Handler
unfolding set_provider_format provider_settings
update_provider_settings io r s = update_settings io r.payload s

unfoldable pub test_status : ProviderTestResponse → ℕ
unfolding utf8
test_status response =
    if response.is_ok
    then 200
    else if text_eq response.error_code (utf8 "unsupported_provider")
        || text_eq response.error_code (utf8 "provider_not_configured")
    then 400
    else 502

abbrev pub test_response : ProviderTestResponse → Response
test_response response = respond (test_status response) (tested response)

abbrev pub bad_test : Response
unfolding utf8
bad_test = respond 400 (detail (utf8 "invalid provider test payload"))

abbrev pub test_settings : HttpIo → Option Text → Server → Response
test_settings io none s = bad_test
test_settings io (some format) s =
    if is_blank format then bad_test else test_response (test_provider io.test format s.service)

-- testProviderSettings
unfoldable pub test_provider_settings : Handler
unfolding test_provider
test_provider_settings io r s = (s, test_settings io r.payload s)
