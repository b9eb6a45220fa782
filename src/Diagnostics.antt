-- ===== src/Diagnostics.antt =====
-- Readiness and the test of a provider (internal/app/diagnostics.go).
-- What the system, docker and the HTTP client answer is an argument.
pub mod Ready
use ctf_agent.Base.{
  ℕ, ◌+◌, Bool, true, false, not, ◌&&◌, ◌||◌, Option, none, some, List, [], ◌∷◌, ◌++◌, leb, ltb,
  ◌==◌, if◌then◌else◌,
}
use ctf_agent.Config.{
  Config, OpenCodeProviderConfig, anthropic, normalize_provider_format, provider_for_format,
  is_configured,
}
use ctf_agent.Errors.{Result, ok, err}
use ctf_agent.Map.{Map, insert}
use ctf_agent.Service.{Service, active_opencode_provider}
use ctf_agent.Store.Listing.{sort_slice}
use ctf_agent.Text.{Text, utf8, text_eq, is_empty, trim_space, itoa}
use ctf_agent.Text.Cut.{trim_right}

pub record ReadinessCheck : Type 0 where
  pub is_ok : Bool
  pub reason : Text

pub record ReadinessResponse : Type 0 where
  pub is_ok : Bool
  pub checks : Map ReadinessCheck
  pub checked_at : ℕ

-- Whether each call succeeds: os.MkdirAll, os.CreateTemp, Close and os.Remove of the file, docker
-- version, docker image inspect of an image; and the time.
pub record ReadyIo : Type 0 where
  pub makes_dir : Bool
  pub creates : Bool
  pub closes : Bool
  pub removes : Bool
  pub docker_runs : Bool
  pub has_image : Text → Bool
  pub now : ℕ

abbrev pub check : Bool → Text → ReadinessCheck
check is_ok reason = record { is_ok = is_ok; reason = reason }

-- checkWritableDirectory
unfoldable pub check_writable_directory : ReadyIo → ReadinessCheck
unfolding utf8
check_writable_directory io =
    if not io.makes_dir
    then check false (utf8 "data_directory_unavailable")
    else if not io.creates
    then check false (utf8 "data_directory_not_writable")
    else if not io.closes
    then check false (utf8 "data_directory_not_writable")
    else if not io.removes
    then check false (utf8 "data_directory_cleanup_failed")
    else check true (utf8 "writable")

-- The order of Go's strings.
unfoldable pub text_before : Text → Text → Bool
text_before s [] = false
text_before [] (b ∷ t) = true
text_before (a ∷ s) (b ∷ t) = ltb a b || a == b && text_before s t

-- The entry of an image in the set `unique`.
unfoldable pub put_image : Text → List Text → List Text
unfolding text_eq
put_image image [] = image ∷ []
put_image image (other ∷ images) =
    let rest = put_image image images in
    if text_eq other image then other ∷ images else other ∷ rest

unfoldable pub category_set : Map Text → List Text → List Text
unfolding put_image trim_space
category_set [] images = images
category_set ((category, image) ∷ m) images =
    category_set m
      (if is_empty (trim_space image) then images else put_image (trim_space image) images)

-- configuredImages
unfoldable pub configured_images : Config → List Text
unfolding category_set text_before
configured_images cfg =
    let image = trim_space cfg.docker_image in
    sort_slice text_before
      (category_set cfg.category_images (if is_empty image then [] else image ∷ []))

unfoldable pub provider_check : Result OpenCodeProviderConfig → ReadinessCheck
unfolding utf8
provider_check (ok p) = check true (utf8 "configured")
provider_check (err e) = check false (utf8 "provider_not_configured")

unfoldable pub image_key : Text → Text
unfolding utf8
image_key image = utf8 "image:" ++ image

unfoldable pub image_check : ReadyIo → Text → ReadinessCheck
unfolding utf8
image_check io image =
    if io.has_image image then check true (utf8 "available") else check false (utf8 "image_missing")

unfoldable pub check_images : ReadyIo → List Text → Map ReadinessCheck → Map ReadinessCheck
unfolding image_key insert
check_images io [] checks = checks
check_images io (image ∷ images) checks =
    check_images io images (insert (image_key image) (image_check io image) checks)

unfoldable pub docker_checks : ReadyIo → Config → Map ReadinessCheck → Map ReadinessCheck
unfolding utf8
docker_checks io cfg checks =
    if io.docker_runs
    then check_images io (configured_images cfg)
        (insert (utf8 "docker") (check true (utf8 "available")) checks)
    else insert (utf8 "docker") (check false (utf8 "docker_unavailable")) checks

unfoldable pub all_ok : Map ReadinessCheck → Bool
all_ok [] = true
all_ok ((key, c) ∷ checks) = c.is_ok && all_ok checks

-- Readiness
unfoldable pub readiness : ReadyIo → Service → ReadinessResponse
unfolding utf8 insert check_images check_writable_directory active_opencode_provider
    configured_images all_ok
readiness io s =
    let data_checks = insert (utf8 "data") (check_writable_directory io) [] in
    let checks =
      docker_checks io s.cfg
        (insert (utf8 "provider") (provider_check (active_opencode_provider s)) data_checks) in
    record { is_ok = all_ok checks; checks = checks; checked_at = io.now }

pub record ProviderTestResponse : Type 0 where
  pub format : Text
  pub is_ok : Bool
  pub latency_ms : ℕ
  pub error_code : Text
  pub checked_at : ℕ

-- What becomes of the request: http.NewRequest refuses the address; the client fails, after the
-- deadline of the test or with an error of its own that is or is not a timeout; or there is a
-- response with a status, whose body is or is not JSON.
pub data HttpOutcome : Type 0 where
  bad_request : HttpOutcome
  failed_request : Bool → Bool → HttpOutcome
  responded : ℕ → Bool → HttpOutcome

pub record ProviderRequest : Type 0 where
  pub url : Text
  pub headers : Map Text

-- The request of TestProvider.
unfoldable pub provider_request : OpenCodeProviderConfig → ProviderRequest
unfolding utf8 trim_right text_eq
provider_request p = record {
  url = trim_right (b'/' ∷ []) p.base_url ++ utf8 "/models";
  headers =
      if text_eq p.format anthropic
      then (utf8 "x-api-key", p.api_key)
        ∷ (utf8 "anthropic-version", utf8 "2023-06-01")
        ∷ (utf8 "Accept", utf8 "application/json")
        ∷ []
      else (utf8 "Authorization", utf8 "Bearer " ++ p.api_key)
        ∷ (utf8 "Accept", utf8 "application/json")
        ∷ [];
}

-- The times before and after the request, with its latency, and the client.
pub record TestIo : Type 0 where
  pub started : ℕ
  pub ended : ℕ
  pub latency : ℕ
  pub client : ProviderRequest → HttpOutcome

-- providerNetworkErrorCode
unfoldable pub provider_network_error_code : Bool → Bool → Text
unfolding utf8
provider_network_error_code deadline timeout =
    if deadline || timeout then utf8 "timeout" else utf8 "network_error"

-- providerHTTPErrorCode
unfoldable pub provider_http_error_code : ℕ → Text
unfolding utf8 itoa
provider_http_error_code status =
    if status == 401 || status == 403
    then utf8 "unauthorized"
    else if status == 429
    then utf8 "rate_limited"
    else utf8 "upstream_http_" ++ itoa status

abbrev pub answered : TestIo → Text → Bool → Text → ProviderTestResponse
answered io format is_ok code = record {
  format = format;
  is_ok = is_ok;
  latency_ms = io.latency;
  error_code = code;
  checked_at = io.ended;
}

-- A response before any request is sent.
abbrev pub unsent : TestIo → Text → Text → ProviderTestResponse
unsent io format code = record {
  format = format;
  is_ok = false;
  latency_ms = 0;
  error_code = code;
  checked_at = io.started;
}

unfoldable pub judge : TestIo → Text → HttpOutcome → ProviderTestResponse
unfolding utf8 provider_network_error_code provider_http_error_code
judge io format bad_request = unsent io format (utf8 "invalid_provider_config")
judge io format (failed_request deadline timeout) =
    answered io format false (provider_network_error_code deadline timeout)
judge io format (responded status is_json) =
    if ltb status 200 || leb 300 status
    then answered io format false (provider_http_error_code status)
    else if not is_json
    then answered io format false (utf8 "invalid_response")
    else answered io format true []

unfoldable pub tested : TestIo → Text → Option OpenCodeProviderConfig → ProviderTestResponse
unfolding utf8
tested io format none = unsent io (normalize_provider_format format) (utf8 "unsupported_provider")
tested io format (some p) =
    if is_configured p
    then judge io p.format (io.client (provider_request p))
    else unsent io p.format (utf8 "provider_not_configured")

-- TestProvider
unfoldable pub test_provider : TestIo → Text → Service → ProviderTestResponse
unfolding judge provider_request
test_provider io format s = tested io format (provider_for_format s.cfg format)
