-- ===== src/Diagnostics/Ready.antt =====
-- When Readiness reports that the server is ready (internal/app/diagnostics.go).
pub mod Images
use ctf_agent.Diagnostics.Ready.Images.{
  all_images, Has, has_all, configured_all, has_trimmed_iff, has_all_iff,
}
use ctf_agent.Base.{
  ◌≡◌, refl, sym, ap, ◌∙◌, ◌↔◌, inl, inr, Bool, true, false, ◌&&◌, &&-true, ◌||◌, ◌⊎◌, ltb, leb,
  ◌==◌, ℕ, Option, none, some, List, [], ◌∷◌, All, Bool-cases, arith, drop, drop-append,
  if◌then◌else◌, subst,
}
use ctf_agent.Config.{Config, OpenCodeProviderConfig, is_configured, provider_for_format}
use ctf_agent.Diagnostics.{
  ReadinessCheck, ReadyIo, check, check_writable_directory, configured_images, text_before,
  put_image, category_set, provider_check, image_key, image_check, check_images, docker_checks,
  all_ok, readiness, HttpOutcome, TestIo, judge, test_provider, tested, bad_request, failed_request,
  responded, ProviderTestResponse, provider_request, provider_network_error_code,
  provider_http_error_code,
}
use ctf_agent.Map.{Map, insert, Entries, insert-Entries}
use ctf_agent.Service.{Service, active_opencode_provider}
use ctf_agent.Errors.{Result, ok, err}
use ctf_agent.Store.Listing.{insert_sorted, sort_slice}
use ctf_agent.Text.{Text, utf8, trim_space, is_empty, text_eq, text_eq_sound}

image_key_injective : (x y : Text) → image_key x ≡ image_key y → x ≡ y
unfolding image_key
image_key_injective x y h =
    sym (drop-append (utf8 "image:") x) ∙ ap (drop 6) h ∙ drop-append (utf8 "image:") y

-- The entry under an image's key says whether docker has the image.
abbrev Says : ReadyIo → Text → ReadinessCheck → Type 0
Says io key c = (x : Text) → key ≡ image_key x → c.is_ok ≡ io.has_image x

image_check_is_ok : (io : ReadyIo) (x : Text) → (image_check io x).is_ok ≡ io.has_image x
unfolding image_check
image_check_is_ok io x = elim (Bool-cases (io.has_image x)) [
  | inl e ↦ rw e refl
  | inr e ↦ rw e refl
]

image_check-Says : (io : ReadyIo) (x : Text) → Says io (image_key x) (image_check io x)
image_check-Says io x y e =
    let same = image_key_injective x y e in
    subst (λ z. (image_check io x).is_ok ≡ io.has_image z) same (image_check_is_ok io x)

-- An image's entry is as good as what docker says, wherever it is put.
all_ok-insert :
    (io : ReadyIo) (x : Text) (m : Map ReadinessCheck)
    → Entries (Says io) m
    → all_ok (insert (image_key x) (image_check io x) m) ≡ (io.has_image x && all_ok m)
unfolding all_ok insert
all_ok-insert io x [] h = ap (λ b. b && true) (image_check_is_ok io x)
all_ok-insert io x ((j, c) ∷ m) h = elim (Bool-cases (text_eq j (image_key x))) [
  | inl e ↦
      let says = h.0 x (text_eq_sound j (image_key x) e) in
      let put = image_check_is_ok io x in rw (e, all_ok, insert, put, says) (ground arith)
  | inr e ↦ rw (e, all_ok, insert, all_ok-insert io x m h.1) (ground arith)
]

all_ok-check_images :
    (io : ReadyIo) (images : List Text) (m : Map ReadinessCheck)
    → Entries (Says io) m
    → all_ok (check_images io images m) ≡ (all_images io images && all_ok m)
unfolding check_images all_images
all_ok-check_images io [] m h = refl
all_ok-check_images io (x ∷ images) m h =
    all_ok-check_images io images (insert (image_key x) (image_check io x) m)
      (insert-Entries (Says io) (image_key x) (image_check io x) m h (image_check-Says io x))
    ∙ rw (all_ok-insert io x m h) (ground arith)

-- Keys of no image.
abbrev IsOther : Text → Type 0
IsOther key = (x : Text) → text_eq key (image_key x) ≡ false

check_images-cons :
    (io : ReadyIo) (images : List Text) (key : Text) (c : ReadinessCheck) (m : Map ReadinessCheck)
    → IsOther key
    → check_images io images ((key, c) ∷ m) ≡ (key, c) ∷ check_images io images m
unfolding check_images insert
check_images-cons io [] key c m other = refl
check_images-cons io (x ∷ images) key c m other =
    rw (other x, check_images, insert)
      (check_images-cons io images key c (insert (image_key x) (image_check io x) m) other)

data-IsOther : IsOther (utf8 "data")
unfolding image_key text_eq
data-IsOther x = refl

provider-IsOther : IsOther (utf8 "provider")
unfolding image_key text_eq
provider-IsOther x = refl

docker-IsOther : IsOther (utf8 "docker")
unfolding image_key text_eq
docker-IsOther x = refl

abbrev three : ReadinessCheck → ReadinessCheck → ReadinessCheck → Map ReadinessCheck
unfolding utf8
three a b c = (utf8 "data", a) ∷ (utf8 "provider", b) ∷ (utf8 "docker", c) ∷ []

check_images-three :
    (io : ReadyIo) (images : List Text) (a b c : ReadinessCheck)
    → all_ok (check_images io images (three a b c))
      ≡ (a.is_ok && (b.is_ok && (c.is_ok && all_images io images)))
unfolding all_ok three
check_images-three io images a b c =
    let first = check_images-cons io images (utf8 "data") a (drop 1 (three a b c)) data-IsOther in
    let second =
      check_images-cons io images (utf8 "provider") b (drop 2 (three a b c)) provider-IsOther in
    let third = check_images-cons io images (utf8 "docker") c [] docker-IsOther in
    ap all_ok first
    ∙ ap (λ m. a.is_ok && all_ok m) second
    ∙ ap (λ m. a.is_ok && (b.is_ok && all_ok m)) third
    ∙ ap (λ r. a.is_ok && (b.is_ok && (c.is_ok && r))) (all_ok-check_images io images [] tt)
    ∙ ground arith

-- What a server that is ready has: every call that tries the data directory succeeds, there is an
-- active provider, docker answers and has the image of the configuration and that of each category.
pub record IsReady (io : ReadyIo) (s : Service) : Type 0 where
  pub makes_dir : io.makes_dir ≡ true
  pub creates : io.creates ≡ true
  pub closes : io.closes ≡ true
  pub removes : io.removes ≡ true
  pub provider : (p : OpenCodeProviderConfig) × (active_opencode_provider s ≡ ok p)
  pub docker : io.docker_runs ≡ true
  pub image : Has io s.cfg.docker_image
  pub images : All (λ entry. Has io entry.1) s.cfg.category_images

writable_iff :
    (io : ReadyIo)
    → ((check_writable_directory io).is_ok ≡ true)
      ↔ ((io.makes_dir ≡ true) × (io.creates ≡ true) × (io.closes ≡ true) × (io.removes ≡ true))
unfolding check_writable_directory
writable_iff io = (λ h. ground arith, λ (a, b, c, d). rw (a, b, c, d) refl)

provider_iff :
    (r : Result OpenCodeProviderConfig)
    → ((provider_check r).is_ok ≡ true) ↔ ((p : OpenCodeProviderConfig) × (r ≡ ok p))
unfolding provider_check
provider_iff (ok p) = (λ h. (p, refl), λ h. refl)
provider_iff (err e) = (λ h. absurd (cc), λ (p, h). absurd (cc))

ready_if_running :
    (io : ReadyIo) (s : Service)
    → io.docker_runs ≡ true
    → (readiness io s).is_ok ≡ (
        (check_writable_directory io).is_ok
        && ((provider_check (active_opencode_provider s)).is_ok
            && all_images io (configured_images s.cfg)))
unfolding readiness insert text_eq all_images docker_checks ctf_agent.Store.Listing.sort_slice
    image_check
ready_if_running io s h =
    rw (h, readiness, insert)
      (check_images-three io (configured_images s.cfg) (check_writable_directory io)
        (provider_check (active_opencode_provider s)) (check true (utf8 "available")))

and_false_end : (a b : Bool) → (a && (b && (false && true))) ≡ false
and_false_end a b = ground arith

not_ready : (io : ReadyIo) (s : Service) → io.docker_runs ≡ false → (readiness io s).is_ok ≡ false
unfolding readiness insert text_eq all_ok docker_checks
not_ready io s h =
    let data_check = check_writable_directory io in
    let provider = provider_check (active_opencode_provider s) in
    ap
      (λ b. all_ok (
        if b
        then check_images io (configured_images s.cfg)
            (three data_check provider (check true (utf8 "available")))
        else three data_check provider (check false (utf8 "docker_unavailable"))))
      h
    ∙ and_false_end data_check.is_ok provider.is_ok

-- The server reports that it is ready exactly when its data directory can be made and a file in it
-- created, closed and removed, there is an active provider, docker answers, and docker has the
-- configured image and that of each category, blank ones left aside.
pub readiness_iff : (io : ReadyIo) (s : Service) → ((readiness io s).is_ok ≡ true) ↔ IsReady io s
readiness_iff io s = elim (Bool-cases io.docker_runs) [
  | inr e ↦ (λ h. absurd (let n = not_ready io s e in cc), λ h. absurd (let d = h.docker in cc))
  | inl e ↦
      let same = ready_if_running io s e in
      let configured = configured_all io s.cfg in
      let writable = writable_iff io in
      let provider = provider_iff (active_opencode_provider s) in
      let image = has_trimmed_iff io s.cfg.docker_image in
      let images = has_all_iff io s.cfg.category_images in
      (
        λ h.
            let (a, rest) = &&-true (check_writable_directory io).is_ok _ (sym same ∙ h) in
            let (b, all) = &&-true (provider_check (active_opencode_provider s)).is_ok _ rest in
            let (c, d) = &&-true (has_all io s.cfg.category_images) _ (sym configured ∙ all) in
            let (w, x, y, z) = writable.0 a in
            record {
              makes_dir = w;
              creates = x;
              closes = y;
              removes = z;
              provider = provider.0 b;
              docker = e;
              image = image.0 d;
              images = images.0 c;
            },
        λ h.
            let a = writable.1 (h.makes_dir, h.creates, h.closes, h.removes) in
            let b = provider.1 h.provider in
            let c = images.1 h.images in
            let d = image.1 h.image in same ∙ rw (a, b, configured, c, d) refl,
      )
]

abbrev Reports : ProviderTestResponse → Type 0
Reports r = r.is_ok ≡ is_empty r.error_code

network_code : (a b : Bool) → is_empty (provider_network_error_code a b) ≡ false
unfolding provider_network_error_code
network_code a b = elim (Bool-cases (a || b)) [ inl e ↦ rw e refl | inr e ↦ rw e refl ]

http_code : (status : ℕ) → is_empty (provider_http_error_code status) ≡ false
unfolding provider_http_error_code
http_code status = elim (Bool-cases (status == 401 || status == 403)) [
  | inl e ↦ rw e refl
  | inr e ↦ elim (Bool-cases (status == 429)) [ inl f ↦ rw (e, f) refl | inr f ↦ rw (e, f) refl ]
]

judge-Reports : (io : TestIo) (format : Text) (o : HttpOutcome) → Reports (judge io format o)
unfolding judge
judge-Reports io format bad_request = refl
judge-Reports io format (failed_request a b) = sym (network_code a b)
judge-Reports io format (responded status is_json) =
    elim (Bool-cases (ltb status 200 || leb 300 status)) [
      | inl e ↦ rw (e, judge) (sym (http_code status))
      | inr e ↦ elim (Bool-cases is_json) [
        | inl f ↦ rw (e, f, judge) refl
        | inr f ↦ rw (e, f, judge) refl
      ]
    ]

tested-Reports :
    (io : TestIo) (format : Text) (o : Option OpenCodeProviderConfig) → Reports (tested io format o)
unfolding tested
tested-Reports io format none = refl
tested-Reports io format (some p) = elim (Bool-cases (is_configured p)) [
  | inl e ↦ rw e (judge-Reports io p.format (io.client (provider_request p)))
  | inr e ↦ rw e refl
]

is_empty_nil : (s : Text) → is_empty s ≡ true → s ≡ []
is_empty_nil [] h = refl
is_empty_nil (c ∷ s) h = absurd (cc)

code_iff : (r : ProviderTestResponse) → Reports r → (r.is_ok ≡ true) ↔ (r.error_code ≡ [])
code_iff r h = (λ e. is_empty_nil r.error_code (sym h ∙ e), λ e. h ∙ ap is_empty e)

-- For every provider format and every outcome of the request, the test of a provider succeeds
-- exactly when it reports no error code.
pub test_provider_code :
    (io : TestIo) (format : Text) (s : Service)
    → ((test_provider io format s).is_ok ≡ true) ↔ ((test_provider io format s).error_code ≡ [])
unfolding test_provider
test_provider_code io format s =
    code_iff (test_provider io format s)
      (tested-Reports io format (provider_for_format s.cfg format))
