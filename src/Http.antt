-- ===== src/Http.antt =====
-- Requests, responses, authentication and CORS of the HTTP server (internal/app/router.go).
-- The handlers are in Http/Handlers.antt and Http/Create.antt, the route table in Http/Routes.antt.
-- A header that is not sent reads as the empty text. The decoding of bodies, which is encoding/json's
-- and mime/multipart's, is part of the request: what it gives.
pub mod Handlers
pub mod Create
pub mod Events
pub mod Routes
pub mod Schemes
pub mod Access
pub mod Basic
pub mod Gate
pub mod Created
pub mod Upgrade
use ctf_agent.Base.{
  ℕ, Bool, true, false, not, ◌&&◌, ◌||◌, Option, none, some, is_some, List, [], ◌∷◌, ◌++◌, length,
  drop, ◌==◌, if◌then◌else◌,
}
use ctf_agent.Diagnostics.{ReadyIo, ReadinessResponse, TestIo, ProviderTestResponse}
use ctf_agent.Disk.{Dir}
use ctf_agent.Docker.{Answer}
use ctf_agent.Map.{Map, insert}
use ctf_agent.Service.{Service, Supply}
use ctf_agent.Service.Containers.{ContainerListResponse}
use ctf_agent.Service.Providers.{ProviderFile, SaveIo, ProviderOption}
use ctf_agent.Storage.{Upload}
use ctf_agent.Store.Results.{ClearIo}
use ctf_agent.Task.View.{TaskResponse}
use ctf_agent.Websocket.{Written}
use ctf_agent.Text.{Text, utf8, text_eq, is_empty, is_blank, trim_space, lower, has_prefix}
use ctf_agent.Text.Base64.{base64_decode}
use ctf_agent.Text.Cut.{lower_byte, cut}
use ctf_agent.Text.Parse.{one_of}

pub data Method : Type 0 where
  get head post options other_method : Method

-- The fields of the form of createTask and the parts with files.
pub record Form : Type 0 where
  pub name : Text
  pub category : Text
  pub description : Text
  pub target_ip : Text
  pub files : List Upload

-- ParseMultipartForm: an error, http.MaxBytesError, or the form.
pub data FormResult : Type 0 where
  bad_form form_too_large : FormResult
  parsed : Form → FormResult

pub record Request : Type 0 where
  pub method : Method
  -- c.Param("id"), the query's "tail" and the path
  pub id : Text
  pub tail : Text
  pub path : Text
  -- the headers X-CTF-Agent-Token, Authorization, Origin
  pub token : Text
  pub authorization : Text
  pub origin : Text
  -- Host, and the headers Upgrade, Connection, Sec-WebSocket-Version and Sec-WebSocket-Key
  pub host : Text
  pub upgrade : Text
  pub connection : Text
  pub socket_version : Text
  pub socket_key : Text
  -- ShouldBindJSON into a struct with one text: the text, `none` for an error
  pub payload : Option Text
  pub form : FormResult

-- What happens to an open socket: the request's context ends, the reader ends, the ticker ticks, a
-- text of the log is received, the channel of the subscription is closed.
pub data Happening : Type 0 where
  context_done reader_closed tick channel_closed : Happening
  received_text : Text → Happening

-- Whether the connection can be taken over (`none` if the writer is no http.Hijacker), what the
-- writes of the handshake and of the n-th frame answer, and what happens then.
pub record SocketIo : Type 0 where
  pub hijack : Option Bool
  pub handshake : Bool
  pub header_answers : ℕ → ℕ → Written
  pub answers : ℕ → ℕ → Written
  pub happenings : List Happening

pub data Body : Type 0 where
  no_body health not_found_page : Body
  -- a JSON object with a detail, or the text of http.Error
  detail : Text → Body
  page : Text → Text → Bool → Body
  ready : ReadinessResponse → Body
  tasks : List TaskResponse → Body
  task : TaskResponse → Body
  containers : ContainerListResponse → Body
  settings : Text × List ProviderOption → Body
  tested : ProviderTestResponse → Body
  cleared : ℕ → ℕ → Body
  logs : Text → Text → Body
  file : Text → Text → Body
  stream : List Text → Body
  -- the bytes that go out on an upgraded connection; none if it could not be taken over
  socket_bytes : Text → Body

pub record Response : Type 0 where
  pub status : ℕ
  pub headers : Map Text
  pub body : Body

abbrev pub respond : ℕ → Body → Response
respond status body = record { status = status; headers = []; body = body }

-- The service, provider.json, and the attachments of the tasks by the task's id.
pub record Server : Type 0 where
  pub service : Service
  pub provider_file : ProviderFile
  pub attachments : Map (Map Text)

-- What the surroundings answer while one request is served. `others` is what other goroutines do
-- between two steps of a handler.
pub record HttpIo : Type 0 where
  pub now : ℕ
  pub supply : Supply
  pub pick : Bool
  pub others : Service → Service
  pub ready : ReadyIo
  pub test : TestIo
  pub docker : Answer
  pub save : SaveIo
  pub clear : Text → ClearIo
  -- rand.Read of 16 bytes, and os.MkdirAll's error
  pub random : Option Text
  pub made : Option Text
  -- what an os.RemoveAll that fails leaves; `none` is one that succeeds
  pub remains : Option (Option Dir × Map Text)
  -- url.Parse: the scheme and the host; sha1.Sum
  pub parse_url : Text → Option (Text × Text)
  pub sha1 : Text → Text
  pub socket : SocketIo
  -- the events that a subscriber receives until the client leaves or the channel is closed
  pub received : List Text

abbrev pub Handler : Type 0
Handler = HttpIo → Request → Server → Server × Response

-- constantTimeStringEqual: ConstantTimeCompare of texts of one length tells whether they are equal.
unfoldable pub constant_time_string_equal : Text → Text → Bool
unfolding text_eq trim_space
constant_time_string_equal got want =
    let g = trim_space got in
    let w = trim_space want in
    if is_empty g || is_empty w || not (length g == length w) then false else text_eq g w

unfoldable pub lower_ascii : Text → Text
lower_ascii [] = []
lower_ascii (c ∷ s) = lower_byte c ∷ lower_ascii s

abbrev pub password_of : Option (Text × Text) → Option Text
password_of none = none
password_of (some (username, password)) = some password

unfoldable pub decoded_password : Option Text → Option Text
unfolding cut
decoded_password none = none
decoded_password (some credentials) = password_of (cut b':' credentials)

-- The password of Request.BasicAuth.
unfoldable pub basic_password : Text → Option Text
unfolding lower_ascii has_prefix base64_decode cut utf8
basic_password authorization =
    if has_prefix (utf8 "basic ") (lower_ascii authorization)
    then decoded_password (base64_decode (drop 6 authorization))
    else none

-- The text behind "Bearer ".
unfoldable pub bearer_token : Text → Option Text
unfolding lower has_prefix trim_space utf8
bearer_token authorization =
    let auth = trim_space authorization in
    if has_prefix (utf8 "bearer ") (lower auth) then some (trim_space (drop 7 auth)) else none

unfoldable pub matches : Text → Option Text → Bool
unfolding constant_time_string_equal
matches token none = false
matches token (some got) = constant_time_string_equal got token

-- requestHasValidAccessToken
unfoldable pub request_has_valid_access_token : Request → Text → Bool
unfolding bearer_token basic_password constant_time_string_equal
request_has_valid_access_token r token =
    constant_time_string_equal r.token token
    || matches token (bearer_token r.authorization)
    || matches token (basic_password r.authorization)

abbrev pub is_options : Method → Bool
is_options options = true
is_options _ = false

-- The condition under which authMiddleware goes on.
unfoldable pub is_admitted : Text → Request → Bool
unfolding request_has_valid_access_token
is_admitted access_token r =
    let token = trim_space access_token in
    is_empty token || is_options r.method || request_has_valid_access_token r token

unfoldable pub denied : Map Text → Response
unfolding utf8 insert
denied headers = record {
  status = 401;
  headers = insert (utf8 "WWW-Authenticate") (utf8 "Basic realm=\"CTF Agent\"") headers;
  body = detail (utf8 "authentication required");
}

-- The set `allowed` of corsMiddleware.
unfoldable pub allowed_origins : List Text → List Text
unfolding trim_space text_eq
allowed_origins [] = []
allowed_origins (origin ∷ origins) =
    let rest = allowed_origins origins in
    if is_empty (trim_space origin) || text_eq (trim_space origin) (b'*' ∷ [])
    then rest
    else trim_space origin ∷ rest

abbrev pub allow_origin : Text
unfolding utf8
allow_origin = utf8 "Access-Control-Allow-Origin"

-- The headers that corsMiddleware sets.
unfoldable pub cors_headers : List Text → Request → Map Text
unfolding allowed_origins one_of utf8 trim_space
cors_headers origins r =
    let origin = trim_space r.origin in
    let always =
      (utf8 "Access-Control-Allow-Methods", utf8 "GET,POST,OPTIONS")
      ∷ (utf8 "Access-Control-Allow-Headers", utf8 "Authorization,Content-Type,X-CTF-Agent-Token")
      ∷ [] in
    if not (is_empty origin) && one_of origin (allowed_origins origins)
    then (allow_origin, origin) ∷ (utf8 "Vary", utf8 "Origin") ∷ always
    else always
