-- ===== src/Examples/Web.antt =====
-- The theorems of the HTTP server at concrete requests.
use ctf_agent.Base.{◌≡◌, ◌≢◌, ◌↔◌, ◌⊎◌, refl, true, false, none, some, [], ◌∷◌, arith}
use ctf_agent.Base.Int.{pos}
use ctf_agent.Config.{Config}
use ctf_agent.Config.Listen.{validate_server_security, is_loopback_listen_addr}
use ctf_agent.Diagnostics.{bad_request}
use ctf_agent.Examples.{one, task_one, calm_world, settings, service_with}
use ctf_agent.Http.{
  Request, Server, HttpIo, SocketIo, get, post, parsed, request_has_valid_access_token,
  bearer_token, basic_password, cors_headers, allow_origin,
}
use ctf_agent.Http.Access.{
  Agree, Carries, Allows, request_has_valid_access_token_iff, cors_headers_allow,
}
use ctf_agent.Http.Basic.{basic_header, basic_authentication_admitted}
use ctf_agent.Http.Create.{create_task, new_task_id}
use ctf_agent.Http.Created.{AllOrNothing, create_task-AllOrNothing}
use ctf_agent.Http.Gate.{serve_refuses}
use ctf_agent.Http.Routes.{serve}
use ctf_agent.Http.Schemes.{BearerOf, BasicOf}
use ctf_agent.Map.{lookup}
use ctf_agent.Storage.{Upload}
use ctf_agent.Text.{Text, utf8, trim_space}

abbrev secret : Text
unfolding utf8
secret = utf8 "s3cret"

abbrev origin : Text
unfolding utf8
origin = utf8 "https://ctf.example"

abbrev guarded : Config
unfolding utf8
guarded = record settings {
  addr = utf8 "0.0.0.0:8000";
  access_token = secret;
  allowed_origins = origin ∷ [];
}

abbrev upload : Upload
unfolding utf8
upload = record {
  filename = utf8 "chal.zip";
  size = pos 3;
  content = utf8 "abc";
  opened = none;
  created = none;
  copied = none;
  closed = none;
  removed = none;
}

abbrev request : Request
unfolding utf8
request = record {
  method = post;
  id = [];
  tail = [];
  path = utf8 "/api/tasks";
  token = [];
  authorization = [];
  origin = origin;
  host = utf8 "ctf.example";
  upgrade = [];
  connection = [];
  socket_version = [];
  socket_key = [];
  payload = none;
  form = parsed (record {
    name = utf8 "warmup";
    category = utf8 "web";
    description = utf8 "find the flag";
    target_ip = [];
    files = upload ∷ [];
  });
}

abbrev server : Server
server = record {
  service = record (service_with task_one) { cfg = guarded };
  provider_file = none;
  attachments = [];
}

abbrev socket_io : SocketIo
socket_io = record {
  hijack = some true;
  handshake = true;
  header_answers = λ n i. record { count = 100; failure = none };
  answers = λ n i. record { count = 100; failure = none };
  happenings = [];
}

abbrev http_io : HttpIo
unfolding utf8
http_io = record {
  now = 200;
  supply = λ n. calm_world;
  pick = false;
  others = λ x. x;
  ready = record {
    makes_dir = true;
    creates = true;
    closes = true;
    removes = true;
    docker_runs = true;
    has_image = λ image. true;
    now = 200;
  };
  test = record { started = 200; ended = 201; latency = 1; client = λ r. bad_request };
  docker = record { output = []; failure = none };
  save = record { make_dir = none; write = none };
  clear = λ id. record {
    remove = none;
    write = record { make_dir = none; reads_meta = true; backup = none; main = none };
  };
  random = none;
  made = none;
  remains = none;
  parse_url = λ s. none;
  sha1 = λ s. s;
  socket = socket_io;
  received = [];
}

secure : validate_server_security guarded ≡ true
unfolding validate_server_security ctf_agent.Text.is_blank guarded
secure = refl

remote : is_loopback_listen_addr guarded.addr ≡ false
unfolding is_loopback_listen_addr ctf_agent.Config.Listen.is_loopback_host
    ctf_agent.Text.Address.split_host trim_space ctf_agent.Text.Cut.equal_fold
    ctf_agent.Text.Address.is_loopback_ip
remote = refl

no_token : request_has_valid_access_token request (trim_space guarded.access_token) ≡ false
unfolding request_has_valid_access_token ctf_agent.Http.matches
no_token = refl

serve_refuses_example :
    ((serve (utf8 "/api/tasks") http_io request server).0 ≡ server)
    × ((serve (utf8 "/api/tasks") http_io request server).1.status ≡ 401)
unfolding utf8 ctf_agent.Text.text_eq
serve_refuses_example =
    serve_refuses (utf8 "/api/tasks") http_io request server secure remote refl refl no_token

create_task-AllOrNothing_example :
    AllOrNothing (new_task_id http_io) server (create_task http_io request server)
unfolding lookup http_io
create_task-AllOrNothing_example = create_task-AllOrNothing http_io request server refl refl refl

abbrev bearer : Request
unfolding utf8
bearer = record request { authorization = utf8 "bearer s3cret " }

request_has_valid_access_token_iff_example :
    (request_has_valid_access_token bearer secret ≡ true) ↔ (
      Agree bearer.token secret
      ⊎ (Carries (BearerOf bearer.authorization) secret
          ⊎ Carries (BasicOf bearer.authorization) secret))
request_has_valid_access_token_iff_example = request_has_valid_access_token_iff bearer secret

abbrev browser : Request
browser = record request { authorization = basic_header one secret }

basic_authentication_admitted_example : request_has_valid_access_token browser secret ≡ true
unfolding one ctf_agent.Text.is_blank
basic_authentication_admitted_example =
    basic_authentication_admitted browser one secret (omega arith, (omega arith, tt))
      (omega arith, (omega arith, (omega arith, (omega arith, (omega arith, (omega arith, tt))))))
      ((λ e. absurd (omega arith)), ((λ e. absurd (omega arith)), tt)) refl refl

cors_headers_allow_example :
    (origin ≡ trim_space request.origin) × Allows origin (origin ∷ []) × (origin ≢ b'*' ∷ [])
unfolding cors_headers lookup
cors_headers_allow_example = cors_headers_allow (origin ∷ []) request origin refl
