-- ===== src/Http/Routes.antt =====
-- NewRouter (internal/app/router.go): the route table and the middleware of each route.
-- gin.Logger and gin.Recovery change no response but that of a panic. A middleware applies to the
-- routes that are registered after it, and to requests that no route matches. The choice of the
-- route is gin's: a request comes with the pattern that gin found, "" if it found none.
use ctf_agent.Base.{Bool, true, false, ◌&&◌, List, [], ◌∷◌, ◌++◌, if◌then◌else◌}
use ctf_agent.Config.{Config}
use ctf_agent.Http.{
  Method, get, head, post, options, Response, Server, Handler, respond, no_body, not_found_page,
  file, is_options, is_admitted, denied, cors_headers,
}
use ctf_agent.Http.Create.{create_task}
use ctf_agent.Http.Events.{task_events}
use ctf_agent.Http.Handlers.{
  health_handler, ready_handler, options_handler, index_page, containers_page, task_page,
  list_tasks_handler, list_containers, clear_results_handler, task_detail, task_logs, task_writeup,
  task_hint, task_message, task_stop,
}
use ctf_agent.Http.Handlers.Settings.{
  provider_settings_handler, update_provider_settings, test_provider_settings,
}
use ctf_agent.Http.Upgrade.{websocket_handler}
use ctf_agent.Map.{Map}
use ctf_agent.Text.{Text, utf8, text_eq}

pub data Middleware : Type 0 where
  cors : List Text → Middleware
  auth : Text → Middleware

pub data Setup : Type 0 where
  uses : Middleware → Setup
  serves : Method → Text → Handler → Setup

-- The handler of the static files, and of the requests that no route matches, are gin's; here
-- they are responses that name what is served.
abbrev pub static_files : Handler
static_files io r s = (s, respond 200 (file r.path []))

unfoldable pub task_routes : List Setup
unfolding utf8
task_routes =
    serves get (utf8 "/api/tasks/:id") task_detail
    ∷ serves get (utf8 "/api/tasks/:id/logs") task_logs
    ∷ serves get (utf8 "/api/tasks/:id/writeup") task_writeup
    ∷ serves post (utf8 "/api/tasks/:id/messages") task_message
    ∷ serves post (utf8 "/api/tasks/:id/hints") task_hint
    ∷ serves post (utf8 "/api/tasks/:id/stop") task_stop
    ∷ serves post (utf8 "/api/tasks/:id/container/close") task_stop
    ∷ serves options (utf8 "/api/tasks/:id") options_handler
    ∷ serves options (utf8 "/api/tasks/:id/logs") options_handler
    ∷ serves options (utf8 "/api/tasks/:id/writeup") options_handler
    ∷ serves options (utf8 "/api/tasks/:id/messages") options_handler
    ∷ serves options (utf8 "/api/tasks/:id/hints") options_handler
    ∷ serves options (utf8 "/api/tasks/:id/stop") options_handler
    ∷ serves options (utf8 "/api/tasks/:id/container/close") options_handler
    ∷ serves get (utf8 "/ws/tasks/:id/logs") websocket_handler
    ∷ []

unfoldable pub api_routes : List Setup
unfolding utf8
api_routes =
    serves get (utf8 "/") index_page
    ∷ serves get (utf8 "/containers") containers_page
    ∷ serves get (utf8 "/tasks/:id") task_page
    ∷ serves get (utf8 "/api/events") task_events
    ∷ serves get (utf8 "/api/containers") list_containers
    ∷ serves get (utf8 "/api/settings/provider") provider_settings_handler
    ∷ serves post (utf8 "/api/settings/provider") update_provider_settings
    ∷ serves post (utf8 "/api/settings/provider/test") test_provider_settings
    ∷ serves post (utf8 "/api/maintenance/clear-results") clear_results_handler
    ∷ serves get (utf8 "/api/tasks") list_tasks_handler
    ∷ serves post (utf8 "/api/tasks") create_task
    ∷ serves options (utf8 "/api/tasks") options_handler
    ∷ serves options (utf8 "/api/events") options_handler
    ∷ serves options (utf8 "/api/containers") options_handler
    ∷ serves options (utf8 "/api/settings/provider") options_handler
    ∷ serves options (utf8 "/api/settings/provider/test") options_handler
    ∷ serves options (utf8 "/api/maintenance/clear-results") options_handler
    ∷ task_routes

-- The calls of NewRouter in their order.
unfoldable pub new_router : Config → List Setup
unfolding utf8
new_router cfg =
    uses (cors cfg.allowed_origins)
    ∷ serves get (utf8 "/static/*filepath") static_files
    ∷ serves head (utf8 "/static/*filepath") static_files
    ∷ serves get (utf8 "/health") health_handler
    ∷ serves get (utf8 "/ready") ready_handler
    ∷ uses (auth cfg.access_token)
    ∷ api_routes

abbrev pub same_method : Method → Method → Bool
same_method get get = true
same_method head head = true
same_method post post = true
same_method options options = true
same_method _ _ = false

-- The middleware and the handler of a request.
abbrev pub Chain : Type 0
Chain = List Middleware × Handler

abbrev pub not_found : Handler
not_found io r s = (s, respond 404 not_found_page)

-- The route with the method and the pattern, behind the middleware that came before it.
unfoldable pub find_route : List Middleware → List Setup → Method → Text → Chain
unfolding text_eq
find_route chain [] method pattern = (chain, not_found)
find_route chain (uses m ∷ rest) method pattern = find_route (chain ++ m ∷ []) rest method pattern
find_route chain (serves method' pattern' handler ∷ rest) method pattern =
    let next = find_route chain rest method pattern in
    if same_method method' method && text_eq pattern' pattern then (chain, handler) else next

abbrev pub with_headers : Map Text → Server × Response → Server × Response
with_headers headers (s, response) = (s, record response { headers = headers ++ response.headers })

-- The chain of a request; `headers` are those that are set so far.
unfoldable pub run_chain : List Middleware → Map Text → Handler → Handler
unfolding cors_headers is_admitted
run_chain [] headers handler io r s = with_headers headers (handler io r s)
run_chain (cors origins ∷ ms) headers handler io r s =
    let next = run_chain ms (headers ++ cors_headers origins r) handler io r s in
    if is_options r.method
    then (s, record { status = 204; headers = headers ++ cors_headers origins r; body = no_body })
    else next
run_chain (auth token ∷ ms) headers handler io r s =
    let next = run_chain ms headers handler io r s in
    if is_admitted token r then next else (s, denied headers)

unfoldable pub run_found : Chain → Handler
unfolding run_chain
run_found (chain, handler) io r s = run_chain chain [] handler io r s

-- A request under the pattern that gin found.
unfoldable pub serve : Text → Handler
unfolding find_route new_router
serve pattern io r s = run_found (find_route [] (new_router s.service.cfg) r.method pattern) io r s
