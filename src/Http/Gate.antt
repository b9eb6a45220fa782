-- ===== src/Http/Gate.antt =====
-- The access token and the routes (internal/app/router.go).
use ctf_agent.Base.{
  ◌≡◌, refl, ap, ◌∙◌, inl, inr, Bool, true, false, not, ◌&&◌, ◌||◌, List, [], ◌∷◌, ◌++◌,
  if◌then◌else◌, Bool-cases, arith,
}
use ctf_agent.Config.{Config}
use ctf_agent.Config.Listen.{validate_server_security, is_loopback_listen_addr}
use ctf_agent.Http.{
  Method, get, head, Request, Server, HttpIo, Handler, is_options, is_admitted,
  request_has_valid_access_token, cors_headers, denied, no_body,
}
use ctf_agent.Http.Routes.{
  Middleware, cors, auth, Setup, uses, serves, task_routes, api_routes, new_router, same_method,
  find_route, Chain, run_chain, run_found, serve,
}
use ctf_agent.Map.{Map}
use ctf_agent.Text.{Text, utf8, text_eq, is_empty, is_blank, trim_space}

-- Routes alone, no middleware.
unfoldable only_routes : List Setup → Bool
only_routes [] = true
only_routes (uses m ∷ rest) = false
only_routes (serves method pattern handler ∷ rest) = only_routes rest

find_route_chain :
    (chain : List Middleware) (rest : List Setup) (method : Method) (pattern : Text)
    → only_routes rest ≡ true
    → (find_route chain rest method pattern).0 ≡ chain
unfolding find_route only_routes
find_route_chain chain [] method pattern h = refl
find_route_chain chain (uses m ∷ rest) method pattern h = absurd (cc)
find_route_chain chain (serves method' pattern' handler ∷ rest) method pattern h =
    elim (Bool-cases (same_method method' method && text_eq pattern' pattern)) [
      | inl e ↦ rw (e, find_route) refl
      | inr e ↦ rw (e, find_route) (find_route_chain chain rest method pattern h)
    ]

and_false : (a b : Bool) → b ≡ false → (a && b) ≡ false
and_false a b h = ground arith

-- A route that is not the one wanted is passed over.
find_route_past :
    (chain : List Middleware) (method' : Method) (pattern' : Text) (handler : Handler)
    (rest : List Setup) (method : Method) (pattern : Text)
    → text_eq pattern' pattern ≡ false
    → find_route chain (serves method' pattern' handler ∷ rest) method pattern
      ≡ find_route chain rest method pattern
unfolding find_route
find_route_past chain method' pattern' handler rest method pattern h =
    rw (and_false (same_method method' method) (text_eq pattern' pattern) h) refl

-- The patterns that are registered before authMiddleware.
abbrev pub is_public : Text → Bool
unfolding utf8
is_public pattern =
    text_eq (utf8 "/static/*filepath") pattern
    || text_eq (utf8 "/health") pattern
    || text_eq (utf8 "/ready") pattern

find_route_uses :
    (chain : List Middleware) (m : Middleware) (rest : List Setup) (method : Method)
    (pattern : Text)
    → find_route chain (uses m ∷ rest) method pattern
      ≡ find_route (chain ++ m ∷ []) rest method pattern
unfolding find_route
find_route_uses chain m rest method pattern = refl

api_only : only_routes api_routes ≡ true
unfolding only_routes api_routes task_routes
api_only = refl

private_parts : (a b c : Bool) → (a || b || c) ≡ false → (a ≡ false) × (b ≡ false) × (c ≡ false)
private_parts a b c h = ground arith

guarded_chain :
    (cfg : Config) (method : Method) (pattern : Text)
    → is_public pattern ≡ false
    → (find_route [] (new_router cfg) method pattern).0
      ≡ cors cfg.allowed_origins ∷ auth cfg.access_token ∷ []
unfolding new_router
guarded_chain cfg method pattern h =
    let (static, health, ready) =
      private_parts (text_eq (utf8 "/static/*filepath") pattern) (text_eq (utf8 "/health") pattern)
        (text_eq (utf8 "/ready") pattern) h in
    let first = cors cfg.allowed_origins ∷ [] in
    ap (λ c. c.0)
      (find_route_uses [] (cors cfg.allowed_origins) _ method pattern
        ∙ find_route_past first get _ _ _ method pattern static
        ∙ find_route_past first head _ _ _ method pattern static
        ∙ find_route_past first get _ _ _ method pattern health
        ∙ find_route_past first get _ _ _ method pattern ready
        ∙ find_route_uses first (auth cfg.access_token) api_routes method pattern)
    ∙ find_route_chain (first ++ auth cfg.access_token ∷ []) api_routes method pattern api_only

run_chain_cors :
    (ms : List Middleware) (origins : List Text) (headers : Map Text) (handler : Handler)
    (io : HttpIo) (r : Request) (s : Server)
    → is_options r.method ≡ false
    → run_chain (cors origins ∷ ms) headers handler io r s
      ≡ run_chain ms (headers ++ cors_headers origins r) handler io r s
unfolding run_chain
run_chain_cors ms origins headers handler io r s method =
    ap
      (λ b.
        if b
        then (
          s,
          record { status = 204; headers = headers ++ cors_headers origins r; body = no_body },
        )
        else run_chain ms (headers ++ cors_headers origins r) handler io r s)
      method

run_chain_refused :
    (ms : List Middleware) (token : Text) (headers : Map Text) (handler : Handler) (io : HttpIo)
    (r : Request) (s : Server)
    → is_admitted token r ≡ false
    → run_chain (auth token ∷ ms) headers handler io r s ≡ (s, denied headers)
unfolding run_chain is_admitted
run_chain_refused ms token headers handler io r s refused =
    ap (λ b. if b then run_chain ms headers handler io r s else (s, denied headers)) refused

run_guarded :
    (c : Chain) (origins : List Text) (token : Text) (io : HttpIo) (r : Request) (s : Server)
    → c.0 ≡ cors origins ∷ auth token ∷ []
    → is_options r.method ≡ false
    → is_admitted token r ≡ false
    → run_found c io r s ≡ (s, denied ([] ++ cors_headers origins r))
unfolding run_chain run_found
run_guarded (chain, handler) origins token io r s e method refused =
    ap (λ ms. run_chain ms [] handler io r s) e
    ∙ run_chain_cors (auth token ∷ []) origins [] handler io r s method
    ∙ run_chain_refused [] token ([] ++ cors_headers origins r) handler io r s refused

blank_false : (a b : Bool) → (not a || b) ≡ true → b ≡ false → a ≡ false
blank_false a b h g = ground arith

not_admitted :
    (cfg : Config) (r : Request)
    → validate_server_security cfg ≡ true
    → is_loopback_listen_addr cfg.addr ≡ false
    → is_options r.method ≡ false
    → request_has_valid_access_token r (trim_space cfg.access_token) ≡ false
    → is_admitted cfg.access_token r ≡ false
unfolding is_admitted validate_server_security is_blank
not_admitted cfg r valid remote method token =
    let blank : is_empty (trim_space cfg.access_token) ≡ false = blank_false _ _ valid remote in
    rw (blank, method, token) refl

-- On a server that ValidateServerSecurity lets start and that does not listen on a loopback
-- address, a request other than OPTIONS that does not carry the access token is answered 401 under
-- every pattern but the health check, the readiness check and the static files, and leaves the
-- server as it was.
pub serve_refuses :
    (pattern : Text) (io : HttpIo) (r : Request) (s : Server)
    → validate_server_security s.service.cfg ≡ true
    → is_loopback_listen_addr s.service.cfg.addr ≡ false
    → is_public pattern ≡ false
    → is_options r.method ≡ false
    → request_has_valid_access_token r (trim_space s.service.cfg.access_token) ≡ false
    → ((serve pattern io r s).0 ≡ s) × ((serve pattern io r s).1.status ≡ 401)
unfolding serve denied
serve_refuses pattern io r s valid remote private method token =
    let cfg = s.service.cfg in
    let same =
      run_guarded (find_route [] (new_router cfg) r.method pattern) cfg.allowed_origins
        cfg.access_token io r s (guarded_chain cfg r.method pattern private) method
        (not_admitted cfg r valid remote method token) in
    (ap (λ p. p.0) same, ap (λ p. p.1.status) same)
