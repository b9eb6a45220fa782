-- ===== src/Http/Upgrade.antt =====
-- websocketHandler, upgradeWebSocket and their checks (internal/app/websocket.go), and
-- taskIDFromWebSocketPath (internal/app/router.go).
-- Hosts and origins are ASCII on one side at least of each comparison. The reader that runs beside
-- the handler is ReadUntilClose, in Websocket/Reading.antt.
use ctf_agent.Base.{
  ℕ, suc, Bool, true, false, not, ◌&&◌, ◌||◌, Option, none, some, is_some, List, [], ◌∷◌, ◌++◌,
  length, ◌==◌, if◌then◌else◌,
}
use ctf_agent.Http.{
  Request, Response, Server, HttpIo, Handler, respond, SocketIo, Happening, context_done,
  reader_closed, tick, channel_closed, received_text, detail, no_body, socket_bytes,
}
use ctf_agent.Http.Handlers.{tail_of}
use ctf_agent.Hub.{Hub, subscribe, unsubscribe}
use ctf_agent.Names.{base, dot, dot_dot}
use ctf_agent.Store.{get}
use ctf_agent.Store.Logs.{logs}
use ctf_agent.Text.{Text, utf8, text_eq, is_empty, trim_space, trim_prefix, split}
use ctf_agent.Text.Base64.{base64_decode, base64_encode}
use ctf_agent.Text.Cut.{cut, contains_any, equal_fold, trim_right}
use ctf_agent.Websocket.{Sent, write_frame, write_control}

unfoldable pub id_of_parts : Option (Text × Text) → Option Text
unfolding utf8
id_of_parts none = none
id_of_parts (some (id, suffix)) =
    if not (text_eq suffix (utf8 "logs"))
      || is_empty id
      || text_eq id dot
      || text_eq id dot_dot
      || contains_any (utf8 "/\\") id
      || not (text_eq (base id) id)
    then none
    else some id

-- taskIDFromWebSocketPath
unfoldable pub task_id_from_websocket_path : Text → Option Text
unfolding utf8 trim_prefix cut contains_any base text_eq
task_id_from_websocket_path path = id_of_parts (cut b'/' (trim_prefix (utf8 "/ws/tasks/") path))

unfoldable pub any_item : Text → List Text → Bool
unfolding equal_fold trim_space
any_item token [] = false
any_item token (item ∷ items) =
    if equal_fold (trim_space item) token then true else any_item token items

-- headerContainsToken
unfoldable pub header_contains_token : Text → Text → Bool
unfolding any_item split
header_contains_token value token = any_item token (split b',' value)

unfoldable pub any_origin : Text → List Text → Bool
unfolding equal_fold trim_space trim_right
any_origin origin [] = false
any_origin origin (allowed ∷ rest) =
    if equal_fold (trim_right (b'/' ∷ []) (trim_space allowed)) (trim_right (b'/' ∷ []) origin)
    then true
    else any_origin origin rest

unfoldable pub origin_parts : Request → List Text → Text → Option (Text × Text) → Bool
unfolding utf8
origin_parts r allowed origin none = false
origin_parts r allowed origin (some (scheme, host)) =
    if is_empty host || not (text_eq scheme (utf8 "http")) && not (text_eq scheme (utf8 "https"))
    then false
    else if equal_fold host r.host
    then true
    else any_origin origin allowed

-- websocketOriginAllowed
unfoldable pub websocket_origin_allowed : (Text → Option (Text × Text)) → Request → List Text → Bool
unfolding any_origin equal_fold trim_space text_eq
websocket_origin_allowed parse r allowed =
    let origin = trim_space r.origin in
    if is_empty origin then true else origin_parts r allowed origin (parse origin)

abbrev pub has_key_size : Option Text → Bool
has_key_size none = false
has_key_size (some key) = length key == 16

-- The checks of upgradeWebSocket up to Hijack: the response of the first that fails.
unfoldable pub upgrade_refusal : Request → Option Response
unfolding utf8 equal_fold header_contains_token text_eq base64_decode
upgrade_refusal r =
    if not (equal_fold r.upgrade (utf8 "websocket"))
    then some (respond 400 (detail (utf8 "upgrade required")))
    else if not (header_contains_token r.connection (utf8 "upgrade"))
    then some (respond 400 (detail (utf8 "invalid websocket connection header")))
    else if not (text_eq r.socket_version (utf8 "13"))
    then some (record {
      status = 426;
      headers = (utf8 "Sec-WebSocket-Version", utf8 "13") ∷ [];
      body = detail (utf8 "unsupported websocket version");
    })
    else if not (has_key_size (base64_decode r.socket_key))
    then some (respond 400 (detail (utf8 "missing websocket key")))
    else none

abbrev pub websocket_guid : Text
unfolding utf8
websocket_guid = utf8 "258EAFA5-E914-47DA-95CA-C5AB0DC85B11"

-- websocketAccept
unfoldable pub websocket_accept : (Text → Text) → Text → Text
unfolding base64_encode
websocket_accept sha1 key = base64_encode (sha1 (key ++ websocket_guid))

-- The response that upgradeWebSocket writes.
unfoldable pub handshake_response : (Text → Text) → Text → Text
unfolding utf8 websocket_accept
handshake_response sha1 key =
    utf8
      "HTTP/1.1 101 Switching Protocols\r\nUpgrade: websocket\r\nConnection: Upgrade\r\nSec-WebSocket-Accept: "
    ++ websocket_accept sha1 key
    ++ utf8 "\r\n\r\n"

abbrev pub then_rest : Sent → Text → Text
then_rest (bytes, some e) rest = bytes
then_rest (bytes, none) rest = bytes ++ rest

-- The loop of websocketHandler from the n-th frame on: the bytes that go out.
unfoldable pub socket_loop : SocketIo → ℕ → List Happening → Text
unfolding write_frame write_control
socket_loop io n [] = []
socket_loop io n (context_done ∷ rest) = []
socket_loop io n (reader_closed ∷ rest) = []
socket_loop io n (channel_closed ∷ rest) = []
socket_loop io n (tick ∷ rest) =
    then_rest (write_control (io.header_answers n) (io.answers n) 9 [])
      (socket_loop io (suc n) rest)
socket_loop io n (received_text text ∷ rest) =
    then_rest (write_frame (io.header_answers n) (io.answers n) 1 text)
      (socket_loop io (suc n) rest)

-- The log is sent first; an error of this write is dropped.
unfoldable pub first_frame : SocketIo → Text → Text
unfolding write_frame
first_frame io [] = []
first_frame io (c ∷ text) = (write_frame (io.header_answers 0) (io.answers 0) 1 (c ∷ text)).0

abbrev pub or_nothing : Option Text → Text
or_nothing none = []
or_nothing (some text) = text

abbrev pub unsubscribed : Server → Option Hub → Server
unsubscribed s none = s
unsubscribed s (some hub) = record s { service = record (s.service) { hub = hub } }

-- The deferred Unsubscribe of the channel that Subscribe made.
unfoldable pub end_socket : Text → Hub → Server → Server
unfolding unsubscribe
end_socket id before s = unsubscribed s (unsubscribe id before.next s.service.hub)

-- The handler behind the handshake.
unfoldable pub serve_socket : HttpIo → Request → Text → Server → Server × Text
unfolding socket_loop tail_of logs subscribe
serve_socket io r id s =
    let hub = s.service.hub in
    let subscribed = record (s.service) { hub = subscribe id hub } in
    let text = tail_of r.tail (or_nothing (logs id s.service.store)) in
    (
      end_socket id hub (record s { service = io.others subscribed }),
      first_frame io.socket text ++ socket_loop io.socket 1 io.socket.happenings,
    )

unfoldable pub switched : HttpIo → Request → Text → Server → Bool → Server × Response
unfolding handshake_response serve_socket
switched io r id s false = (s, respond 101 (socket_bytes []))
switched io r id s true =
    let (s', bytes) = serve_socket io r id s in
    (s', respond 101 (socket_bytes (handshake_response io.sha1 r.socket_key ++ bytes)))

unfoldable pub taken_over : HttpIo → Request → Text → Server → Option Bool → Server × Response
unfolding utf8
taken_over io r id s none = (s, respond 500 (detail (utf8 "websocket unsupported")))
taken_over io r id s (some false) = (s, respond 200 no_body)
taken_over io r id s (some true) = switched io r id s io.socket.handshake

abbrev pub upgraded : HttpIo → Request → Text → Server → Option Response → Server × Response
upgraded io r id s (some response) = (s, response)
upgraded io r id s none = taken_over io r id s io.socket.hijack

unfoldable pub socket_for : HttpIo → Request → Server → Option Text → Server × Response
unfolding utf8 websocket_origin_allowed upgrade_refusal
socket_for io r s none = (s, respond 404 (detail (utf8 "not found")))
socket_for io r s (some id) =
    if not (is_some (get id s.service.store))
    then (s, respond 404 (detail (utf8 "task not found")))
    else if not (websocket_origin_allowed io.parse_url r s.service.cfg.allowed_origins)
    then (s, respond 403 (detail (utf8 "forbidden websocket origin")))
    else upgraded io r id s (upgrade_refusal r)

-- websocketHandler
unfoldable pub websocket_handler : Handler
unfolding task_id_from_websocket_path
websocket_handler io r s = socket_for io r s (task_id_from_websocket_path r.path)
