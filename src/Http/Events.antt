-- ===== src/Http/Events.antt =====
-- taskEvents (internal/app/router.go): the stream of server-sent events.
use ctf_agent.Base.{Option, none, some, List, [], ◌∷◌, ◌++◌}
use ctf_agent.Http.{Handler, stream}
use ctf_agent.Hub.{Hub, subscribe_events, unsubscribe_events}
use ctf_agent.Map.{Map}
use ctf_agent.Service.{Service}
use ctf_agent.Text.{Text, utf8}

abbrev pub ready_event : Text
unfolding utf8
ready_event = utf8 "event: ready\ndata: {}\n\n"

unfoldable pub event_text : Text → Text
unfolding utf8
event_text event = utf8 "event: task\ndata: " ++ event ++ utf8 "\n\n"

-- The events that are received, one after the other, until the client leaves or the channel closes.
unfoldable pub event_texts : List Text → List Text
unfolding event_text
event_texts [] = []
event_texts (event ∷ events) = event_text event ∷ event_texts events

abbrev pub stream_headers : Map Text
unfolding utf8
stream_headers =
    (utf8 "Content-Type", utf8 "text/event-stream")
    ∷ (utf8 "Cache-Control", utf8 "no-cache")
    ∷ (utf8 "Connection", utf8 "keep-alive")
    ∷ (utf8 "X-Accel-Buffering", utf8 "no")
    ∷ []

abbrev pub left : Service → Option Hub → Service
left s none = s
left s (some hub) = record s { hub = hub }

-- The deferred UnsubscribeEvents of the channel that SubscribeEvents made.
unfoldable pub end_stream : Hub → Service → Service
unfolding unsubscribe_events
end_stream before s = left s (unsubscribe_events before.next s.hub)

-- taskEvents
unfoldable pub task_events : Handler
unfolding event_texts end_stream subscribe_events
task_events io r s =
    let hub = s.service.hub in
    let subscribed = record (s.service) { hub = subscribe_events hub } in
    (
      record s { service = end_stream hub (io.others subscribed) },
      record {
        status = 200;
        headers = stream_headers;
        body = stream (ready_event ∷ event_texts io.received);
      },
    )
