-- ===== src/Http/Handlers.antt =====
-- The handlers that act on one task or on the lists (internal/app/router.go), but for createTask
-- and taskEvents. A handler that would dereference a task that is gone panics; gin.Recovery then
-- answers 500 with no body.
pub mod Settings
use ctf_agent.Base.{
  ℕ, ◌-◌, true, false, ◌&&◌, ◌||◌, Option, none, some, is_some, List, [], ◌∷◌, map, length, drop,
  ltb, if◌then◌else◌,
}
use ctf_agent.Base.Int.{ℤ, pos, negsuc}
use ctf_agent.Diagnostics.{readiness, test_provider, ReadinessResponse, ProviderTestResponse}
use ctf_agent.Errors.{Err, not_exist, message_busy, queue_full, message}
use ctf_agent.Http.{
  Request, Response, Server, HttpIo, Handler, respond, no_body, health, detail, page, ready, tasks,
  task, containers, settings, tested, cleared, logs, file,
}
use ctf_agent.Service.{Service, publish_task_changed}
use ctf_agent.Service.Closing.{stop_task}
use ctf_agent.Service.Containers.{list_managed_containers}
use ctf_agent.Service.Messages.{send_task_message}
use ctf_agent.Service.Providers.{ProviderFile, Chosen, set_provider_format, provider_settings}
use ctf_agent.Store
use ctf_agent.Store.{Store}
use ctf_agent.Store.Listing.{list_tasks}
use ctf_agent.Store.Logs
use ctf_agent.Store.Results.{ClearResult, writeup_path, clear_result_data}
use ctf_agent.Task.{Task}
use ctf_agent.Task.View.{new_task_response}
use ctf_agent.Text.{Text, utf8, text_eq, is_empty, is_blank}
use ctf_agent.Text.Parse.{parse_int}

-- healthHandler
abbrev pub health_handler : Handler
health_handler io r s = (s, respond 200 health)

abbrev pub ready_response : ReadinessResponse → Response
ready_response response = respond (if response.is_ok then 200 else 503) (ready response)

-- readyHandler
unfoldable pub ready_handler : Handler
unfolding readiness
ready_handler io r s = (s, ready_response (readiness io.ready s.service))

-- optionsHandler
abbrev pub options_handler : Handler
options_handler io r s = (s, respond 204 no_body)

-- indexPage, containersPage
unfoldable pub index_page : Handler
unfolding utf8
index_page io r s = (s, respond 200 (page (utf8 "CTF Agent") [] true))

unfoldable pub containers_page : Handler
unfolding utf8
containers_page io r s = (s, respond 200 (page (utf8 "Docker管理") [] true))

-- taskPage; the last field of the page tells whether the task was found.
unfoldable pub task_page : Handler
unfolding utf8
task_page io r s =
    if is_some (Store.get r.id s.service.store)
    then (s, respond 200 (page (utf8 "任务详情") r.id true))
    else (s, respond 404 (page (utf8 "任务不存在") r.id false))

-- listTasks
unfoldable pub list_tasks_handler : Handler
unfolding list_tasks new_task_response
list_tasks_handler io r s =
    (s, respond 200 (tasks (map new_task_response (list_tasks s.service.store))))

-- listContainers
unfoldable pub list_containers : Handler
unfolding list_managed_containers
list_containers io r s = (s, respond 200 (containers (list_managed_containers io.docker s.service)))

unfoldable pub publish_all : List Task → Service → Service
publish_all [] s = s
publish_all (t ∷ ts) s = publish_all ts (publish_task_changed t.id s)

abbrev pub with_store : Store → Server → Server
with_store store s = record s { service = record (s.service) { store = store } }

abbrev pub after_clear : Server → ClearResult → Server × Response
after_clear s (store, tally, some e) = (with_store store s, respond 500 (detail (message e)))
after_clear s (store, tally, none) = (
  record s { service = publish_all (list_tasks store) (record (s.service) { store = store }) },
  respond 200 (cleared tally.updated tally.removed),
)

-- clearResults
unfoldable pub clear_results_handler : Handler
unfolding clear_result_data publish_all
clear_results_handler io r s = after_clear s (clear_result_data io.clear s.service.store)

unfoldable pub detail_of : Option Task → Response
unfolding utf8
detail_of none = respond 404 (detail (utf8 "task not found"))
detail_of (some t) = respond 200 (task (new_task_response t))

-- taskDetail
unfoldable pub task_detail : Handler
unfolding new_task_response detail_of
task_detail io r s = (s, detail_of (Store.get r.id s.service.store))

abbrev pub last_bytes : Option ℤ → Text → Text
last_bytes none text = text
last_bytes (some (negsuc n)) text = text
last_bytes (some (pos n)) text =
    if ltb 0 n && ltb n (length text) then drop (length text - n) text else text

-- The query "tail": the last bytes of the log, if it is a positive number.
unfoldable pub tail_of : Text → Text → Text
unfolding parse_int
tail_of tail text = if is_empty tail then text else last_bytes (parse_int tail) text

unfoldable pub logs_of : Request → Option Text → Response
unfolding utf8 tail_of
logs_of r none = respond 404 (detail (utf8 "task not found"))
logs_of r (some text) = respond 200 (logs r.id (tail_of r.tail text))

-- taskLogs
unfoldable pub task_logs : Handler
unfolding logs_of
task_logs io r s = (s, logs_of r (Store.Logs.logs r.id s.service.store))

unfoldable pub writeup_response : Option (Text × Text) → Response
unfolding utf8
writeup_response none = respond 404 (detail (utf8 "writeup not found"))
writeup_response (some (path, filename)) = respond 200 (file path filename)

-- taskWriteup
unfoldable pub task_writeup : Handler
unfolding writeup_path writeup_response
task_writeup io r s = (s, writeup_response (writeup_path r.id s.service.store))

abbrev pub fetched : ℕ → Option Task → Response
fetched status none = respond 500 no_body
fetched status (some t) = respond status (task (new_task_response t))

-- The task as it is after the handler's call.
unfoldable pub task_now : ℕ → Text → Service → Response
unfolding new_task_response
task_now status id s = fetched status (Store.get id s.store)

-- The statuses of handleTaskMessage.
unfoldable pub error_status : Err → ℕ
error_status not_exist = 404
error_status message_busy = 409
error_status queue_full = 429
error_status _ = 400

unfoldable pub message_detail : Err → Text
unfolding utf8
message_detail not_exist = utf8 "task not found"
message_detail e = message e

unfoldable pub message_response : Text → Service × Option Err → Response
unfolding error_status task_now
message_response id (s, some e) = respond (error_status e) (detail (message_detail e))
message_response id (s, none) = task_now 202 id s

abbrev pub with_service : Service → Server → Server
with_service service s = record s { service = service }

unfoldable pub handle_payload : Text → HttpIo → Request → Option Text → Server → Server × Response
unfolding send_task_message
handle_payload refusal io r none s = (s, respond 400 (detail refusal))
handle_payload refusal io r (some text) s =
    let (service, e) = send_task_message (io.supply 0) io.pick io.others r.id text s.service in
    (with_service service s, message_response r.id (service, e))

-- taskHint and taskMessage, both by handleTaskMessage
unfoldable pub task_hint : Handler
unfolding utf8 handle_payload
task_hint io r s = handle_payload (utf8 "invalid hint payload") io r r.payload s

unfoldable pub task_message : Handler
unfolding utf8 handle_payload
task_message io r s = handle_payload (utf8 "invalid message payload") io r r.payload s

abbrev pub close_status : Err → ℕ
close_status not_exist = 404
close_status e = 400

unfoldable pub close_response : Text → Service × Option Err → Response
unfolding task_now
close_response id (s, some e) = respond (close_status e) (detail (message_detail e))
close_response id (s, none) = task_now 200 id s

-- taskCloseContainer and taskStop, which are the same
unfoldable pub task_stop : Handler
unfolding stop_task close_response
task_stop io r s =
    let (service, e) = stop_task io.supply io.others r.id s.service in
    (with_service service s, close_response r.id (service, e))
