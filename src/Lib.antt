-- ===== src/Lib.antt =====
-- CTF Agent: a server that runs capture-the-flag tasks in docker containers with OpenCode. This
-- library models the Go program of internal/app.
--
-- The parts and how they interact. The store (store.go) keeps the tasks in memory and, for each, a
-- directory with meta.json, its backup, the log files and a write-up; every write goes through
-- atomicWriteFile (atomicfile.go). The service (service.go) owns the store, a queue of task ids, the
-- cancel functions of the runs, and the slots for messages; its workers take ids from the queue, run
-- docker (docker.go), read the log of a run (result_parser.go) and record the result in the store.
-- The hub (hub.go) delivers log texts and events to the subscribers of the web server.
--
-- Files, by the code they model:
--   * Text, Map, Base: Go strings as lists of bytes and what the code calls of package strings, maps
--     as association lists, native numbers, durations. Text/Cut: Cut, Fields, TrimPrefix and others;
--     Text/Parse: Atoi, ParseInt and ParseBool of strconv; Text/Address: SplitHostPort and IP
--     addresses of package net; Text/Path: Join and Clean of path/filepath; Text/Base64:
--     encoding/base64.
--   * Names: isSafeTaskID, isSafeStoredFilename (internal/app/store.go), isManagedContainerName
--     (internal/app/docker.go).
--   * Errors: the errors of the code as values; `system` is an error that the operating system or a
--     command reports.
--   * Task, Task/View: internal/app/model.go.
--   * Disk: writeTask and readTask of internal/app/store.go; Disk/Atomic: internal/app/atomicfile.go
--     and internal/app/replace_unix.go; Disk/Files: the files that share a task's directory.
--   * Store: internal/app/store.go. A method is a function of the store that returns the new store
--     and its result. Store/Changes has the functions that the Mark methods pass to update,
--     Store/Marks the methods, Store/Results the write-ups and ClearResultData, Store/Load Load and
--     the constructors, Store/Logs AppendLog, Logs and rotateLogIfNeeded, Store/Listing List and
--     RecoverableIDs. Store/History has the calls as data, Store/Refined the map from ids to tasks
--     that the clients see. The other files below Store are proofs.
--   * Runner/Output: internal/app/result_parser.go.
--   * Storage: internal/app/storage.go, the uploaded attachments.
--   * Config: internal/app/config.go: the record, the providers and the images; Config/Env the
--     environment, opencode.env and the getenv functions, Config/Loaded LoadConfig, Config/Listen
--     ValidateServerSecurity.
--   * Docker: guards, removal and reading of files of internal/app/docker.go; Docker/Limits the
--     automatic limits and the detection of an out-of-memory kill; Docker/Listing the container
--     list; Docker/Run the run of the agent and the addresses that a container can reach,
--     Docker/Run/Answers what docker info and the memory events are read as, Docker/Runner
--     RunDockerTask and RunDockerHint, Docker/Runner/Commands the docker commands of a task.
--   * Hub: internal/app/hub.go. A channel is a number with its buffer in the hub's table.
--   * Service: internal/app/service.go. Service/Start has NewService and Close, Service/Submit
--     Submit, Service/Messages SendTaskMessage, Service/Session extractOpenCodeSessionID,
--     Service/Finish markRunnerResult and what it calls, Service/Runs the runners and
--     runUntilSolved, Service/Worker finishRun, runTask, runContinuation and worker,
--     Service/Worker/Ends the ways in which finishRun ends,
--     Service/Closing the stop of a task and the cleaner, Service/Providers the choice of the
--     provider, Service/Containers ListManagedContainers.
--   * Diagnostics: internal/app/diagnostics.go.
--   * Http: internal/app/router.go: requests, responses, the access token and CORS; Http/Handlers
--     the handlers, Http/Handlers/Settings those of the provider, Http/Create createTask,
--     Http/Events taskEvents, Http/Routes the table of NewRouter and the way of a request through
--     it, Http/Upgrade websocketHandler and upgradeWebSocket (internal/app/websocket.go).
--     Http/Schemes, Http/Access, Http/Basic, Http/Gate and Http/Created are proofs.
--   * Websocket: the frames of internal/app/websocket.go: writeFrame, writeAll, WriteControl, and what
--     one turn of the loop of ReadUntilClose reads; Websocket/Reading: that loop. The bytes that
--     arrive are a list.
--   * Examples: a concrete state, and the theorems at it.
--
-- How the code is modelled. Mutexes make each method of the store and the hub one step. The answers
-- of the operating system and of docker, the time, and the state of a run's context are arguments:
-- `Env`, `WriteIo`, `ReadIo`, `LogIo`, `ClearIo`, `World`, `RunIo`, `StartIo`, `ReadyIo`, `HttpIo`,
-- and a `Supply` of worlds where a method makes several calls. The two runners, which are fields of
-- Service, are functions of the service, so what their sinks and the other goroutines do while they
-- run is theirs; in Submit and SendTaskMessage the argument `others` is what other goroutines do
-- between two steps, and in stop_task what they do while docker removes the container. Between the
-- other calls of finishRun no other goroutine comes in. RunDockerTask and RunDockerHint return,
-- with their result, the list of what they do (lines of the log, docker commands), in order. A
-- panic is the result `none`; the service takes the hub to stay as it was where a publication would
-- panic, which needs a subscriber that is closed. A request comes with the pattern that gin chose
-- for it and with its body decoded; a page that is rendered is a response that names it. net/url,
-- sha1, time.ParseDuration, encoding/json and net/http are arguments, or what they give is.
--
-- Loops are structural recursion on the list or the number that they count down, so most need no
-- fuel; the digits of a number take its successor as fuel, one more than the digits it can have;
-- writeAll takes the length of what it writes, since each turn that goes on takes a byte at least;
-- the loop that looks for a free file name takes the number of files in the directory and four more,
-- and ReadUntilClose the number of bytes that arrive and one more.
--
-- Bounds: lengths, sizes and times are natural numbers; the int64 values of the code are sizes and
-- limits far below 2 ^ 63. Where the code would compute a negative number the definition writes out
-- what follows from it.
--
-- Not modelled: gin itself and its logger, findWebDir and the pages; streamPipe, which
-- cuts the output of the agent into the pieces that the log gets; writeupFilenameForTask and
-- safeFilenameStem, which only tests call; the Windows variant of the file replacement; the mains of
-- the server (logging, signals) and of the fake provider that the tests run; the scripts and the web
-- pages.
mod Base
pub mod Text
pub mod Map
pub mod Names
pub mod Errors
pub mod Task
pub mod Diagnostics
pub mod Disk
pub mod Storage
pub mod Store
pub mod Runner
pub mod Config
pub mod Docker
pub mod Http
pub mod Hub
pub mod Service
pub mod Websocket
pub mod Examples
