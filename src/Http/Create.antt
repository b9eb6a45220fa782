-- ===== src/Http/Create.antt =====
-- createTask (internal/app/router.go) and NewTaskID (internal/app/service.go).
use ctf_agent.Base.{
  ℕ, ◌+◌, ◌-◌, ◌/◌, ◌%◌, Bool, true, false, not, ◌||◌, Option, none, some, List, [], ◌∷◌, length,
  ltb, if◌then◌else◌,
}
use ctf_agent.Base.Int.{pos}
use ctf_agent.Config.{OpenCodeProviderConfig, normalize_category}
use ctf_agent.Disk.{Dir, dir_at}
use ctf_agent.Errors.{Err, upload_too_large, queue_full, message, Result, ok, err}
use ctf_agent.Http.{
  Response, Server, HttpIo, Handler, Form, FormResult, bad_form, form_too_large, parsed, respond,
  detail, task,
}
use ctf_agent.Map.{Map, lookup, insert, delete}
use ctf_agent.Service.{Service, active_opencode_provider}
use ctf_agent.Service.Submit.{submit}
use ctf_agent.Storage.{Saves, prepare_task_dirs, save_uploaded_files}
use ctf_agent.Task.{Task, queued}
use ctf_agent.Task.View.{new_task_response}
use ctf_agent.Text.{Text, utf8, is_empty, trim_space, itoa}
use ctf_agent.Text.Parse.{one_of}

abbrev hex_symbol : ℕ → ℕ
hex_symbol n = if ltb n 10 then b'0' + n else b'a' + (n - 10)

-- hex.EncodeToString
unfoldable pub hex_encode : Text → Text
hex_encode [] = []
hex_encode (c ∷ s) = hex_symbol (c / 16) ∷ hex_symbol (c % 16) ∷ hex_encode s

unfoldable pub id_of : ℕ → Option Text → Text
unfolding hex_encode itoa
id_of now none = itoa now
id_of now (some bytes) = hex_encode bytes

-- NewTaskID: 16 random bytes, or the time where there are none.
unfoldable pub new_task_id : HttpIo → Text
unfolding id_of
new_task_id io = id_of io.now io.random

abbrev pub categories : List Text
unfolding utf8
categories =
    utf8 "misc" ∷ utf8 "web" ∷ utf8 "pwn" ∷ utf8 "crypto" ∷ utf8 "reverse" ∷ utf8 "forensics" ∷ []

-- A form with its name, category and description trimmed.
unfoldable pub trim_form : Form → Form
unfolding trim_space
trim_form f = record f {
  name = trim_space f.name;
  category = trim_space f.category;
  description = trim_space f.description;
}

-- The checks of a trimmed form, in their order: the detail of the first that fails.
unfoldable pub form_refusal : Form → Option Text
unfolding utf8 one_of normalize_category
form_refusal f =
    if is_empty f.name || is_empty f.category || is_empty f.description
    then some (utf8 "name, type and description are required")
    else if ltb 200 (length f.name)
        || ltb 20000 (length f.description)
        || ltb 512 (length f.target_ip)
    then some (utf8 "task fields exceed configured limits")
    else if not (one_of (normalize_category f.category) categories)
    then some (utf8 "unsupported challenge type")
    else none

abbrev or_no_files : Option (Map Text) → Map Text
or_no_files none = []
or_no_files (some files) = files

unfoldable pub attachments_at : Text → Server → Map Text
unfolding lookup
attachments_at id s = or_no_files (lookup id s.attachments)

abbrev pub with_disk : Text → Dir → Server → Server
with_disk id dir s = record s {
  service = record (s.service) {
    store = record (s.service.store) { disk = insert id dir s.service.store.disk };
  };
}

-- MkdirAll of the attachments of a task.
unfoldable pub make_dirs : Text → Server → Server
unfolding insert dir_at attachments_at
make_dirs id s = record (with_disk id (dir_at id s.service.store.disk) s) {
  attachments = insert id (attachments_at id s) s.attachments;
}

abbrev pub remove_dir : Text → Option Dir → Server → Server
remove_dir id none s = record s {
  service = record (s.service) {
    store = record (s.service.store) { disk = delete id s.service.store.disk };
  };
}
remove_dir id (some dir) s = with_disk id dir s

abbrev pub remove_rest : Text → Option (Option Dir × Map Text) → Server → Server
remove_rest id none s = record (remove_dir id none s) { attachments = delete id s.attachments }
remove_rest id (some (dir, files)) s = record (remove_dir id dir s) {
  attachments = insert id files s.attachments;
}

-- os.RemoveAll of the task's directory, whose error is dropped.
unfoldable pub remove_all : HttpIo → Text → Server → Server
unfolding insert delete
remove_all io id s = remove_rest id io.remains s

-- The task that createTask submits.
unfoldable pub new_task : ℕ → Text → Form → Text → ℕ → Task
unfolding trim_space normalize_category
new_task now id f dir count = record {
  schema_version = pos 0;
  id = id;
  name = f.name;
  category = normalize_category f.category;
  description = f.description;
  target_ip = trim_space f.target_ip;
  attachments_dir = dir;
  attachment_count = count;
  status = queued;
  flag = none;
  exit_code = none;
  error = none;
  last_step = [];
  writeup_file_name = [];
  container_name = [];
  container_kept = false;
  opencode_session = [];
  created_at = now;
  started_at = none;
  finished_at = none;
  log_size = 0;
}

abbrev pub is_queue_full : Err → Bool
is_queue_full queue_full = true
is_queue_full _ = false

abbrev pub submit_status : Err → ℕ
submit_status e = if is_queue_full e then 429 else 500

unfoldable pub submitted : HttpIo → Task → Server → Service × Option Err → Server × Response
unfolding remove_all new_task_response
submitted io t s (service, none) =
    (record s { service = service }, respond 202 (task (new_task_response t)))
submitted io t s (service, some e) = (
  remove_all io t.id (record s { service = service }),
  respond (submit_status e) (detail (message e)),
)

unfoldable pub submit_task : HttpIo → Task → Server → Server × Response
unfolding submit
submit_task io t s = submitted io t s (submit io.supply io.pick io.others t s.service)

abbrev pub is_too_large : Err → Bool
is_too_large upload_too_large = true
is_too_large _ = false

abbrev pub save_status : Err → ℕ
save_status e = if is_too_large e then 413 else 500

abbrev pub with_files : Text → Map Text → Server → Server
with_files id files s = record s { attachments = insert id files s.attachments }

unfoldable pub saved : HttpIo → Text → Form → Text → Saves → Server → Server × Response
unfolding new_task
saved io id f dir (files, count, some e) s =
    (remove_all io id (with_files id files s), respond (save_status e) (detail (message e)))
saved io id f dir (files, count, none) s =
    submit_task io (new_task io.now id f dir count) (with_files id files s)

unfoldable pub prepared : HttpIo → Text → Form → Result Text → Server → Server × Response
unfolding save_uploaded_files attachments_at make_dirs
prepared io id f (err e) s = (s, respond 500 (detail (message e)))
prepared io id f (ok dir) s =
    saved io id f dir (save_uploaded_files f.files (attachments_at id (make_dirs id s)))
      (make_dirs id s)

unfoldable pub with_provider :
    HttpIo → Form → Result OpenCodeProviderConfig → Server → Server × Response
unfolding prepare_task_dirs new_task_id
with_provider io f (err e) s = (s, respond 400 (detail (message e)))
with_provider io f (ok p) s =
    let id = new_task_id io in
    prepared io id f (prepare_task_dirs io.made s.service.cfg.challenge_dir id) s

abbrev pub checked : HttpIo → Form → Option Text → Server → Server × Response
checked io f (some text) s = (s, respond 400 (detail text))
checked io f none s = with_provider io f (active_opencode_provider s.service) s

unfoldable pub create_from : HttpIo → FormResult → Server → Server × Response
unfolding utf8 form_refusal trim_form
create_from io bad_form s = (s, respond 400 (detail (utf8 "invalid multipart form")))
create_from io form_too_large s =
    (s, respond 413 (detail (utf8 "multipart form exceeds 256MiB limit")))
create_from io (parsed f) s = checked io (trim_form f) (form_refusal (trim_form f)) s

-- createTask
unfoldable pub create_task : Handler
create_task io r s = create_from io r.form s
