-- ===== src/Store/Load.antt =====
-- NewStore, NewStoreWithOptions and Load (internal/app/store.go).
use ctf_agent.Base.{ℕ, Option, none, some, [], ◌∷◌, if◌then◌else◌}
use ctf_agent.Base.Int.{ℤ, pos, negsuc, is_positive}
use ctf_agent.Disk.{Disk, ReadIo, read_task}
use ctf_agent.Errors.{Err, system, Result, ok, err}
use ctf_agent.Map.{Map, insert}
use ctf_agent.Store.{Store}
use ctf_agent.Task.{Task}
use ctf_agent.Text.{Text}

abbrev pub default_log_max_bytes : ℕ
default_log_max_bytes = 10485760

abbrev pub default_log_max_backups : ℕ
default_log_max_backups = 3

-- A task that could be read enters the map under its own id; another directory is passed over.
abbrev pub put_result : Result Task → Map Task → Map Task
put_result (ok t) tasks = insert t.id t tasks
put_result (err e) tasks = tasks

-- The loop over the directories, in the order of os.ReadDir.
unfoldable pub load_dirs : (Text → ReadIo) → Text → Disk → Map Task → Map Task × Disk
unfolding read_task
load_dirs io root [] tasks = (tasks, [])
load_dirs io root ((name, dir) ∷ rest) tasks =
    let (dir', r) = read_task (io name) root name dir in
    let (tasks', rest') = load_dirs io root rest (put_result r tasks) in
    (tasks', (name, dir') ∷ rest')

-- Load; the first argument is the error of os.ReadDir.
unfoldable pub load : Option Text → (Text → ReadIo) → Store → Store × Option Err
unfolding load_dirs
load (some text) io s = (s, some (system text))
load none io s =
    let (tasks, disk) = load_dirs io s.root s.disk [] in
    (record s { tasks = tasks; disk = disk }, none)

abbrev pub positive_or : ℕ → ℤ → ℕ
positive_or d (pos n) = if is_positive (pos n) then n else d
positive_or d (negsuc n) = d

abbrev pub not_negative : ℤ → ℕ
not_negative (pos n) = n
not_negative (negsuc n) = 0

abbrev pub loaded : Store × Option Err → Result Store
loaded (s, none) = ok s
loaded (s, some e) = err e

-- What the system answers to NewStoreWithOptions.
pub record OpenIo : Type 0 where
  pub make_dir : Option Text
  pub read_dir : Option Text
  pub read : Text → ReadIo

unfoldable pub new_store_with_options : OpenIo → Text → Disk → ℤ → ℤ → Result Store
unfolding load
new_store_with_options io root disk max_bytes max_backups = elim io.make_dir [
  | some text ↦ err (system text)
  | none ↦ loaded (
      load io.read_dir io.read (record {
        root = root;
        tasks = [];
        disk = disk;
        log_max_bytes = positive_or default_log_max_bytes max_bytes;
        log_max_backups = not_negative max_backups;
      }))
]

unfoldable pub new_store : OpenIo → Text → Disk → Result Store
unfolding new_store_with_options
new_store io root disk =
    new_store_with_options io root disk (pos default_log_max_bytes) (pos default_log_max_backups)
