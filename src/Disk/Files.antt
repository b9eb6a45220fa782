-- ===== src/Disk/Files.antt =====
-- Files of a task's directory by name: a writeup's name may also be that of meta.json, its backup
-- or a log file, which isSafeStoredFilename admits.
use ctf_agent.Base.{Bool, true, false, ℕ, zero, suc, Option, none, some, ◌++◌, if◌then◌else◌, ◌==◌}
use ctf_agent.Disk.{Dir, Doc}
use ctf_agent.Map.{lookup, insert, delete}
use ctf_agent.Text.{Text, utf8, text_eq, itoa}

pub data FileSlot : Type 0 where
  meta_file backup_file log_file : FileSlot
  archive_file : ℕ → FileSlot
  plain_file : Text → FileSlot

abbrev pub meta_name : Text
unfolding utf8
meta_name = utf8 "meta.json"

abbrev pub backup_name : Text
unfolding utf8
backup_name = utf8 "meta.json.bak"

abbrev pub log_name : Text
unfolding utf8
log_name = utf8 "logs.txt"

abbrev pub archive_name : ℕ → Text
unfolding utf8
archive_name n = utf8 "logs.txt." ++ itoa n

-- The archive from 1 to `n` that has this name.
unfoldable pub archive_slot : ℕ → Text → FileSlot
archive_slot zero name = plain_file name
archive_slot (suc n) name =
    if text_eq name (archive_name (suc n)) then archive_file (suc n) else archive_slot n name

-- What a name in the directory stands for, in a store that keeps `backups` archives.
unfoldable pub slot_of : ℕ → Text → FileSlot
unfolding archive_slot
slot_of backups name =
    if text_eq name meta_name
    then meta_file
    else if text_eq name backup_name
    then backup_file
    else if text_eq name log_name
    then log_file
    else archive_slot backups name

-- A text written to a file, with what encoding/json makes of it.
unfoldable pub put_file : FileSlot → Text → Doc → Dir → Dir
put_file meta_file content doc dir = record dir { meta = some doc }
put_file backup_file content doc dir = record dir { backup = some doc }
put_file log_file content doc dir = record dir {
  log = record { current = some content; archived = dir.log.archived };
}
put_file (archive_file n) content doc dir = record dir {
  log = record {
    current = dir.log.current;
    archived = λ i. if i == n then some content else dir.log.archived i;
  };
}
put_file (plain_file name) content doc dir = record dir { files = insert name content dir.files }

-- os.Remove
unfoldable pub remove_file : FileSlot → Dir → Dir
remove_file meta_file dir = record dir { meta = none }
remove_file backup_file dir = record dir { backup = none }
remove_file log_file dir = record dir {
  log = record { current = none; archived = dir.log.archived };
}
remove_file (archive_file n) dir = record dir {
  log = record {
    current = dir.log.current;
    archived = λ i. if i == n then none else dir.log.archived i;
  };
}
remove_file (plain_file name) dir = record dir { files = delete name dir.files }

abbrev option_exists {ℓ} : {A : Type ℓ} → Option A → Bool
option_exists none = false
option_exists (some a) = true

-- os.Stat succeeds.
unfoldable pub file_exists : FileSlot → Dir → Bool
file_exists meta_file dir = option_exists dir.meta
file_exists backup_file dir = option_exists dir.backup
file_exists log_file dir = option_exists dir.log.current
file_exists (archive_file n) dir = option_exists (dir.log.archived n)
file_exists (plain_file name) dir = option_exists (lookup name dir.files)
