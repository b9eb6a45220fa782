-- ===== src/Storage.antt =====
-- Uploaded attachments (internal/app/storage.go): names, the choice of a fresh name, limits.
-- The directory of a task's attachments is a map from file names to contents. os.Stat finds a name
-- that is in it, and "." and "..".
pub mod Fresh
pub mod Saved
pub mod Named
use ctf_agent.Base.{
  ℕ, zero, suc, ◌+◌, ◌*◌, ◌^◌, Bool, true, false, not, ◌&&◌, ◌||◌, Option, none, some, List, [],
  ◌∷◌, ◌++◌, take, length, ltb, if◌then◌else◌, is_some,
}
use ctf_agent.Base.Int.{ℤ}
use ctf_agent.Errors.{Err, invalid_task_id, upload_too_large, system, Result, ok, err}
use ctf_agent.Map.{Map, lookup, insert, delete}
use ctf_agent.Names.{slash, base, dot, dot_dot, is_id_byte, is_safe_task_id}
use ctf_agent.Text.{Text, utf8, text_eq, is_empty, trim_space, itoa}
use ctf_agent.Text.Address.{cut_last}

abbrev pub max_uploaded_file_bytes : ℕ
max_uploaded_file_bytes = 256 * 2 ^ 20

-- filepath.Join of clean parts, the first of which is not "/".
abbrev pub join : Text → Text → Text
join dir name = dir ++ slash ∷ name

abbrev attachments_of : Text → Text → Option Text → Result Text
attachments_of root id (some e) = err (system e)
attachments_of root id none = ok (join (join root id) (utf8 "attachments"))

-- prepareTaskDirs; `made` is what os.MkdirAll answers. The root is a clean path.
unfoldable pub prepare_task_dirs : Option Text → Text → Text → Result Text
unfolding utf8 is_safe_task_id
prepare_task_dirs made root id =
    if is_safe_task_id id then attachments_of root id made else err invalid_task_id

-- A run of bytes outside [A-Za-z0-9._-] becomes one underscore; `inside` is true behind such a byte.
-- The pattern reads runes, and every byte of a rune that is not ASCII is outside too.
unfoldable pub replace_unsafe : Bool → Text → Text
unfolding is_id_byte
replace_unsafe inside [] = []
replace_unsafe inside (c ∷ s) =
    let kept = c ∷ replace_unsafe false s in
    let run = replace_unsafe true s in
    if is_id_byte c then kept else if inside then run else b'_' ∷ run

abbrev pub or_attachment : Text → Text
or_attachment name =
    if text_eq name dot || text_eq name (slash ∷ []) || is_empty name
    then utf8 "attachment"
    else name

-- safeFilename
unfoldable pub safe_filename : Text → Text
unfolding base trim_space replace_unsafe utf8
safe_filename name = take 180 (replace_unsafe false (or_attachment (trim_space (base name))))

abbrev stem_and_ext : Text → Option (Text × Text) → Text × Text
stem_and_ext name none = (name, [])
stem_and_ext name (some (before, after)) = (before, b'.' ∷ after)

-- The name without its extension, and filepath.Ext of a name without a slash.
unfoldable pub split_ext : Text → Text × Text
unfolding cut_last
split_ext name = stem_and_ext name (cut_last b'.' name)

-- fileExists of a name of the directory.
unfoldable pub file_exists : Map Text → Text → Bool
unfolding lookup
file_exists files name = text_eq name dot || text_eq name dot_dot || is_some (lookup name files)

-- The i-th name that is tried.
unfoldable pub numbered : Text × Text → ℕ → Text
numbered (stem, ext) i = stem ++ (b'-' ∷ []) ++ itoa i ++ ext

-- The loop from the number i on, with the name that is tried next; `none` where the fuel is used up.
unfoldable pub fresh_from : ℕ → Map Text → Text × Text → ℕ → Text → Option Text
unfolding file_exists numbered
fresh_from zero files parts i name = none
fresh_from (suc fuel) files parts i name =
    let next = fresh_from fuel files parts (suc i) (numbered parts i) in
    if file_exists files name then next else some name

-- Enough for the names of the directory, ".", ".." and the first try.
abbrev pub name_fuel : Map Text → ℕ
name_fuel files = suc (3 + length files)

unfoldable pub fresh_name : Map Text → Text → Option Text
unfolding fresh_from split_ext
fresh_name files name = fresh_from (name_fuel files) files (split_ext name) 1 name

-- A part of the form with a file, and what the system answers while it is saved: header.Open,
-- os.OpenFile, io.Copy, Close and os.Remove.
pub record Upload : Type 0 where
  pub filename : Text
  pub size : ℤ
  pub content : Text
  pub opened : Option Text
  pub created : Option Text
  pub copied : Option Text
  pub closed : Option Text
  pub removed : Option Text

abbrev removed_from : Map Text → Text → Option Text → Map Text
removed_from files target none = delete target files
removed_from files target (some e) = files

-- The file that io.Copy left behind an error or the limit is removed.
unfoldable pub after_copy : Upload → Text → Map Text → Option Err → Map Text × Option Err
unfolding delete
after_copy u target files (some e) = (removed_from files target u.removed, some e)
after_copy u target files none = (files, elim u.closed [ none ↦ none | some e ↦ some (system e) ])

abbrev pub copy_error : Upload → Option Err
copy_error u = elim u.copied [
  | some e ↦ some (system e)
  | none ↦ if ltb max_uploaded_file_bytes (length u.content) then some upload_too_large else none
]

-- The file is created and at most one byte more than the limit is copied.
unfoldable pub write_upload : Upload → Map Text → Text → Map Text × Option Err
unfolding after_copy insert
write_upload u files target = elim u.created [
  | some e ↦ (files, some (system e))
  | none ↦
      after_copy u target (insert target (take (suc max_uploaded_file_bytes) u.content) files)
        (copy_error u)
]

abbrev write_fresh : Upload → Map Text → Option Text → Map Text × Option Err
write_fresh u files none = (files, none)
write_fresh u files (some target) = write_upload u files target

abbrev pub size_exceeds : ℤ → ℕ → Bool
size_exceeds (ℤ.pos n) limit = ltb limit n
size_exceeds (ℤ.negsuc n) limit = false

-- saveUploadedFile
unfoldable pub save_uploaded_file : Upload → Map Text → Map Text × Option Err
unfolding write_upload fresh_name safe_filename
save_uploaded_file u files =
    if size_exceeds u.size max_uploaded_file_bytes
    then (files, some upload_too_large)
    else elim u.opened [
      | some e ↦ (files, some (system e))
      | none ↦ write_fresh u files (fresh_name files (safe_filename u.filename))
    ]

abbrev pub Saves : Type 0
Saves = Map Text × ℕ × Option Err

-- The loop of saveUploadedFiles with its counter; a header without a name is passed over.
unfoldable pub save_from : List Upload → ℕ → Map Text → Saves
unfolding save_uploaded_file
save_from [] count files = (files, count, none)
save_from (u ∷ us) count files =
    let same = save_from us count files in
    let next : Map Text × Option Err → Saves =
      λ r. elim r.1 [ none ↦ save_from us (suc count) r.0 | some e ↦ (r.0, count, some e) ] in
    if is_empty u.filename then same else next (save_uploaded_file u files)

-- saveUploadedFiles
unfoldable pub save_uploaded_files : List Upload → Map Text → Saves
unfolding save_from
save_uploaded_files us files = save_from us 0 files
