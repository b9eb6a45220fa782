-- ===== src/Names.antt =====
-- The names that become paths: task ids, stored file names, container names
-- (internal/app/store.go, internal/app/docker.go), with the parts of path/filepath that they call,
-- as on a system whose separator is `/`.
pub mod Safety
use ctf_agent.Base.{
  ℕ, Bool, true, false, ◌&&◌, ◌||◌, not, [], ◌∷◌, reverse, leb, ◌==◌, if◌then◌else◌,
}
use ctf_agent.Text.{Text, utf8, text_eq, is_empty, trim_space, has_prefix, trim_prefix, has_byte}

abbrev pub slash : ℕ
slash = b'/'

abbrev pub backslash : ℕ
backslash = b'\\'

unfoldable pub skip_byte : ℕ → Text → Text
skip_byte c [] = []
skip_byte c (a ∷ s) = if a == c then skip_byte c s else a ∷ s

-- A text up to the first byte `c`.
unfoldable pub until : ℕ → Text → Text
until c [] = []
until c (a ∷ s) = if a == c then [] else a ∷ until c s

abbrev or_slash : Text → Text
or_slash [] = slash ∷ []
or_slash (a ∷ s) = a ∷ s

-- filepath.Base
unfoldable pub base : Text → Text
unfolding skip_byte until
base [] = b'.' ∷ []
base (a ∷ s) = or_slash (reverse (until slash (skip_byte slash (reverse (a ∷ s)))))

-- filepath.IsAbs
abbrev pub is_abs : Text → Bool
is_abs [] = false
is_abs (a ∷ s) = a == slash

abbrev pub dot : Text
dot = b'.' ∷ []

abbrev pub dot_dot : Text
dot_dot = b'.' ∷ b'.' ∷ []

-- The conditions that both tests share: "" and what TrimSpace changes, ".", "..".
unfoldable pub is_plain : Text → Bool
unfolding trim_space text_eq
is_plain s =
    not (is_empty s) && text_eq s (trim_space s) && not (text_eq s dot) && not (text_eq s dot_dot)

unfoldable pub is_one_element : Text → Bool
unfolding base text_eq has_byte
is_one_element s = text_eq (base s) s && not (has_byte slash s || has_byte backslash s)

unfoldable pub is_id_byte : ℕ → Bool
is_id_byte c =
    (leb b'a' c && leb c b'z')
    || (leb b'A' c && leb c b'Z')
    || (leb b'0' c && leb c b'9')
    || c == b'-'
    || c == b'_'
    || c == b'.'

unfoldable pub all_id_bytes : Text → Bool
unfolding is_id_byte
all_id_bytes [] = true
all_id_bytes (c ∷ s) = is_id_byte c && all_id_bytes s

unfoldable pub is_safe_task_id : Text → Bool
unfolding is_plain is_one_element all_id_bytes
is_safe_task_id id = is_plain id && is_one_element id && all_id_bytes id

unfoldable pub is_safe_stored_filename : Text → Bool
unfolding is_plain is_one_element
is_safe_stored_filename name = is_plain name && not (is_abs name) && is_one_element name

unfoldable pub container_prefix : Text
unfolding utf8
container_prefix = utf8 "ctf-agent-"

unfoldable pub is_managed_container_name : Text → Bool
is_managed_container_name name =
    has_prefix container_prefix name && is_safe_task_id (trim_prefix container_prefix name)
