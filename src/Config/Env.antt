-- ===== src/Config/Env.antt =====
-- The environment of the process (internal/app/config.go): opencode.env and the getenv functions.
-- The environment is a map. The parsing of a duration, which is time.ParseDuration, is an argument:
-- its result is a number of nanoseconds.
use ctf_agent.Base.{
  ℕ, Bool, true, not, ◌&&◌, ◌||◌, Option, none, some, List, [], ◌∷◌, reverse, ◌==◌, if◌then◌else◌,
}
use ctf_agent.Base.Int.{ℤ, pos, negsuc}
use ctf_agent.Map.{Map, lookup, insert}
use ctf_agent.Text.{Text, utf8, is_empty, is_blank, trim_space, lower, has_byte, split, unix_lines}
use ctf_agent.Text.Cut.{cut, contains_any}
use ctf_agent.Text.Parse.{parse_int, one_of}

abbrev pub Environment : Type 0
Environment = Map Text

abbrev pub or_default : Text → Option Text → Text
or_default default none = default
or_default default (some value) = value

-- os.Getenv
unfoldable pub env_value : Text → Environment → Text
unfolding lookup
env_value name env = or_default [] (lookup name env)

-- os.Setenv, whose error is dropped: a byte 0 is refused. The key is not empty and holds no "=".
unfoldable pub set_env : Text → Text → Environment → Environment
unfolding insert has_byte
set_env key value env = if has_byte 0 key || has_byte 0 value then env else insert key value env

abbrev is_quote : ℕ → Bool
is_quote c = c == b'"' || c == b'\''

abbrev unquote_from : ℕ → Text → Text → Text
unquote_from first s [] = first ∷ s
unquote_from first s (last ∷ middle) =
    if is_quote first && first == last then reverse middle else first ∷ s

-- A pair of equal quotes around a value is dropped.
unfoldable pub unquote : Text → Text
unquote [] = []
unquote (first ∷ s) = unquote_from first s (reverse s)

-- A key that has a value other than white space is left alone.
unfoldable pub set_if_blank : Text → Text → Environment → Environment
unfolding env_value set_env unquote contains_any is_blank utf8
set_if_blank key value env =
    if is_empty key || contains_any (utf8 " \t") key || not (is_blank (env_value key env))
    then env
    else set_env key (unquote value) env

abbrev pub load_cut : Option (Text × Text) → Environment → Environment
load_cut none env = env
load_cut (some (key, value)) env = set_if_blank (trim_space key) (trim_space value) env

abbrev pub is_comment : Text → Bool
is_comment [] = true
is_comment (c ∷ line) = c == b'#'

-- One line of the file, which is trimmed.
unfoldable pub load_line : Text → Environment → Environment
unfolding set_if_blank cut trim_space
load_line line env = if is_comment line then env else load_cut (cut b'=' line) env

unfoldable pub load_lines : List Text → Environment → Environment
unfolding load_line
load_lines [] env = env
load_lines (raw ∷ lines) env = load_lines lines (load_line (trim_space raw) env)

-- loadLocalEnvFile; `none` is a file that cannot be read.
unfoldable pub load_local_env_file : Option Text → Environment → Environment
unfolding load_lines split unix_lines
load_local_env_file none env = env
load_local_env_file (some data_text) env = load_lines (split b'\n' (unix_lines data_text)) env

-- The value without white space around it.
unfoldable pub trimmed_value : Text → Environment → Text
unfolding env_value trim_space
trimmed_value name env = trim_space (env_value name env)

abbrev pub or_fallback : Text → Text → Text
or_fallback fallback [] = fallback
or_fallback fallback (c ∷ value) = c ∷ value

-- getenv
unfoldable pub getenv : Text → Text → Environment → Text
unfolding trimmed_value
getenv name fallback env = or_fallback fallback (trimmed_value name env)

abbrev pub positive_or : ℕ → Option ℤ → ℕ
positive_or fallback none = fallback
positive_or fallback (some (pos n)) = if n == 0 then fallback else n
positive_or fallback (some (negsuc n)) = fallback

abbrev pub natural_or : ℕ → Option ℤ → ℕ
natural_or fallback none = fallback
natural_or fallback (some (pos n)) = n
natural_or fallback (some (negsuc n)) = fallback

-- getenvInt, and getenvInt64, which differs from it in its type alone.
unfoldable pub getenv_int : Text → ℕ → Environment → ℕ
unfolding trimmed_value parse_int
getenv_int name fallback env = positive_or fallback (parse_int (trimmed_value name env))

-- getenvNonNegativeInt. Atoi fails on an empty value too.
unfoldable pub getenv_non_negative_int : Text → ℕ → Environment → ℕ
unfolding trimmed_value parse_int
getenv_non_negative_int name fallback env =
    let value = trimmed_value name env in
    if is_empty value then fallback else natural_or fallback (parse_int value)

-- getenvDuration
unfoldable pub getenv_duration : (Text → Option ℤ) → Text → ℕ → Environment → ℕ
unfolding trimmed_value
getenv_duration parse name fallback env =
    let value = trimmed_value name env in
    if is_empty value then fallback else natural_or fallback (parse value)

abbrev on_words : List Text
unfolding utf8
on_words = utf8 "1" ∷ utf8 "true" ∷ utf8 "yes" ∷ utf8 "on" ∷ []

-- getenvBool
unfoldable pub getenv_bool : Text → Bool → Environment → Bool
unfolding trimmed_value one_of on_words lower
getenv_bool name fallback env =
    let value = lower (trimmed_value name env) in
    if is_empty value then fallback else one_of value on_words

unfoldable pub nonempty_items : List Text → List Text
unfolding trim_space
nonempty_items [] = []
nonempty_items (part ∷ parts) =
    let rest = nonempty_items parts in
    if is_empty (trim_space part) then rest else trim_space part ∷ rest

-- splitCSV
unfoldable pub split_csv : Text → List Text
unfolding nonempty_items split
split_csv value = nonempty_items (split b',' value)
