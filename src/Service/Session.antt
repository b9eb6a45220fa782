-- ===== src/Service/Session.antt =====
-- extractOpenCodeSessionID (internal/app/service.go): the leftmost match of the pattern
-- `Observation:\s+OpenCode session=([A-Za-z0-9_-]+)`, whose group is returned.
use ctf_agent.Base.{ℕ, Bool, ◌&&◌, ◌||◌, [], ◌∷◌, length, drop, leb, ◌==◌, if◌then◌else◌}
use ctf_agent.Text.{Text, utf8, has_prefix, trim_space}

unfoldable pub observation : Text
unfolding utf8
observation = utf8 "Observation:"

unfoldable pub session_equals : Text
unfolding utf8
session_equals = utf8 "OpenCode session="

-- [A-Za-z0-9_-]
unfoldable pub is_session_byte : ℕ → Bool
is_session_byte c =
    (leb b'A' c && leb c b'Z')
    || (leb b'a' c && leb c b'z')
    || (leb b'0' c && leb c b'9')
    || c == b'_'
    || c == b'-'

-- \s
unfoldable pub is_pattern_space : ℕ → Bool
is_pattern_space c = c == 9 || c == 10 || c == 12 || c == 13 || c == 32

unfoldable pub session_run : Text → Text
unfolding is_session_byte
session_run [] = []
session_run (c ∷ s) = if is_session_byte c then c ∷ session_run s else []

unfoldable pub skip_spaces : Text → Text
unfolding is_pattern_space
skip_spaces [] = []
skip_spaces (c ∷ s) = if is_pattern_space c then skip_spaces s else c ∷ s

-- The group of a match that begins with the text behind "Observation:"; "" if there is none. At
-- least one white space stands there.
unfoldable pub after_observation : Text → Text
unfolding is_pattern_space skip_spaces session_run
after_observation [] = []
after_observation (c ∷ s) =
    let rest = skip_spaces s in
    if is_pattern_space c && has_prefix session_equals rest
    then session_run (drop (length session_equals) rest)
    else []

unfoldable pub match_at : Text → Text
match_at s =
    if has_prefix observation s then after_observation (drop (length observation) s) else []

abbrev pub or_later : Text → Text → Text
or_later [] later = later
or_later (c ∷ s) later = c ∷ s

unfoldable pub find_session : Text → Text
find_session [] = []
find_session (c ∷ s) = or_later (match_at (c ∷ s)) (find_session s)

unfoldable pub extract_opencode_session_id : Text → Text
extract_opencode_session_id text = trim_space (find_session text)
