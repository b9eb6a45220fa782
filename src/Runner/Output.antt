-- ===== src/Runner/Output.antt =====
-- parseRunnerOutput and its parts (internal/app/result_parser.go).
pub mod Latest
pub mod Announced
use ctf_agent.Base.{
  ℕ, ◌+◌, Bool, true, false, ◌&&◌, Option, none, some, List, [], ◌∷◌, reverse, length, drop,
  if◌then◌else◌,
}
use ctf_agent.Names.{is_safe_stored_filename, skip_byte}
use ctf_agent.Text.{
  Text, utf8, text_eq, is_blank, trim_space, has_prefix, trim_prefix, last_index, split, unix_lines,
}

abbrev pub newline : ℕ
newline = 10

abbrev pub carriage_return : ℕ
carriage_return = 13

unfoldable pub solved_marker_line : Text
unfolding utf8
solved_marker_line = utf8 "这道题目已经解出"

unfoldable pub final_readable_marker : Text
unfolding utf8
final_readable_marker = utf8 "Observation: final readable OpenCode output:"

unfoldable pub writeup_file_marker : Text
unfolding utf8
writeup_file_marker = utf8 "Observation: writeup file="

pub record ParsedRunnerOutput : Type 0 where
  pub solved : Bool
  pub flag : Text
  pub writeup_file_name : Text

abbrev pub after_marker : Text → Option ℕ → Text
after_marker normalized none = []
after_marker normalized (some index) =
    trim_space (drop (index + length final_readable_marker) normalized)

unfoldable pub latest_final_readable_output : Text → Text
latest_final_readable_output logs =
    let normalized = unix_lines logs in
    after_marker normalized (last_index final_readable_marker normalized)

-- The loop over the lines from the last to the first.
unfoldable pub first_safe_name : List Text → Text
first_safe_name [] = []
first_safe_name (raw ∷ rest) =
    let line = trim_space raw in
    let name = trim_space (trim_prefix writeup_file_marker line) in
    if has_prefix writeup_file_marker line && is_safe_stored_filename name
    then name
    else first_safe_name rest

unfoldable pub latest_writeup_file_name : Text → Text
unfolding first_safe_name
latest_writeup_file_name logs = first_safe_name (reverse (split newline (unix_lines logs)))

-- strings.TrimRight(s, "\r")
unfoldable pub trim_right_returns : Text → Text
unfolding skip_byte
trim_right_returns s = reverse (skip_byte carriage_return (reverse s))

abbrev pub is_marker : Text → Bool
is_marker line = text_eq (trim_space line) solved_marker_line

-- The line behind the marker line.
unfoldable pub flag_after : List Text → Option Text
flag_after [] = none
flag_after (next ∷ rest) =
    let flag = trim_right_returns next in if is_blank flag then none else some flag

-- The loop over the lines, which ends at the first marker line.
unfoldable pub find_flag : List Text → Option Text
unfolding flag_after
find_flag [] = none
find_flag (line ∷ rest) = if is_marker line then flag_after rest else find_flag rest

abbrev pub with_flag : Text → Option Text → ParsedRunnerOutput
with_flag writeup none = record { solved = false; flag = []; writeup_file_name = writeup }
with_flag writeup (some flag) = record { solved = true; flag = flag; writeup_file_name = writeup }

abbrev flag_in : Text → Option Text
flag_in [] = none
flag_in (c ∷ text) = find_flag (split newline (unix_lines (c ∷ text)))

unfoldable pub parse_runner_output : Text → ParsedRunnerOutput
unfolding latest_writeup_file_name latest_final_readable_output
parse_runner_output logs =
    with_flag (latest_writeup_file_name logs) (flag_in (latest_final_readable_output logs))
