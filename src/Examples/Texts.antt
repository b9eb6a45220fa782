-- ===== src/Examples/Texts.antt =====
-- The theorems on names, logs, limits and responses at concrete texts and numbers.
use ctf_agent.Base.{
  ℕ, ◌∷◌, none, length, ◌≡◌, ◌≢◌, ◌≤◌, ◌+◌, ◌*◌, ◌/◌, refl, ◌⊎◌, ◌↔◌, true, [], ◌++◌, arith,
}
use ctf_agent.Docker.Limits.{usable_mib, usable_cpus, mib, gib, auto_limits_leave_host}
use ctf_agent.Examples.{one}
use ctf_agent.Names.{is_safe_task_id, slash, backslash, dot, dot_dot}
use ctf_agent.Names.Safety.{IsIdText, is_safe_task_id_iff}
use ctf_agent.Runner.Output.{parse_runner_output, newline}
use ctf_agent.Runner.Output.Announced.{
  Announces, parse_runner_output_solved_iff, parse_runner_output_name_stays,
}
use ctf_agent.Errors.{canceled, ok}
use ctf_agent.Websocket.{Written, frame_header, write_frame, read_frame}
use ctf_agent.Websocket.RoundTrip.{client_frame, read_frame-client_frame}
use ctf_agent.Websocket.Sending.{Sends, write_frame-Sends}
use ctf_agent.Runner.Output.Latest.{IsLastOutput}
use ctf_agent.Text.{Text, utf8, split, unix_lines, Lacks}

is_safe_task_id_iff_example :
    (is_safe_task_id one ≡ true) ↔ ((one ≢ []) × (one ≢ dot) × (one ≢ dot_dot) × IsIdText one)
is_safe_task_id_iff_example = is_safe_task_id_iff one

abbrev log_text : Text
unfolding utf8
log_text = utf8 "Observation: final readable OpenCode output:\n这道题目已经解出\nflag{1}\n"

abbrev log_flag : Text
unfolding utf8
log_flag = utf8 "flag{1}"

parse_runner_output_solved_iff_example :
    (((parse_runner_output log_text).solved ≡ true)
      × ((parse_runner_output log_text).flag ≡ log_flag))
    ↔ ((text : Text) × IsLastOutput log_text text
        × Announces log_flag (split newline (unix_lines text)))
parse_runner_output_solved_iff_example = parse_runner_output_solved_iff log_text log_flag

parse_runner_output_name_stays_example :
    let name = (parse_runner_output log_text).writeup_file_name in
    (name ≡ []) ⊎ ((name ≢ dot) × (name ≢ dot_dot) × Lacks slash name × Lacks backslash name)
parse_runner_output_name_stays_example = parse_runner_output_name_stays log_text

auto_limits_leave_host_example :
    (usable_mib (4 * gib) * mib + gib ≤ 4 * gib)
    × (usable_mib (4 * gib) * mib + 4 * gib / 10 ≤ 4 * gib)
    × (usable_cpus 8 + 1 ≡ 8)
auto_limits_leave_host_example = auto_limits_leave_host 8 (4 * gib) (omega arith) (omega arith)

abbrev mask : Text
mask = 1 ∷ 2 ∷ 3 ∷ 250 ∷ []

abbrev ping : Text
ping = 104 ∷ 105 ∷ 33 ∷ []

read_frame-client_frame_example :
    read_frame canceled (client_frame 9 mask ping ++ ping)
    ≡ ok (record { opcode = 9; payload = ping }, ping)
read_frame-client_frame_example =
    read_frame-client_frame canceled 9 mask ping ping (omega arith) refl (omega arith)
      (omega arith, (omega arith, (omega arith, tt)))

-- A connection that takes two bytes at a time.
abbrev slow : ℕ → Written
slow i = record { count = 2; failure = none }

write_frame-Sends_example :
    Sends (frame_header 1 (length log_text) ++ log_text) (write_frame slow slow 1 log_text)
write_frame-Sends_example = write_frame-Sends slow slow 1 log_text
