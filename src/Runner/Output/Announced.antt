-- ===== src/Runner/Output/Announced.antt =====
-- A parsed result and the log (internal/app/result_parser.go).
use ctf_agent.Base.{
  ◌≡◌, ◌≢◌, refl, sym, ap, ◌∙◌, ◌↔◌, ◌⊎◌, inl, inr, true, false, ◌&&◌, Option, none, some, List, [],
  ◌∷◌, reverse, arith, Bool-cases, &&-true,
}
use ctf_agent.Names.{is_safe_stored_filename, dot, dot_dot, slash, backslash}
use ctf_agent.Names.Safety.{safe_stored_filename_stays}
use ctf_agent.Runner.Output.{
  newline, latest_final_readable_output, first_safe_name, latest_writeup_file_name,
  trim_right_returns, is_marker, find_flag, flag_in, with_flag, parse_runner_output,
  writeup_file_marker, solved_marker_line,
}
use ctf_agent.Runner.Output.Latest.{IsLastOutput, latest_final_readable_output_iff}
use ctf_agent.Text.{
  Text, text_eq_iff, Lacks, is_blank, trim_space, has_prefix, trim_prefix, split, unix_lines,
}

-- The two-line protocol: the first line that is the marker, up to white space around it, is followed by a line that is the flag,
-- up to returns at its end, and is not blank.
pub data Announces (flag : Text) : List Text → Type 0 where
  here :
      (line next : Text) (rest : List Text)
      → trim_space line ≡ solved_marker_line
      → trim_right_returns next ≡ flag
      → is_blank flag ≡ false
      → Announces flag (line ∷ next ∷ rest)
  later :
      (line : Text) (rest : List Text)
      → trim_space line ≢ solved_marker_line
      → Announces flag rest
      → Announces flag (line ∷ rest)

marker_line : (line : Text) → (is_marker line ≡ true) ↔ (trim_space line ≡ solved_marker_line)
marker_line line = text_eq_iff (trim_space line) solved_marker_line

find_flag_sound :
    (lines : List Text) (flag : Text) → find_flag lines ≡ some flag → Announces flag lines
unfolding find_flag
find_flag_sound [] flag h = absurd (cc)
find_flag_sound (line ∷ []) flag h = absurd (ground arith)
find_flag_sound (line ∷ next ∷ rest) flag h = elim (Bool-cases (is_marker line)) [
  | inr other ↦
      later line (next ∷ rest) (λ e. absurd (let m = (marker_line line).1 e in cc))
        (find_flag_sound (next ∷ rest) flag (rw (other, find_flag) at h))
  | inl marker ↦ here line next rest ((marker_line line).0 marker) (ground arith) (ground arith)
]

not_marker : (line : Text) → trim_space line ≢ solved_marker_line → is_marker line ≡ false
not_marker line h = elim (Bool-cases (is_marker line)) [
  | inl e ↦ absurd (h ((marker_line line).0 e))
  | inr e ↦ e
]

find_flag_complete :
    (flag : Text) (lines : List Text) → Announces flag lines → find_flag lines ≡ some flag
unfolding find_flag
find_flag_complete flag _ (here line next rest m t b) =
    let marker = (marker_line line).1 m in ground arith
find_flag_complete flag _ (later line rest m a) =
    let other = not_marker line m in ground (arith, find_flag_complete flag rest a)

flag_in_lines : (text : Text) → flag_in text ≡ find_flag (split newline (unix_lines text))
unfolding find_flag split unix_lines
flag_in_lines [] = ground arith
flag_in_lines (c ∷ text) = refl

with_flag_solved :
    (writeup : Text) (o : Option Text) (flag : Text)
    → ((with_flag writeup o).solved ≡ true) × ((with_flag writeup o).flag ≡ flag)
    → o ≡ some flag
with_flag_solved writeup none flag h = absurd (cc)
with_flag_solved writeup (some f) flag h = ap some h.1

-- A log is taken as solved with a flag exactly when its last readable output, the trimmed text
-- behind the last marker of readable output, announces that flag: the first line that is the solved
-- marker up to white space is followed by the flag, which is not blank, up to returns at its end.
pub parse_runner_output_solved_iff :
    (logs flag : Text)
    → (((parse_runner_output logs).solved ≡ true) × ((parse_runner_output logs).flag ≡ flag))
      ↔ ((text : Text) × IsLastOutput logs text × Announces flag (split newline (unix_lines text)))
unfolding parse_runner_output
parse_runner_output_solved_iff logs flag =
    let final = latest_final_readable_output logs in
    (
      λ h. (
        final,
        (latest_final_readable_output_iff logs final).0 refl,
        find_flag_sound (split newline (unix_lines final)) flag
            (sym (flag_in_lines final) ∙ with_flag_solved (latest_writeup_file_name logs) _ flag h),
      ),
      λ (text, last, a).
          let same = (latest_final_readable_output_iff logs text).1 last in
          let found =
            ap flag_in same
            ∙ flag_in_lines text
            ∙ find_flag_complete flag (split newline (unix_lines text)) a in
          rw (found, with_flag) (refl, refl),
    )

first_safe_name_cases :
    (lines : List Text)
    → (first_safe_name lines ≡ []) ⊎ (is_safe_stored_filename (first_safe_name lines) ≡ true)
unfolding first_safe_name
first_safe_name_cases [] = inl refl
first_safe_name_cases (raw ∷ rest) =
    elim (Bool-cases (
      has_prefix writeup_file_marker (trim_space raw)
      && is_safe_stored_filename (trim_space (trim_prefix writeup_file_marker (trim_space raw))))) [
        | inl hit ↦ rw (hit, first_safe_name) (inr ((&&-true _ _ hit).1))
        | inr miss ↦ rw (miss, first_safe_name) (first_safe_name_cases rest)
      ]

with_flag_name :
    (writeup : Text) (o : Option Text) → (with_flag writeup o).writeup_file_name ≡ writeup
with_flag_name writeup none = refl
with_flag_name writeup (some f) = refl

-- The writeup name that is read from a log, which the container writes, is empty or stays inside
-- the directory of its task: no ".", no "..", no slash, no backslash.
pub parse_runner_output_name_stays :
    (logs : Text)
    → let name = (parse_runner_output logs).writeup_file_name in
      (name ≡ []) ⊎ ((name ≢ dot) × (name ≢ dot_dot) × Lacks slash name × Lacks backslash name)
unfolding parse_runner_output latest_writeup_file_name
parse_runner_output_name_stays logs =
    let lines = reverse (split newline (unix_lines logs)) in
    rw (with_flag_name (first_safe_name lines) (flag_in (latest_final_readable_output logs)))
      (elim (first_safe_name_cases lines) [
        | inl missing ↦ inl missing
        | inr safe ↦
            let (a, b, c, d, e) = safe_stored_filename_stays (first_safe_name lines) safe in
            inr (b, c, d, e)
      ])
