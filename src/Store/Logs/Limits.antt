-- ===== src/Store/Logs/Limits.antt =====
-- The size of the log files after an append (internal/app/store.go).
use ctf_agent.Base.{
  ℕ, zero, suc, ◌+◌, ◌≤◌, ◌≡◌, refl, inl, inr, Option, none, some, [], ◌∷◌, length, take, arith,
  leb, Bool-cases, Option-cases, length-append,
}
use ctf_agent.Disk.{LogFiles}
use ctf_agent.Errors.{Err}
use ctf_agent.Store.Logs.{
  LogIo, set_archive, drop_archive, shift_one, shift_all, archive_current, rotate, rotate_present,
  rotate_log_if_needed, write_log, append_files, or_nothing, ◌then_do◌,
}
use ctf_agent.Text.{Text}

-- Every file of the log is within the limit.
pub record WithinLimit (max_bytes : ℕ) (log : LogFiles) : Type 0 where
  pub current : length (or_nothing log.current) ≤ max_bytes
  pub archived : (i : ℕ) → length (or_nothing (log.archived i)) ≤ max_bytes

-- A result within the limit that has room for `incoming` bytes in logs.txt unless it failed.
pub record HasRoom (m incoming : ℕ) (r : LogFiles × Option Err) : Type 0 where
  pub within : WithinLimit m r.0
  pub room : r.1 ≡ none → length (or_nothing r.0.current) + incoming ≤ m

then-WithinLimit :
    {m : ℕ} (r : LogFiles × Option Err) (f : LogFiles → LogFiles × Option Err)
    → WithinLimit m r.0
    → (WithinLimit m r.0 → WithinLimit m (f r.0).0)
    → WithinLimit m (r then_do f).0
then-WithinLimit (log, none) f w h = h w
then-WithinLimit (log, some e) f w h = w

module _ (io : LogIo) (m : ℕ) where
  set-WithinLimit :
      (n : ℕ) (c : Option Text) (log : LogFiles)
      → length (or_nothing c) ≤ m
      → WithinLimit m log
      → WithinLimit m (set_archive n c log)
  unfolding set_archive
  set-WithinLimit n c log h w = record {
    current = w.current;
    archived = λ i. ground (arith, w.archived i);
  }

  drop-WithinLimit :
      (n : ℕ) (log : LogFiles) → WithinLimit m log → WithinLimit m (drop_archive io n log)
  unfolding drop_archive
  drop-WithinLimit n log w = elim (Bool-cases (io.keeps n)) [
    | inl e ↦ rw (e, drop_archive) w
    | inr e ↦ rw (e, drop_archive) (set-WithinLimit n none log (omega arith) w)
  ]

  shift_one-WithinLimit :
      (n : ℕ) (log : LogFiles) → WithinLimit m log → WithinLimit m (shift_one io n log).0
  unfolding shift_one
  shift_one-WithinLimit n log w = record {
    current = ground (arith, w.current);
    archived = λ i. ground (arith, w.archived i, w.archived n);
  }

  shift_all-WithinLimit :
      (n : ℕ) (log : LogFiles) → WithinLimit m log → WithinLimit m (shift_all io n log).0
  unfolding shift_all
  shift_all-WithinLimit zero log w = w
  shift_all-WithinLimit (suc n) log w =
      then-WithinLimit (shift_one io (suc n) log) (shift_all io n)
        (shift_one-WithinLimit (suc n) log w) (shift_all-WithinLimit n (shift_one io (suc n) log).0)

  archive_current-HasRoom :
      (content : Text) (incoming : ℕ) (log : LogFiles)
      → length content ≤ m
      → incoming ≤ m
      → WithinLimit m log
      → HasRoom m incoming (archive_current io content log)
  unfolding archive_current set_archive
  archive_current-HasRoom content incoming log h k w = record {
    within = record {
      current = ground (arith, w.current);
      archived = λ i. ground (arith, w.archived i);
    };
    room = ground arith;
  }

  then-HasRoom :
      (incoming : ℕ) (r : LogFiles × Option Err) (f : LogFiles → LogFiles × Option Err)
      → WithinLimit m r.0
      → (WithinLimit m r.0 → HasRoom m incoming (f r.0))
      → HasRoom m incoming (r then_do f)
  then-HasRoom incoming (log, none) f w h = h w
  then-HasRoom incoming (log, some e) f w h = record { within = w; room = λ never. cc }

  rotate-HasRoom :
      (n : ℕ) (content : Text) (incoming : ℕ) (log : LogFiles)
      → length content ≤ m
      → incoming ≤ m
      → WithinLimit m log
      → HasRoom m incoming (rotate io (suc n) content log)
  unfolding rotate
  rotate-HasRoom n content incoming log h k w =
      then-HasRoom incoming (shift_all io n (drop_archive io (suc n) log))
        (archive_current io content)
        (shift_all-WithinLimit n (drop_archive io (suc n) log) (drop-WithinLimit (suc n) log w))
        (archive_current-HasRoom content incoming _ h k)

  rotate_present-HasRoom :
      (n incoming : ℕ) (log : LogFiles) (c : Option Text)
      → log.current ≡ c
      → incoming ≤ m
      → WithinLimit m log
      → HasRoom m incoming (rotate_present io m (suc n) incoming c log)
  unfolding rotate_present
  rotate_present-HasRoom n incoming log none e k w = record { within = w; room = λ _. ground arith }
  rotate_present-HasRoom n incoming log (some content) e k w = elim (Option-cases io.stat) [
    | inr (text, s) ↦ rw s (record { within = w; room = λ never. cc })
    | inl s ↦ rw s (elim (Bool-cases (leb (length content + incoming) m)) [
      | inl fits ↦ rw fits (record { within = w; room = λ _. ground arith })
      | inr full ↦ rw full (rotate-HasRoom n content incoming log (ground (arith, w.current)) k w)
    ])
  ]

  length-take-le : (n : ℕ) (text : Text) → length (take n text) ≤ length text
  length-take-le zero text = omega arith
  length-take-le (suc n) [] = omega arith
  length-take-le (suc n) (c ∷ text) = omega (arith, length-take-le n text)

  write_log-WithinLimit :
      (text : Text) (log : LogFiles)
      → WithinLimit m log
      → length (or_nothing log.current) + length text ≤ m
      → WithinLimit m (write_log io text log).0
  unfolding write_log
  write_log-WithinLimit text log w room = elim (Option-cases io.open_file) [
    | inr (t, e) ↦ rw e w
    | inl e ↦ rw e (elim (Option-cases io.write) [
      | inl f ↦ rw f (record {
        current = omega (arith, length-append (or_nothing log.current) text);
        archived = w.archived;
      })
      | inr ((n, t), f) ↦ rw f (record {
        current =
            omega
              (arith, length-append (or_nothing log.current) (take n text), length-take-le n text);
        archived = w.archived;
      })
    ])
  ]

  append_room :
      (text : Text) (r : LogFiles × Option Err)
      → HasRoom m (length text) r
      → WithinLimit m (r then_do write_log io text).0
  append_room text (log, none) h = write_log-WithinLimit text log h.within (h.room refl)
  append_room text (log, some e) h = h.within

rotate_needed :
    (io : LogIo) (m n : ℕ) (text : Text) (log : LogFiles)
    → rotate_log_if_needed io (suc m) (suc n) (length text) log
      ≡ rotate_present io (suc m) (suc n) (length text) log.current log
unfolding rotate_log_if_needed
rotate_needed io m n text log = ground arith

-- With a positive limit and at least one archive, where every file of the log is within the limit,
-- appending a text that is no longer than the limit leaves every file within it, whatever the system
-- answers.
pub append_files-WithinLimit :
    (io : LogIo) (m n : ℕ) (text : Text) (log : LogFiles)
    → length text ≤ suc m
    → WithinLimit (suc m) log
    → WithinLimit (suc m) (append_files io (suc m) (suc n) text log).0
unfolding append_files
append_files-WithinLimit io m n text log k w = rw (rotate_needed io m n text log) (
    append_room io (suc m) text _
      (rotate_present-HasRoom io (suc m) n (length text) log log.current refl k w))
