-- ===== src/Store/Logs/Rotation.antt =====
-- Reading a log after an append and a rotation (internal/app/store.go).
use mathlib.Core.List.{append_assoc, append-nil}
use ctf_agent.Base.{
  false, ℕ, zero, suc, ◌+◌, ◌≤◌, ◌≡◌, refl, sym, ap, ◌∙◌, inl, inr, Option, none, some, ◌++◌,
  length, arith, leb, ◌==◌, if◌then◌else◌, Bool-cases,
}
use ctf_agent.Disk.{LogFiles}
use ctf_agent.Errors.{Err}
use ctf_agent.Store.Logs.{
  LogIo, set_archive, shift_one, shift_all, archive_current, rotate, rotate_present,
  rotate_log_if_needed, write_log, append_files, archives, whole_log, or_nothing, ◌then_do◌,
}
use ctf_agent.Text.{Text}

-- Every call of the system succeeds.
abbrev pub calm : LogIo
calm = record { stat = none; rename = none; keeps = λ _. false; open_file = none; write = none }

-- The archives after a shift of those from 1 to `n`: number 1 is free, the others have moved up.
abbrev shifted : ℕ → (ℕ → Option Text) → ℕ → Option Text
shifted n f zero = f 0
shifted n f (suc zero) = if n == 0 then f 1 else none
shifted n f (suc (suc i)) = if leb (suc i) n then f (suc i) else f (suc (suc i))

shift_one_lem :
    (n : ℕ) (log : LogFiles) (i : ℕ)
    → (((shift_one calm n log).0.archived i
        ≡ (if i == suc n then log.archived n else if i == n then none else log.archived i)))
unfolding shift_one
shift_one_lem n log i = ground arith

shift_one_ok :
    (n : ℕ) (log : LogFiles)
    → ((shift_one calm n log).1 ≡ none) × ((shift_one calm n log).0.current ≡ log.current)
unfolding shift_one
shift_one_ok n log = ground arith

pub record Shifted (n : ℕ) (log : LogFiles) (r : LogFiles × Option Err) : Type 0 where
  pub succeeds : r.1 ≡ none
  pub current : r.0.current ≡ log.current
  pub zeroth : r.0.archived 0 ≡ log.archived 0
  pub first : r.0.archived 1 ≡ (if n == 0 then log.archived 1 else none)
  pub later :
      (i : ℕ)
      → r.0.archived (suc (suc i))
        ≡ (if leb (suc i) n then log.archived (suc i) else log.archived (suc (suc i)))

shift_all-Shifted : (n : ℕ) (log : LogFiles) → Shifted n log (shift_all calm n log)
unfolding shift_all
shift_all-Shifted zero log = record {
  succeeds = refl;
  current = refl;
  zeroth = refl;
  first = refl;
  later = λ i. ground arith;
}
shift_all-Shifted (suc n) log =
    let ok = shift_one_ok (suc n) log in
    let ih = shift_all-Shifted n (shift_one calm (suc n) log).0 in
    record {
      succeeds = ground (arith, ok, ih.succeeds);
      current = ground (arith, ok, ih.current);
      zeroth = ground (arith, ok, ih.zeroth, shift_one_lem (suc n) log 0);
      first = ground (arith, ok, ih.first, shift_one_lem (suc n) log 1);
      later = λ i. ground (
        arith,
        ok,
        ih.later i,
        shift_one_lem (suc n) log (suc i),
        shift_one_lem (suc n) log (suc (suc i)),
      );
    }

-- Rotating moves each archive up by one and the log into the first; the oldest is gone.
pub record Rotated (n : ℕ) (content : Text) (log : LogFiles) (r : LogFiles × Option Err)
    : Type 0 where
  pub succeeds : r.1 ≡ none
  pub current : r.0.current ≡ none
  pub first : r.0.archived 1 ≡ some content
  pub later : (i : ℕ) → suc i ≤ n → r.0.archived (suc (suc i)) ≡ log.archived (suc i)

rotate-Rotated :
    (n : ℕ) (content : Text) (log : LogFiles)
    → Rotated n content log (rotate calm (suc n) content log)
unfolding rotate archive_current
rotate-Rotated n content log =
    let s = shift_all-Shifted n (set_archive (suc n) none log) in
    record {
      succeeds = ground (arith, s.succeeds);
      current = ground (arith, s.succeeds);
      first = ground (arith, s.succeeds);
      later = λ i h. ground (arith, s.succeeds, s.later i);
    }

archives-cong :
    (n : ℕ) (a b : LogFiles)
    → ((i : ℕ) → suc i ≤ n → a.archived (suc (suc i)) ≡ b.archived (suc i))
    → archives (suc n) a ≡ archives n b ++ or_nothing (a.archived 1)
unfolding archives
archives-cong zero a b h = append-nil (or_nothing (a.archived 1))
archives-cong (suc n) a b h =
    rw (h n (omega arith), append_assoc (or_nothing (b.archived (suc n))))
      (ap (λ t. or_nothing (b.archived (suc n)) ++ t)
        (archives-cong n a b (λ i p. h i (omega arith))))

whole_log-Rotated :
    (n : ℕ) (content : Text) (log : LogFiles) (r : LogFiles × Option Err)
    → Rotated n content log r
    → archives (suc n) r.0 ≡ archives n log ++ content
whole_log-Rotated n content log r h =
    archives-cong n r.0 log h.later ∙ ap (λ c. archives n log ++ or_nothing c) h.first

Rotated-read :
    (n : ℕ) (content : Text) (log : LogFiles) (r : LogFiles × Option Err)
    → Rotated n content log r
    → whole_log (suc n) r.0 ≡ archives n log ++ content
unfolding whole_log
Rotated-read n content log r h =
    ap (λ c. archives (suc n) r.0 ++ or_nothing c) h.current
    ∙ append-nil (archives (suc n) r.0)
    ∙ whole_log-Rotated n content log r h

-- What a log with logs.txt as given still holds when `text` is about to be appended.
abbrev pub survivors_of : ℕ → ℕ → Text → LogFiles → Option Text → Text
survivors_of max_bytes n text log none = whole_log (suc n) log
survivors_of max_bytes n text log (some content) =
    if leb (length content + length text) max_bytes
    then whole_log (suc n) log
    else archives n log ++ content

archives-write :
    (n : ℕ) (c : Option Text) (log : LogFiles)
    → archives n (record log { current = c }) ≡ archives n log
unfolding archives
archives-write zero c log = refl
archives-write (suc n) c log =
    ap (λ t. or_nothing (log.archived (suc n)) ++ t) (archives-write n c log)

write_read :
    (n : ℕ) (text : Text) (log : LogFiles)
    → whole_log n (write_log calm text log).0 ≡ whole_log n log ++ text
unfolding write_log whole_log
write_read n text log =
    rw (archives-write n (some (or_nothing log.current ++ text)) log)
      (sym (append_assoc (archives n log) (or_nothing log.current) text))

rotate_read :
    (m n : ℕ) (text : Text) (log : LogFiles) (c : Option Text)
    → log.current ≡ c
    → let r = rotate_present calm m (suc n) (length text) c log in
      (r.1 ≡ none) × (whole_log (suc n) r.0 ≡ survivors_of m n text log c)
unfolding rotate_present
rotate_read m n text log none e = (refl, refl)
rotate_read m n text log (some content) e =
    elim (Bool-cases (leb (length content + length text) m)) [
      | inl fits ↦ rw fits (refl, refl)
      | inr full ↦
          rw full
            (let r = rotate-Rotated n content log in (r.succeeds, Rotated-read n content log _ r))
    ]

rotate_needed :
    (m n : ℕ) (text : Text) (log : LogFiles)
    → rotate_log_if_needed calm (suc m) (suc n) (length text) log
      ≡ rotate_present calm (suc m) (suc n) (length text) log.current log
unfolding rotate_log_if_needed
rotate_needed m n text log = ground arith

then_ok :
    (r : LogFiles × Option Err) (f : LogFiles → LogFiles × Option Err)
    → r.1 ≡ none
    → (r then_do f) ≡ f r.0
then_ok (log, none) f h = refl
then_ok (log, some e) f h = cc

-- With `n + 1` archives and a positive limit, where the system's calls succeed, an append succeeds,
-- and reading the files then gives the text at the end of what was there before, whole if there
-- was room in logs.txt or no logs.txt, and else without the oldest archive.
pub append_files_read :
    (m n : ℕ) (text : Text) (log : LogFiles)
    → let r = append_files calm (suc m) (suc n) text log in
      (r.1 ≡ none) × (whole_log (suc n) r.0 ≡ survivors_of (suc m) n text log log.current ++ text)
unfolding append_files
append_files_read m n text log =
    let (succeeds, reads) = rotate_read (suc m) n text log log.current refl in
    let r : LogFiles × Option Err =
      rotate_present calm (suc m) (suc n) (length text) log.current log in
    rw (rotate_needed m n text log, then_ok r (write_log calm text) succeeds)
      (unfold write_log in refl, write_read (suc n) text r.0 ∙ ap (λ t. t ++ text) reads)
