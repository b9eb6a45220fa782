-- ===== src/Disk/Atomic.antt =====
-- atomicWriteFile (internal/app/atomicfile.go) with replaceFile and syncDirectory
-- (internal/app/replace_unix.go): a temporary file is written, synced and renamed.
use ctf_agent.Base.{
  ◌≡◌, ◌⊎◌, inl, inr, Bool, true, false, not, Option, none, some, is_some, arith, if◌then◌else◌,
}
use ctf_agent.Errors.{Err, system}
use ctf_agent.Text.{Text}

-- The system calls in the order of the code.
pub data AtomicStep : Type 0 where
  make_dir create_temp chmod write sync close replace sync_dir : AtomicStep

-- The call that fails, with the system's message, and whether the temporary file can then be
-- removed; `none` if all calls succeed.
abbrev pub Fault : Type 0
Fault = Option (AtomicStep × Text × Bool)

abbrev pub same_step : AtomicStep → AtomicStep → Bool
same_step make_dir make_dir = true
same_step create_temp create_temp = true
same_step chmod chmod = true
same_step write write = true
same_step sync sync = true
same_step close close = true
same_step replace replace = true
same_step sync_dir sync_dir = true
same_step _ _ = false

-- The faults that strike before the rename.
abbrev pub is_early : Fault → Bool
is_early none = false
is_early (some (sync_dir, text, removes)) = false
is_early (some (_, text, removes)) = true

-- os.Remove of the temporary file fails.
abbrev pub remove_fails : Fault → Bool
remove_fails none = false
remove_fails (some (step, text, removes)) = not removes

-- The path and the temporary file beside it. A temporary file that exists and is not completely
-- written is `some none`.
pub record Slot {ℓ} (A : Type ℓ) : Type ℓ where
  pub target : Option A
  pub temporary : Option (Option A)

module _ {ℓ} {A : Type ℓ} where
  unfoldable pub attempt : Fault → AtomicStep → (Slot A → Slot A) → Slot A → Slot A × Option Err
  attempt none step effect s = (effect s, none)
  attempt (some (at_step, text, removes)) step effect s =
      if same_step at_step step then (s, some (system text)) else (effect s, none)

  infixl 5 ◌then_do◌
  abbrev pub ◌then_do◌ : Slot A × Option Err → (Slot A → Slot A × Option Err) → Slot A × Option Err
  (s, none) then_do f = f s
  (s, some e) then_do f = (s, some e)

  -- os.Rename: the temporary file takes the place of the target.
  unfoldable pub rename_temp : Slot A → Slot A
  rename_temp s = elim s.temporary [
    | some (some a) ↦ record { target = some a; temporary = none }
    | _ ↦ s
  ]

  -- The deferred function: after an error the temporary file is removed; an error of the removal
  -- is dropped.
  unfoldable pub clean_up : Fault → Slot A × Option Err → Slot A × Option Err
  clean_up fault (s, none) = (s, none)
  clean_up fault (s, some e) =
      if remove_fails fault then (s, some e) else (record s { temporary = none }, some e)

  unfoldable pub write_temp : Fault → A → Slot A → Slot A × Option Err
  unfolding attempt rename_temp
  write_temp fault content s =
      attempt fault chmod (λ t. t) s
      then_do attempt fault write (λ t. record t { temporary = some (some content) })
      then_do attempt fault sync (λ t. t)
      then_do attempt fault close (λ t. t)
      then_do attempt fault replace rename_temp
      then_do attempt fault sync_dir (λ t. t)

  unfoldable pub atomic_write : Fault → A → Slot A → Slot A × Option Err
  unfolding attempt write_temp clean_up
  atomic_write fault content s =
      attempt fault make_dir (λ t. t) s
      then_do attempt fault create_temp (λ t. record t { temporary = some none })
      then_do (λ t. clean_up fault (write_temp fault content t))

  -- A write over a path with no temporary file of its own.
  unfoldable pub write_file : Fault → A → Option A → Option A × Option Err
  unfolding atomic_write
  write_file fault content old =
      let (s, e) = atomic_write fault content (record { target = old; temporary = none }) in
      (s.target, e)

  abbrev pub OldOrNew : Fault → Option A → A → Slot A × Option Err → Type ℓ
  OldOrNew fault old content (s, e) =
      ((s.temporary ≡ none) ⊎ (remove_fails fault ≡ true))
      × ((s.target ≡ old) ⊎ (s.target ≡ some content))
      × ((is_some e ≡ true) ⊎ (s.target ≡ some content))
      × ((is_early fault ≡ false) ⊎ (s.target ≡ old))

  -- Whichever of the calls up to the sync of the directory fails, if any, no temporary file is left
  -- unless the removal of it fails too, and the path holds its old content whole or the new content
  -- whole; there is an error or it holds the new content, and where a call before the sync of the
  -- directory fails it holds the old.
  pub atomic_write-OldOrNew :
      (fault : Fault) (content : A) (old : Option A)
      → OldOrNew fault old content
          (atomic_write fault content (record { target = old; temporary = none }))
  unfolding atomic_write
  atomic_write-OldOrNew none content old = ground arith
  atomic_write-OldOrNew (some (make_dir, text, removes)) content old = ground arith
  atomic_write-OldOrNew (some (step, text, removes)) content old = ground arith

  pub write_file_cases :
      (fault : Fault) (content : A) (old : Option A)
      → let (target, e) = write_file fault content old in
        ((target ≡ old) ⊎ (target ≡ some content)) × (e ≡ none → target ≡ some content)
  unfolding write_file
  write_file_cases fault content old =
      let (a, b, c, d) = atomic_write-OldOrNew fault content old in
      (b, λ h. elim c [ inl f ↦ absurd (ground arith) | inr new ↦ new ])
