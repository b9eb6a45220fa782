-- ===== src/Websocket/Reading.antt =====
-- The loop of ReadUntilClose (internal/app/websocket.go).
-- The bytes that the connection will deliver are a list; `at_end` is its error behind them. The
-- n-th pong is answered by the n-th writes.
use ctf_agent.Base.{
  ℕ, zero, suc, ◌+◌, ◌%◌, is_some, ◌≡◌, ◌≤◌, ◌<◌, refl, subst, ◌⊎◌, inl, inr, Bool, true, ◌||◌,
  Option, none, some, List, [], ◌∷◌, length, ltb, ◌==◌, if◌then◌else◌, Bool-cases, arith,
}
use ctf_agent.Errors.{Err, unsupported_opcode, Result, ok, err}
use ctf_agent.Text.{Text}
use ctf_agent.Websocket.{
  Written, Sent, Frame, write_control, read_full, read_length, read_frame, read_body, read_mask,
  read_payload, with_byte, value_of, read_limit,
}

-- How the loop ended: what it sent, and its result, `none` for a close frame.
pub record Ended : Type 0 where
  pub pongs : List Sent
  pub error : Option Err

abbrev pub ended : Option Err → Ended
ended e = record { pongs = []; error = e }

abbrev pub ends : Sent → Option Ended → Option Ended
ends pong none = none
ends pong (some r) = some (record { pongs = pong ∷ r.pongs; error = r.error })

abbrev pub after_pong : Sent → Option Ended → Option Ended
after_pong (bytes, some e) rest = some (record { pongs = (bytes, some e) ∷ []; error = some e })
after_pong (bytes, none) rest = ends (bytes, none) rest

abbrev pub is_data : ℕ → Bool
is_data opcode = opcode == 10 || opcode == 1 || opcode == 2

-- The loop; `none` where the fuel is used up.
unfoldable pub read_until_close :
    ℕ → Err → (ℕ → ℕ → Written) → (ℕ → ℕ → Written) → Text → Option Ended
unfolding read_frame write_control
read_until_close zero at_end header_answers answers s = none
read_until_close (suc fuel) at_end header_answers answers s = elim (read_frame at_end s) [
  | err e ↦ some (ended (some e))
  | ok (frame, rest) ↦
      let next = read_until_close fuel at_end header_answers answers rest in
      let pong = write_control (header_answers 0) (answers 0) 10 frame.payload in
      let later =
        read_until_close fuel at_end (λ n. header_answers (suc n)) (λ n. answers (suc n)) rest in
      if frame.opcode == 8
      then some (ended none)
      else if frame.opcode == 9
      then after_pong pong later
      else if is_data frame.opcode
      then next
      else some (ended (some unsupported_opcode))
]

-- What is left behind a part that was read.
abbrev Left : ℕ → Text → Option (Text × Text) → Type 0
Left n s none = Unit
Left n s (some (bytes, rest)) = length rest + n ≡ length s

with_byte-Left :
    (n c : ℕ) (s : Text) (o : Option (Text × Text))
    → Left n s o
    → Left (suc n) (c ∷ s) (with_byte c o)
with_byte-Left n c s none h = tt
with_byte-Left n c s (some (bytes, rest)) h = omega arith

read_full-Left : (n : ℕ) (s : Text) → Left n s (read_full n s)
unfolding read_full
read_full-Left zero s = omega arith
read_full-Left (suc n) [] = tt
read_full-Left (suc n) (c ∷ s) = with_byte-Left n c s (read_full n s) (read_full-Left n s)

abbrev Shorter : Text → Option (ℕ × Text) → Type 0
Shorter s none = Unit
Shorter s (some (n, rest)) = length rest ≤ length s

value_of-Shorter :
    (n : ℕ) (s : Text) (o : Option (Text × Text)) → Left n s o → Shorter s (value_of o)
value_of-Shorter n s none h = tt
value_of-Shorter n s (some (bytes, rest)) h = omega arith

read_length-Shorter : (bits : ℕ) (s : Text) → Shorter s (read_length bits s)
unfolding read_length
read_length-Shorter bits s = elim (Bool-cases (bits == 126)) [
  | inl e ↦ rw e (value_of-Shorter 2 s (read_full 2 s) (read_full-Left 2 s))
  | inr e ↦ elim (Bool-cases (bits == 127)) [
    | inl f ↦ rw (e, f) (value_of-Shorter 8 s (read_full 8 s) (read_full-Left 8 s))
    | inr f ↦ rw (e, f) (omega arith)
  ]
]

-- A frame that was read leaves less than there was.
abbrev Consumes : Text → Result (Frame × Text) → Type 0
Consumes s (err e) = Unit
Consumes s (ok (frame, rest)) = length rest < length s

read_payload-Consumes :
    (at_end : Err) (opcode n : ℕ) (mask s t : Text) (o : Option (Text × Text))
    → Left n s o
    → length s < length t
    → Consumes t (read_payload at_end opcode mask o)
read_payload-Consumes at_end opcode n mask s t none h less = tt
read_payload-Consumes at_end opcode n mask s t (some (payload, rest)) h less = omega arith

read_mask-Consumes :
    (at_end : Err) (opcode n : ℕ) (s t : Text) (o : Option (Text × Text))
    → Left 4 s o
    → length s ≤ length t
    → Consumes t (read_mask at_end opcode n o)
read_mask-Consumes at_end opcode n s t none h less = tt
read_mask-Consumes at_end opcode n s t (some (mask, rest)) h less =
    read_payload-Consumes at_end opcode n mask rest t (read_full n rest) (read_full-Left n rest)
      (omega arith)

read_body-Consumes :
    (at_end : Err) (opcode : ℕ) (s : Text) (o : Option (ℕ × Text))
    → Shorter s o
    → Consumes s (read_body at_end opcode o)
read_body-Consumes at_end opcode s none h = tt
read_body-Consumes at_end opcode s (some (n, rest)) h = elim (Bool-cases (ltb read_limit n)) [
  | inl e ↦ rw e tt
  | inr e ↦
      rw e (read_mask-Consumes at_end opcode n rest s (read_full 4 rest) (read_full-Left 4 rest) h)
]

Consumes-longer :
    (first second : ℕ) (s : Text) (r : Result (Frame × Text))
    → Consumes s r
    → Consumes (first ∷ second ∷ s) r
Consumes-longer first second s (err e) h = tt
Consumes-longer first second s (ok (frame, rest)) h = omega arith

read_frame-Consumes : (at_end : Err) (s : Text) → Consumes s (read_frame at_end s)
unfolding read_frame
read_frame-Consumes at_end [] = tt
read_frame-Consumes at_end (first ∷ []) = tt
read_frame-Consumes at_end (first ∷ second ∷ s) = elim (Bool-cases (ltb first 128)) [
  | inl e ↦ rw (e, read_frame) tt
  | inr e ↦ elim (Bool-cases (ltb second 128)) [
    | inl f ↦ rw (e, f, read_frame) tt
    | inr f ↦
        rw (e, f, read_frame)
          (Consumes-longer first second s _ (
            read_body-Consumes at_end (first % 16) s (read_length (second % 128) s)
              (read_length-Shorter (second % 128) s)))
  ]
]

ends-is_some :
    (pong : Sent) (o : Option Ended) → is_some o ≡ true → is_some (after_pong pong o) ≡ true
ends-is_some (bytes, some e) o h = refl
ends-is_some (bytes, none) none h = h
ends-is_some (bytes, none) (some r) h = refl

Result-cases :
    (r : Result (Frame × Text)) → ((e : Err) × (r ≡ err e)) ⊎ ((p : Frame × Text) × (r ≡ ok p))
Result-cases (err e) = inl (e, refl)
Result-cases (ok p) = inr (p, refl)

-- Whatever bytes arrive, wherever the connection ends and whatever the writes of the pongs answer,
-- the loop that reads frames ends: as many turns as there are bytes, and one more, are enough.
pub read_until_close_ends :
    (fuel : ℕ) (at_end : Err) (header_answers answers : ℕ → ℕ → Written) (s : Text)
    → length s < fuel
    → is_some (read_until_close fuel at_end header_answers answers s) ≡ true
unfolding read_until_close
read_until_close_ends zero at_end header_answers answers s h = absurd (omega arith)
read_until_close_ends (suc fuel) at_end header_answers answers s h =
    elim (Result-cases (read_frame at_end s)) [
      | inl (e, same) ↦ rw (same, read_until_close) refl
      | inr ((frame, rest), same) ↦
          let less : length rest < length s =
            subst (Consumes s) same (read_frame-Consumes at_end s) in
          let next = read_until_close_ends fuel at_end header_answers answers rest (omega arith) in
          let later =
            read_until_close_ends fuel at_end (λ n. header_answers (suc n)) (λ n. answers (suc n))
              rest (omega arith) in
          let pong = write_control (header_answers 0) (answers 0) 10 frame.payload in
          rw (same, read_until_close)
            (elim (Bool-cases (frame.opcode == 8)) [
              | inl a ↦ rw a refl
              | inr a ↦ elim (Bool-cases (frame.opcode == 9)) [
                | inl b ↦ rw (a, b) (ends-is_some pong _ later)
                | inr b ↦ elim (Bool-cases (is_data frame.opcode)) [
                  | inl c ↦ rw (a, b, c) next
                  | inr c ↦ rw (a, b, c) refl
                ]
              ]
            ])
    ]
