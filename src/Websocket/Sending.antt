-- ===== src/Websocket/Sending.antt =====
-- What writeFrame sends (internal/app/websocket.go).
use ctf_agent.Base.{
  ℕ, zero, suc, ◌≡◌, ◌≤◌, refl, ap, sym, ◌∙◌, ◌⊎◌, inl, inr, true, none, some, is_some, [], ◌∷◌,
  ◌++◌, length, take, drop, take-append-drop, length-drop, subst, Bool-cases, Option-cases, arith,
  ◌==◌,
}
use ctf_agent.Errors.{Err}
use ctf_agent.Text.{Text}
use ctf_agent.Websocket.{Written, Sent, after, write_all, then_payload, write_frame, frame_header}
use mathlib.Core.List.{append_assoc, append-nil}

-- What was sent of a text: the unsent rest is empty if there is no error.
pub record Sends (text : Text) (w : Sent) : Type 0 where
  pub rest : Text
  pub parts : w.0 ++ rest ≡ text
  pub whole : (is_some w.1 ≡ true) ⊎ (rest ≡ [])

nothing_sent : (text : Text) (e : Err) → Sends text ([], some e)
nothing_sent text e = record { rest = text; parts = refl; whole = inl refl }

after-Sends : (part text : Text) (w : Sent) → Sends text w → Sends (part ++ text) (after part w)
after-Sends part text (bytes, e) h = record {
  rest = h.rest;
  parts = append_assoc part bytes h.rest ∙ ap (λ x. part ++ x) h.parts;
  whole = h.whole;
}

write_all-Sends :
    (fuel : ℕ) (answers : ℕ → Written) (text : Text)
    → length text ≤ fuel
    → Sends text (write_all fuel answers text)
unfolding write_all
write_all-Sends fuel answers [] h = record { rest = []; parts = refl; whole = inr refl }
write_all-Sends zero answers (c ∷ s) h = absurd (omega arith)
write_all-Sends (suc fuel) answers (c ∷ s) h = elim (Option-cases (answers 0).failure) [
  | inr (e, f) ↦
      let n = (answers 0).count in
      rw (write_all, f)
        (record { rest = drop n (c ∷ s); parts = take-append-drop n (c ∷ s); whole = inl refl })
  | inl f ↦ elim (Bool-cases ((answers 0).count == 0)) [
    | inl z ↦ rw (write_all, f, z) (nothing_sent (c ∷ s) _)
    | inr z ↦
        let n = (answers 0).count in
        let more = write_all fuel (λ i. answers (suc i)) (drop n (c ∷ s)) in
        let shorter = length-drop n (c ∷ s) in
        let ih =
          write_all-Sends fuel (λ i. answers (suc i)) (drop n (c ∷ s)) (ground (arith, shorter)) in
        rw (write_all, f, z)
          (subst (λ x. Sends x (after (take n (c ∷ s)) more)) (take-append-drop n (c ∷ s))
            (after-Sends (take n (c ∷ s)) (drop n (c ∷ s)) more ih))
  ]
]

behind-Sends :
    (header text : Text) (answers : ℕ → Written) (w : Sent)
    → Sends header w
    → Sends (header ++ text) (then_payload answers text w)
behind-Sends header text answers (bytes, some e) h = record {
  rest = h.rest ++ text;
  parts = sym (append_assoc bytes h.rest text) ∙ ap (λ x. x ++ text) h.parts;
  whole = inl refl;
}
behind-Sends header text answers (bytes, none) h = elim h.whole [
  | inl failed ↦ absurd (ground arith)
  | inr empty ↦
      let all : bytes ≡ header =
        sym (append-nil bytes) ∙ ap (λ x. bytes ++ x) (sym empty) ∙ h.parts in
      subst (λ x. Sends (x ++ text) (after bytes (write_all (length text) answers text))) all
        (after-Sends bytes text (write_all (length text) answers text)
          (write_all-Sends (length text) answers text (omega arith)))
]

-- However few bytes each write of the connection takes and wherever one fails, what writeFrame sends
-- is a front part of the header and the payload, and all of it unless an error is returned.
pub write_frame-Sends :
    (header_answers answers : ℕ → Written) (opcode : ℕ) (payload : Text)
    → Sends
        (frame_header opcode (length payload) ++ payload)
        (write_frame header_answers answers opcode payload)
unfolding write_frame
write_frame-Sends header_answers answers opcode payload =
    let header = frame_header opcode (length payload) in
    behind-Sends header payload answers (write_all (length header) header_answers header)
      (write_all-Sends (length header) header_answers header (omega arith))
