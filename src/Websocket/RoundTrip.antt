-- ===== src/Websocket/RoundTrip.antt =====
-- The frame of a client and the reader (internal/app/websocket.go).
use ctf_agent.Base.{
  ℕ, suc, refl, get_or, ◌+◌, ◌%◌, ◌^◌, ◌≡◌, ◌≤◌, ◌<◌, ap, sym, ◌∙◌, inl, inr, false, some, [], ◌∷◌,
  ◌++◌, length, Bool-cases, arith, ltb, leb, if◌then◌else◌,
}
use mathlib.Core.List.{append_assoc}
use ctf_agent.Errors.{Err, frame_too_long, ok, err}
use ctf_agent.Text.{Text}
use ctf_agent.Websocket.{
  length_bytes, big_endian, read_full, read_length, unmask, xor_bits, read_payload, read_mask,
  read_body, read_limit, read_frame,
}
use ctf_agent.Websocket.Lengths.{read_full-append, two_bytes_read, eight_bytes_read}
use ctf_agent.Websocket.Masked.{Bytes, unmask_twice, length-unmask}

abbrev set_mask_bit : Text → Text
set_mask_bit [] = []
set_mask_bit (c ∷ s) = (128 + c) ∷ s

-- The masking of RFC 6455: the four bytes of the mask take turns.
unfoldable pub masked_in_turn : ℕ → ℕ → ℕ → ℕ → Text → Text
masked_in_turn a b c d [] = []
masked_in_turn a b c d (x ∷ s) = xor_bits 8 x a ∷ masked_in_turn b c d a s

abbrev pub masked_by : Text → Text → Text
masked_by (a ∷ b ∷ c ∷ d ∷ mask) payload = masked_in_turn a b c d payload
masked_by _ payload = payload

-- The frame that a client sends: the final bit and the opcode, the length with the mask bit, the
-- mask, and the masked payload.
unfoldable pub client_frame : ℕ → Text → Text → Text
unfolding masked_in_turn
client_frame opcode mask payload =
    (128 + opcode)
    ∷ (set_mask_bit (length_bytes (length payload)) ++ (mask ++ masked_by mask payload))

abbrev mask_at : Text → ℕ → ℕ
mask_at mask index = get_or mask (index % 4) 0

-- The index modulo 4 is that of the byte whose turn it is.
unmask_in_turn :
    (mask : Text) (index : ℕ) (s : Text)
    → unmask mask index s
      ≡ masked_in_turn
          (mask_at mask index)
          (mask_at mask (index + 1))
          (mask_at mask (index + 2))
          (mask_at mask (index + 3))
          s
unfolding unmask masked_in_turn
unmask_in_turn mask index [] = refl
unmask_in_turn mask index (x ∷ s) =
    let m = mask_at mask in
    let one : suc index ≡ index + 1 = omega arith in
    let two : suc index + 1 ≡ index + 2 = omega arith in
    let three : suc index + 2 ≡ index + 3 = omega arith in
    let back : (suc index + 3) % 4 ≡ index % 4 = omega arith in
    ap (λ r. xor_bits 8 x (m index) ∷ r)
      (unmask_in_turn mask (suc index) s
        ∙ ap
            (λ i.
              masked_in_turn (m i) (m (suc index + 1)) (m (suc index + 2)) (m (suc index + 3)) s)
            one
        ∙ ap (λ i. masked_in_turn (m (index + 1)) (m i) (m (suc index + 2)) (m (suc index + 3)) s)
            two
        ∙ ap (λ i. masked_in_turn (m (index + 1)) (m (index + 2)) (m i) (m (suc index + 3)) s) three
        ∙ ap
            (λ i.
              masked_in_turn (m (index + 1)) (m (index + 2)) (m (index + 3)) (get_or mask i 0) s)
            back)

masked_by-unmask :
    (mask payload : Text) → length mask ≡ 4 → masked_by mask payload ≡ unmask mask 0 payload
masked_by-unmask [] payload m = absurd (omega arith)
masked_by-unmask (a ∷ []) payload m = absurd (omega arith)
masked_by-unmask (a ∷ b ∷ []) payload m = absurd (omega arith)
masked_by-unmask (a ∷ b ∷ c ∷ []) payload m = absurd (omega arith)
masked_by-unmask (a ∷ b ∷ c ∷ d ∷ rest) payload m =
    sym (unmask_in_turn (a ∷ b ∷ c ∷ d ∷ rest) 0 payload)

module _ (at_end : Err) where
  read_header :
      (first second : ℕ) (s : Text)
      → 128 ≤ first
      → 128 ≤ second
      → read_frame at_end (first ∷ second ∷ s)
        ≡ read_body at_end (first % 16) (read_length (second % 128) s)
  unfolding read_frame
  read_header first second s f g = ground arith

  read_opcode :
      (opcode bits : ℕ) (s : Text)
      → opcode < 16
      → bits < 128
      → read_frame at_end ((128 + opcode) ∷ (128 + bits) ∷ s)
        ≡ read_body at_end opcode (read_length bits s)
  read_opcode opcode bits s f g =
      let op : (128 + opcode) % 16 ≡ opcode = omega arith in
      let len : (128 + bits) % 128 ≡ bits = omega arith in
      read_header (128 + opcode) (128 + bits) s (omega arith) (omega arith)
      ∙ ap (λ x. read_body at_end x (read_length ((128 + bits) % 128) s)) op
      ∙ ap (λ x. read_body at_end opcode (read_length x s)) len

  read_client :
      (opcode n : ℕ) (s : Text)
      → opcode < 16
      → n < 2 ^ 64
      → read_frame at_end ((128 + opcode) ∷ (set_mask_bit (length_bytes n) ++ s))
        ≡ read_body at_end opcode (some (n, s))
  unfolding length_bytes read_length
  read_client opcode n s f h = elim (Bool-cases (ltb n 126)) [
    | inl a ↦
        rw (length_bytes, a)
          (let same : read_length n s ≡ some (n, s) = ground arith in
            read_opcode opcode n s f (ground arith) ∙ ap (read_body at_end opcode) same)
    | inr a ↦ elim (Bool-cases (leb n 65535)) [
      | inl b ↦
          rw (length_bytes, a, b)
            (read_opcode opcode 126 (big_endian 2 n ++ s) f (omega arith)
              ∙ ap (read_body at_end opcode) (two_bytes_read n s (ground arith)))
      | inr b ↦
          rw (length_bytes, a, b)
            (read_opcode opcode 127 (big_endian 8 n ++ s) f (omega arith)
              ∙ ap (read_body at_end opcode) (eight_bytes_read n s h))
    ]
  ]

  read_masked :
      (opcode : ℕ) (mask payload rest : Text)
      → length mask ≡ 4
      → length payload ≤ read_limit
      → Bytes payload
      → read_body at_end opcode (some (length payload, mask ++ (unmask mask 0 payload ++ rest)))
        ≡ ok (record { opcode = opcode; payload = payload }, rest)
  read_masked opcode mask payload rest m l b =
      let masked = unmask mask 0 payload in
      let within : ltb read_limit (length payload) ≡ false = ground arith in
      let key : read_full 4 (mask ++ (masked ++ rest)) ≡ some (mask, masked ++ rest) =
        ap (λ k. read_full k (mask ++ (masked ++ rest))) (sym m)
        ∙ read_full-append mask (masked ++ rest) in
      let body : read_full (length payload) (masked ++ rest) ≡ some (masked, rest) =
        ap (λ k. read_full k (masked ++ rest)) (sym (length-unmask mask 0 payload))
        ∙ read_full-append masked rest in
      ap
        (λ c.
          if c
          then err frame_too_long
          else read_mask at_end opcode (length payload) (read_full 4 (mask ++ (masked ++ rest))))
        within
      ∙ ap (read_mask at_end opcode (length payload)) key
      ∙ ap (read_payload at_end opcode mask) body
      ∙ ap (λ p. ok (record { opcode = opcode; payload = p }, rest)) (unmask_twice mask 0 payload b)

  -- A frame that a client sends, its payload masked by the four bytes of its mask in turn, with an
  -- opcode of four bits and a payload of bytes within the read limit, is read as its opcode and its
  -- payload, and the reader stands behind it.
  pub read_frame-client_frame :
      (opcode : ℕ) (mask payload rest : Text)
      → opcode < 16
      → length mask ≡ 4
      → length payload ≤ read_limit
      → Bytes payload
      → read_frame at_end (client_frame opcode mask payload ++ rest)
        ≡ ok (record { opcode = opcode; payload = payload }, rest)
  unfolding client_frame
  read_frame-client_frame opcode mask payload rest f m l b =
      let masked = unmask mask 0 payload in
      let head = set_mask_bit (length_bytes (length payload)) in
      ap (λ p. read_frame at_end ((128 + opcode) ∷ ((head ++ (mask ++ p)) ++ rest)))
        (masked_by-unmask mask payload m)
      ∙ ap (λ x. read_frame at_end ((128 + opcode) ∷ x))
          (append_assoc head (mask ++ masked) rest
            ∙ ap (λ x. head ++ x) (append_assoc mask masked rest))
      ∙ read_client opcode (length payload) (mask ++ (masked ++ rest)) f (omega arith)
      ∙ read_masked opcode mask payload rest m l b
