-- ===== src/Websocket.antt =====
-- WebSocket frames (internal/app/websocket.go): writeFrame, WriteControl, writeAll, the
-- reading of a frame in ReadUntilClose.
-- The bytes that arrive on a connection are a list, and `at_end` is the error that the connection
-- reports behind them: the end of the file or the deadline.
pub mod Lengths
pub mod Masked
pub mod RoundTrip
pub mod Sending
pub mod Reading
use ctf_agent.Base.{
  ℕ, zero, suc, ◌+◌, ◌-◌, ◌*◌, ◌/◌, ◌%◌, ◌^◌, Bool, true, false, ◌||◌, Option, none, some, List, [],
  ◌∷◌, ◌++◌, length, take, drop, get_or, ltb, leb, ◌==◌, if◌then◌else◌,
}
use ctf_agent.Errors.{
  Err, fragmented_frame, unmasked_frame, frame_too_long, unsupported_opcode, control_too_large,
  short_write, Result, ok, err,
}
use ctf_agent.Text.{Text}

-- The last `k` bytes of a number, the highest first: binary.BigEndian.
unfoldable pub big_endian : ℕ → ℕ → Text
big_endian zero n = []
big_endian (suc k) n = n / 256 ^ k % 256 ∷ big_endian k n

unfoldable pub big_endian_value : ℕ → Text → ℕ
big_endian_value n [] = n
big_endian_value n (c ∷ s) = big_endian_value (n * 256 + c) s

-- The length part of writeFrame's header.
unfoldable pub length_bytes : ℕ → Text
unfolding big_endian
length_bytes n =
    if ltb n 126 then n ∷ [] else if leb n 65535 then 126 ∷ big_endian 2 n else 127 ∷ big_endian 8 n

-- The header of writeFrame: 0x80 | opcode, and the length.
unfoldable pub frame_header : ℕ → ℕ → Text
unfolding length_bytes
frame_header opcode n = (128 + opcode % 128) ∷ length_bytes n

-- What Write answers: how many bytes it took, and its error.
pub record Written : Type 0 where
  pub count : ℕ
  pub failure : Option Err

-- The bytes that went out, and the error.
abbrev pub Sent : Type 0
Sent = Text × Option Err

abbrev pub after : Text → Sent → Sent
after part (bytes, e) = (part ++ bytes, e)

-- writeAll. Each turn that goes on takes a byte at least, so the length of the payload is fuel
-- enough: with a byte of it left the fuel is not used up.
unfoldable pub write_all : ℕ → (ℕ → Written) → Text → Sent
write_all fuel answers [] = ([], none)
write_all zero answers (c ∷ s) = ([], none)
write_all (suc fuel) answers (c ∷ s) =
    let n = (answers 0).count in
    let rest = write_all fuel (λ i. answers (suc i)) (drop n (c ∷ s)) in
    elim (answers 0).failure [
      | some e ↦ (take n (c ∷ s), some e)
      | none ↦ if n == 0 then ([], some short_write) else after (take n (c ∷ s)) rest
    ]

abbrev pub then_payload : (ℕ → Written) → Text → Sent → Sent
then_payload answers payload (bytes, some e) = (bytes, some e)
then_payload answers payload (bytes, none) =
    after bytes (write_all (length payload) answers payload)

-- writeFrame
unfoldable pub write_frame : (ℕ → Written) → (ℕ → Written) → ℕ → Text → Sent
unfolding write_all frame_header
write_frame header_answers answers opcode payload =
    let header = frame_header opcode (length payload) in
    then_payload answers payload (write_all (length header) header_answers header)

-- WriteControl
unfoldable pub write_control : (ℕ → Written) → (ℕ → Written) → ℕ → Text → Sent
unfolding write_frame
write_control header_answers answers opcode payload =
    if ltb 125 (length payload)
    then ([], some control_too_large)
    else write_frame header_answers answers opcode payload

abbrev pub with_byte : ℕ → Option (Text × Text) → Option (Text × Text)
with_byte c none = none
with_byte c (some (bytes, rest)) = some (c ∷ bytes, rest)

-- io.ReadFull: exactly `n` bytes.
unfoldable pub read_full : ℕ → Text → Option (Text × Text)
read_full zero s = some ([], s)
read_full (suc n) [] = none
read_full (suc n) (c ∷ s) = with_byte c (read_full n s)

abbrev pub value_of : Option (Text × Text) → Option (ℕ × Text)
value_of none = none
value_of (some (bytes, rest)) = some (big_endian_value 0 bytes, rest)

-- The length of a frame, from the 7 bits of its second byte and what follows.
unfoldable pub read_length : ℕ → Text → Option (ℕ × Text)
unfolding read_full big_endian_value
read_length bits s =
    if bits == 126
    then value_of (read_full 2 s)
    else if bits == 127
    then value_of (read_full 8 s)
    else some (bits, s)

-- The exclusive or of the last `k` bits of two numbers.
unfoldable pub xor_bits : ℕ → ℕ → ℕ → ℕ
xor_bits zero a b = 0
xor_bits (suc k) a b = (if a % 2 == b % 2 then 0 else 1) + 2 * xor_bits k (a / 2) (b / 2)

-- payload[index] ^= mask[index % 4], from an index on.
unfoldable pub unmask : Text → ℕ → Text → Text
unfolding xor_bits
unmask mask index [] = []
unmask mask index (c ∷ s) = xor_bits 8 c (get_or mask (index % 4) 0) ∷ unmask mask (suc index) s

pub record Frame : Type 0 where
  pub opcode : ℕ
  pub payload : Text

abbrev pub read_payload : Err → ℕ → Text → Option (Text × Text) → Result (Frame × Text)
read_payload at_end opcode mask none = err at_end
read_payload at_end opcode mask (some (payload, rest)) =
    ok (record { opcode = opcode; payload = unmask mask 0 payload }, rest)

abbrev pub read_mask : Err → ℕ → ℕ → Option (Text × Text) → Result (Frame × Text)
read_mask at_end opcode n none = err at_end
read_mask at_end opcode n (some (mask, rest)) = read_payload at_end opcode mask (read_full n rest)

abbrev pub read_limit : ℕ
read_limit = 65536

abbrev pub read_body : Err → ℕ → Option (ℕ × Text) → Result (Frame × Text)
read_body at_end opcode none = err at_end
read_body at_end opcode (some (n, rest)) =
    if ltb read_limit n then err frame_too_long else read_mask at_end opcode n (read_full 4 rest)

-- One frame of the loop of ReadUntilClose.
unfoldable pub read_frame : Err → Text → Result (Frame × Text)
unfolding read_length unmask
read_frame at_end [] = err at_end
read_frame at_end (first ∷ []) = err at_end
read_frame at_end (first ∷ second ∷ s) =
    if ltb first 128
    then err fragmented_frame
    else if ltb second 128
    then err unmasked_frame
    else read_body at_end (first % 16) (read_length (second % 128) s)
