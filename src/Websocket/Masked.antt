-- ===== src/Websocket/Masked.antt =====
-- The masking of a payload (internal/app/websocket.go).
use ctf_agent.Base.{
  ℕ, zero, suc, ◌+◌, ◌*◌, ◌/◌, ◌%◌, ◌^◌, ◌≡◌, ◌<◌, refl, ap, ◌∙◌, [], ◌∷◌, length, get_or, arith,
  ◌==◌, if◌then◌else◌,
}
use ctf_agent.Text.{Text}
use ctf_agent.Websocket.{xor_bits, unmask}

abbrev bit : ℕ → ℕ → ℕ
bit a b = if a % 2 == b % 2 then 0 else 1

bit_half : (r a m : ℕ) → (bit a m + 2 * r) / 2 ≡ r
bit_half r a m = ground arith

bit_parity : (r a m : ℕ) → bit (bit a m + 2 * r) m ≡ a % 2
bit_parity r a m = ground arith

xor_twice : (k b m : ℕ) → b < 2 ^ k → xor_bits k (xor_bits k b m) m ≡ b
unfolding xor_bits
xor_twice zero b m h = omega arith
xor_twice (suc k) b m h =
    let r = xor_bits k (b / 2) (m / 2) in
    let below : b / 2 < 2 ^ k = omega arith in
    let ih = xor_twice k (b / 2) (m / 2) below in
    let half = ap (λ x. xor_bits k x (m / 2)) (bit_half r b m) ∙ ih in
    let parity = bit_parity r b m in rw (half, parity) (omega arith)

-- Every element is a byte.
abbrev pub Bytes : Text → Type 0
Bytes [] = Unit
Bytes (c ∷ s) = (c < 256) × Bytes s

pub unmask_twice : (mask : Text) (i : ℕ) (s : Text) → Bytes s → unmask mask i (unmask mask i s) ≡ s
unfolding unmask
unmask_twice mask i [] b = refl
unmask_twice mask i (c ∷ s) (h, b) =
    rw (xor_twice 8 c (get_or mask (i % 4) 0) h, unmask_twice mask (suc i) s b) refl

pub length-unmask : (mask : Text) (i : ℕ) (s : Text) → length (unmask mask i s) ≡ length s
unfolding unmask
length-unmask mask i [] = refl
length-unmask mask i (c ∷ s) = ap suc (length-unmask mask (suc i) s)
