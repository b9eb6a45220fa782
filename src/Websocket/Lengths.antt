-- ===== src/Websocket/Lengths.antt =====
-- The length in the header of a frame (internal/app/websocket.go).
use ctf_agent.Base.{ℕ, ◌^◌, ◌≡◌, ◌≤◌, ◌<◌, refl, ap, some, [], ◌∷◌, ◌++◌, length, arith}
use ctf_agent.Text.{Text}
use ctf_agent.Websocket.{big_endian, big_endian_value, read_full, value_of, with_byte}

pub read_full-append : (s rest : Text) → read_full (length s) (s ++ rest) ≡ some (s, rest)
unfolding read_full
read_full-append [] rest = refl
read_full-append (c ∷ s) rest = ap (with_byte c) (read_full-append s rest)

two_bytes : (n : ℕ) → n ≤ 65535 → big_endian_value 0 (big_endian 2 n) ≡ n
unfolding big_endian big_endian_value
two_bytes n h = omega arith

eight_bytes : (n : ℕ) → n < 2 ^ 64 → big_endian_value 0 (big_endian 8 n) ≡ n
unfolding big_endian big_endian_value
eight_bytes n h = omega arith

pub two_bytes_read :
    (n : ℕ) (rest : Text)
    → n ≤ 65535
    → value_of (read_full 2 (big_endian 2 n ++ rest)) ≡ some (n, rest)
unfolding read_full big_endian
two_bytes_read n rest h = ap (λ v. some (v, rest)) (two_bytes n h)

pub eight_bytes_read :
    (n : ℕ) (rest : Text)
    → n < 2 ^ 64
    → value_of (read_full 8 (big_endian 8 n ++ rest)) ≡ some (n, rest)
unfolding read_full big_endian
eight_bytes_read n rest h = ap (λ v. some (v, rest)) (eight_bytes n h)
