-- ===== src/Text/Base64.antt =====
-- base64.StdEncoding: DecodeString, and the encoding that it reads back.
use ctf_agent.Base.{
  ℕ, ◌+◌, ◌-◌, ◌*◌, ◌/◌, ◌%◌, ◌<◌, ◌≡◌, refl, ap, ◌∙◌, false, ◌&&◌, ◌||◌, Option, none, some, [],
  ◌∷◌, ltb, leb, ◌==◌, if◌then◌else◌, arith, All,
}
use ctf_agent.Text.{Text}

abbrev pub pad : ℕ
pad = b'='

abbrev pub sextet : ℕ → Option ℕ
sextet c =
    if leb b'A' c && leb c b'Z'
    then some (c - b'A')
    else if leb b'a' c && leb c b'z'
    then some (c - b'a' + 26)
    else if leb b'0' c && leb c b'9'
    then some (c - b'0' + 52)
    else if c == b'+'
    then some 62
    else if c == b'/'
    then some 63
    else none

-- Returns and line feeds are passed over.
unfoldable pub without_newlines : Text → Text
without_newlines [] = []
without_newlines (c ∷ s) =
    let rest = without_newlines s in if c == 10 || c == 13 then rest else c ∷ rest

abbrev pub one_byte : Option ℕ → Option ℕ → Option Text
one_byte (some a) (some b) = some ((a * 4 + b / 16) ∷ [])
one_byte _ _ = none

abbrev pub two_bytes : Option ℕ → Option ℕ → Option ℕ → Option Text
two_bytes (some a) (some b) (some c) = some ((a * 4 + b / 16) ∷ (b % 16 * 16 + c / 4) ∷ [])
two_bytes _ _ _ = none

abbrev pub three_bytes : Option ℕ → Option ℕ → Option ℕ → Option ℕ → Option Text → Option Text
three_bytes (some a) (some b) (some c) (some d) (some rest) =
    some ((a * 4 + b / 16) ∷ (b % 16 * 16 + c / 4) ∷ (c % 4 * 64 + d) ∷ rest)
three_bytes _ _ _ _ _ = none

abbrev pub last_group : ℕ → ℕ → ℕ → Text → Option Text
last_group a b c (e ∷ rest) = none
last_group a b c [] =
    if c == pad then one_byte (sextet a) (sextet b) else two_bytes (sextet a) (sextet b) (sextet c)

unfoldable pub decode_groups : Text → Option Text
decode_groups [] = some []
decode_groups (a ∷ []) = none
decode_groups (a ∷ b ∷ []) = none
decode_groups (a ∷ b ∷ c ∷ []) = none
decode_groups (a ∷ b ∷ c ∷ d ∷ s) =
    let rest = decode_groups s in
    if d == pad
    then last_group a b c s
    else three_bytes (sextet a) (sextet b) (sextet c) (sextet d) rest

-- DecodeString; `none` is an error.
unfoldable pub base64_decode : Text → Option Text
unfolding decode_groups without_newlines
base64_decode s = decode_groups (without_newlines s)

abbrev pub symbol : ℕ → ℕ
symbol n =
    if ltb n 26
    then b'A' + n
    else if ltb n 52
    then b'a' + (n - 26)
    else if ltb n 62
    then b'0' + (n - 52)
    else if n == 62
    then b'+'
    else b'/'

-- EncodeToString
unfoldable pub base64_encode : Text → Text
base64_encode [] = []
base64_encode (a ∷ []) = symbol (a / 4) ∷ symbol (a % 4 * 16) ∷ pad ∷ pad ∷ []
base64_encode (a ∷ b ∷ []) =
    symbol (a / 4) ∷ symbol (a % 4 * 16 + b / 16) ∷ symbol (b % 16 * 4) ∷ pad ∷ []
base64_encode (a ∷ b ∷ c ∷ s) =
    symbol (a / 4)
    ∷ symbol (a % 4 * 16 + b / 16)
    ∷ symbol (b % 16 * 4 + c / 64)
    ∷ symbol (c % 64)
    ∷ base64_encode s

abbrev pub IsBytes : Text → Type 0
IsBytes = All (λ c. c < 256)

sextet-symbol : (n : ℕ) → n < 64 → sextet (symbol n) ≡ some n
sextet-symbol n h = ground arith

symbol_plain : (n : ℕ) → ((symbol n == 10 || symbol n == 13) ≡ false) × (symbol n == pad ≡ false)
symbol_plain n = ground arith

without_newlines-encode : (s : Text) → without_newlines (base64_encode s) ≡ base64_encode s
unfolding without_newlines base64_encode
without_newlines-encode [] = refl
without_newlines-encode (a ∷ []) =
    rw (without_newlines, (symbol_plain (a / 4)).0, (symbol_plain (a % 4 * 16)).0) refl
without_newlines-encode (a ∷ b ∷ []) =
    rw
      (
        without_newlines,
        (symbol_plain (a / 4)).0,
        (symbol_plain (a % 4 * 16 + b / 16)).0,
        (symbol_plain (b % 16 * 4)).0,
      )
      refl
without_newlines-encode (a ∷ b ∷ c ∷ s) =
    rw
      (
        without_newlines,
        (symbol_plain (a / 4)).0,
        (symbol_plain (a % 4 * 16 + b / 16)).0,
        (symbol_plain (b % 16 * 4 + c / 64)).0,
        (symbol_plain (c % 64)).0,
        without_newlines-encode s,
      )
      refl

one_byte_eq :
    (m n a : ℕ)
    → m < 64
    → n < 64
    → m * 4 + n / 16 ≡ a
    → one_byte (sextet (symbol m)) (sextet (symbol n)) ≡ some (a ∷ [])
one_byte_eq m n a hm hn ea =
    ap (λ o. one_byte o (sextet (symbol n))) (sextet-symbol m hm)
    ∙ ap (λ o. one_byte (some m) o) (sextet-symbol n hn)
    ∙ ap (λ x. some (x ∷ [])) ea

two_bytes_eq :
    (m n k a b : ℕ)
    → m < 64
    → n < 64
    → k < 64
    → m * 4 + n / 16 ≡ a
    → n % 16 * 16 + k / 4 ≡ b
    → two_bytes (sextet (symbol m)) (sextet (symbol n)) (sextet (symbol k)) ≡ some (a ∷ b ∷ [])
two_bytes_eq m n k a b hm hn hk ea eb =
    ap (λ o. two_bytes o (sextet (symbol n)) (sextet (symbol k))) (sextet-symbol m hm)
    ∙ ap (λ o. two_bytes (some m) o (sextet (symbol k))) (sextet-symbol n hn)
    ∙ ap (λ o. two_bytes (some m) (some n) o) (sextet-symbol k hk)
    ∙ ap (λ x. some (x ∷ (n % 16 * 16 + k / 4) ∷ [])) ea
    ∙ ap (λ x. some (a ∷ x ∷ [])) eb

three_bytes_eq :
    (m n k l a b c : ℕ) (s : Text) (rest : Option Text)
    → m < 64
    → n < 64
    → k < 64
    → l < 64
    → m * 4 + n / 16 ≡ a
    → n % 16 * 16 + k / 4 ≡ b
    → k % 4 * 64 + l ≡ c
    → rest ≡ some s
    → three_bytes
        (sextet (symbol m))
        (sextet (symbol n))
        (sextet (symbol k))
        (sextet (symbol l))
        rest
      ≡ some (a ∷ b ∷ c ∷ s)
three_bytes_eq m n k l a b c s rest hm hn hk hl ea eb ec e =
    ap (λ o. three_bytes o (sextet (symbol n)) (sextet (symbol k)) (sextet (symbol l)) rest)
      (sextet-symbol m hm)
    ∙ ap (λ o. three_bytes (some m) o (sextet (symbol k)) (sextet (symbol l)) rest)
        (sextet-symbol n hn)
    ∙ ap (λ o. three_bytes (some m) (some n) o (sextet (symbol l)) rest) (sextet-symbol k hk)
    ∙ ap (λ o. three_bytes (some m) (some n) (some k) o rest) (sextet-symbol l hl)
    ∙ ap (λ r. three_bytes (some m) (some n) (some k) (some l) r) e
    ∙ ap (λ x. some (x ∷ (n % 16 * 16 + k / 4) ∷ (k % 4 * 64 + l) ∷ s)) ea
    ∙ ap (λ x. some (a ∷ x ∷ (k % 4 * 64 + l) ∷ s)) eb
    ∙ ap (λ x. some (a ∷ b ∷ x ∷ s)) ec

decode_groups-encode : (s : Text) → IsBytes s → decode_groups (base64_encode s) ≡ some s
unfolding decode_groups base64_encode
decode_groups-encode [] h = refl
decode_groups-encode (a ∷ []) (ha, h) =
    one_byte_eq (a / 4) (a % 4 * 16) a (omega arith) (omega arith) (omega arith)
decode_groups-encode (a ∷ b ∷ []) (ha, (hb, h)) =
    let padded = (symbol_plain (b % 16 * 4)).1 in
    ap
      (λ t.
        if t
        then one_byte (sextet (symbol (a / 4))) (sextet (symbol (a % 4 * 16 + b / 16)))
        else two_bytes (sextet (symbol (a / 4))) (sextet (symbol (a % 4 * 16 + b / 16)))
            (sextet (symbol (b % 16 * 4))))
      padded
    ∙ two_bytes_eq (a / 4) (a % 4 * 16 + b / 16) (b % 16 * 4) a b (omega arith) (omega arith)
        (omega arith) (omega arith) (omega arith)
decode_groups-encode (a ∷ b ∷ c ∷ s) (ha, (hb, (hc, h))) =
    let padded = (symbol_plain (c % 64)).1 in
    let rest = decode_groups-encode s h in
    ap
      (λ t.
        if t
        then last_group (symbol (a / 4)) (symbol (a % 4 * 16 + b / 16))
            (symbol (b % 16 * 4 + c / 64)) (base64_encode s)
        else three_bytes (sextet (symbol (a / 4))) (sextet (symbol (a % 4 * 16 + b / 16)))
            (sextet (symbol (b % 16 * 4 + c / 64))) (sextet (symbol (c % 64)))
            (decode_groups (base64_encode s)))
      padded
    ∙ three_bytes_eq (a / 4) (a % 4 * 16 + b / 16) (b % 16 * 4 + c / 64) (c % 64) a b c s
        (decode_groups (base64_encode s)) (omega arith) (omega arith) (omega arith) (omega arith)
        (omega arith) (omega arith) (omega arith) rest

pub base64_decode-encode : (s : Text) → IsBytes s → base64_decode (base64_encode s) ≡ some s
unfolding base64_decode
base64_decode-encode s h = ap decode_groups (without_newlines-encode s) ∙ decode_groups-encode s h
