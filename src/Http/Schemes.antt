-- ===== src/Http/Schemes.antt =====
-- What a header Authorization holds behind its scheme (internal/app/router.go).
use ctf_agent.Base.{
  ℕ, ◌+◌, ◌≡◌, ◌≢◌, ◌≤◌, ◌<◌, ◌↔◌, ◌⊎◌, inl, inr, refl, sym, subst, ap, ◌∙◌, true, false, ◌&&◌,
  &&-true, Option, none, some, [], ◌∷◌, ◌++◌, drop, get_or, All, length, ◌==◌, arith, Bool-cases,
  Option-cases,
}
use ctf_agent.Http.{bearer_token, basic_password, decoded_password, password_of, lower_ascii}
use ctf_agent.Text.{Text, utf8, lower, has_prefix, trim_space, Lacks}
use ctf_agent.Text.Base64.{base64_decode}
use ctf_agent.Text.Cut.{cut, lower_byte}

-- The byte is the small letter `c` or its capital; any other `c` it is itself.
abbrev pub CaseOf : ℕ → ℕ → Type 0
CaseOf c x = (x ≡ c) ⊎ ((b'A' ≤ x) × (x ≤ b'Z') × (x + 32 ≡ c))

-- The text spells the small letters of `p`, in any case.
abbrev pub Spells : Text → Text → Type 0
Spells [] s = s ≡ []
Spells (c ∷ p) [] = ⊥
Spells (c ∷ p) (x ∷ s) = CaseOf c x × Spells p s

-- The text is the scheme, in any case, and then `rest`.
abbrev pub Opens : Text → Text → Text → Type 0
Opens scheme s rest = (front : Text) × (s ≡ front ++ rest) × Spells scheme front

abbrev IsNoCapital : ℕ → Type 0
IsNoCapital c = (c < b'A') ⊎ (b'Z' < c)

-- No capital, and no letter that a letter outside ASCII has for its small one.
abbrev IsSmall : ℕ → Type 0
IsSmall c = (c < 128) × IsNoCapital c × (c ≢ b'i') × (c ≢ b'k')

lower_byte_iff : (c x : ℕ) → IsNoCapital c → (lower_byte x ≡ c) ↔ CaseOf c x
lower_byte_iff c x h = (λ e. ground arith, λ e. ground arith)

lower_plain : (x : ℕ) (s : Text) → x < 128 → lower (x ∷ s) ≡ lower_byte x ∷ lower s
unfolding lower
lower_plain x [] h = refl
lower_plain x (y ∷ s) h =
    let a : (x == 0xC4 && y == 0xB0) ≡ false = ground arith in
    let b : (x == 0xE2 && y == 0x84 && get_or s 0 0 == 0xAA) ≡ false = ground arith in
    rw (a, b, lower) refl

same_byte : (a b : ℕ) → (a == b) ≡ true → b ≡ a
same_byte a b h = ground arith

lower_opens :
    (c x : ℕ) (p s : Text)
    → IsSmall c
    → has_prefix (c ∷ p) (lower (x ∷ s)) ≡ true
    → (lower_byte x ≡ c) × (has_prefix p (lower s) ≡ true)
unfolding lower has_prefix
lower_opens c x p [] small h = ground arith
lower_opens c x p (y ∷ s) small h = elim (Bool-cases (x == 0xC4 && y == 0xB0)) [
  | inl a ↦ absurd (let k = (rw (a, lower, has_prefix) at h) in ground arith)
  | inr a ↦ elim (Bool-cases (x == 0xE2 && y == 0x84 && get_or s 0 0 == 0xAA)) [
    | inl b ↦ absurd (let k = (rw (a, b, lower, has_prefix) at h) in ground arith)
    | inr b ↦
        let (byte, more) =
          &&-true (c == lower_byte x) (has_prefix p (lower (y ∷ s)))
            (rw (a, b, lower, has_prefix) at h) in
        (same_byte c (lower_byte x) byte, more)
  ]
]

-- A scheme in front of the text in small letters is one in front of the text.
lower-Opens :
    (p s : Text) → All IsSmall p → has_prefix p (lower s) ≡ true → Opens p s (drop (length p) s)
unfolding has_prefix lower
lower-Opens [] s small h = ([], refl, refl)
lower-Opens (c ∷ p) [] small h = absurd (ground arith)
lower-Opens (c ∷ p) (x ∷ s) small h =
    let (byte, more) = lower_opens c x p s small.0 h in
    let (front, same, spells) = lower-Opens p s small.1 more in
    (x ∷ front, ap (λ r. x ∷ r) same, ((lower_byte_iff c x small.0.1).0 byte, spells))

small_ascii : (c x : ℕ) → IsSmall c → CaseOf c x → x < 128
small_ascii c x small e = ground arith

Opens-lower :
    (p front rest : Text)
    → All IsSmall p
    → Spells p front
    → (has_prefix p (lower (front ++ rest)) ≡ true) × (drop (length p) (front ++ rest) ≡ rest)
unfolding has_prefix
Opens-lower [] [] rest small e = (refl, refl)
Opens-lower [] (x ∷ front) rest small e = absurd (cc)
Opens-lower (c ∷ p) [] rest small e = absurd e
Opens-lower (c ∷ p) (x ∷ front) rest small e =
    let (more, left) = Opens-lower p front rest small.1 e.1 in
    let byte = (lower_byte_iff c x small.0.1).1 e.0 in
    (
      rw (lower_plain x (front ++ rest) (small_ascii c x small.0 e.0), has_prefix, byte, more)
          (ground arith),
      left,
    )

lower_ascii-Opens :
    (p s : Text)
    → All IsNoCapital p
    → has_prefix p (lower_ascii s) ≡ true
    → Opens p s (drop (length p) s)
unfolding has_prefix lower_ascii
lower_ascii-Opens [] s small h = ([], refl, refl)
lower_ascii-Opens (c ∷ p) [] small h = absurd (ground arith)
lower_ascii-Opens (c ∷ p) (x ∷ s) small h =
    let (byte, more) = &&-true (c == lower_byte x) (has_prefix p (lower_ascii s)) h in
    let (front, same, spells) = lower_ascii-Opens p s small.1 more in
    (x ∷ front, ap (λ r. x ∷ r) same, ((lower_byte_iff c x small.0).0 (ground arith), spells))

Opens-lower_ascii :
    (p front rest : Text)
    → All IsNoCapital p
    → Spells p front
    → (has_prefix p (lower_ascii (front ++ rest)) ≡ true) × (drop (length p) (front ++ rest) ≡ rest)
unfolding has_prefix lower_ascii
Opens-lower_ascii [] [] rest small e = (refl, refl)
Opens-lower_ascii [] (x ∷ front) rest small e = absurd (cc)
Opens-lower_ascii (c ∷ p) [] rest small e = absurd e
Opens-lower_ascii (c ∷ p) (x ∷ front) rest small e =
    let (more, left) = Opens-lower_ascii p front rest small.1 e.1 in
    let byte = (lower_byte_iff c x small.0).1 e.0 in (rw (byte, more) (ground arith), left)

some_same : {s t : Text} → some s ≡ some t → s ≡ t
some_same h = cc

bearer_scheme : All IsSmall (utf8 "bearer ")
unfolding utf8
bearer_scheme = ground arith

basic_scheme : All IsNoCapital (utf8 "basic ")
unfolding utf8
basic_scheme = ground arith

-- What the text behind a scheme is, as the code reads it.
abbrev pub BearerOf : Text → Text → Type 0
unfolding utf8
BearerOf authorization got =
    (rest : Text) × Opens (utf8 "bearer ") (trim_space authorization) rest × (got ≡ trim_space rest)

pub bearer_token_iff :
    (authorization got : Text)
    → (bearer_token authorization ≡ some got) ↔ BearerOf authorization got
unfolding bearer_token
bearer_token_iff authorization got =
    let auth = trim_space authorization in
    (
      λ h. elim (Bool-cases (has_prefix (utf8 "bearer ") (lower auth))) [
        | inl e ↦ (
          drop 7 auth,
          lower-Opens (utf8 "bearer ") auth bearer_scheme e,
          some_same (sym (rw (e, bearer_token) at h)),
        )
        | inr e ↦ absurd (let k = (rw (e, bearer_token) at h) in cc)
      ],
      λ (rest, (front, same, spells), e).
          let (found, left) = Opens-lower (utf8 "bearer ") front rest bearer_scheme spells in
          let found' = ap (λ s. has_prefix (utf8 "bearer ") (lower s)) same ∙ found in
          let left' = ap (drop 7) same ∙ left in rw (found', left', e) refl,
    )

-- The header is that of basic authentication with this password.
abbrev pub BasicOf : Text → Text → Type 0
unfolding utf8
BasicOf authorization password =
    (code : Text) × (name : Text) × Opens (utf8 "basic ") authorization code
    × (base64_decode code ≡ some (name ++ b':' ∷ password))
    × Lacks b':' name

cut_sound : (sep : ℕ) (s a b : Text) → cut sep s ≡ some (a, b) → (s ≡ a ++ sep ∷ b) × Lacks sep a
unfolding cut
cut_sound sep [] a b h = absurd (cc)
cut_sound sep (c ∷ s) a b h = elim (Bool-cases (c == sep)) [
  | inl e ↦
      let k : some ([], s) ≡ some (a, b) = (rw (e, cut) at h) in
      let first : [] ≡ a = cc in
      let second : s ≡ b = cc in
      let same : c ≡ sep = ground arith in
      subst (λ x. (c ∷ s ≡ x ++ sep ∷ b) × Lacks sep x) first
        (ap (λ x. x ∷ s) same ∙ ap (λ x. sep ∷ x) second, tt)
  | inr e ↦ elim (Option-cases (cut sep s)) [
    | inl none_left ↦ absurd (let k = (rw (e, none_left, cut) at h) in cc)
    | inr ((x, y), found) ↦
        let k : some (c ∷ x, y) ≡ some (a, b) = (rw (e, found, cut) at h) in
        let first : c ∷ x ≡ a = cc in
        let second : y ≡ b = cc in
        let (same, lacks) = cut_sound sep s x y found in
        let differs : c ≢ sep = λ i. absurd (ground arith) in
        subst (λ z. (c ∷ s ≡ z ++ sep ∷ b) × Lacks sep z) first
          (ap (λ z. c ∷ z) (same ∙ ap (λ z. x ++ sep ∷ z) second), (differs, lacks))
  ]
]

pub cut_first : (sep : ℕ) (s t : Text) → Lacks sep s → cut sep (s ++ sep ∷ t) ≡ some (s, t)
unfolding cut
cut_first sep [] t h = ground arith
cut_first sep (c ∷ s) t h =
    let ih = cut_first sep s t h.1 in
    let other = h.0 in let differs : c == sep ≡ false = ground arith in rw (cut, differs, ih) refl

password_of_sound :
    (o : Option (Text × Text)) (password : Text)
    → password_of o ≡ some password
    → (name : Text) × (o ≡ some (name, password))
password_of_sound none password h = absurd (cc)
password_of_sound (some (name, p)) password h = (name, ap (λ x. some (name, x)) (some_same h))

decoded_password_sound :
    (o : Option Text) (password : Text)
    → decoded_password o ≡ some password
    → (name : Text) × (o ≡ some (name ++ b':' ∷ password)) × Lacks b':' name
unfolding decoded_password
decoded_password_sound none password h = absurd (cc)
decoded_password_sound (some s) password h =
    let (name, found) = password_of_sound (cut b':' s) password h in
    let (same, lacks) = cut_sound b':' s name password found in (name, ap (λ x. some x) same, lacks)

pub basic_password_iff :
    (authorization password : Text)
    → (basic_password authorization ≡ some password) ↔ BasicOf authorization password
unfolding basic_password decoded_password
basic_password_iff authorization password = (
  λ h. elim (Bool-cases (has_prefix (utf8 "basic ") (lower_ascii authorization))) [
    | inl e ↦
        let code = drop 6 authorization in
        let (name, decoded, lacks) =
          decoded_password_sound (base64_decode code) password (rw (e, basic_password) at h) in
        (code, name, lower_ascii-Opens (utf8 "basic ") authorization basic_scheme e, decoded, lacks)
    | inr e ↦ absurd (let k = (rw (e, basic_password) at h) in cc)
  ],
  λ (code, name, (front, same, spells), decoded, lacks).
      let (found, left) = Opens-lower_ascii (utf8 "basic ") front code basic_scheme spells in
      let found' = ap (λ s. has_prefix (utf8 "basic ") (lower_ascii s)) same ∙ found in
      let left' = ap (drop 6) same ∙ left in
      let cut' = cut_first b':' name password lacks in
      rw (found', basic_password)
        (ap (λ c. decoded_password (base64_decode c)) left'
          ∙ ap decoded_password decoded
          ∙ ap password_of cut'),
)
