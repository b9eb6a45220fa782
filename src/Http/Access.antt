-- ===== src/Http/Access.antt =====
-- Which requests carry the access token (internal/app/router.go).
use ctf_agent.Base.{
  ◌≡◌, ◌≢◌, ◌↔◌, ◌⊎◌, inl, inr, refl, sym, ◌∙◌, subst, Bool, true, false, not, ◌&&◌, ◌||◌, Option,
  none, some, List, [], ◌∷◌, length, ◌==◌, if◌then◌else◌, Bool-cases, arith, ==_refl,
}
use ctf_agent.Http.{
  Request, constant_time_string_equal, bearer_token, basic_password, matches,
  request_has_valid_access_token, allowed_origins, allow_origin, cors_headers,
}
use ctf_agent.Http.Schemes.{BearerOf, BasicOf, bearer_token_iff, basic_password_iff}
use ctf_agent.Map.{lookup}
use ctf_agent.Text.{Text, text_eq, text_eq_iff, text_eq_sound, text_eq_refl, is_empty, trim_space}
use ctf_agent.Text.Parse.{one_of}

is_empty_iff : (s : Text) → (is_empty s ≡ true) ↔ (s ≡ [])
is_empty_iff [] = (λ h. refl, λ h. refl)
is_empty_iff (c ∷ s) = (λ h. absurd (cc), λ h. absurd (cc))

-- The texts agree up to white space around them, and are not blank.
abbrev pub Agree : Text → Text → Type 0
Agree got want = (trim_space got ≡ trim_space want) × (trim_space want ≢ [])

same_text :
    (g w : Text)
    → (if not (length g == length w) then false else text_eq g w) ≡ true
    → text_eq g w ≡ true
same_text g w h = ground arith

agreeing : (g w : Text) → g ≡ w → (if not (length g == length w) then false else text_eq g w) ≡ true
agreeing g w e =
    subst (λ x. (if not (length g == length x) then false else text_eq g x) ≡ true) e
      (rw (==_refl (length g), text_eq_refl g) refl)

trimmed_agree :
    (g w : Text)
    → ((if is_empty g || is_empty w || not (length g == length w) then false else text_eq g w)
        ≡ true)
      ↔ ((g ≡ w) × (w ≢ []))
trimmed_agree [] w = (λ h. absurd (cc), λ h. absurd (h.1 (sym h.0)))
trimmed_agree (c ∷ g) [] = (λ h. absurd (cc), λ h. absurd (h.1 refl))
trimmed_agree (c ∷ g) (d ∷ w) = (
  λ h. (text_eq_sound (c ∷ g) (d ∷ w) (same_text (c ∷ g) (d ∷ w) h), λ e. absurd (cc)),
  λ h. agreeing (c ∷ g) (d ∷ w) h.0,
)

constant_time_string_equal_iff :
    (got want : Text) → (constant_time_string_equal got want ≡ true) ↔ Agree got want
unfolding constant_time_string_equal
constant_time_string_equal_iff got want = trimmed_agree (trim_space got) (trim_space want)

false_is_true : false ≡ true → ⊥
false_is_true h = absurd (cc)

any_of_three :
    {A B C : Type 0} (a b c : Bool)
    → (a ≡ true) ↔ A
    → (b ≡ true) ↔ B
    → (c ≡ true) ↔ C
    → ((a || b || c) ≡ true) ↔ (A ⊎ (B ⊎ C))
any_of_three true b c f g k = (λ h. inl (f.0 refl), λ h. refl)
any_of_three false true c f g k = (λ h. inr (inl (g.0 refl)), λ h. refl)
any_of_three false false c f g k = (
  λ h. inr (inr (k.0 h)),
  λ h. elim h [
    | inl x ↦ absurd (false_is_true (f.1 x))
    | inr (inl x) ↦ absurd (false_is_true (g.1 x))
    | inr (inr x) ↦ k.1 x
  ],
)

none_is_some : (o : Text) → none ≡ some o → ⊥
none_is_some o h = absurd (cc)

some_injective : {s t : Text} → some s ≡ some t → s ≡ t
some_injective h = cc

not_star :
    (origin entry : Text)
    → (is_empty entry || text_eq entry (b'*' ∷ [])) ≡ false
    → origin ≡ entry
    → origin ≢ b'*' ∷ []
not_star origin entry e same star =
    absurd
      (let star_entry = sym same ∙ star in let t = text_eq_iff entry (b'*' ∷ []) in ground arith)

-- A credential that `Holds` gives for the header agrees with the token.
abbrev pub Carries : (Text → Type 0) → Text → Type 0
Carries Holds token = (got : Text) × Holds got × Agree got token

matches_iff :
    (token : Text) (o : Option Text) (Holds : Text → Type 0)
    → ((got : Text) → (o ≡ some got) ↔ Holds got)
    → (matches token o ≡ true) ↔ Carries Holds token
unfolding matches
matches_iff token none Holds k =
    (λ h. absurd (false_is_true h), λ h. absurd (none_is_some h.0 ((k h.0).1 h.1)))
matches_iff token (some got) Holds k = (
  λ h. (got, (k got).0 refl, (constant_time_string_equal_iff got token).0 h),
  λ (other, held, agrees).
      let same = some_injective ((k other).1 held) in
      (constant_time_string_equal_iff got token).1 (subst (λ x. Agree x token) (sym same) agrees),
)

-- A request passes the test of its access token exactly when the token is not blank and agrees, up
-- to white space around both, with the header X-CTF-Agent-Token; or with what stands behind
-- "Bearer ", in any case, at the start of the trimmed header Authorization; or with the text behind
-- the first colon of what base64 makes of the text behind "Basic ", in any case, at the start of
-- that header.
pub request_has_valid_access_token_iff :
    (r : Request) (token : Text)
    → (request_has_valid_access_token r token ≡ true) ↔ (
        Agree r.token token
        ⊎ (Carries (BearerOf r.authorization) token ⊎ Carries (BasicOf r.authorization) token))
unfolding request_has_valid_access_token
request_has_valid_access_token_iff r token =
    any_of_three (constant_time_string_equal r.token token)
      (matches token (bearer_token r.authorization))
      (matches token (basic_password r.authorization))
      (constant_time_string_equal_iff r.token token)
      (matches_iff token (bearer_token r.authorization) (BearerOf r.authorization)
        (bearer_token_iff r.authorization))
      (matches_iff token (basic_password r.authorization) (BasicOf r.authorization)
        (basic_password_iff r.authorization))

-- The origins that may be allowed: trimmed entries of the list other than "" and "*".
pub data Allows (origin : Text) : List Text → Type 0 where
  here :
      (entry : Text) (rest : List Text) → trim_space entry ≡ origin → Allows origin (entry ∷ rest)
  later : (entry : Text) (rest : List Text) → Allows origin rest → Allows origin (entry ∷ rest)

one_of_allowed :
    (origin : Text) (origins : List Text)
    → one_of origin (allowed_origins origins) ≡ true
    → Allows origin origins × (origin ≢ b'*' ∷ [])
unfolding one_of allowed_origins
one_of_allowed origin [] h = absurd (false_is_true h)
one_of_allowed origin (entry ∷ rest) h =
    elim (Bool-cases (is_empty (trim_space entry) || text_eq (trim_space entry) (b'*' ∷ []))) [
      | inl e ↦
          let (allows, star) = one_of_allowed origin rest (rw (e, one_of, allowed_origins) at h) in
          (later entry rest allows, star)
      | inr e ↦ elim (Bool-cases (text_eq origin (trim_space entry))) [
        | inl f ↦
            let same = text_eq_sound origin (trim_space entry) f in
            (here entry rest (sym same), λ star. not_star origin (trim_space entry) e same star)
        | inr f ↦
            let (allows, star) =
              one_of_allowed origin rest (rw (e, f, one_of, allowed_origins) at h) in
            (later entry rest allows, star)
      ]
    ]

-- Whatever is configured and sent, the header Access-Control-Allow-Origin is set only to the
-- request's own origin, trimmed, and only if that is an entry of the allowed origins; it is never
-- "*".
pub cors_headers_allow :
    (origins : List Text) (r : Request) (o : Text)
    → lookup allow_origin (cors_headers origins r) ≡ some o
    → (o ≡ trim_space r.origin) × Allows o origins × (o ≢ b'*' ∷ [])
unfolding cors_headers lookup text_eq
cors_headers_allow origins r o h =
    elim (Bool-cases (
      not (is_empty (trim_space r.origin))
      && one_of (trim_space r.origin) (allowed_origins origins))) [
        | inr e ↦ absurd (none_is_some o (rw (e, cors_headers) at h))
        | inl e ↦
            let same : some (trim_space r.origin) ≡ some o = (rw (e, cors_headers) at h) in
            let own = some_injective same in
            let (allows, star) = one_of_allowed (trim_space r.origin) origins (ground arith) in
            (sym own, subst (λ x. Allows x origins) own allows, subst (λ x. x ≢ b'*' ∷ []) own star)
      ]
