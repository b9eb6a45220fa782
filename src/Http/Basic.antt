-- ===== src/Http/Basic.antt =====
-- Basic authentication with the access token for a password (internal/app/router.go).
use ctf_agent.Base.{
  ◌<◌, ◌≡◌, ◌≢◌, refl, ap, ◌∙◌, inr, true, false, some, [], ◌∷◌, ◌++◌, arith, All-append,
}
use ctf_agent.Http.{
  Request, basic_password, decoded_password, password_of, request_has_valid_access_token,
}
use ctf_agent.Http.Access.{request_has_valid_access_token_iff}
use ctf_agent.Http.Schemes.{cut_first, basic_password_iff}
use ctf_agent.Text.{Text, utf8, is_empty, is_blank, trim_space, Lacks}
use ctf_agent.Text.Base64.{base64_encode, base64_decode-encode, IsBytes}

-- The header that a client sends for a name and a password.
unfoldable pub basic_header : Text → Text → Text
unfolding utf8
basic_header username password = utf8 "Basic " ++ base64_encode (username ++ b':' ∷ password)

basic_password-basic_header :
    (username password : Text)
    → IsBytes username
    → IsBytes password
    → Lacks b':' username
    → basic_password (basic_header username password) ≡ some password
unfolding basic_password basic_header decoded_password
basic_password-basic_header username password hu hp colon =
    let bytes = All-append (λ c. c < 256) username (b':' ∷ password) hu (omega arith, hp) in
    ap decoded_password (base64_decode-encode (username ++ b':' ∷ password) bytes)
    ∙ ap password_of (cut_first b':' username password colon)

not_blank : (s : Text) → is_blank s ≡ false → trim_space s ≢ []
unfolding is_blank
not_blank s h e = absurd (let b = ap is_empty e in cc)

-- A request whose header Authorization is that of basic authentication, with any name without a
-- colon and with the access token for the password, passes the test of the token; the token is not
-- blank, and name and token are bytes.
pub basic_authentication_admitted :
    (r : Request) (username token : Text)
    → IsBytes username
    → IsBytes token
    → Lacks b':' username
    → is_blank token ≡ false
    → r.authorization ≡ basic_header username token
    → request_has_valid_access_token r token ≡ true
basic_authentication_admitted r username token hu ht colon blank header =
    let password = basic_password-basic_header username token hu ht colon in
    let found = ap basic_password header ∙ password in
    (request_has_valid_access_token_iff r token).1 (
      inr (
        inr (
          token,
          (basic_password_iff r.authorization token).0 found,
          (refl, not_blank token blank),
        )))
