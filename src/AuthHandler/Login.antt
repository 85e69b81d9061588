-- ===== src/AuthHandler/Login.antt =====
-- Logging in: `AuthHandler::handle_login`, and the session that its cookie stands for.
use nginx_front_back_end_dem.Prelude.{
  ℕ, ◌+◌, ◌≡◌, ◌≢◌, refl, sym, ap, ◌∙◌, Option, none, some, List, [], ◌++◌, Text, codes, All,
  All-append, arith, empty, length, leb, get_or, text_beq_iff, if◌then◌else◌, Option-cases,
  Bool-cases, inl, inr, append-nil,
}
use nginx_front_back_end_dem.Role.{Role}
use nginx_front_back_end_dem.World.{World}
use nginx_front_back_end_dem.Auth.{AuthProvider}
use nginx_front_back_end_dem.Http.{Request, Response, json}
use nginx_front_back_end_dem.Json.{Glaze, error_json, ok_json}
use nginx_front_back_end_dem.Hex.{to_hex}
use nginx_front_back_end_dem.Hex.Laws.{IsByte, IsPlain, to_hex-IsPlain, length-to_hex}
use nginx_front_back_end_dem.Tokens.{
  TokenStore, token_bytes, default_ttl, ticks, new_entry, issue, validate,
}
use nginx_front_back_end_dem.Tokens.Laws.{validate-issue}
use nginx_front_back_end_dem.Cookies.{until_semicolon, validated_token}
use nginx_front_back_end_dem.Cookies.Laws.{until_semicolon-plain, validated_token-session}
use nginx_front_back_end_dem.AuthHandler.{
  session_cookie, logged_in, invalid_credentials, start_session, authenticated, handle_login,
}

module _ (glz : Glaze) {P : Type 0} (provider : AuthProvider P) where
  -- What a login that sets a cookie has done.
  pub record IsLogin (w : World) (req : Request) (p : P) (tokens tokens' : TokenStore)
      (cookie : Text) : Type 0 where
    pub username : Text
    pub password : Text
    pub role : Role
    pub token : Text
    pub named : username ≢ []
    pub read_username : get_or (glz.read_login req.body).value.username [] ≡ username
    pub read_password : get_or (glz.read_login req.body).value.password [] ≡ password
    pub accepted : (provider.authenticate p username password).0 ≡ some (some role)
    pub issued : issue w username role default_ttl tokens ≡ some (token, tokens')
    pub cookie_set : cookie ≡ session_cookie token

  start_session-cookie :
      (w : World) (username : Text) (role : Role) (tokens tokens' : TokenStore) (res : Response)
      (cookie : Text)
      → start_session glz w username role tokens ≡ (some res, tokens')
      → res.set_cookie ≡ some cookie
      → (token : Text) × (issue w username role default_ttl tokens ≡ some (token, tokens'))
        × (cookie ≡ session_cookie token)
  unfolding start_session logged_in
  start_session-cookie w username role tokens tokens' res cookie e c =
      elim (Option-cases (issue w username role default_ttl tokens)) [
        | inl failed ↦ absurd (ground arith)
        | inr ((token, issued), ok) ↦ (token, ground arith, ground arith)
      ]

  invalid_credentials-set_cookie : (invalid_credentials glz).set_cookie ≡ none
  unfolding invalid_credentials error_json json
  invalid_credentials-set_cookie = refl

  authenticated-cookie :
      (w : World) (username : Text) (tokens tokens' : TokenStore)
      (answer : Option (Option Role) × P) (p' : P) (res : Response) (cookie : Text)
      → authenticated glz w username tokens answer ≡ (some res, p', tokens')
      → res.set_cookie ≡ some cookie
      → (role : Role) × (answer.0 ≡ some (some role))
        × (token : Text) × (issue w username role default_ttl tokens ≡ some (token, tokens'))
        × (cookie ≡ session_cookie token)
  unfolding authenticated
  authenticated-cookie w username tokens tokens' (none, p) p' res cookie e c = absurd (ground arith)
  authenticated-cookie w username tokens tokens' (some none, p) p' res cookie e c =
      absurd (ground (arith, invalid_credentials-set_cookie))
  authenticated-cookie w username tokens tokens' (some (some role), p) p' res cookie e c =
      let (token, issued, same) =
        start_session-cookie w username role tokens tokens' res cookie (ground arith) c in
      (role, refl, token, issued, same)

  -- A cookie is set only for a name and password that the provider accepts.
  handle_login-IsLogin :
      (w : World) (req : Request) (p p' : P) (tokens tokens' : TokenStore) (res : Response)
      (cookie : Text)
      → handle_login glz provider w req p tokens ≡ (some res, p', tokens')
      → res.set_cookie ≡ some cookie
      → IsLogin w req p tokens tokens' cookie
  unfolding handle_login
  handle_login-IsLogin w req p p' tokens tokens' res cookie e c =
      let body = (glz.read_login req.body).value in
      let username = get_or body.username [] in
      let password = get_or body.password [] in
      elim (Bool-cases (empty username)) [
        | inl nameless ↦ absurd (ground (arith, invalid_credentials-set_cookie))
        | inr named ↦
            let (role, accepted, token, issued, same) =
              authenticated-cookie w username tokens tokens'
                (provider.authenticate p username password) p' res cookie (ground arith) c in
            record {
              username = username;
              password = password;
              role = role;
              token = token;
              named = ground arith;
              read_username = refl;
              read_password = refl;
              accepted = accepted;
              issued = issued;
              cookie_set = same;
            }
      ]

  abbrev SetsNone : Option Response → Type 0
  SetsNone r = (res : Response) → r ≡ some res → res.set_cookie ≡ none

  start_session-no_cookie :
      (w : World) (username : Text) (role : Role) (tokens tokens' : TokenStore)
      (r : Option Response)
      → start_session glz w username role tokens ≡ (r, tokens')
      → SetsNone r
      → tokens' ≡ tokens
  unfolding start_session logged_in
  start_session-no_cookie w username role tokens tokens' r e quiet =
      elim (Option-cases (issue w username role default_ttl tokens)) [
        | inl failed ↦ ground arith
        | inr ((token, issued), made) ↦
            ground (arith, quiet (record ok_json { set_cookie = some (session_cookie token) }))
      ]

  authenticated-no_cookie :
      (w : World) (username : Text) (tokens tokens' : TokenStore)
      (answer : Option (Option Role) × P) (p' : P) (r : Option Response)
      → authenticated glz w username tokens answer ≡ (r, p', tokens')
      → SetsNone r
      → tokens' ≡ tokens
  unfolding authenticated
  authenticated-no_cookie w username tokens tokens' (none, p) p' r e quiet = ground arith
  authenticated-no_cookie w username tokens tokens' (some none, p) p' r e quiet = ground arith
  authenticated-no_cookie w username tokens tokens' (some (some role), p) p' r e quiet =
      start_session-no_cookie w username role tokens tokens' r (ground arith) quiet

  -- Where no cookie is set, by a refusal or an exception, no session is made.
  handle_login-no_cookie :
      (w : World) (req : Request) (p p' : P) (tokens tokens' : TokenStore) (r : Option Response)
      → handle_login glz provider w req p tokens ≡ (r, p', tokens')
      → ((res : Response) → r ≡ some res → res.set_cookie ≡ none)
      → tokens' ≡ tokens
  unfolding handle_login
  handle_login-no_cookie w req p p' tokens tokens' r e quiet =
      let body = (glz.read_login req.body).value in
      let username = get_or body.username [] in
      let answer = provider.authenticate p username (get_or body.password []) in
      elim (Bool-cases (empty username)) [
        | inl nameless ↦ ground arith
        | inr named ↦
            authenticated-no_cookie w username tokens tokens' answer p' r (ground arith) quiet
      ]

IsPlain-session : All IsPlain (codes "session=")
IsPlain-session = omega arith

-- What a client sends back of a Set-Cookie header: its first `name=value`.
abbrev pub cookie_pair : Text → Text
cookie_pair = until_semicolon

cookie_pair-session_cookie :
    (token : Text)
    → All IsPlain token
    → cookie_pair (session_cookie token) ≡ codes "session=" ++ (token ++ [])
unfolding session_cookie
cookie_pair-session_cookie token h = rw (append-nil token) (
    until_semicolon-plain (codes "session=" ++ token) (codes "; HttpOnly; SameSite=Strict; Path=/")
      (All-append IsPlain (codes "session=") token IsPlain-session h) (inr (_, refl)))

issue-token :
    (w : World) (username token : Text) (role : Role) (ttl : ℕ) (tokens tokens' : TokenStore)
    (buf : List ℕ)
    → w.rand_bytes token_bytes ≡ some buf
    → issue w username role ttl tokens ≡ some (token, tokens')
    → token ≡ to_hex buf
unfolding issue
issue-token w username token role ttl tokens tokens' buf drawn e = ground arith

-- Suppose that `RAND_bytes` fills the buffer with bytes. A login that sets a cookie was one with a
-- name and password that the provider accepts, and a later request whose Cookie header is the pair
-- that the cookie sets is taken for that user, with that role, up to eight hours after the login,
-- and for no session later than that.
pub handle_login-session :
    (glz : Glaze) {P : Type 0} (provider : AuthProvider P) (w later : World) (req next : Request)
    (p p' : P) (tokens tokens' : TokenStore) (res : Response) (cookie : Text) (buf : List ℕ)
    → w.rand_bytes token_bytes ≡ some buf
    → length buf ≡ token_bytes
    → All IsByte buf
    → handle_login glz provider w req p tokens ≡ (some res, p', tokens')
    → res.set_cookie ≡ some cookie
    → next.cookie ≡ some (cookie_pair cookie)
    → (login : IsLogin glz provider w req p tokens tokens' cookie) × (validated_token later next
          tokens'
        ≡ (if leb later.now (w.now + ticks default_ttl)
            then some (new_entry w login.username login.role default_ttl)
            else none))
handle_login-session glz provider w later req next p p' tokens tokens' res cookie buf drawn full
      bytes e c sent =
    (login, taken ∙ valid)
  where
    login : IsLogin glz provider w req p tokens tokens' cookie
    login = handle_login-IsLogin glz provider w req p p' tokens tokens' res cookie e c

    open login use {username, role, token, issued, cookie_set}

    is_hex : token ≡ to_hex buf
    is_hex = issue-token w username token role default_ttl tokens tokens' buf drawn issued

    plain : All IsPlain token
    plain = rw is_hex (to_hex-IsPlain buf bytes)

    not_empty : token ≢ []
    not_empty none_left =
        omega (arith, length-to_hex buf, ap (length {A = ℕ}) (sym is_hex ∙ none_left))

    taken : validated_token later next tokens' ≡ validate later token tokens'
    taken =
        validated_token-session later next tokens' [] token []
          (sent
            ∙ ap (λ c. some (cookie_pair c)) cookie_set
            ∙ ap some (cookie_pair-session_cookie token plain))
          not_empty tt plain (inl refl)

    valid : validate later token tokens' ≡ (
        if leb later.now (w.now + ticks default_ttl)
        then some (new_entry w username role default_ttl)
        else none)
    valid = ground (
      arith,
      validate-issue w later username token token role default_ttl tokens tokens' issued,
      text_beq_iff token token,
    )
