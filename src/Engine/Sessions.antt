-- ===== src/Engine/Sessions.antt =====
-- The tokens of the store over a history of requests.
use nginx_front_back_end_dem.Prelude.{
  ℕ, ◌≡◌, refl, inl, inr, Option, none, some, List, [], ◌∷◌, Text, arith, lookup, ap, Option-cases,
  Bool-cases, lookup-insert, lookup-erase, text_eq, text_beq, codes, empty, if◌then◌else◌, get_or,
  subst,
}
use nginx_front_back_end_dem.Role.{Role}
use nginx_front_back_end_dem.World.{World}
use nginx_front_back_end_dem.Auth.{AuthProvider}
use nginx_front_back_end_dem.Http.{Request, Response, RequestContext}
use nginx_front_back_end_dem.Json.{Glaze}
use nginx_front_back_end_dem.Tokens.{TokenStore, TokenEntry, default_ttl, new_entry, issue, revoke}
use nginx_front_back_end_dem.Cookies.{extract_cookie, validated_token}
use nginx_front_back_end_dem.Cookies.Laws.{validated_token-lookup}
use nginx_front_back_end_dem.Router.Gate.{dispatch_inv}
use nginx_front_back_end_dem.AuthHandler.{
  start_session, authenticated, handle_login, revoke_cookie, handle_logout,
}
use nginx_front_back_end_dem.Engine.{Handler, login, logout, app, Engine, run_handler, serve}

-- Every stored token stands for a user and a role of which `Q` holds.
abbrev pub Holds : (Text → Role → Type 0) → TokenStore → Type 0
Holds Q tokens =
    (token : Text) (entry : TokenEntry)
    → lookup token tokens.store ≡ some entry
    → Q entry.username entry.role

lookup-issue :
    (w : World) (username token other : Text) (role : Role) (ttl : ℕ) (tokens tokens' : TokenStore)
    → issue w username role ttl tokens ≡ some (token, tokens')
    → lookup other tokens'.store ≡ (
        if text_beq token other
        then some (new_entry w username role ttl)
        else lookup other tokens.store)
unfolding issue
lookup-issue w username token other role ttl tokens tokens' e =
    ground (arith, lookup-insert token other (new_entry w username role ttl) tokens.store)

module _ (Q : Text → Role → Type 0) where
  issue-Holds :
      (w : World) (username token : Text) (role : Role) (ttl : ℕ) (tokens tokens' : TokenStore)
      → Q username role
      → Holds Q tokens
      → issue w username role ttl tokens ≡ some (token, tokens')
      → Holds Q tokens'
  issue-Holds w username token role ttl tokens tokens' q h e other entry found =
      let at = lookup-issue w username token other role ttl tokens tokens' e in
      elim (Bool-cases (text_beq token other)) [
        | inl same ↦
            let is_new : new_entry w username role ttl ≡ entry = ground arith in
            subst (λ (x : TokenEntry). Q x.username x.role) is_new q
        | inr differs ↦ h other entry (ground arith)
      ]

  revoke-Holds :
      (token : Text) (tokens : TokenStore) → Holds Q tokens → Holds Q (revoke token tokens)
  unfolding revoke
  revoke-Holds token tokens h other entry found =
      h other entry (ground (arith, lookup-erase token other tokens.store))

  revoke_cookie-Holds :
      (cookie : Option Text) (tokens : TokenStore)
      → Holds Q tokens
      → Holds Q (revoke_cookie cookie tokens)
  unfolding revoke_cookie
  revoke_cookie-Holds none tokens h = h
  revoke_cookie-Holds (some header) tokens h =
      let token = extract_cookie header (codes "session") in
      elim (Bool-cases (empty token)) [
        | inl absent ↦ rw (absent, revoke_cookie) h
        | inr present ↦ rw (present, revoke_cookie) (revoke-Holds token tokens h)
      ]

-- The provider, in some state and for some password, accepts the user with this role.
abbrev pub Accepted : {P : Type 0} → AuthProvider P → Text → Role → Type 0
Accepted {P} provider username role =
    (p : P) × (password : Text) × ((provider.authenticate p username password).0 ≡ some (some role))

module _ (glz : Glaze) {P : Type 0} (provider : AuthProvider P) where
  pub start_session-Holds :
      (w : World) (username : Text) (role : Role) (tokens : TokenStore)
      → Accepted provider username role
      → Holds (Accepted provider) tokens
      → Holds (Accepted provider) (start_session glz w username role tokens).1
  unfolding start_session
  start_session-Holds w username role tokens q h =
      elim (Option-cases (issue w username role default_ttl tokens)) [
        | inl failed ↦ rw (failed, start_session) h
        | inr ((token, tokens'), made) ↦
            rw (made, start_session)
              (issue-Holds (Accepted provider) w username token role default_ttl tokens tokens' q h
                made)
      ]

  authenticated-Holds :
      (w : World) (username password : Text) (p : P) (tokens : TokenStore)
      (answer : Option (Option Role) × P)
      → provider.authenticate p username password ≡ answer
      → Holds (Accepted provider) tokens
      → Holds (Accepted provider) (authenticated glz w username tokens answer).2
  unfolding authenticated
  authenticated-Holds w username password p tokens (none, p') e h = h
  authenticated-Holds w username password p tokens (some none, p') e h = h
  authenticated-Holds w username password p tokens (some (some role), p') e h =
      start_session-Holds w username role tokens (p, password, ap (λ a. a.0) e) h

  handle_login-Holds :
      (w : World) (req : Request) (p : P) (tokens : TokenStore)
      → Holds (Accepted provider) tokens
      → Holds (Accepted provider) (handle_login glz provider w req p tokens).2
  unfolding handle_login
  handle_login-Holds w req p tokens h =
      let body = (glz.read_login req.body).value in
      let username = get_or body.username [] in
      let password = get_or body.password [] in
      elim (Bool-cases (empty username)) [
        | inl nameless ↦ rw (nameless, handle_login) h
        | inr named ↦
            rw (named, handle_login) (authenticated-Holds w username password p tokens _ refl h)
      ]

module _ {P C : Type 0} (glz : Glaze) (provider : AuthProvider P)
    (run_app : World → C → RequestContext → Engine P C → Option Response × Engine P C)
    (keeps_tokens : (w : World) (c : C) (ctx : RequestContext) (e : Engine P C)
      → (run_app w c ctx e).1.tokens ≡ e.tokens) where
  abbrev Genuine : Engine P C → Type 0
  Genuine e = Holds (Accepted provider) e.tokens

  pub run_handler-Genuine :
      (w : World) (handler : Handler C) (ctx : RequestContext) (e : Engine P C)
      → Genuine e
      → Genuine (run_handler glz provider run_app w handler ctx e).1
  unfolding run_handler handle_logout
  run_handler-Genuine w login ctx e h =
      handle_login-Holds glz provider w ctx.request e.auth e.tokens h
  run_handler-Genuine w logout ctx e h =
      revoke_cookie-Holds (Accepted provider) ctx.request.cookie e.tokens h
  run_handler-Genuine w (app c) ctx e h = rw (keeps_tokens w c ctx e) h
  run_handler-Genuine w _ ctx e h = h

  serve-Genuine :
      (w : World) (req : Request) (e : Engine P C)
      → Genuine e
      → Genuine (serve glz provider run_app w req e).1
  unfolding serve
  serve-Genuine w req e h =
      dispatch_inv glz (λ (e : Engine P C). e.router) (λ e. e.tokens)
        (run_handler glz provider run_app) Genuine run_handler-Genuine w req e h

  -- The engine after a history of requests, each in the world that it met.
  abbrev pub serve_all : List (World × Request) → Engine P C → Engine P C
  serve_all [] e = e
  serve_all ((w, req) ∷ rest) e = serve_all rest (serve glz provider run_app w req e).1

  serve_all-Genuine :
      (history : List (World × Request)) (e : Engine P C)
      → Genuine e
      → Genuine (serve_all history e)
  serve_all-Genuine [] e h = h
  serve_all-Genuine ((w, req) ∷ rest) e h = serve_all-Genuine rest _ (serve-Genuine w req e h)

  -- On an engine that starts without tokens, whatever it is configured to serve and whatever requests
  -- it gets, a request is taken for a user with a role only if the provider accepts that user with
  -- that role, for some password and in some state of its own. The application's handlers are asked
  -- to leave the tokens alone, which the library does not hand to them.
  pub session-Accepted :
      (e : Engine P C) (history : List (World × Request)) (w : World) (req : Request)
      (entry : TokenEntry)
      → e.tokens.store ≡ []
      → validated_token w req (serve_all history e).tokens ≡ some entry
      → Accepted provider entry.username entry.role
  unfolding lookup
  session-Accepted e history w req entry fresh valid =
      let (token, found) = validated_token-lookup w req (serve_all history e).tokens entry valid in
      serve_all-Genuine history e (rw (fresh, Genuine) (λ t x f. cc)) token entry found
