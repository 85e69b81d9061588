-- ===== src/Tests/Sessions.antt =====
-- Runs of a whole engine: logins, sessions, gated routes and gated files.
use nginx_front_back_end_dem.Prelude.{
  trim_front, trim_back, find, ◌≡◌, refl, ap, ◌∙◌, lookup, Option, none, some, [], ◌∷◌, ◌++◌, Text,
  codes, arith, text_beq, insert, find_char,
}
use nginx_front_back_end_dem.Role.{user, admin, role_satisfies}
use nginx_front_back_end_dem.Auth.{AuthProvider, read_only}
use nginx_front_back_end_dem.Admin.{username_arg}
use nginx_front_back_end_dem.Http.{Verb, verb_beq, Status, Request, Response}
use nginx_front_back_end_dem.Tokens.{
  TokenStore, TokenEntry, new_entry, default_ttl, validate, issue,
}
use nginx_front_back_end_dem.Hex.{to_hex}
use nginx_front_back_end_dem.Cookies.{
  until_semicolon, extract_cookie, extract_token, validated_token,
}
use nginx_front_back_end_dem.Router.{dispatch, find_route, path_of, gate, call, admit, contain}
use nginx_front_back_end_dem.Router.Gate.{HasSession}
use nginx_front_back_end_dem.AuthHandler.{
  logged_in, authenticated, start_session, handle_login, handle_logout, session_cookie,
  expired_cookie,
}
use nginx_front_back_end_dem.AuthHandler.Login.{IsLogin, handle_login-session}
use nginx_front_back_end_dem.AuthHandler.Logout.{handle_logout_lem}
use nginx_front_back_end_dem.TestAuth.{TestAuth, authenticate, test_auth_provider}
use nginx_front_back_end_dem.Engine.{login, users_get, users_delete, Engine, run_handler, serve}
use nginx_front_back_end_dem.Engine.Sessions.{Accepted, session-Accepted}
use nginx_front_back_end_dem.Engine.Stale.{users_delete-HasSession}
use nginx_front_back_end_dem.Tests.{
  world_at, copies, copies-IsByte, glaze, ann_only, request, toy_crypto, run_page,
}

abbrev pub token : Text
token = to_hex (copies 32 171)

abbrev pub ann : TokenEntry
ann = new_entry (world_at 0) (codes "ann") user default_ttl

abbrev pub after_login : TokenStore
after_login = record { store = (token, ann) ∷ [] }

abbrev pub no_tokens : TokenStore
no_tokens = record { store = [] }

abbrev pub engine_with : {P : Type 0} → P → TokenStore → Engine P Text
engine_with auth tokens = record {
  auth = auth;
  tokens = tokens;
  acl = record { entries = [] };
  router = record {
    routes =
        ((Verb.post, codes "/api/login"), record { handler = login; min_role = none })
        ∷ ((Verb.get, codes "/api/users"), record { handler = users_get; min_role = some user })
        ∷ ((Verb.get, codes "/api/roles"), record { handler = users_get; min_role = some admin })
        ∷ [];
    prefix_routes = [];
  };
  socket_path = codes "/tmp/backend.sock";
  num_threads = 0;
}

abbrev pub login_request : Request
login_request = request Verb.post (codes "/api/login") none

abbrev pub with_session : Text → Request
with_session target = request Verb.get target (some (codes "session=" ++ token))

pub ann_valid :
    (target : Text) → validated_token (world_at 5) (with_session target) after_login ≡ some ann
unfolding validated_token extract_token extract_cookie find trim_back trim_front find_char to_hex
    validate lookup text_beq
ann_valid target = refl

ann_is_user : (target : Text) → HasSession (world_at 5) (with_session target) after_login user
unfolding role_satisfies
ann_is_user target = record { entry = ann; validated = ann_valid target; satisfied = refl }

pub ann_is_no_admin :
    (target : Text) → ¬ HasSession (world_at 5) (with_session target) after_login admin
unfolding role_satisfies
ann_is_no_admin target held = ground (arith, held.validated, held.satisfied, ann_valid target)

logs_in :
    handle_login glaze ann_only (world_at 0) login_request tt no_tokens
    ≡ (some (logged_in token), tt, after_login)
unfolding handle_login read_only text_beq issue insert
logs_in = refl

after_serve :
    (serve glaze ann_only run_page (world_at 0) login_request (engine_with tt no_tokens)).1
    ≡ engine_with tt after_login
unfolding serve dispatch find_route verb_beq text_beq path_of gate call admit run_handler contain
    handle_login authenticated start_session issue read_only insert to_hex find_char lookup
after_serve = refl

session-Accepted_example : Accepted ann_only (codes "ann") user
session-Accepted_example =
    session-Accepted glaze ann_only run_page (λ w c ctx e. refl) (engine_with tt no_tokens)
      ((world_at 0, login_request) ∷ []) (world_at 5) (with_session (codes "/")) ann refl
      (ap (λ (e : Engine _ _). validated_token (world_at 5) (with_session (codes "/")) e.tokens)
          after_serve
        ∙ ann_valid (codes "/"))

handle_login-session_example :
    (done : IsLogin glaze ann_only
      (world_at 0)
      login_request
      tt
      no_tokens
      after_login
      (session_cookie token))
    × (validated_token (world_at 5) (with_session (codes "/")) after_login
        ≡ some (new_entry (world_at 0) done.username done.role default_ttl))
unfolding logged_in until_semicolon find_char session_cookie to_hex
handle_login-session_example =
    handle_login-session glaze ann_only (world_at 0) (world_at 5) login_request
      (with_session (codes "/")) tt tt no_tokens after_login (logged_in token)
      (session_cookie token) (copies 32 171) refl refl (copies-IsByte 32 171 (omega arith)) logs_in
      refl refl

-- A login that the provider refuses.
abbrev stranger : AuthProvider Unit
stranger = read_only λ p name password. (some none, p)

abbrev cookie_of : Option Response → Option Text
cookie_of none = none
cookie_of (some res) = res.set_cookie

abbrev ann_request : Request
ann_request = with_session (codes "/")

handle_logout_example :
    let (res, tokens') = handle_logout ann_request after_login in
    ((res.status ≡ Status.ok) × (res.set_cookie ≡ some expired_cookie))
    × (validate (world_at 5) token tokens' ≡ none)
    × (validated_token (world_at 5) ann_request tokens' ≡ none)
unfolding text_beq extract_cookie find trim_back trim_front find_char to_hex
handle_logout_example = handle_logout_lem (world_at 5) ann_request after_login token

abbrev no_accounts : TestAuth
no_accounts = record { users = [] }

users_delete-HasSession_example :
    let (res, after) =
      run_handler glaze
        (test_auth_provider toy_crypto)
        run_page
        (world_at 4)
        users_delete
        (record { request = login_request; caller = none })
        (engine_with no_accounts after_login) in
    (authenticate toy_crypto after.auth (codes "ann") (codes "pw") ≡ none)
    × HasSession (world_at 5) (with_session (codes "/")) after.tokens user
unfolding username_arg
users_delete-HasSession_example =
    users_delete-HasSession glaze toy_crypto run_page (world_at 4) (world_at 5)
      (record { request = login_request; caller = none }) (with_session (codes "/"))
      (engine_with no_accounts after_login) (codes "ann") (codes "pw") user refl
      (ann_is_user (codes "/"))
