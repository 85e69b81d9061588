-- ===== src/AuthHandler.antt =====
-- backend/src/AuthHandler.cpp: the built-in endpoints. A handler takes what the class refers to (the
-- provider's state, the tokens, the access list) and returns what it may change of it; `none` for a
-- response is an exception.
pub mod Login
pub mod Logout
pub mod Files
use nginx_front_back_end_dem.Prelude.{
  ◌+◌, Bool, ◌||◌, Option, none, some, [], ◌∷◌, ◌++◌, Text, codes, empty, text_beq, nat_beq, length,
  drop, ltb, find, rfind_char, trim_front, ends_with_char, is_some, get_or, if◌then◌else◌,
}
use nginx_front_back_end_dem.Role.{Role, role_name}
use nginx_front_back_end_dem.World.{World}
use nginx_front_back_end_dem.Auth.{AuthProvider}
use nginx_front_back_end_dem.Http.{
  Status, Request, Response, new_response, prepare_payload, make_response, text, status_response,
}
use nginx_front_back_end_dem.Json.{Glaze, error_json, ok_json}
use nginx_front_back_end_dem.Tokens.{TokenStore, TokenEntry, default_ttl, issue, revoke}
use nginx_front_back_end_dem.Acl.{Acl, authorize}
use nginx_front_back_end_dem.Cookies.{extract_cookie, validated_token}
use nginx_front_back_end_dem.Router.{path_of}

unfoldable pub extension : Text → Text
extension path = elim (rfind_char path b'.') [ none ↦ [] | some dot ↦ drop (dot + 1) path ]

unfoldable pub content_type_for : Text → Text
unfolding extension
content_type_for path =
    let ext = extension path in
    if text_beq ext (codes "html") || text_beq ext (codes "htm")
    then codes "text/html"
    else if text_beq ext (codes "txt")
    then codes "text/plain"
    else if text_beq ext (codes "css")
    then codes "text/css"
    else if text_beq ext (codes "js")
    then codes "application/javascript"
    else if text_beq ext (codes "json")
    then codes "application/json"
    else if text_beq ext (codes "svg")
    then codes "image/svg+xml"
    else if text_beq ext (codes "png")
    then codes "image/png"
    else if text_beq ext (codes "jpg") || text_beq ext (codes "jpeg")
    then codes "image/jpeg"
    else if text_beq ext (codes "ico")
    then codes "image/x-icon"
    else codes "application/octet-stream"

unfoldable pub session_cookie : Text → Text
session_cookie token = codes "session=" ++ (token ++ codes "; HttpOnly; SameSite=Strict; Path=/")

abbrev pub expired_cookie : Text
expired_cookie = codes "session=; HttpOnly; SameSite=Strict; Path=/; Max-Age=0"

unfoldable pub logged_in : Text → Response
logged_in token = record ok_json { set_cookie = some (session_cookie token) }

module _ (glz : Glaze) where
  unfoldable pub invalid_credentials : Response
  invalid_credentials = error_json glz Status.unauthorized (codes "invalid credentials")

  -- What follows a successful authentication.
  unfoldable pub start_session : World → Text → Role → TokenStore → Option Response × TokenStore
  start_session w username role tokens = elim (issue w username role default_ttl tokens) [
    | none ↦ (none, tokens)
    | some (token, tokens') ↦ (some (logged_in token), tokens')
  ]

  unfoldable pub authenticated :
      {P : Type 0}
      → World
      → Text
      → TokenStore
      → Option (Option Role) × P
      → Option Response × P × TokenStore
  authenticated w username tokens (none, p) = (none, p, tokens)
  authenticated w username tokens (some none, p) = (some invalid_credentials, p, tokens)
  authenticated w username tokens (some (some role), p) =
      let (res, tokens') = start_session w username role tokens in (res, p, tokens')

  unfoldable pub handle_login :
      {P : Type 0}
      → AuthProvider P
      → World
      → Request
      → P
      → TokenStore
      → Option Response × P × TokenStore
  unfolding authenticated start_session
  handle_login provider w req p tokens =
      let body = (glz.read_login req.body).value in
      let username = get_or body.username [] in
      let password = get_or body.password [] in
      if empty username
      then (some invalid_credentials, p, tokens)
      else authenticated w username tokens (provider.authenticate p username password)

unfoldable pub revoke_cookie : Option Text → TokenStore → TokenStore
revoke_cookie none tokens = tokens
revoke_cookie (some header) tokens =
    let token = extract_cookie header (codes "session") in
    if empty token then tokens else revoke token tokens

unfoldable pub handle_logout : Request → TokenStore → Response × TokenStore
unfolding revoke_cookie
handle_logout req tokens =
    (record ok_json { set_cookie = some expired_cookie }, revoke_cookie req.cookie tokens)

-- The access list is asked only where the proxy sent the original URI.
unfoldable pub uri_allowed : Acl → Role → Option Text → Bool
uri_allowed acl role none = Bool.true
uri_allowed acl role (some uri) = if empty uri then Bool.true else authorize acl role uri

unfoldable pub handle_check : World → Request → TokenStore → Acl → Response
unfolding uri_allowed
handle_check w req tokens acl = elim (validated_token w req tokens) [
  | none ↦ status_response Status.unauthorized
  | some entry ↦
      if uri_allowed acl entry.role req.x_original_uri
      then record (status_response Status.ok) {
        x_user = some entry.username;
        x_role = some (role_name entry.role);
      }
      else status_response Status.forbidden
]

-- The path below the prefix, with the index page's name where it names a directory.
unfoldable pub relative : Text → Text → Text
relative path url_prefix =
    let rel = if ltb (length url_prefix) (length path) then drop (length url_prefix) path else [] in
    if empty rel || ends_with_char rel b'/' then rel ++ codes "index.html" else rel

-- `if (!file.empty() && file.back() == '/') file.pop_back();`
unfoldable pub pop_slash : Text → Text
pop_slash [] = []
pop_slash (c ∷ []) = if nat_beq c b'/' then [] else c ∷ []
pop_slash (c ∷ d ∷ s) = c ∷ pop_slash (d ∷ s)

unfoldable pub read_static : World → Text → Text → Response
read_static w fs_root rel = elim (w.read_file (pop_slash fs_root ++ (b'/' ∷ rel))) [
  | none ↦ text Status.not_found (codes "Not Found")
  | some content ↦ make_response Status.ok content (content_type_for rel)
]

unfoldable pub serve_file : World → Text → Text → Response
unfolding read_static
serve_file w fs_root rel =
    if is_some (find rel (codes ".."))
    then text Status.forbidden (codes "Access denied")
    else read_static w fs_root (trim_front b'/' rel)

unfoldable pub redirect_to_login : Request → Response
redirect_to_login req = prepare_payload (record (new_response Status.found req.version) {
  location = some (codes "/?reason=unauthenticated");
})

unfoldable pub handle_protected_file : World → Request → TokenStore → Acl → Text → Text → Response
unfolding serve_file
handle_protected_file w req tokens acl fs_root url_prefix = elim (validated_token w req tokens) [
  | none ↦ redirect_to_login req
  | some entry ↦
      if authorize acl entry.role (path_of req.target)
      then serve_file w fs_root (relative (path_of req.target) url_prefix)
      else text Status.forbidden (codes "Access denied")
]
