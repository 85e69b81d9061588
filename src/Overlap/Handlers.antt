-- ===== src/Overlap/Handlers.antt =====
-- backend/src/AuthHandler.cpp and the endpoints of backend/src/WebEngine.cpp, as worker threads run
-- them: a handler by its calls into the provider, the tokens, the access list and the files, each under
-- its own lock, with what the handler keeps in its local variables between them. The endpoints that
-- make one such call, and the application's handlers, are one step.
use nginx_front_back_end_dem.Prelude.{
  Bool, Option, none, some, get_or, empty, [], Text, codes, if◌then◌else◌,
}
use nginx_front_back_end_dem.Role.{Role, role_name}
use nginx_front_back_end_dem.World.{World}
use nginx_front_back_end_dem.Auth.{AuthProvider}
use nginx_front_back_end_dem.Http.{Status, Request, Response, RequestContext, status_response, text}
use nginx_front_back_end_dem.Json.{Glaze}
use nginx_front_back_end_dem.Tokens.{TokenEntry}
use nginx_front_back_end_dem.Acl.{authorize}
use nginx_front_back_end_dem.Cookies.{validated_token}
use nginx_front_back_end_dem.Router.{path_of}
use nginx_front_back_end_dem.AuthHandler.{
  invalid_credentials, start_session, redirect_to_login, relative, serve_file,
}
use nginx_front_back_end_dem.Engine.{
  Handler, login, auth_check, protected_file, Engine, run_handler,
}
use nginx_front_back_end_dem.Overlap.{Progress, more, done, Steps}

-- Where a handler stands, with its local variables: at its start; a login behind the provider's answer;
-- `handle_check` behind the token; `handle_protected_file` behind the token, and behind the access list.
pub data Work (C : Type 0) : Type 0 where
  begun : Handler C → RequestContext → Work C
  opening : Text → Role → Work C
  allowing : TokenEntry → Text → Work C
  guarding fetching : TokenEntry → Text → Text → Text → Work C

unfoldable pub identity : TokenEntry → Response
identity entry = record (status_response Status.ok) {
  x_user = some entry.username;
  x_role = some (role_name entry.role);
}

module _ {C : Type 0} where
  -- `handle_check`, behind the token; the access list is asked only for a URI.
  unfoldable pub checked_uri : TokenEntry → Option Text → Progress (Work C)
  unfolding identity
  checked_uri entry none = done (some (identity entry))
  checked_uri entry (some uri) =
      if empty uri then done (some (identity entry)) else more (allowing entry uri)

  unfoldable pub checked : Request → Option TokenEntry → Progress (Work C)
  unfolding checked_uri
  checked req none = done (some (status_response Status.unauthorized))
  checked req (some entry) = checked_uri entry req.x_original_uri

  -- `handle_protected_file`, behind the token, and with the answer of the access list.
  unfoldable pub identified : Request → Text → Text → Option TokenEntry → Progress (Work C)
  identified req fs_root url_prefix none = done (some (redirect_to_login req))
  identified req fs_root url_prefix (some entry) =
      more (guarding entry (path_of req.target) fs_root url_prefix)

  unfoldable pub guarded : TokenEntry → Text → Text → Text → Bool → Progress (Work C)
  guarded entry path fs_root url_prefix permitted =
      if permitted
      then more (fetching entry path fs_root url_prefix)
      else done (some (text Status.forbidden (codes "Access denied")))

module _ (glz : Glaze) {P C : Type 0} (provider : AuthProvider P)
    (run_app : World → C → RequestContext → Engine P C → Option Response × Engine P C) where
  -- `handle_login`, with the provider's answer.
  unfoldable pub login_answered :
      Text → Engine P C → Option (Option Role) × P → Progress (Work C) × Engine P C
  login_answered username e (none, auth) = (done none, record e { auth = auth })
  login_answered username e (some none, auth) =
      (done (some (invalid_credentials glz)), record e { auth = auth })
  login_answered username e (some (some role), auth) =
      (more (opening username role), record e { auth = auth })

  -- The first step of a handler.
  unfoldable pub first_step :
      World → Handler C → RequestContext → Engine P C → Progress (Work C) × Engine P C
  unfolding login_answered checked identified
  first_step w login ctx e =
      let body = (glz.read_login ctx.request.body).value in
      let username = get_or body.username [] in
      let password = get_or body.password [] in
      if empty username
      then (done (some (invalid_credentials glz)), e)
      else login_answered username e (provider.authenticate e.auth username password)
  first_step w auth_check ctx e = (checked ctx.request (validated_token w ctx.request e.tokens), e)
  first_step w (protected_file fs_root url_prefix) ctx e =
      (identified ctx.request fs_root url_prefix (validated_token w ctx.request e.tokens), e)
  first_step w handler ctx e =
      let (res, e') = run_handler glz provider run_app w handler ctx e in (done res, e')

  unfoldable pub next_step : World → Work C → Engine P C → Progress (Work C) × Engine P C
  unfolding first_step identity guarded
  next_step w (begun handler ctx) e = first_step w handler ctx e
  next_step w (opening username role) e =
      let (res, tokens) = start_session glz w username role e.tokens in
      (done res, record e { tokens = tokens })
  next_step w (allowing entry uri) e = (
    done (
        some (
          if authorize e.acl entry.role uri
          then identity entry
          else status_response Status.forbidden)),
    e,
  )
  next_step w (guarding entry path fs_root url_prefix) e =
      (guarded entry path fs_root url_prefix (authorize e.acl entry.role path), e)
  next_step w (fetching entry path fs_root url_prefix) e =
      (done (some (serve_file w fs_root (relative path url_prefix))), e)

  abbrev pub engine_steps : Steps (Handler C) (Work C) (Engine P C)
  engine_steps = record {
    router_of = λ e. e.router;
    with_router = λ r e. record e { router = r };
    tokens_of = λ e. e.tokens;
    begin = begun;
    go = next_step;
  }
