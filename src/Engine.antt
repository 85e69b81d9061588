-- ===== src/Engine.antt =====
-- backend/src/WebEngine.cpp and backend/include/webengine/WebEngine.hpp: the engine's state, its
-- configuration calls and the request that it serves. A closure that the source registers is a
-- constructor of `Handler`, with what it captures by value; what a closure captures by pointer is the
-- engine's own state. `C` names the application's handlers, which `run_app` runs.
pub mod Guard
pub mod Sessions
pub mod Stale
use nginx_front_back_end_dem.Prelude.{ℕ, Option, none, some, [], Text, codes}
use nginx_front_back_end_dem.Role.{Role, admin}
use nginx_front_back_end_dem.World.{World}
use nginx_front_back_end_dem.Auth.{AuthProvider}
use nginx_front_back_end_dem.Http.{Verb, Request, Response, RequestContext}
use nginx_front_back_end_dem.Json.{Glaze}
use nginx_front_back_end_dem.Tokens.{TokenStore}
use nginx_front_back_end_dem.Acl.{Acl}
use nginx_front_back_end_dem.Acl
use nginx_front_back_end_dem.Router.{Router, add_route, add_prefix_route, set_route_role, dispatch}
use nginx_front_back_end_dem.AuthHandler.{
  handle_login, handle_logout, handle_check, handle_protected_file,
}
use nginx_front_back_end_dem.Admin.{
  acl_list, acl_set, acl_remove, users_list, users_add, users_remove, users_set_role,
}

pub data Handler (C : Type 0) : Type 0 where
  login logout auth_check : Handler C
  protected_file : Text → Text → Handler C
  acl_get acl_post acl_delete users_get users_post users_delete users_patch : Handler C
  app : C → Handler C

pub record Engine (P C : Type 0) : Type 0 where
  pub auth : P
  pub tokens : TokenStore
  pub acl : Acl
  pub router : Router (Handler C)
  pub socket_path : Text
  pub num_threads : ℕ

abbrev pub acl_path : Text
acl_path = codes "/api/admin/acl"

abbrev pub users_path : Text
users_path = codes "/api/admin/users"

module _ {P C : Type 0} where
  -- The constructor; `none` for a provider is a null pointer, and for the engine the exception.
  unfoldable pub new_engine : Option P → Option (Engine P C)
  new_engine none = none
  new_engine (some auth) = some (record {
    auth = auth;
    tokens = record { store = [] };
    acl = record { entries = [] };
    router = record { routes = []; prefix_routes = [] };
    socket_path = codes "/tmp/backend.sock";
    num_threads = 0;
  })

  unfoldable pub add_api : Verb → Text → Handler C → Option Role → Engine P C → Engine P C
  add_api method path handler min_role e = record e {
    router = add_route method path handler min_role e.router;
  }

  unfoldable pub set_api_role : Text → Option Role → Engine P C → Engine P C
  set_api_role path min_role e = record e { router = (set_route_role path min_role e.router).1 }

  unfoldable pub protect_path : Text → Role → Engine P C → Engine P C
  protect_path prefix min_role e = record e { acl = Acl.set prefix min_role e.acl }

  unfoldable pub unprotect_path : Text → Engine P C → Engine P C
  unprotect_path prefix e = record e { acl = Acl.remove prefix e.acl }

  unfoldable pub serve_protected_files : Text → Text → Engine P C → Engine P C
  serve_protected_files url_prefix fs_root e = record e {
    router = add_prefix_route Verb.get url_prefix (protected_file fs_root url_prefix) none e.router;
  }

  unfoldable pub enable_auth_endpoints : Engine P C → Engine P C
  unfolding add_api
  enable_auth_endpoints e =
      let e = add_api Verb.post (codes "/api/login") login none e in
      let e = add_api Verb.post (codes "/api/logout") logout none e in
      add_api Verb.get (codes "/auth-check") auth_check none e

  unfoldable pub enable_admin_endpoints : Engine P C → Engine P C
  unfolding add_api
  enable_admin_endpoints e =
      let e = add_api Verb.get acl_path acl_get (some admin) e in
      let e = add_api Verb.post acl_path acl_post (some admin) e in
      let e = add_api Verb.delete_ acl_path acl_delete (some admin) e in
      let e = add_api Verb.get users_path users_get (some admin) e in
      let e = add_api Verb.post users_path users_post (some admin) e in
      let e = add_api Verb.delete_ users_path users_delete (some admin) e in
      add_api Verb.patch users_path users_patch (some admin) e

  unfoldable pub set_socket_path : Text → Engine P C → Engine P C
  set_socket_path path e = record e { socket_path = path }

  unfoldable pub set_threads : ℕ → Engine P C → Engine P C
  set_threads n e = record e { num_threads = n }

module _ {P C : Type 0} (glz : Glaze) (provider : AuthProvider P)
    (run_app : World → C → RequestContext → Engine P C → Option Response × Engine P C) where
  unfoldable pub run_handler :
      World → Handler C → RequestContext → Engine P C → Option Response × Engine P C
  run_handler w login ctx e =
      let (res, auth, tokens) = handle_login glz provider w ctx.request e.auth e.tokens in
      (res, record e { auth = auth; tokens = tokens })
  run_handler w logout ctx e =
      let (res, tokens) = handle_logout ctx.request e.tokens in
      (some res, record e { tokens = tokens })
  run_handler w auth_check ctx e = (some (handle_check w ctx.request e.tokens e.acl), e)
  run_handler w (protected_file fs_root url_prefix) ctx e =
      (some (handle_protected_file w ctx.request e.tokens e.acl fs_root url_prefix), e)
  run_handler w acl_get ctx e = (some (acl_list glz e.acl), e)
  run_handler w acl_post ctx e =
      let (res, acl) = acl_set glz ctx.request e.acl in (some res, record e { acl = acl })
  run_handler w acl_delete ctx e =
      let (res, acl) = acl_remove glz ctx.request e.acl in (some res, record e { acl = acl })
  run_handler w users_get ctx e = (users_list glz provider e.auth, e)
  run_handler w users_post ctx e =
      let (res, auth) = users_add glz provider w ctx.request e.auth in
      (res, record e { auth = auth })
  run_handler w users_delete ctx e =
      let (res, auth) = users_remove glz provider ctx.request e.auth in
      (res, record e { auth = auth })
  run_handler w users_patch ctx e =
      let (res, auth) = users_set_role glz provider ctx.request e.auth in
      (res, record e { auth = auth })
  run_handler w (app c) ctx e = run_app w c ctx e

  -- A request on the engine as it stands.
  unfoldable pub serve : World → Request → Engine P C → Response × Engine P C
  serve w req e = dispatch glz (λ (e : Engine P C). e.router) (λ e. e.tokens) run_handler w req e
