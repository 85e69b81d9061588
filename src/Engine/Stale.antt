-- ===== src/Engine/Stale.antt =====
-- The sessions of a user after `DELETE /api/admin/users` of backend/src/WebEngine.cpp.
use nginx_front_back_end_dem.Prelude.{◌≡◌, refl, none, some, Option, Text, arith, text_beq_iff}
use nginx_front_back_end_dem.Role.{Role}
use nginx_front_back_end_dem.World.{World}
use nginx_front_back_end_dem.Http.{Request, Response, RequestContext}
use nginx_front_back_end_dem.Json.{Glaze}
use nginx_front_back_end_dem.Admin.{username_arg}
use nginx_front_back_end_dem.Admin.Requests.{users_remove-state}
use nginx_front_back_end_dem.TestAuth.{
  Crypto, TestAuth, authenticate, remove_user, test_auth_provider,
}
use nginx_front_back_end_dem.TestAuth.Accounts.{authenticate-remove_set}
use nginx_front_back_end_dem.Router.Gate.{HasSession}
use nginx_front_back_end_dem.Engine.{users_delete, Engine, run_handler}

module _ {C : Type 0} (glz : Glaze) (crypto : Crypto)
    (run_app : World
      → C
      → RequestContext
      → Engine TestAuth C
      → Option Response × Engine TestAuth C) where
  -- After an administrator has removed a user, the user's passwords are all refused, but whoever held a
  -- session of that user holds it still, with the role that it was issued for.
  pub users_delete-HasSession :
      (w later : World) (ctx : RequestContext) (next : Request) (e : Engine TestAuth C)
      (name guess : Text) (need : Role)
      → username_arg (glz.read_username ctx.request.body) ≡ some name
      → HasSession later next e.tokens need
      → let (res, after) =
          run_handler glz (test_auth_provider crypto) run_app w users_delete ctx e in
        (authenticate crypto after.auth name guess ≡ none) × HasSession later next after.tokens need
  unfolding run_handler test_auth_provider
  users_delete-HasSession w later ctx next e name guess need named held =
      let gone : authenticate crypto (remove_user name e.auth).1 name guess ≡ none = ground (
        arith,
        authenticate-remove_set crypto name name guess Role.guest e.auth,
        text_beq_iff name name,
      ) in
      let state =
        users_remove-state glz (test_auth_provider crypto) ctx.request e.auth name refl named in
      (rw state gone, held)
