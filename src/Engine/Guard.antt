-- ===== src/Engine/Guard.antt =====
-- The endpoints of `WebEngine::enable_admin_endpoints`, and who may use them.
use nginx_front_back_end_dem.Prelude.{
  ◌≡◌, ◌⊎◌, refl, inl, inr, ◌&&◌, Option, some, Text, text_beq, if◌then◌else◌, ◌∙◌, ap,
}
use nginx_front_back_end_dem.Role.{Role, admin}
use nginx_front_back_end_dem.World.{World}
use nginx_front_back_end_dem.Auth.{AuthProvider}
use nginx_front_back_end_dem.Http.{Verb, verb_beq, Status, Request, Response, RequestContext, json}
use nginx_front_back_end_dem.Json.{Glaze, error_json}
use nginx_front_back_end_dem.Router.{
  find_route, path_of, authentication_required, insufficient_permissions,
}
use nginx_front_back_end_dem.Router.Table.{find_route-add_route}
use nginx_front_back_end_dem.Router.Gate.{HasSession, dispatch-refuses}
use nginx_front_back_end_dem.Engine.{
  Handler, acl_get, acl_post, acl_delete, users_get, users_post, users_delete, users_patch, Engine,
  add_api, acl_path, users_path, enable_admin_endpoints, run_handler, serve,
}

-- The endpoints of `enable_admin_endpoints`, by method and path.
pub data IsAdminEndpoint {C : Type 0} : Verb → Text → Handler C → Type 0 where
  reads_acl : IsAdminEndpoint Verb.get acl_path acl_get
  sets_acl : IsAdminEndpoint Verb.post acl_path acl_post
  removes_acl : IsAdminEndpoint Verb.delete_ acl_path acl_delete
  reads_users : IsAdminEndpoint Verb.get users_path users_get
  adds_user : IsAdminEndpoint Verb.post users_path users_post
  removes_user : IsAdminEndpoint Verb.delete_ users_path users_delete
  sets_role : IsAdminEndpoint Verb.patch users_path users_patch

module _ {P C : Type 0} where
  find_route-add_api :
      (e : Engine P C) (method method' : Verb) (path path' : Text) (handler : Handler C)
      (min_role : Option Role)
      → find_route method' path' (add_api method path handler min_role e).router ≡ (
          if verb_beq method method' && text_beq path path'
          then some (record { handler = handler; min_role = min_role })
          else find_route method' path' e.router)
  unfolding add_api
  find_route-add_api e method method' path path' handler min_role =
      find_route-add_route method method' path path' handler min_role e.router

  find_route-IsAdminEndpoint :
      (e : Engine P C) (method : Verb) (path : Text) (handler : Handler C)
      → IsAdminEndpoint method path handler
      → find_route method path (enable_admin_endpoints e).router
        ≡ some (record { handler = handler; min_role = some admin })
  unfolding enable_admin_endpoints text_beq verb_beq add_api
  find_route-IsAdminEndpoint e method path handler reads_acl = simp find_route-add_route
  find_route-IsAdminEndpoint e method path handler sets_acl = simp find_route-add_route
  find_route-IsAdminEndpoint e method path handler removes_acl = simp find_route-add_route
  find_route-IsAdminEndpoint e method path handler reads_users = simp find_route-add_route
  find_route-IsAdminEndpoint e method path handler adds_user = simp find_route-add_route
  find_route-IsAdminEndpoint e method path handler removes_user = simp find_route-add_route
  find_route-IsAdminEndpoint e method path handler sets_role = simp find_route-add_route

authentication_required-status :
    (glz : Glaze) → (authentication_required glz).status ≡ Status.unauthorized
unfolding authentication_required error_json json
authentication_required-status glz = refl

insufficient_permissions-status :
    (glz : Glaze) → (insufficient_permissions glz).status ≡ Status.forbidden
unfolding insufficient_permissions error_json json
insufficient_permissions-status glz = refl

-- On an engine whose management endpoints are enabled, whatever was registered before, a request to
-- one of them without a session of an Admin is answered 401 or 403 and changes nothing: neither the
-- users nor the access list, nor anything else of the engine.
pub serve-IsAdminEndpoint :
    {P C : Type 0} (glz : Glaze) (provider : AuthProvider P)
    (run_app : World → C → RequestContext → Engine P C → Option Response × Engine P C) (w : World)
    (req : Request) (e : Engine P C) (handler : Handler C)
    → IsAdminEndpoint req.method (path_of req.target) handler
    → ¬ HasSession w req (enable_admin_endpoints e).tokens admin
    → let enabled = enable_admin_endpoints e in
      let (res, after) = serve glz provider run_app w req enabled in
      (after ≡ enabled) × ((res.status ≡ Status.unauthorized) ⊎ (res.status ≡ Status.forbidden))
unfolding serve
serve-IsAdminEndpoint glz provider run_app w req e handler endpoint without =
    let enabled = enable_admin_endpoints e in
    let found = find_route-IsAdminEndpoint e req.method (path_of req.target) handler endpoint in
    elim (dispatch-refuses glz (λ (e : Engine _ _). e.router) (λ e. e.tokens)
      (run_handler glz provider run_app) w req enabled
      (record { handler = handler; min_role = some admin }) admin found refl without) [
        | inl (e, missing) ↦
            (ap (λ r. r.1) e, inl (ap (λ r. r.0.status) e ∙ authentication_required-status glz))
        | inr (e, low) ↦
            (ap (λ r. r.1) e, inr (ap (λ r. r.0.status) e ∙ insufficient_permissions-status glz))
      ]
