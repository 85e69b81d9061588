-- ===== src/Main/Guarded.antt =====
-- Which handlers are for administrators, and which need a caller: a predicate on the routes of the
-- program's table.
use nginx_front_back_end_dem.Prelude.{◌≡◌, refl, Bool, true, false, none, some, Text, codes}
use nginx_front_back_end_dem.Role.{Role, viewer, user, admin}
use nginx_front_back_end_dem.Http.{Verb}
use nginx_front_back_end_dem.Decimal.{ℤ}
use nginx_front_back_end_dem.Router.{Route, Router, add_route}
use nginx_front_back_end_dem.Router.Routes.{
  AllRoutes, add_route-AllRoutes, add_prefix_route-AllRoutes,
}
use nginx_front_back_end_dem.Engine.{
  add_api, protect_path, serve_protected_files, Handler, login, logout, auth_check, protected_file,
  acl_get, acl_post, acl_delete, users_get, users_post, users_delete, users_patch, app, Engine,
  acl_path, users_path, enable_auth_endpoints, enable_admin_endpoints, set_socket_path,
}
use nginx_front_back_end_dem.Main.{
  Endpoint, public_data, private_data, server_object, server_text, tiered, turn_on, turn_off,
  restart, change_port, status, configure,
}

-- The handlers that act on the controller, on the access list or on the provider's users, or that show
-- what is for administrators.
abbrev pub privileged : Handler Endpoint → Bool
privileged acl_get = true
privileged acl_post = true
privileged acl_delete = true
privileged users_get = true
privileged users_post = true
privileged users_delete = true
privileged users_patch = true
privileged (app private_data) = true
privileged (app turn_on) = true
privileged (app turn_off) = true
privileged (app restart) = true
privileged (app (change_port port_min port_max)) = true
privileged (app (status server)) = true
privileged _ = false

-- The handlers that read `*ctx.user`.
abbrev pub reads_caller : Handler Endpoint → Bool
reads_caller (app private_data) = true
reads_caller (app (tiered level)) = true
reads_caller _ = false

abbrev pub IsGuarded : Route (Handler Endpoint) → Type 0
IsGuarded route =
    (privileged route.handler ≡ true → route.min_role ≡ some admin)
    × (reads_caller route.handler ≡ true → (need : Role) × (route.min_role ≡ some need))

abbrev pub AllGuarded : Router (Handler Endpoint) → Type 0
AllGuarded r = AllRoutes IsGuarded r

-- A new route for all, for administrators, and for a level of the tiers.
for_all :
    (method : Verb) (path : Text) (handler : Handler Endpoint) (r : Router (Handler Endpoint))
    → privileged handler ≡ false
    → reads_caller handler ≡ false
    → AllGuarded r
    → AllGuarded (add_route method path handler none r)
for_all method path handler r p q h =
    add_route-AllRoutes IsGuarded method path handler none r (λ e. cc, λ e. cc) h

for_admins :
    (method : Verb) (path : Text) (handler : Handler Endpoint) (r : Router (Handler Endpoint))
    → AllGuarded r
    → AllGuarded (add_route method path handler (some admin) r)
for_admins method path handler r h =
    add_route-AllRoutes IsGuarded method path handler (some admin) r (λ e. refl, λ e. (admin, refl))
      h

for_level :
    (path level : Text) (need : Role) (r : Router (Handler Endpoint))
    → AllGuarded r
    → AllGuarded (add_route Verb.get path (app (tiered level)) (some need) r)
for_level path level need r h =
    add_route-AllRoutes IsGuarded Verb.get path (app (tiered level)) (some need) r
      (λ e. cc, λ e. (need, refl)) h

module _ {P : Type 0} where
  enable_auth_endpoints-AllGuarded :
      (e : Engine P Endpoint) → AllGuarded e.router → AllGuarded (enable_auth_endpoints e).router
  unfolding enable_auth_endpoints add_api
  enable_auth_endpoints-AllGuarded e h =
      let h = for_all Verb.post (codes "/api/login") login e.router refl refl h in
      let h = for_all Verb.post (codes "/api/logout") logout _ refl refl h in
      for_all Verb.get (codes "/auth-check") auth_check _ refl refl h

  enable_admin_endpoints-AllGuarded :
      (e : Engine P Endpoint) → AllGuarded e.router → AllGuarded (enable_admin_endpoints e).router
  unfolding enable_admin_endpoints add_api
  enable_admin_endpoints-AllGuarded e h =
      let h = for_admins Verb.get acl_path acl_get e.router h in
      let h = for_admins Verb.post acl_path acl_post _ h in
      let h = for_admins Verb.delete_ acl_path acl_delete _ h in
      let h = for_admins Verb.get users_path users_get _ h in
      let h = for_admins Verb.post users_path users_post _ h in
      let h = for_admins Verb.delete_ users_path users_delete _ h in
      for_admins Verb.patch users_path users_patch _ h

  pub configure-AllGuarded :
      (server : Text) (port_min port_max : ℤ) (e : Engine P Endpoint)
      → AllGuarded e.router
      → AllGuarded (configure server port_min port_max e).router
  unfolding configure add_api protect_path set_socket_path serve_protected_files
  configure-AllGuarded server port_min port_max e h =
      let h = enable_auth_endpoints-AllGuarded (set_socket_path (codes "/tmp/backend.sock") e) h in
      let h =
        add_prefix_route-AllRoutes IsGuarded Verb.get (codes "/protected/")
          (protected_file (codes "/www/protected") (codes "/protected/")) none _ (λ e. cc, λ e. cc)
          h in
      let h = for_all Verb.get (codes "/api/public") (app public_data) _ refl refl h in
      let h = for_all Verb.get (codes "/api/server") (app (server_object server)) _ refl refl h in
      let h = for_all Verb.get (codes "/api/server") (app (server_text server)) _ refl refl h in
      let h = for_admins Verb.get (codes "/api/private") (app private_data) _ h in
      let h = for_level (codes "/api/viewer") (codes "viewer") viewer _ h in
      let h = for_level (codes "/api/user") (codes "user") user _ h in
      let h = for_level (codes "/api/admin") (codes "admin") admin _ h in
      let h = enable_admin_endpoints-AllGuarded _ h in
      let h = for_admins Verb.post (codes "/api/admin/server/on") (app turn_on) _ h in
      let h = for_admins Verb.post (codes "/api/admin/server/off") (app turn_off) _ h in
      let h = for_admins Verb.post (codes "/api/admin/server/reset") (app restart) _ h in
      let h =
        for_admins Verb.post (codes "/api/admin/server/port") (app (change_port port_min port_max))
          _ h in
      for_admins Verb.get (codes "/api/admin/server/status") (app (status server)) _ h
