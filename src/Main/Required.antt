-- ===== src/Main/Required.antt =====
-- The role that each endpoint of the program asks for.
use nginx_front_back_end_dem.Prelude.{
  insert, lookup, text_beq, ◌≡◌, ◌⊎◌, refl, ap, ◌∙◌, subst, inl, inr, Option, none, some, List, [],
  Text, codes,
}
use nginx_front_back_end_dem.Role.{Role, viewer, user, admin}
use nginx_front_back_end_dem.World.{World}
use nginx_front_back_end_dem.Auth.{UserInfo, AuthProvider}
use nginx_front_back_end_dem.Http.{Verb, verb_beq, Status, Request, Response, json}
use nginx_front_back_end_dem.Json.{Glaze, error_json}
use nginx_front_back_end_dem.Decimal.{ℤ}
use nginx_front_back_end_dem.Router.{
  Router, Route, add_route, add_prefix_route, put_prefix, find_route, path_of,
  authentication_required, insufficient_permissions,
}
use nginx_front_back_end_dem.Router.Gate.{HasSession, dispatch-refuses}
use nginx_front_back_end_dem.Session.KeepAlive.{serve_all}
use nginx_front_back_end_dem.Engine.{
  Handler, Engine, new_engine, add_api, protect_path, set_socket_path, serve_protected_files,
  enable_auth_endpoints, enable_admin_endpoints, acl_path, users_path,
}
use nginx_front_back_end_dem.Factory.{to_string}
use nginx_front_back_end_dem.Server.{WebServer, Server, WebServerController}
use nginx_front_back_end_dem.Control.{ControlReaders}
use nginx_front_back_end_dem.Main.{
  Endpoint, Program, configure, kind_of, prepare, run_program, serve_program,
}
use nginx_front_back_end_dem.Main.Served.{served-AllGuarded}

-- The endpoints that need a role, with the role.
pub data NeedsRole : Verb → Text → Role → Type 0 where
  private_page : NeedsRole Verb.get (codes "/api/private") admin
  viewer_page : NeedsRole Verb.get (codes "/api/viewer") viewer
  user_page : NeedsRole Verb.get (codes "/api/user") user
  admin_page : NeedsRole Verb.get (codes "/api/admin") admin
  list_rules : NeedsRole Verb.get acl_path admin
  set_rule : NeedsRole Verb.post acl_path admin
  remove_rule : NeedsRole Verb.delete_ acl_path admin
  list_users : NeedsRole Verb.get users_path admin
  add_user : NeedsRole Verb.post users_path admin
  remove_user : NeedsRole Verb.delete_ users_path admin
  set_user_role : NeedsRole Verb.patch users_path admin
  server_on : NeedsRole Verb.post (codes "/api/admin/server/on") admin
  server_off : NeedsRole Verb.post (codes "/api/admin/server/off") admin
  server_reset : NeedsRole Verb.post (codes "/api/admin/server/reset") admin
  server_port : NeedsRole Verb.post (codes "/api/admin/server/port") admin
  server_status : NeedsRole Verb.get (codes "/api/admin/server/status") admin

-- A table that has a route with that role.
abbrev pub Requires : Verb → Text → Role → Router (Handler Endpoint) → Type 0
Requires method path need table =
    (route : Route (Handler Endpoint)) × (find_route method path table ≡ some route)
    × (route.min_role ≡ some need)

-- What the constructor makes.
abbrev blank : {P : Type 0} → P → Engine P Endpoint
blank auth = record {
  auth = auth;
  tokens = record { store = [] };
  acl = record { entries = [] };
  router = record { routes = []; prefix_routes = [] };
  socket_path = codes "/tmp/backend.sock";
  num_threads = 0;
}

module _ {P : Type 0} (auth : P) (server : Text) (port_min port_max : ℤ) where
  configure-Requires :
      (method : Verb) (path : Text) (need : Role)
      → NeedsRole method path need
      → Requires method path need (configure server port_min port_max (blank auth)).router
  unfolding configure add_api protect_path set_socket_path serve_protected_files
      enable_auth_endpoints enable_admin_endpoints add_route add_prefix_route put_prefix insert
      lookup find_route verb_beq text_beq
  configure-Requires method path need private_page = (_, refl, refl)
  configure-Requires method path need viewer_page = (_, refl, refl)
  configure-Requires method path need user_page = (_, refl, refl)
  configure-Requires method path need admin_page = (_, refl, refl)
  configure-Requires method path need list_rules = (_, refl, refl)
  configure-Requires method path need set_rule = (_, refl, refl)
  configure-Requires method path need remove_rule = (_, refl, refl)
  configure-Requires method path need list_users = (_, refl, refl)
  configure-Requires method path need add_user = (_, refl, refl)
  configure-Requires method path need remove_user = (_, refl, refl)
  configure-Requires method path need set_user_role = (_, refl, refl)
  configure-Requires method path need server_on = (_, refl, refl)
  configure-Requires method path need server_off = (_, refl, refl)
  configure-Requires method path need server_reset = (_, refl, refl)
  configure-Requires method path need server_port = (_, refl, refl)
  configure-Requires method path need server_status = (_, refl, refl)

module _ {P W : Type 0} (methods : WebServer → WebServerController W) (getenv : Text → Option Text)
    (auth : P) (machine : W) where
  abbrev StartRequires : Verb → Text → Role → Option (Program P W) → Type 0
  StartRequires method path need none = Unit
  StartRequires method path need (some p) = Requires method path need p.engine.router

  prepare-Requires :
      (method : Verb) (path : Text) (need : Role) (start : Program P W)
      → NeedsRole method path need
      → prepare methods getenv auth machine ≡ some start
      → Requires method path need start.engine.router
  unfolding prepare new_engine
  prepare-Requires method path need start n made =
      subst (StartRequires method path need) made
        (configure-Requires auth (to_string (kind_of getenv)) _ _ method path need n)

  module _ (glz : Glaze) (readers : ControlReaders) (provider : AuthProvider P)
      (ctl : WebServerController W) (nobody : UserInfo) (start : Program P W) (srv : Server W)
      (made : prepare methods getenv auth machine ≡ some start) where
    refused-status :
        {A : Type 0} {answer : Response × A} {p : A}
        → ((answer ≡ (authentication_required glz, p))
            ⊎ (answer ≡ (insufficient_permissions glz, p)))
        → (answer.1 ≡ p)
          × ((answer.0.status ≡ Status.unauthorized) ⊎ (answer.0.status ≡ Status.forbidden))
    unfolding authentication_required insufficient_permissions error_json json
    refused-status (inl e) = (ap (λ r. r.1) e, inl (ap (λ r. r.0.status) e))
    refused-status (inr e) = (ap (λ r. r.1) e, inr (ap (λ r. r.0.status) e))

    -- Whatever the program that `main` prepares has served, a request to an endpoint that needs a role,
    -- with no session that satisfies the role, is answered 401 or 403, and nothing of the program
    -- changes. The endpoints are the private page, the tiers, and those for the access list, the users
    -- and the web server, each with the role that `main` or the engine gives it.
    pub serve_program-NeedsRole :
        (history : List (World × Request)) (w : World) (req : Request) (need : Role)
        → NeedsRole req.method (path_of req.target) need
        → let p =
            serve_all
              (serve_program glz readers provider ctl nobody)
              history
              (record start { srv = srv }) in
          ¬ HasSession w req p.engine.tokens need
          → let (res, p') = serve_program glz readers provider ctl nobody w req p in
            (p' ≡ p) × ((res.status ≡ Status.unauthorized) ⊎ (res.status ≡ Status.forbidden))
    unfolding serve_program
    serve_program-NeedsRole history w req need n without =
        let p =
          serve_all (serve_program glz readers provider ctl nobody) history
            (record start { srv = srv }) in
        let (same, guarded, genuine) =
          served-AllGuarded glz readers provider ctl nobody methods getenv auth machine start srv
            made history in
        let (route, found, protected) =
          prepare-Requires req.method (path_of req.target) need start n made in
        let table = ap (find_route req.method (path_of req.target)) same ∙ found in
        elim (dispatch-refuses glz (λ (p : Program P W). p.engine.router) (λ p. p.engine.tokens)
          (run_program glz readers provider ctl nobody) w req p route need table protected
          without) [
            | inl (refused, missing) ↦ refused-status (inl refused)
            | inr (refused, low) ↦ refused-status (inr refused)
          ]
