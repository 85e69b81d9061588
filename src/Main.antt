-- ===== src/Main.antt =====
-- backend/example/main.cpp: the example program, which puts an engine and a controller together. Its
-- handlers are the constructors of `Endpoint`, with what they capture by value; the controller that
-- they capture by pointer is part of the program's state. `getenv` is a parameter of the start.
pub mod Guarded
pub mod Served
pub mod Admins
pub mod Callers
pub mod Required
pub mod Running
pub mod Exit
pub mod OnDisk
pub mod Pauses
pub mod Threads
pub mod Unprivileged
pub mod Overlapping
use nginx_front_back_end_dem.Prelude.{
  ℕ, Bool, true, false, Option, none, some, get_or, List, [], ◌∷◌, ◌++◌, Text, codes, if◌then◌else◌,
}
use nginx_front_back_end_dem.Role.{Role, viewer, user, admin, role_name}
use nginx_front_back_end_dem.World.{World}
use nginx_front_back_end_dem.Auth.{UserInfo, AuthProvider}
use nginx_front_back_end_dem.Http.{Verb, Status, Request, Response, RequestContext, json}
use nginx_front_back_end_dem.Json.{str, Glaze}
use nginx_front_back_end_dem.Decimal.{ℤ, pos}
use nginx_front_back_end_dem.Router.{dispatch}
use nginx_front_back_end_dem.Engine.{
  Handler, app, Engine, new_engine, add_api, protect_path, serve_protected_files,
  enable_auth_endpoints, enable_admin_endpoints, set_socket_path, run_handler,
}
use nginx_front_back_end_dem.Serving.{Event, Serving, enable_signal_shutdown, run}
use nginx_front_back_end_dem.Server.{WebServer, nginx, WebServerPaths, Server, WebServerController}
use nginx_front_back_end_dem.Factory.{to_string, web_server_from_string, make_web_server_controller}
use nginx_front_back_end_dem.Control.{
  ControlReaders, env_int, initial_ports, server_on, server_off, server_reset, server_port,
  server_status,
}

pub data Endpoint : Type 0 where
  public_data private_data : Endpoint
  server_object server_text : Text → Endpoint
  tiered : Text → Endpoint
  turn_on turn_off restart : Endpoint
  change_port : ℤ → ℤ → Endpoint
  status : Text → Endpoint

pub record Program (P W : Type 0) : Type 0 where
  pub engine : Engine P Endpoint
  pub srv : Server W

unfoldable pub env_str : (Text → Option Text) → Text → Text → Text
env_str getenv name fallback = elim (getenv name) [ none ↦ fallback | some v ↦ v ]

-- `*ctx.user`: what an empty optional holds is `nobody`.
abbrev pub user_of : UserInfo → Option UserInfo → UserInfo
user_of nobody none = nobody
user_of nobody (some u) = u

module _ (glz : Glaze) where
  unfoldable pub public_page : Response
  public_page = json Status.ok (
      get_or
        (glz.write_obj
          ((codes "message", str (codes "This is public data. No authentication required.")) ∷ []))
        [])

  unfoldable pub object_page : Text → Response
  object_page server =
      json Status.ok (get_or (glz.write_obj ((codes "server", str server) ∷ [])) [])

  unfoldable pub private_page : UserInfo → Response
  private_page u = json Status.ok (
      get_or
        (glz.write_obj (
          (codes "message", str (codes "private data"))
          ∷ (codes "user", str u.username)
          ∷ (codes "role", str (role_name u.role))
          ∷ []))
        [])

  unfoldable pub tiered_page : Text → UserInfo → Response
  tiered_page level u = json Status.ok (
      get_or
        (glz.write_obj (
          (codes "message", str (level ++ codes " access granted"))
          ∷ (codes "required", str level)
          ∷ (codes "user", str u.username)
          ∷ (codes "role", str (role_name u.role))
          ∷ []))
        [])

unfoldable pub text_page : Text → Response
text_page server = json Status.ok (codes "{\"server\":\"" ++ (server ++ codes "\"}"))

module _ (glz : Glaze) (readers : ControlReaders) {P W : Type 0} (provider : AuthProvider P)
    (ctl : WebServerController W) (nobody : UserInfo) where
  -- What a handler of the program does to its controller.
  unfoldable pub run_endpoint : Endpoint → RequestContext → Server W → Response × Server W
  run_endpoint public_data ctx s = (public_page glz, s)
  run_endpoint (server_object server) ctx s = (object_page glz server, s)
  run_endpoint (server_text server) ctx s = (text_page server, s)
  run_endpoint private_data ctx s = (private_page glz (user_of nobody ctx.caller), s)
  run_endpoint (tiered level) ctx s = (tiered_page glz level (user_of nobody ctx.caller), s)
  run_endpoint turn_on ctx s = server_on glz readers ctl s
  run_endpoint turn_off ctx s = server_off glz readers ctl ctx.request s
  run_endpoint restart ctx s = server_reset glz readers ctl s
  run_endpoint (change_port port_min port_max) ctx s =
      server_port glz readers ctl port_min port_max ctx.request s
  run_endpoint (status server) ctx s = (server_status glz readers ctl server s, s)

  -- The engine's own handlers do not reach the controller, nor the program's the engine.
  unfoldable pub run_program :
      World → Handler Endpoint → RequestContext → Program P W → Option Response × Program P W
  run_program w (app c) ctx p =
      let (res, srv) = run_endpoint c ctx p.srv in (some res, record p { srv = srv })
  run_program w handler ctx p =
      let (res, engine) =
        run_handler glz provider (λ w c ctx e. (none, e)) w handler ctx p.engine in
      (res, record p { engine = engine })

  unfoldable pub serve_program : World → Request → Program P W → Response × Program P W
  serve_program w req p =
      dispatch glz (λ (p : Program P W). p.engine.router) (λ p. p.engine.tokens) run_program w req p

module _ {P : Type 0} where
  -- The configuration calls of `main`, in their order.
  unfoldable pub configure : Text → ℤ → ℤ → Engine P Endpoint → Engine P Endpoint
  configure server port_min port_max e =
      let e = set_socket_path (codes "/tmp/backend.sock") e in
      let e = enable_auth_endpoints e in
      let e = protect_path (codes "/protected/") viewer e in
      let e = serve_protected_files (codes "/protected/") (codes "/www/protected") e in
      let e = add_api Verb.get (codes "/api/public") (app public_data) none e in
      let e = add_api Verb.get (codes "/api/server") (app (server_object server)) none e in
      let e = add_api Verb.get (codes "/api/server") (app (server_text server)) none e in
      let e = add_api Verb.get (codes "/api/private") (app private_data) (some admin) e in
      let e =
        add_api Verb.get (codes "/api/viewer") (app (tiered (codes "viewer"))) (some viewer) e in
      let e = add_api Verb.get (codes "/api/user") (app (tiered (codes "user"))) (some user) e in
      let e = add_api Verb.get (codes "/api/admin") (app (tiered (codes "admin"))) (some admin) e in
      let e = enable_admin_endpoints e in
      let e = add_api Verb.post (codes "/api/admin/server/on") (app turn_on) (some admin) e in
      let e = add_api Verb.post (codes "/api/admin/server/off") (app turn_off) (some admin) e in
      let e = add_api Verb.post (codes "/api/admin/server/reset") (app restart) (some admin) e in
      let e =
        add_api Verb.post (codes "/api/admin/server/port") (app (change_port port_min port_max))
          (some admin) e in
      add_api Verb.get (codes "/api/admin/server/status") (app (status server)) (some admin) e

unfoldable pub paths_of : (Text → Option Text) → WebServerPaths
unfolding env_str
paths_of getenv = record {
  config = env_str getenv (codes "WEBENGINE_CONFIG") [];
  listen_file = env_str getenv (codes "WEBENGINE_LISTEN_FILE") [];
  pidfile = env_str getenv (codes "WEBENGINE_PIDFILE") [];
  temp_root = env_str getenv (codes "WEBENGINE_TEMP_ROOT") [];
}

-- A name that is not known stands for nginx.
unfoldable pub kind_of : (Text → Option Text) → WebServer
unfolding env_str
kind_of getenv =
    get_or (web_server_from_string (env_str getenv (codes "WEBENGINE_WEBSERVER") (codes "nginx")))
      nginx

module _ {P W : Type 0} (methods : WebServer → WebServerController W) where
  -- Steps 2 and 3 of `main`, with the provider's state.
  unfoldable pub prepare : (Text → Option Text) → P → W → Option (Program P W)
  unfolding paths_of kind_of
  prepare getenv auth machine =
      let kind = kind_of getenv in
      let made = make_web_server_controller kind (paths_of getenv) machine in
      let srv =
        initial_ports (methods kind) (getenv (codes "WEBENGINE_HTTP_PORT"))
          (getenv (codes "WEBENGINE_HTTPS_PORT")) made in
      let port_min = env_int (getenv (codes "WEBENGINE_HTTP_PORT_MIN")) (pos 1) in
      let port_max = env_int (getenv (codes "WEBENGINE_HTTP_PORT_MAX")) (pos 65535) in
      elim (new_engine (some auth)) [
        | none ↦ none
        | some e ↦
            some (record { engine = configure (to_string kind) port_min port_max e; srv = srv })
      ]

-- A new event loop around a program, with no connection.
abbrev pub host : {S : Type 0} → S → Serving S
host p = record {
  engine = p;
  conns = [];
  next = 0;
  accepting = 0;
  waiting = false;
  stopped = false;
}

-- Step 6: `off` where the engine's `run` returns, and where it throws the exit code only.
unfoldable pub shut_down :
    {P W : Type 0} → WebServerController W → Bool × Serving (Program P W) → ℕ × Server W
shut_down ctl (true, s) = (0, (ctl.off s.engine.srv).1)
shut_down ctl (false, s) = (1, s.engine.srv)

module _ (glz : Glaze) (readers : ControlReaders) {P W : Type 0} (provider : AuthProvider P)
    (nobody : UserInfo) (methods : WebServer → WebServerController W) where
  -- Steps 4 to 6, for a socket that can be bound or not and for the events of the loop: the exit code,
  -- and the controller that is left. `none` is a program that does not end.
  unfoldable pub serve_and_stop :
      Bool → List Event → WebServer → Program P W → Option (ℕ × Server W)
  unfolding shut_down
  serve_and_stop bound events kind p =
      let ctl = methods kind in
      let started = record p { srv = (ctl.on p.srv).1 } in
      elim (run (serve_program glz readers provider ctl nobody) bound events
        (enable_signal_shutdown (host started))) [
          | none ↦ none
          | some ran ↦ some (shut_down ctl ran)
        ]

  -- All of `main`; `auth` is the provider's state that step 1 makes. An exception before there is a
  -- controller leaves none.
  unfoldable pub main :
      (Text → Option Text) → Option P → Bool → List Event → W → Option (ℕ × Option (Server W))
  unfolding serve_and_stop
  main getenv none bound events machine = some (1, none)
  main getenv (some auth) bound events machine = elim (prepare methods getenv auth machine) [
    | none ↦ some (1, none)
    | some p ↦ elim (serve_and_stop bound events (kind_of getenv) p) [
      | none ↦ none
      | some (code, srv) ↦ some (code, some srv)
    ]
  ]
