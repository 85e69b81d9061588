-- ===== src/Main/Running.antt =====
-- The program behind the event loop: any interleaving of any number of connections.
use nginx_front_back_end_dem.Prelude.{ℕ, ◌≡◌, ◌⊎◌, sym, ap, ◌∙◌, subst, Option, some, List, Text}
use nginx_front_back_end_dem.World.{World}
use nginx_front_back_end_dem.Auth.{UserInfo, AuthProvider}
use nginx_front_back_end_dem.Http.{Request}
use nginx_front_back_end_dem.Json.{Glaze}
use nginx_front_back_end_dem.Session.{request_read}
use nginx_front_back_end_dem.Session.KeepAlive.{serve_all}
use nginx_front_back_end_dem.Server.{WebServer, Server, WebServerController}
use nginx_front_back_end_dem.Control.{ControlReaders}
use nginx_front_back_end_dem.Serving.{Event, completed, Serving, happen, run_loop}
use nginx_front_back_end_dem.Serving.Log.{log, happen-serve_all, run_loop-serve_all}
use nginx_front_back_end_dem.Main.{Program, serve_program, prepare}
use nginx_front_back_end_dem.Main.Admins.{SameRule, ByAdmin, serve_program-ByAdmin}

module _ (glz : Glaze) (readers : ControlReaders) {P W : Type 0} (provider : AuthProvider P)
    (ctl : WebServerController W) (nobody : UserInfo) (methods : WebServer → WebServerController W)
    (getenv : Text → Option Text) (auth : P) (machine : W) (start : Program P W) (srv : Server W)
    (made : prepare methods getenv auth machine ≡ some start) where
  abbrev Lawful : World → Request → Program P W → Program P W → Type 0
  Lawful w req p p' = SameRule provider p p' ⊎ ByAdmin provider w req p

  -- Let the program that `main` prepares run, from any state of its controller, over any interleaving
  -- of accepts, signals and the completions of any number of connections. A request that a connection
  -- then reads leaves the controller and the access list as they are, and the provider too or as a
  -- password that is tried leaves it, unless the request presents a valid session that stands for an
  -- administrator whom the provider accepts as one, for some password and in some state of its own.
  pub run_loop-ByAdmin :
      (events : List Event) (s s' t : Serving (Program P W)) (i : ℕ) (w : World) (req : Request)
      → s.engine ≡ record start { srv = srv }
      → run_loop (serve_program glz readers provider ctl nobody) events s ≡ some s'
      → happen (serve_program glz readers provider ctl nobody) (completed i (request_read w req)) s'
        ≡ some t
      → SameRule provider s'.engine t.engine ⊎ ByAdmin provider w req s'.engine
  run_loop-ByAdmin events s s' t i w req begun ran next =
      let serve = serve_program glz readers provider ctl nobody in
      let is_log =
        run_loop-serve_all serve events s s' ran ∙ ap (serve_all serve (log events)) begun in
      let is_served = happen-serve_all serve (completed i (request_read w req)) s' t next in
      let changes =
        serve_program-ByAdmin glz readers provider ctl nobody methods getenv auth machine start srv
          made (log events) w req in
      subst (Lawful w req s'.engine) (sym is_served)
        (subst (λ q. Lawful w req q (serve w req q).1) (sym is_log) changes)
