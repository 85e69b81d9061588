-- ===== src/Main/Served.antt =====
-- The program's table of routes and its sessions, over a history of requests.
use nginx_front_back_end_dem.Prelude.{
  ◌≡◌, refl, sym, ap, ◌∙◌, subst, Option, none, some, List, [], ◌∷◌, Text, lookup,
}
use nginx_front_back_end_dem.World.{World}
use nginx_front_back_end_dem.Auth.{UserInfo, AuthProvider}
use nginx_front_back_end_dem.Decimal.{ℤ}
use nginx_front_back_end_dem.Http.{Request, RequestContext}
use nginx_front_back_end_dem.Json.{Glaze}
use nginx_front_back_end_dem.Tokens.{TokenStore}
use nginx_front_back_end_dem.Router.{Router}
use nginx_front_back_end_dem.Router.Gate.{dispatch_inv}
use nginx_front_back_end_dem.Session.KeepAlive.{serve_all}
use nginx_front_back_end_dem.Engine.{
  Handler, login, app, Engine, new_engine, run_handler, add_api, protect_path, set_socket_path,
  serve_protected_files, enable_auth_endpoints, enable_admin_endpoints,
}
use nginx_front_back_end_dem.Engine.Sessions.{Holds, Accepted, run_handler-Genuine}
use nginx_front_back_end_dem.Server.{WebServer, Server, WebServerController}
use nginx_front_back_end_dem.Factory.{to_string}
use nginx_front_back_end_dem.Control.{ControlReaders}
use nginx_front_back_end_dem.Main.{
  Endpoint, Program, run_program, serve_program, prepare, configure, kind_of,
}
use nginx_front_back_end_dem.Main.Guarded.{AllGuarded, configure-AllGuarded}

-- What is known of a program that has served.
abbrev Known : {P W : Type 0} → AuthProvider P → Router (Handler Endpoint) → Program P W → Type 0
Known provider table p = (p.engine.router ≡ table) × Holds (Accepted provider) p.engine.tokens

module _ (glz : Glaze) (readers : ControlReaders) {P W : Type 0} (provider : AuthProvider P)
    (ctl : WebServerController W) (nobody : UserInfo) where
  run_program-router :
      (w : World) (handler : Handler Endpoint) (ctx : RequestContext) (p : Program P W)
      → (run_program glz readers provider ctl nobody w handler ctx p).1.engine.router
        ≡ p.engine.router
  unfolding run_program run_handler
  run_program-router w login ctx p = refl
  run_program-router w _ ctx p = refl

  run_program-Genuine :
      (w : World) (handler : Handler Endpoint) (ctx : RequestContext) (p : Program P W)
      → Holds (Accepted provider) p.engine.tokens
      → Holds
          (Accepted provider)
          (run_program glz readers provider ctl nobody w handler ctx p).1.engine.tokens
  unfolding run_program
  run_program-Genuine w (app c) ctx p h = h
  run_program-Genuine w handler ctx p h =
      run_handler-Genuine glz provider
        (λ (w : World) (c : Endpoint) ctx (e : Engine P Endpoint). (none, e)) (λ w c ctx e. refl) w
        handler ctx p.engine h

  run_program-Known :
      (table : Router (Handler Endpoint)) (w : World) (handler : Handler Endpoint)
      (ctx : RequestContext) (p : Program P W)
      → Known provider table p
      → Known provider table (run_program glz readers provider ctl nobody w handler ctx p).1
  run_program-Known table w handler ctx p (same, h) =
      (run_program-router w handler ctx p ∙ same, run_program-Genuine w handler ctx p h)

  serve_all-Known :
      (table : Router (Handler Endpoint)) (history : List (World × Request)) (p : Program P W)
      → Known provider table p
      → Known provider table (serve_all (serve_program glz readers provider ctl nobody) history p)
  unfolding serve_program
  serve_all-Known table [] p h = h
  serve_all-Known table ((w, req) ∷ rest) p h = serve_all-Known table rest _ (
      dispatch_inv glz (λ (p : Program P W). p.engine.router) (λ p. p.engine.tokens)
        (run_program glz readers provider ctl nobody) (Known provider table)
        (run_program-Known table) w req p h)

module _ {P W : Type 0} (methods : WebServer → WebServerController W) (getenv : Text → Option Text)
    (auth : P) (machine : W) where
  configure-tokens :
      (server : Text) (port_min port_max : ℤ) (e : Engine P Endpoint)
      → (configure server port_min port_max e).tokens ≡ e.tokens
  unfolding configure add_api protect_path set_socket_path serve_protected_files
      enable_auth_endpoints enable_admin_endpoints
  configure-tokens server port_min port_max e = refl

  abbrev Started : Option (Program P W) → Type 0
  Started none = Unit
  Started (some p) = AllGuarded p.engine.router × (p.engine.tokens.store ≡ [])

  pub prepare-AllGuarded :
      (start : Program P W)
      → prepare methods getenv auth machine ≡ some start
      → AllGuarded start.engine.router × (start.engine.tokens.store ≡ [])
  unfolding prepare new_engine
  prepare-AllGuarded start made = subst Started made (
    configure-AllGuarded (to_string (kind_of getenv)) _ _ _ (tt, tt),
    ap (λ (t : TokenStore). t.store) (configure-tokens (to_string (kind_of getenv)) _ _ _),
  )

module _ (glz : Glaze) (readers : ControlReaders) {P W : Type 0} (provider : AuthProvider P)
    (ctl : WebServerController W) (nobody : UserInfo) (methods : WebServer → WebServerController W)
    (getenv : Text → Option Text) (auth : P) (machine : W) (start : Program P W) (srv : Server W)
    (made : prepare methods getenv auth machine ≡ some start) where
  -- The program after a history of requests still has the table that `main` has made, and its
  -- tokens stand for users whom the provider accepts.
  pub served-AllGuarded :
      (history : List (World × Request))
      → let p =
          serve_all
            (serve_program glz readers provider ctl nobody)
            history
            (record start { srv = srv }) in
        (p.engine.router ≡ start.engine.router)
        × AllGuarded p.engine.router
        × Holds (Accepted provider) p.engine.tokens
  unfolding lookup
  served-AllGuarded history =
      let (guarded, fresh) = prepare-AllGuarded methods getenv auth machine start made in
      let (same, genuine) =
        serve_all-Known glz readers provider ctl nobody start.engine.router history
          (record start { srv = srv }) (refl, rw fresh (λ t x f. cc)) in
      (same, subst AllGuarded (sym same) guarded, genuine)
