-- ===== src/Main/Callers.antt =====
-- The handlers that read `*ctx.user`, and the requests that reach them.
use nginx_front_back_end_dem.Prelude.{
  ◌≡◌, refl, false, Option, none, some, List, Text, arith, Option-cases, Bool-cases, inl, inr,
}
use nginx_front_back_end_dem.Role.{Role}
use nginx_front_back_end_dem.World.{World}
use nginx_front_back_end_dem.Auth.{UserInfo, AuthProvider}
use nginx_front_back_end_dem.Http.{Request, Response, RequestContext}
use nginx_front_back_end_dem.Json.{Glaze}
use nginx_front_back_end_dem.Tokens.{TokenStore}
use nginx_front_back_end_dem.Router.{
  Router, Route, Verdict, refused, admitted, find_route, path_of, gate, admit, contain, call,
  dispatch,
}
use nginx_front_back_end_dem.Router.Routes.{find_route-AllRoutes}
use nginx_front_back_end_dem.Session.KeepAlive.{serve_all}
use nginx_front_back_end_dem.Engine.{Handler, app}
use nginx_front_back_end_dem.Server.{WebServer, Server, WebServerController}
use nginx_front_back_end_dem.Control.{ControlReaders}
use nginx_front_back_end_dem.Main.{
  Endpoint, private_data, tiered, turn_on, Program, run_endpoint, run_program, serve_program,
  prepare,
}
use nginx_front_back_end_dem.Main.Guarded.{reads_caller, IsGuarded}
use nginx_front_back_end_dem.Main.Served.{served-AllGuarded}

module _ (glz : Glaze) {H S : Type 0} (router_of : S → Router H) (tokens_of : S → TokenStore)
    (run run' : World → H → RequestContext → S → Option Response × S) where
  contain-ext :
      (r : Option Response × S)
      → contain glz router_of tokens_of run r ≡ contain glz router_of tokens_of run' r
  unfolding contain
  contain-ext (none, s) = refl
  contain-ext (some res, s) = refl

  -- Two sets of handlers do the same behind the gate if they do so for every caller that it admits.
  call-ext :
      (w : World) (req : Request) (route : Route H) (s : S)
      → ((caller : Option UserInfo)
          → gate glz w req (tokens_of s) route.min_role ≡ admitted caller
          → run w route.handler (record { request = req; caller = caller }) s
            ≡ run' w route.handler (record { request = req; caller = caller }) s)
      → call glz router_of tokens_of run w req route s
        ≡ call glz router_of tokens_of run' w req route s
  unfolding call
  call-ext w req route s same = by_verdict (gate glz w req (tokens_of s) route.min_role) refl
    where
      by_verdict :
          (v : Verdict)
          → gate glz w req (tokens_of s) route.min_role ≡ v
          → call glz router_of tokens_of run w req route s
            ≡ call glz router_of tokens_of run' w req route s
      by_verdict (refused res) e = rw (e, call) refl
      by_verdict (admitted caller) e =
          rw (e, call, same caller e)
            (contain-ext (run' w route.handler (record { request = req; caller = caller }) s))

gate-caller :
    (glz : Glaze) (w : World) (req : Request) (tokens : TokenStore) (min_role : Option Role)
    (need : Role) (caller : Option UserInfo)
    → min_role ≡ some need
    → gate glz w req tokens min_role ≡ admitted caller
    → (u : UserInfo) × (caller ≡ some u)
unfolding gate admit
gate-caller glz w req tokens min_role need none protected passed = absurd (ground arith)
gate-caller glz w req tokens min_role need (some u) protected passed = (u, refl)

module _ (glz : Glaze) (readers : ControlReaders) {P W : Type 0} (provider : AuthProvider P)
    (ctl : WebServerController W) (nobody other : UserInfo) where
  Agree : (w : World) (handler : Handler Endpoint) (ctx : RequestContext) (p : Program P W) → Type 0
  Agree w handler ctx p =
      run_program glz readers provider ctl nobody w handler ctx p
      ≡ run_program glz readers provider ctl other w handler ctx p

  run_program-plain :
      (w : World) (handler : Handler Endpoint) (ctx : RequestContext) (p : Program P W)
      → reads_caller handler ≡ false
      → Agree w handler ctx p
  unfolding run_program run_endpoint Agree
  run_program-plain w (app private_data) ctx p e = cc
  run_program-plain w (app (tiered level)) ctx p e = cc
  run_program-plain w (app _) ctx p e = refl
  run_program-plain w _ ctx p e = refl

  run_program-called :
      (w : World) (handler : Handler Endpoint) (req : Request) (u : UserInfo) (p : Program P W)
      → Agree w handler (record { request = req; caller = some u }) p
  unfolding run_program run_endpoint Agree
  run_program-called w (app private_data) req u p = refl
  run_program-called w (app (tiered level)) req u p = refl
  run_program-called w (app turn_on) req u p = refl
  run_program-called w (app _) req u p = refl
  run_program-called w _ req u p = refl

  abbrev router_of : Program P W → Router (Handler Endpoint)
  router_of p = p.engine.router

  abbrev tokens_of : Program P W → TokenStore
  tokens_of p = p.engine.tokens

  call-Agree :
      (w : World) (req : Request) (route : Route (Handler Endpoint)) (p : Program P W)
      → IsGuarded route
      → call glz router_of tokens_of (run_program glz readers provider ctl nobody) w req route p
        ≡ call glz router_of tokens_of (run_program glz readers provider ctl other) w req route p
  unfolding Agree
  call-Agree w req route p (rules, reads) =
      call-ext glz router_of tokens_of (run_program glz readers provider ctl nobody)
        (run_program glz readers provider ctl other) w req route p
        (λ caller passed. elim (Bool-cases (reads_caller route.handler)) [
          | inl with_caller ↦
              let (need, protected) = reads with_caller in
              let (u, is_u) =
                gate-caller glz w req p.engine.tokens route.min_role need caller protected passed in
              rw is_u (run_program-called w route.handler req u p)
          | inr plain ↦
              run_program-plain w route.handler (record { request = req; caller = caller }) p plain
        ])

  module _ (methods : WebServer → WebServerController W) (getenv : Text → Option Text) (auth : P)
      (machine : W) (start : Program P W) (srv : Server W)
      (made : prepare methods getenv auth machine ≡ some start) where
    -- No request to the program that `main` prepares, whatever it has served, reads `*ctx.user` while
    -- there is no user: the answer and the state after it are the same for any two values of it.
    pub serve_program-any_user :
        (history : List (World × Request)) (w : World) (req : Request)
        → let p =
            serve_all
              (serve_program glz readers provider ctl nobody)
              history
              (record start { srv = srv }) in
          serve_program glz readers provider ctl nobody w req p
          ≡ serve_program glz readers provider ctl other w req p
    unfolding serve_program dispatch
    serve_program-any_user history w req =
        let p =
          serve_all (serve_program glz readers provider ctl nobody) history
            (record start { srv = srv }) in
        let (same, guarded, genuine) =
          served-AllGuarded glz readers provider ctl nobody methods getenv auth machine start srv
            made history in
        elim (Option-cases (find_route req.method (path_of req.target) p.engine.router)) [
          | inl missing ↦ rw (missing, dispatch) refl
          | inr (route, found) ↦
              rw (found, dispatch)
                (call-Agree w req route p (
                  find_route-AllRoutes IsGuarded req.method (path_of req.target) p.engine.router
                    route guarded found))
        ]
