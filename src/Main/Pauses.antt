-- ===== src/Main/Pauses.antt =====
-- How long the program pauses while it serves its requests.
use nginx_front_back_end_dem.Prelude.{
  ℕ, ◌+◌, ◌*◌, ◌≤◌, ◌≡◌, sym, subst, inl, inr, Bool, ◌||◌, some, List, [], ◌∷◌, length, arith,
  Option-cases, Bool-cases,
}
use nginx_front_back_end_dem.World.{World}
use nginx_front_back_end_dem.Auth.{UserInfo, AuthProvider}
use nginx_front_back_end_dem.Decimal.{ℤ}
use nginx_front_back_end_dem.Http.{Request, RequestContext}
use nginx_front_back_end_dem.Json.{Glaze}
use nginx_front_back_end_dem.Router.Gate.{dispatch_either}
use nginx_front_back_end_dem.Session.KeepAlive.{serve_all}
use nginx_front_back_end_dem.Engine.{Handler, app}
use nginx_front_back_end_dem.Process.{Sys}
use nginx_front_back_end_dem.Server.{WebServer, nginx, lighttpd, Server}
use nginx_front_back_end_dem.Server.Pauses.{Sleeps, Within}
use nginx_front_back_end_dem.Factory.{methods_of}
use nginx_front_back_end_dem.Factory.Pauses.{methods_of-Within}
use nginx_front_back_end_dem.Control.{
  ControlReaders, answer, confirmed, port_arg, less, uint16, server_on, server_off, server_reset,
  server_port,
}
use nginx_front_back_end_dem.Serving.{Event, Serving, run_loop}
use nginx_front_back_end_dem.Serving.Log.{log, run_loop-serve_all}
use nginx_front_back_end_dem.Main.{
  Endpoint, turn_on, turn_off, restart, change_port, Program, run_endpoint, run_program,
  serve_program,
}

-- A restart is the longest that a request makes the program pause.
abbrev pub request_pause : WebServer → ℕ
request_pause nginx = 5000000
request_pause lighttpd = 8000000

module _ (glz : Glaze) (readers : ControlReaders) {P W : Type 0} (provider : AuthProvider P)
    (nobody : UserInfo) (sys : Sys W) (clock : Sleeps sys) (kind : WebServer) where
  -- At most the pause of one request.
  abbrev Brief : Server W → Server W → Type 0
  Brief s s' = Within sys clock (request_pause kind) s s'

  on-Brief :
      (kind' : WebServer) (s : Server W)
      → Within sys clock (request_pause kind') s ((methods_of sys kind').on s).1
  on-Brief nginx s = let h = (methods_of-Within sys clock nginx 0 0 s).0 in omega (arith, h)
  on-Brief lighttpd s = let h = (methods_of-Within sys clock lighttpd 0 0 s).0 in omega (arith, h)

  reset-Brief :
      (kind' : WebServer) (s : Server W)
      → Within sys clock (request_pause kind') s ((methods_of sys kind').reset s).1
  reset-Brief nginx s = (methods_of-Within sys clock nginx 0 0 s).3
  reset-Brief lighttpd s = (methods_of-Within sys clock lighttpd 0 0 s).3

  port-Brief :
      (kind' : WebServer) (http : ℕ) (s : Server W)
      → Within sys clock (request_pause kind') s ((methods_of sys kind').set_listen_port http s).1
  port-Brief nginx http s =
      let h = (methods_of-Within sys clock nginx http 0 s).6 in omega (arith, h)
  port-Brief lighttpd http s = (methods_of-Within sys clock lighttpd http 0 s).6

  answer-Brief : (s : Server W) (r : Bool × Server W) → Brief s r.1 → Brief s (answer glz r).1
  unfolding answer
  answer-Brief s r h = h

  change-Brief :
      (low high : ℤ) (req : Request) (s : Server W)
      → Brief s (server_port glz readers (methods_of sys kind) low high req s).1
  unfolding server_port
  change-Brief low high req s = elim (Option-cases (port_arg (readers.read_port req.body))) [
    | inl missing ↦ rw (missing, server_port) (omega arith)
    | inr (p, asked) ↦ elim (Bool-cases (less p low || less high p)) [
      | inl out ↦ rw (asked, out, server_port) (omega arith)
      | inr within ↦
          rw (asked, within, server_port)
            (answer-Brief s ((methods_of sys kind).set_listen_port (uint16 p) s)
              (port-Brief kind (uint16 p) s))
    ]
  ]

  off-Brief :
      (req : Request) (s : Server W)
      → Brief s (server_off glz readers (methods_of sys kind) req s).1
  unfolding server_off
  off-Brief req s = elim (Bool-cases (confirmed (readers.read_force req.body))) [
    | inl forced ↦
        let h = (methods_of-Within sys clock kind 0 0 s).1 in
        rw (forced, server_off) (answer-Brief s ((methods_of sys kind).off s) (omega (arith, h)))
    | inr unforced ↦ rw (unforced, server_off) (omega arith)
  ]

  run_endpoint-Brief :
      (c : Endpoint) (ctx : RequestContext) (s : Server W)
      → Brief s (run_endpoint glz readers provider (methods_of sys kind) nobody c ctx s).1
  unfolding run_endpoint server_on server_reset
  run_endpoint-Brief turn_on ctx s = answer-Brief s ((methods_of sys kind).on s) (on-Brief kind s)
  run_endpoint-Brief turn_off ctx s = off-Brief ctx.request s
  run_endpoint-Brief restart ctx s =
      answer-Brief s ((methods_of sys kind).reset s) (reset-Brief kind s)
  run_endpoint-Brief (change_port low high) ctx s = change-Brief low high ctx.request s
  run_endpoint-Brief _ ctx s = omega arith

  run_program-Brief :
      (w : World) (handler : Handler Endpoint) (ctx : RequestContext) (p : Program P W)
      → Brief p.srv
          (run_program glz readers provider (methods_of sys kind) nobody w handler ctx p).1.srv
  unfolding run_program
  run_program-Brief w (app c) ctx p = run_endpoint-Brief c ctx p.srv
  run_program-Brief w handler ctx p = omega arith

  serve_program-Brief :
      (w : World) (req : Request) (p : Program P W)
      → Brief p.srv (serve_program glz readers provider (methods_of sys kind) nobody w req p).1.srv
  unfolding serve_program
  serve_program-Brief w req p =
      dispatch_either glz (λ (p : Program P W). p.engine.router) (λ p. p.engine.tokens)
        (run_program glz readers provider (methods_of sys kind) nobody) (λ q. Brief p.srv q.srv) w
        req p (λ handler ctx. run_program-Brief w handler ctx p) (omega arith)

  serve_all-Within :
      (history : List (World × Request)) (p : Program P W)
      → Within sys clock
          (length history * request_pause kind)
          p.srv
          (serve_all
            (serve_program glz readers provider (methods_of sys kind) nobody)
            history
            p).srv
  serve_all-Within [] p = omega arith
  serve_all-Within ((w, req) ∷ rest) p =
      let q = (serve_program glz readers provider (methods_of sys kind) nobody w req p).1 in
      let first = serve_program-Brief w req p in
      let later = serve_all-Within rest q in omega (arith, first, later)

  -- Of the machine it is asked only that it counts the microseconds that `usleep` is called for. However
  -- the accepts, the signals and the completions of any number of connections interleave, and whatever
  -- the requests ask for: the event loop of the program pauses no longer than 5 seconds with nginx, and
  -- 8 with lighttpd, for each request that it has read.
  pub run_loop-Within :
      (events : List Event) (s s' : Serving (Program P W))
      → run_loop (serve_program glz readers provider (methods_of sys kind) nobody) events s
        ≡ some s'
      → clock.slept s'.engine.srv.machine
        ≤ length (log events) * request_pause kind + clock.slept s.engine.srv.machine
  run_loop-Within events s s' ran =
      let serve = serve_program glz readers provider (methods_of sys kind) nobody in
      subst
        (λ (p : Program P W).
          Within sys clock (length (log events) * request_pause kind) s.engine.srv p.srv)
        (sym (run_loop-serve_all serve events s s' ran)) (serve_all-Within (log events) s.engine)
