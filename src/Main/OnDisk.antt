-- ===== src/Main/OnDisk.antt =====
-- The listen file of the program's controller, from the start of the program on.
use nginx_front_back_end_dem.Prelude.{
  ℕ, ◌≤◌, ◌≡◌, refl, arith, sym, ap, ◌∙◌, subst, inl, inr, Bool, ◌||◌, Option, none, some, List, [],
  ◌∷◌, Text, Option-cases, Bool-cases,
}
use nginx_front_back_end_dem.World.{World}
use nginx_front_back_end_dem.Auth.{UserInfo, AuthProvider}
use nginx_front_back_end_dem.Decimal.{ℤ}
use nginx_front_back_end_dem.Http.{Request, RequestContext}
use nginx_front_back_end_dem.Json.{Glaze}
use nginx_front_back_end_dem.Router.Gate.{dispatch_inv}
use nginx_front_back_end_dem.Session.KeepAlive.{serve_all}
use nginx_front_back_end_dem.Engine.{
  Handler, app, new_engine, set_socket_path, enable_auth_endpoints, protect_path,
  serve_protected_files, add_api, enable_admin_endpoints,
}
use nginx_front_back_end_dem.Process.{Sys}
use nginx_front_back_end_dem.Process.Atomic.{IsFileSystem}
use nginx_front_back_end_dem.Server.{WebServer, Server}
use nginx_front_back_end_dem.Server.Snippet.{LeavesFile, IsWritten}
use nginx_front_back_end_dem.Server.Reliable.{Reliable}
use nginx_front_back_end_dem.Factory.{methods_of, make_web_server_controller}
use nginx_front_back_end_dem.Factory.Snippets.{snippet_of, methods_of-KeepsSnippet}
use nginx_front_back_end_dem.Factory.Reliable.{
  set_listen_ports-IsWritten, set_listen_port-IsWritten,
}
use nginx_front_back_end_dem.Control.{
  ControlReaders, answer, confirmed, port_arg, less, uint16, server_on, server_off, server_reset,
  server_port, initial_ports,
}
use nginx_front_back_end_dem.Serving.{Event, Serving, run_loop, worker_count}
use nginx_front_back_end_dem.Serving.Log.{log, run_loop-serve_all}
use nginx_front_back_end_dem.Main.{
  Endpoint, turn_on, turn_off, restart, change_port, Program, run_endpoint, run_program,
  serve_program, prepare, configure, kind_of, paths_of,
}

module _ (glz : Glaze) (readers : ControlReaders) {P W : Type 0} (provider : AuthProvider P)
    (nobody : UserInfo) (sys : Sys W) (law : IsFileSystem sys) (path : Text)
    (quiet : LeavesFile sys path) (reliable : Reliable sys) (kind : WebServer) where
  abbrev pub Written : Server W → Type 0
  Written s = IsWritten sys path (snippet_of kind) s

  answer-Written : (r : Bool × Server W) → Written r.1 → Written (answer glz r).1
  unfolding answer
  answer-Written r h = h

  port-Written :
      (low high : ℤ) (req : Request) (s : Server W)
      → Written s
      → Written (server_port glz readers (methods_of sys kind) low high req s).1
  unfolding server_port
  port-Written low high req s h = elim (Option-cases (port_arg (readers.read_port req.body))) [
    | inl missing ↦ rw (missing, server_port) h
    | inr (p, asked) ↦ elim (Bool-cases (less p low || less high p)) [
      | inl out ↦ rw (asked, out, server_port) h
      | inr within ↦
          rw (asked, within, server_port)
            (answer-Written ((methods_of sys kind).set_listen_port (uint16 p) s)
              (set_listen_port-IsWritten sys law path quiet reliable kind (uint16 p) s h.0))
    ]
  ]

  off-Written :
      (req : Request) (s : Server W)
      → Written s
      → Written (server_off glz readers (methods_of sys kind) req s).1
  unfolding server_off
  off-Written req s h = elim (Bool-cases (confirmed (readers.read_force req.body))) [
    | inl forced ↦
        rw (forced, server_off)
          (answer-Written ((methods_of sys kind).off s)
            ((methods_of-KeepsSnippet sys path kind law quiet).off_keeps s h))
    | inr unforced ↦ rw (unforced, server_off) h
  ]

  run_endpoint-Written :
      (c : Endpoint) (ctx : RequestContext) (s : Server W)
      → Written s
      → Written (run_endpoint glz readers provider (methods_of sys kind) nobody c ctx s).1
  unfolding run_endpoint server_on server_reset
  run_endpoint-Written turn_on ctx s h =
      answer-Written ((methods_of sys kind).on s)
        ((methods_of-KeepsSnippet sys path kind law quiet).on_keeps s h)
  run_endpoint-Written turn_off ctx s h = off-Written ctx.request s h
  run_endpoint-Written restart ctx s h =
      answer-Written ((methods_of sys kind).reset s)
        ((methods_of-KeepsSnippet sys path kind law quiet).reset_keeps s h)
  run_endpoint-Written (change_port low high) ctx s h = port-Written low high ctx.request s h
  run_endpoint-Written _ ctx s h = h

  run_program-Written :
      (w : World) (handler : Handler Endpoint) (ctx : RequestContext) (p : Program P W)
      → Written p.srv
      → Written
          (run_program glz readers provider (methods_of sys kind) nobody w handler ctx p).1.srv
  unfolding run_program
  run_program-Written w (app c) ctx p h = run_endpoint-Written c ctx p.srv h
  run_program-Written w handler ctx p h = h

  serve_all-Written :
      (history : List (World × Request)) (p : Program P W)
      → Written p.srv
      → Written
          (serve_all
            (serve_program glz readers provider (methods_of sys kind) nobody)
            history
            p).srv
  unfolding serve_program
  serve_all-Written [] p h = h
  serve_all-Written ((w, req) ∷ rest) p h = serve_all-Written rest _ (
      dispatch_inv glz (λ (p : Program P W). p.engine.router) (λ p. p.engine.tokens)
        (run_program glz readers provider (methods_of sys kind) nobody) (λ p. Written p.srv)
        run_program-Written w req p h)

module _ (glz : Glaze) (readers : ControlReaders) {P W : Type 0} (provider : AuthProvider P)
    (nobody : UserInfo) (sys : Sys W) (law : IsFileSystem sys) (path : Text)
    (quiet : LeavesFile sys path) (reliable : Reliable sys) (getenv : Text → Option Text) (auth : P)
    (machine : W) (start : Program P W)
    (made : prepare (methods_of sys) getenv auth machine ≡ some start)
    (at : (make_web_server_controller (kind_of getenv) (paths_of getenv) machine).opts.listen_file
      ≡ path) where
  abbrev StartWritten : Option (Program P W) → Type 0
  StartWritten none = Unit
  StartWritten (some p) = IsWritten sys path (snippet_of (kind_of getenv)) p.srv

  prepare-Written : IsWritten sys path (snippet_of (kind_of getenv)) start.srv
  unfolding prepare new_engine initial_ports
  prepare-Written = subst StartWritten made (
      set_listen_ports-IsWritten sys law path quiet reliable (kind_of getenv) _ _
        (make_web_server_controller (kind_of getenv) (paths_of getenv) machine) at)

  abbrev StartThreads : Option (Program P W) → Type 0
  StartThreads none = Unit
  StartThreads (some p) = p.engine.num_threads ≡ 0

  -- `main` leaves the number of threads to the machine.
  prepare-num_threads : start.engine.num_threads ≡ 0
  unfolding prepare new_engine configure set_socket_path enable_auth_endpoints protect_path
      serve_protected_files add_api enable_admin_endpoints
  prepare-num_threads = subst StartThreads made refl

  -- On a machine with one processor, where `run` has a single worker thread, so that no two handlers
  -- overlap, and on a file system that behaves as documented and carries out every write, where only
  -- the controller writes its listen file: from the moment when `main` enters the event loop, over any
  -- interleaving of accepts, signals and the completions of any number of connections, the listen file
  -- on disk is the complete snippet of the ports in the controller's options, for either kind of
  -- server, whatever was in the file before and however the commands of the server fail.
  pub run_loop-IsWritten :
      (hardware : ℕ) (events : List Event) (s s' : Serving (Program P W))
      → hardware ≤ 1
      → s.engine ≡ record start { srv = ((methods_of sys (kind_of getenv)).on start.srv).1 }
      → run_loop
          (serve_program glz readers provider (methods_of sys (kind_of getenv)) nobody)
          events
          s
        ≡ some s'
      → (worker_count s.engine.engine.num_threads hardware ≡ 1)
        × IsWritten sys path (snippet_of (kind_of getenv)) s'.engine.srv
  unfolding worker_count
  run_loop-IsWritten hardware events s s' single begun ran =
      let kind = kind_of getenv in
      let serve = serve_program glz readers provider (methods_of sys kind) nobody in
      let threads = prepare-num_threads in
      let is_log =
        run_loop-serve_all serve events s s' ran ∙ ap (serve_all serve (log events)) begun in
      (
        rw (ap (λ (p : Program P W). p.engine.num_threads) begun, threads) (ground arith),
        subst (λ (p : Program P W). IsWritten sys path (snippet_of kind) p.srv) (sym is_log)
            (serve_all-Written glz readers provider nobody sys law path quiet reliable kind
              (log events) (record start { srv = ((methods_of sys kind).on start.srv).1 })
              ((methods_of-KeepsSnippet sys path kind law quiet).on_keeps start.srv
                prepare-Written)),
      )
