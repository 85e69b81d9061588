-- ===== src/Main/Exit.antt =====
-- How the program ends.
use nginx_front_back_end_dem.Prelude.{
  After, ℕ, ◌≡◌, ◌⊎◌, refl, sym, ◌∙◌, subst, inl, inr, Bool, true, false, Option, none, some, List,
  Text, arith, Option-cases, Bool-cases,
}
use nginx_front_back_end_dem.World.{World}
use nginx_front_back_end_dem.Auth.{UserInfo, AuthProvider}
use nginx_front_back_end_dem.Http.{Request, Response}
use nginx_front_back_end_dem.Json.{Glaze}
use nginx_front_back_end_dem.Session.KeepAlive.{serve_all}
use nginx_front_back_end_dem.Server.{WebServer, Server, WebServerController}
use nginx_front_back_end_dem.Control.{ControlReaders}
use nginx_front_back_end_dem.Serving.{
  Event, Serving, enable_signal_shutdown, do_accept, start, run, run_loop, loop_returns,
}
use nginx_front_back_end_dem.Serving.Log.{log, run_loop-serve_all}
use nginx_front_back_end_dem.Serving.Shutdown.{ends, loop_returns-ends}
use nginx_front_back_end_dem.Main.{
  Program, serve_program, prepare, kind_of, shut_down, serve_and_stop, main,
}

module _ {S : Type 0} (serve : World → Request → S → Response × S) where
  -- A run that returns, and one whose socket cannot be bound.
  abbrev Ran : Bool → List Event → S → Bool × Serving S → Type 0
  Ran bound events e (true, s) =
      (bound ≡ true) × (ends events ≡ true) × (s.engine ≡ serve_all serve (log events) e)
  Ran bound events e (false, s) = (bound ≡ false) × (s.engine ≡ e)

  run-Ran :
      (bound : Bool) (events : List Event) (s : Serving S)
      → After (Ran bound events s.engine) (run serve bound events s)
  unfolding run start do_accept
  run-Ran false events s = (refl, refl)
  run-Ran true events s = elim (Option-cases (run_loop serve events (start true s).1)) [
    | inl stuck ↦ rw (stuck, run) tt
    | inr (s', ran) ↦
        let returns = loop_returns-ends serve events s s' ran in
        elim (Bool-cases (loop_returns s')) [
          | inl back ↦
              rw (ran, back, run)
                (refl, sym returns ∙ back, run_loop-serve_all serve events (start true s).1 s' ran)
          | inr not_back ↦ rw (ran, not_back, run) tt
        ]
  ]

module _ (glz : Glaze) (readers : ControlReaders) {P W : Type 0} (provider : AuthProvider P)
    (nobody : UserInfo) (methods : WebServer → WebServerController W) (getenv : Text → Option Text)
    (auth : P) (bound : Bool) (events : List Event) (machine : W) (p : Program P W) where
  -- How `main` ends with an exit code and a controller, for the program `p` that it has prepared.
  abbrev pub Ended : ℕ → Option (Server W) → Type 0
  Ended code left =
      let ctl = methods (kind_of getenv) in
      let started = record p { srv = (ctl.on p.srv).1 } in
      let served = serve_all (serve_program glz readers provider ctl nobody) (log events) started in
      ((bound ≡ true) × (ends events ≡ true) × (code ≡ 0) × (left ≡ some (ctl.off served.srv).1))
      ⊎ ((bound ≡ false) × (code ≡ 1) × (left ≡ some started.srv))

  abbrev Finished : ℕ × Server W → Type 0
  Finished (code, srv) = Ended code (some srv)

  shut_down-Finished :
      (o : Option (Bool × Serving (Program P W)))
      → (let ctl = methods (kind_of getenv) in
          After
            (Ran
              (serve_program glz readers provider ctl nobody)
              bound
              events
              (record p { srv = (ctl.on p.srv).1 }))
            o)
      → After Finished
          (elim o [ none ↦ none | some ran ↦ some (shut_down (methods (kind_of getenv)) ran) ])
  unfolding shut_down
  shut_down-Finished none h = tt
  shut_down-Finished (some (true, s)) (bind, stopped, is_log) =
      inl (bind, stopped, refl, rw is_log refl)
  shut_down-Finished (some (false, s)) (unbound, same) = inr (unbound, refl, rw same refl)

  serve_and_stop-Finished :
      After Finished
        (serve_and_stop glz readers provider nobody methods bound events (kind_of getenv) p)
  unfolding serve_and_stop enable_signal_shutdown
  serve_and_stop-Finished = shut_down-Finished _ (run-Ran _ bound events _)

  -- If `main` ends, for a program `p` that it has prepared, then either the socket could be bound, the
  -- event loop was ended by a signal or by `stop`, the exit code is 0, and the controller is left as `off`
  -- leaves it behind `on` and all requests that were read, in order; or the socket could not be bound,
  -- the exit code is 1, and the controller is left as `on` leaves it: the web server that was started is
  -- not stopped.
  pub main-Ended :
      (code : ℕ) (left : Option (Server W))
      → prepare methods getenv auth machine ≡ some p
      → main glz readers provider nobody methods getenv (some auth) bound events machine
        ≡ some (code, left)
      → let ctl = methods (kind_of getenv) in
        let started = record p { srv = (ctl.on p.srv).1 } in
        let served =
          serve_all (serve_program glz readers provider ctl nobody) (log events) started in
        ((bound ≡ true) × (ends events ≡ true) × (code ≡ 0) × (left ≡ some (ctl.off served.srv).1))
        ⊎ ((bound ≡ false) × (code ≡ 1) × (left ≡ some started.srv))
  unfolding main
  main-Ended code left prepared ended =
      let r = serve_and_stop glz readers provider nobody methods bound events (kind_of getenv) p in
      elim (Option-cases r) [
        | inl endless ↦ absurd (ground arith)
        | inr ((exit, srv), stops) ↦
            let finished : Ended exit (some srv) =
              subst (After Finished) stops serve_and_stop-Finished in
            let same : (exit, some srv) ≡ (code, left) = ground arith in
            subst (λ (x : ℕ × Option (Server W)). Ended x.0 x.1) same finished
      ]
