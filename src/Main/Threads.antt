-- ===== src/Main/Threads.antt =====
-- The program of backend/example/main.cpp as the worker threads of its engine run it: the engine's
-- handlers by their steps, and the program's own as one step each. `main` changes no role of a route
-- once the loop runs.
use nginx_front_back_end_dem.Prelude.{
  ◌≡◌, refl, sym, subst, inl, inr, get_or, empty, Bool-cases, Option, none, some, [], Text,
}
use nginx_front_back_end_dem.Role.{Role}
use nginx_front_back_end_dem.World.{World}
use nginx_front_back_end_dem.Auth.{UserInfo, AuthProvider}
use nginx_front_back_end_dem.Http.{Request, Response, RequestContext}
use nginx_front_back_end_dem.Json.{Glaze}
use nginx_front_back_end_dem.Tokens.{TokenEntry}
use nginx_front_back_end_dem.Router.{Route, path_of}
use nginx_front_back_end_dem.Router.Routes.{find_route-AllRoutes}
use nginx_front_back_end_dem.Engine.{Handler, login, app, Engine, run_handler}
use nginx_front_back_end_dem.Server.{WebServerController}
use nginx_front_back_end_dem.Control.{ControlReaders}
use nginx_front_back_end_dem.Overlap.{
  Progress, more, done, Steps, Phase, copied, let_in, working, answered, settled,
}
use nginx_front_back_end_dem.Overlap.Handlers.{Work, begun, login_answered, first_step, next_step}
use nginx_front_back_end_dem.Overlap.Kept.{Keeps}
use nginx_front_back_end_dem.Overlap.Entitled.{gate-Entitled}
use nginx_front_back_end_dem.Overlap.Known.{PhaseOk, Genuine, Seen, next_step-Fine, settled-PhaseOk}
use nginx_front_back_end_dem.Main.{Endpoint, Program, run_endpoint}
use nginx_front_back_end_dem.Main.Guarded.{AllGuarded, IsGuarded}

module _ {P : Type 0} where
  -- The engine's part of the program does not run the program's handlers.
  abbrev pub run_none :
      World → Endpoint → RequestContext → Engine P Endpoint → Option Response × Engine P Endpoint
  run_none w c ctx e = (none, e)

  pub keeps_none :
      (w : World) (c : Endpoint) (ctx : RequestContext) (e : Engine P Endpoint)
      → (run_none w c ctx e).1.tokens ≡ e.tokens
  keeps_none w c ctx e = refl

module _ (glz : Glaze) (readers : ControlReaders) {P W : Type 0} (provider : AuthProvider P)
    (ctl : WebServerController W) (nobody : UserInfo) where
  unfoldable pub program_step :
      World → Work Endpoint → Program P W → Progress (Work Endpoint) × Program P W
  program_step w (begun (app c) ctx) p =
      let (res, srv) = run_endpoint glz readers provider ctl nobody c ctx p.srv in
      (done (some res), record p { srv = srv })
  program_step w r p =
      let (progress, engine) = next_step glz provider run_none w r p.engine in
      (progress, record p { engine = engine })

  abbrev pub program_steps : Steps (Handler Endpoint) (Work Endpoint) (Program P W)
  program_steps = record {
    router_of = λ p. p.engine.router;
    with_router = λ r p. record p { engine = record p.engine { router = r } };
    tokens_of = λ p. p.engine.tokens;
    begin = begun;
    go = program_step;
  }

  login_answered-router :
      (username : Text) (e : Engine P Endpoint) (answer : Option (Option Role) × P)
      → (login_answered glz provider run_none username e answer).1.router ≡ e.router
  unfolding login_answered
  login_answered-router username e (none, auth) = refl
  login_answered-router username e (some none, auth) = refl
  login_answered-router username e (some (some role), auth) = refl

  first_step-router :
      (w : World) (ctx : RequestContext) (e : Engine P Endpoint)
      → (first_step glz provider run_none w login ctx e).1.router ≡ e.router
  unfolding first_step
  first_step-router w ctx e =
      let body = (glz.read_login ctx.request.body).value in
      let username = get_or body.username [] in
      elim (Bool-cases (empty username)) [
        | inl nameless ↦ rw (nameless, first_step) refl
        | inr named ↦
            rw (named, first_step)
              (login_answered-router username e
                (provider.authenticate e.auth username (get_or body.password [])))
      ]

  next_step-router :
      (w : World) (r : Work Endpoint) (e : Engine P Endpoint)
      → (next_step glz provider run_none w r e).1.router ≡ e.router
  unfolding next_step first_step run_handler
  next_step-router w (begun login ctx) e = first_step-router w ctx e
  next_step-router w (begun handler ctx) e = refl
  next_step-router w r e = refl

  module _ (T : Request → TokenEntry → Type 0) where
    -- No access list is asked about.
    abbrev Any : Role → Text → Type 0
    Any role path = Unit

    abbrev pub Sound : Program P W → Type 0
    Sound p = AllGuarded p.engine.router × Genuine glz provider run_none keeps_none T Any p.engine

    abbrev pub Sees : Program P W → Type 0
    Sees p = Seen glz provider run_none keeps_none T Any p.engine

    abbrev RouteOk : Phase (Handler Endpoint) (Work Endpoint) → Type 0
    RouteOk (copied route) = IsGuarded route
    RouteOk (let_in route caller) = IsGuarded route
    RouteOk (working route caller r) = IsGuarded route
    RouteOk (answered res) = Unit

    abbrev pub FlightOk : Request → Phase (Handler Endpoint) (Work Endpoint) → Type 0
    FlightOk req phase = RouteOk phase × PhaseOk glz provider run_none keeps_none T Any req phase

    settled-RouteOk :
        (route : Route (Handler Endpoint)) (caller : Option UserInfo)
        (progress : Progress (Work Endpoint))
        → IsGuarded route
        → RouteOk (settled glz route caller progress)
    unfolding settled
    settled-RouteOk route caller (more r) guarded = guarded
    settled-RouteOk route caller (done none) guarded = tt
    settled-RouteOk route caller (done (some res)) guarded = tt

    program_step-Sound :
        (w : World) (req : Request) (route : Route (Handler Endpoint)) (caller : Option UserInfo)
        (r : Work Endpoint) (p : Program P W)
        → Sound p
        → Sees p
        → FlightOk req (working route caller r)
        → Sound (program_step w r p).1
          × FlightOk req (settled glz route caller (program_step w r p).0)
    unfolding program_step settled
    program_step-Sound w req route caller (begun (app c) ctx) p sound sees ok = (sound, (tt, tt))
    program_step-Sound w req route caller r p (table, held) sees (guarded, (right, work)) =
        let (held', later) =
          next_step-Fine glz provider run_none keeps_none T Any w req route.handler r p.engine held
            sees work in
        let progress = (next_step glz provider run_none w r p.engine).0 in
        (
          (subst AllGuarded (sym (next_step-router w r p.engine)) table, held'),
          (
            settled-RouteOk route caller progress guarded,
            settled-PhaseOk glz provider run_none keeps_none T Any req route caller progress right
                later,
          ),
        )

    pub program_steps-Keeps : Keeps glz program_steps Sound Sees (λ path min_role. ⊥) FlightOk
    program_steps-Keeps = record {
      copied_ok = λ req route p sound found. (
        find_route-AllRoutes IsGuarded req.method (path_of req.target) p.engine.router route sound.0
            found,
        tt,
      );
      answered_ok = λ req res. (tt, tt);
      passed = λ w req route caller p sound sees ok is. (
        ok.0,
        λ need protected.
            gate-Entitled glz provider (T req) w req p.engine.tokens route.min_role caller need
              sound.1 (sees.0 w req) is protected,
      );
      started = λ req route caller ok. (ok.0, (ok.1, (refl, refl)));
      stepped = program_step-Sound;
      rerouted = λ path min_role p never sound. absurd never;
    }
