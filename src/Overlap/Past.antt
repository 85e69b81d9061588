-- ===== src/Overlap/Past.antt =====
-- What a request has met in a run of the threads: the sessions, and the access lists.
use nginx_front_back_end_dem.Prelude.{
  All, ◌∷◌, ◌≡◌, sym, ap, ◌∙◌, refl, true, Option, some, List, [], Text, arith, ℕ, lookup,
  lookup-insert, insert, nat_eq, nat_beq_iff,
}
use nginx_front_back_end_dem.Role.{Role}
use nginx_front_back_end_dem.Auth.{UserInfo, AuthProvider}
use nginx_front_back_end_dem.World.{World}
use nginx_front_back_end_dem.Http.{Request, Response, RequestContext}
use nginx_front_back_end_dem.Json.{Glaze}
use nginx_front_back_end_dem.Tokens.{TokenEntry}
use nginx_front_back_end_dem.Acl.{authorize}
use nginx_front_back_end_dem.Cookies.{validated_token}
use nginx_front_back_end_dem.Router.{Route}
use nginx_front_back_end_dem.Engine.{Handler, Engine}
use nginx_front_back_end_dem.Overlap.{
  arrive, pass_gate, set_role, Steps, Phase, working, answered, Flight, Threads, Move, handle,
  settled, handler_step, move, run_moves,
}
use nginx_front_back_end_dem.Overlap.Handlers.{Work, next_step, engine_steps}
use nginx_front_back_end_dem.Overlap.Kept.{
  no_flights, Visits, run_moves-Visits, Permitted, Keeps, run_moves-AllOk,
}
use nginx_front_back_end_dem.Overlap.Known.{PhaseOk, Genuine, Seen, next_step-Fine, settled-PhaseOk}
use nginx_front_back_end_dem.Overlap.Entitled.{gate-Entitled}
use nginx_front_back_end_dem.Engine.Sessions.{Holds}

module _ (glz : Glaze) {H R S : Type 0} (steps : Steps H R S) where
  -- The answer that a handler at work comes to by a step.
  pub handle-answered :
      (i : ℕ) (w : World) (req : Request) (route : Route H) (caller : Option UserInfo) (r : R)
      (t t' : Threads H R S) (res : Response)
      → lookup i t.flights ≡ some (record { request = req; phase = working route caller r })
      → move glz steps (handle i w) t ≡ some t'
      → lookup i t'.flights ≡ some (record { request = req; phase = answered res })
      → settled glz route caller (steps.go w r t.engine).0 ≡ answered res
  unfolding move handler_step
  handle-answered i w req route caller r t t' res found went after =
      let next : Flight H R = record {
        request = req;
        phase = settled glz route caller (steps.go w r t.engine).0;
      } in
      let is : t'
          ≡ record { engine = (steps.go w r t.engine).1; flights = insert i next t.flights } =
        ground (arith, found) in
      let at = lookup-insert i i next t.flights in
      let put : lookup i t'.flights ≡ some next =
        ap (λ (t : Threads H R S). lookup i t.flights) is
        ∙ at
        ∙ rw ((nat_beq_iff i i).1 refl) refl in
      let same : some next ≡ some (record { request = req; phase = answered res }) =
        sym put ∙ after in
      cc

All-Permitted : (moves : List Move) → All (Permitted (λ path min_role. Unit)) moves
All-Permitted [] = tt
All-Permitted (arrive i req ∷ rest) = (tt, All-Permitted rest)
All-Permitted (pass_gate i w ∷ rest) = (tt, All-Permitted rest)
All-Permitted (handle i w ∷ rest) = (tt, All-Permitted rest)
All-Permitted (set_role path min_role ∷ rest) = (tt, All-Permitted rest)

module _ {P C : Type 0} (glz : Glaze) (provider : AuthProvider P)
    (run_app : World → C → RequestContext → Engine P C → Option Response × Engine P C)
    (keeps_tokens : (w : World) (c : C) (ctx : RequestContext) (e : Engine P C)
      → (run_app w c ctx e).1.tokens ≡ e.tokens) where
  engine_steps-Keeps :
      (T : Request → TokenEntry → Type 0) (G : Role → Text → Type 0)
      → Keeps glz
          (engine_steps glz provider run_app)
          (Genuine glz provider run_app keeps_tokens T G)
          (Seen glz provider run_app keeps_tokens T G)
          (λ path min_role. Unit)
          (PhaseOk glz provider run_app keeps_tokens T G)
  engine_steps-Keeps T G = record {
    copied_ok = λ req route e held found. tt;
    answered_ok = λ req res. tt;
    passed = λ w req route caller e held seen ok is need protected.
        gate-Entitled glz provider (T req) w req e.tokens route.min_role caller need held
          (seen.0 w req) is protected;
    started = λ req route caller right. (right, (refl, refl));
    stepped = λ w req route caller r e held seen ok.
        let (kept, later) =
          next_step-Fine glz provider run_app keeps_tokens T G w req route.handler r e held seen
            ok.1 in
        (
          kept,
          settled-PhaseOk glz provider run_app keeps_tokens T G req route caller
              (next_step glz provider run_app w r e).0 ok.0 later,
        );
    rerouted = λ path min_role e permitted held. held;
  }

  -- What is known at the end of a run. `T` and `G` may be any properties of the sessions that the
  -- requests have in the run, and of the roles and paths that its access lists allow.
  run_moves-PhaseOk :
      (T : Request → TokenEntry → Type 0) (G : Role → Text → Type 0) (e : Engine P C)
      (moves : List Move) (t : Threads (Handler C) (Work C) (Engine P C)) (i : ℕ)
      (f : Flight (Handler C) (Work C))
      → e.tokens.store ≡ []
      → run_moves glz (engine_steps glz provider run_app) moves (no_flights e) ≡ some t
      → ((u : Threads (Handler C) (Work C) (Engine P C))
          → Visits glz (engine_steps glz provider run_app) moves (no_flights e) u
          → Seen glz provider run_app keeps_tokens T G u.engine)
      → lookup i t.flights ≡ some f
      → Genuine glz provider run_app keeps_tokens T G t.engine
        × PhaseOk glz provider run_app keeps_tokens T G f.request f.phase
  unfolding lookup
  run_moves-PhaseOk T G e moves t i f empty ran seen found =
      let (held, all) =
        run_moves-AllOk glz (engine_steps glz provider run_app) (engine_steps-Keeps T G) moves
          (no_flights e) t ran seen (All-Permitted moves)
          (rw (empty, Holds) (λ token entry f. cc), λ j f found. cc) in
      (held, all i f found)

module _ {P C : Type 0} (glz : Glaze) (provider : AuthProvider P)
    (run_app : World → C → RequestContext → Engine P C → Option Response × Engine P C)
    (keeps_tokens : (w : World) (c : C) (ctx : RequestContext) (e : Engine P C)
      → (run_app w c ctx e).1.tokens ≡ e.tokens)
    (e : Engine P C) (moves : List Move) where
  abbrev pub State : Type 0
  State = Threads (Handler C) (Work C) (Engine P C)

  -- At some point of the run, the request's token was the valid one of this session.
  abbrev pub HadSession : Request → TokenEntry → Type 0
  HadSession req entry =
      (u : State) × Visits glz (engine_steps glz provider run_app) moves (no_flights e) u
      × ((w : World) × (validated_token w req u.engine.tokens ≡ some entry))

  -- At some point of the run, the access list allowed the role the path.
  abbrev pub WasAllowed : Role → Text → Type 0
  WasAllowed role path =
      (u : State) × Visits glz (engine_steps glz provider run_app) moves (no_flights e) u
      × (authorize u.engine.acl role path ≡ true)

  -- What is known at the end of the run, of a request and of the engine.
  pub run_moves-Past :
      (t : State) (i : ℕ) (req : Request) (phase : Phase (Handler C) (Work C))
      → e.tokens.store ≡ []
      → run_moves glz (engine_steps glz provider run_app) moves (no_flights e) ≡ some t
      → lookup i t.flights ≡ some (record { request = req; phase = phase })
      → PhaseOk glz provider run_app keeps_tokens HadSession WasAllowed req phase
        × Genuine glz provider run_app keeps_tokens HadSession WasAllowed t.engine
        × Seen glz provider run_app keeps_tokens HadSession WasAllowed t.engine
  run_moves-Past t i req phase empty ran found =
      let sees : (u : State)
          → Visits glz (engine_steps glz provider run_app) moves (no_flights e) u
          → Seen glz provider run_app keeps_tokens HadSession WasAllowed u.engine =
        λ u visited. (
          λ w req entry valid. (u, visited, (w, valid)),
          λ role path allows. (u, visited, allows),
        ) in
      let (held, ok) =
        run_moves-PhaseOk glz provider run_app keeps_tokens HadSession WasAllowed e moves t i _
          empty ran sees found in
      (
        ok,
        held,
        sees t
            (run_moves-Visits glz (engine_steps glz provider run_app) moves (no_flights e) t ran),
      )
