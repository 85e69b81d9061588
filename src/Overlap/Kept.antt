-- ===== src/Overlap/Kept.antt =====
-- What the moves of the threads keep: a property of the engine, and one of every request for what it
-- has come to.
use nginx_front_back_end_dem.Prelude.{
  After, All, Text, ℕ, ◌≡◌, ◌⊎◌, refl, subst, inl, inr, Option, some, List, [], ◌∷◌, arith,
  Option-cases, Bool-cases, lookup, lookup-insert, nat_eq, nat_beq,
}
use nginx_front_back_end_dem.Role.{Role}
use nginx_front_back_end_dem.Auth.{UserInfo}
use nginx_front_back_end_dem.World.{World}
use nginx_front_back_end_dem.Http.{Request, Response}
use nginx_front_back_end_dem.Json.{Glaze}
use nginx_front_back_end_dem.Router.{
  Route, Verdict, refused, admitted, set_route_role, find_route, path_of, gate,
}
use nginx_front_back_end_dem.Overlap.{
  Steps, Phase, copied, let_in, working, answered, Flight, Threads, Move, arrive, pass_gate, handle,
  set_role, check, settled, put_flight, context, look_up, gate_step, handler_step, move, run_moves,
}

abbrev pub no_flights : {H R S : Type 0} → S → Threads H R S
no_flights e = record { engine = e; flights = [] }

-- A change of a route's role is one that `M` is known of.
abbrev pub Permitted : (Text → Option Role → Type 0) → Move → Type 0
Permitted M (set_role path min_role) = M path min_role
Permitted M _ = Unit

module _ (glz : Glaze) {H R S : Type 0} (steps : Steps H R S) where
  -- A state of the run of the moves.
  abbrev pub Visits : List Move → Threads H R S → Threads H R S → Type 0
  Visits [] t u = t ≡ u
  Visits (m ∷ rest) t u =
      (t ≡ u) ⊎ ((t' : Threads H R S) × (move glz steps m t ≡ some t') × Visits rest t' u)

  pub run_moves-Visits :
      (moves : List Move) (t t' : Threads H R S)
      → run_moves glz steps moves t ≡ some t'
      → Visits moves t t'
  unfolding run_moves
  run_moves-Visits [] t t' e = cc
  run_moves-Visits (m ∷ rest) t t' e = elim (Option-cases (move glz steps m t)) [
    | inl stuck ↦ absurd (ground arith)
    | inr (u, went) ↦ inr (u, went, run_moves-Visits rest u t' (ground arith))
  ]

  -- The engine keeps `E`, and a request that has come to a phase has `Ok`, where `V` is known of every
  -- engine of the run and `M` of every change of a route's role.
  pub record Keeps (E V : S → Type 0) (M : Text → Option Role → Type 0)
      (Ok : Request → Phase H R → Type 0) : Type 0 where
    pub copied_ok :
        (req : Request) (route : Route H) (e : S)
        → E e
        → find_route req.method (path_of req.target) (steps.router_of e) ≡ some route
        → Ok req (copied route)
    pub answered_ok : (req : Request) (res : Response) → Ok req (answered res)
    pub passed :
        (w : World) (req : Request) (route : Route H) (caller : Option UserInfo) (e : S)
        → E e
        → V e
        → Ok req (copied route)
        → gate glz w req (steps.tokens_of e) route.min_role ≡ admitted caller
        → Ok req (let_in route caller)
    pub started :
        (req : Request) (route : Route H) (caller : Option UserInfo)
        → Ok req (let_in route caller)
        → Ok req (working route caller (steps.begin route.handler (context req caller)))
    pub stepped :
        (w : World) (req : Request) (route : Route H) (caller : Option UserInfo) (r : R) (e : S)
        → E e
        → V e
        → Ok req (working route caller r)
        → E (steps.go w r e).1 × Ok req (settled glz route caller (steps.go w r e).0)
    pub rerouted :
        (path : Text) (min_role : Option Role) (e : S)
        → M path min_role
        → E e
        → E (steps.with_router (set_route_role path min_role (steps.router_of e)).1 e)

  module _ {E V : S → Type 0} {M : Text → Option Role → Type 0} {Ok : Request → Phase H R → Type 0}
      (keeps : Keeps E V M Ok) where
    abbrev pub AllOk : Threads H R S → Type 0
    AllOk t =
        E t.engine × ((i : ℕ) (f : Flight H R) → lookup i t.flights ≡ some f → Ok f.request f.phase)

    put_flight-AllOk :
        (i : ℕ) (req : Request) (phase : Phase H R) (t : Threads H R S)
        → AllOk t
        → Ok req phase
        → AllOk (put_flight i req phase t)
    put_flight-AllOk i req phase t (kept, all) new = (
      kept,
      λ j f found.
          let at = lookup-insert i j (record { request = req; phase = phase }) t.flights in
          elim (Bool-cases (nat_beq i j)) [
            | inl same ↦
                let is : record { request = req; phase = phase } ≡ f = ground (arith, at) in
                subst (λ (g : Flight H R). Ok g.request g.phase) is new
            | inr other ↦ all j f (ground (arith, at))
          ],
    )

    look_up-Ok : (req : Request) (e : S) → E e → Ok req (look_up glz steps req e)
    unfolding look_up
    look_up-Ok req e kept =
        elim (Option-cases (find_route req.method (path_of req.target) (steps.router_of e))) [
          | inl missing ↦ rw (missing, look_up) (keeps.answered_ok req _)
          | inr (route, found) ↦ rw (found, look_up) (keeps.copied_ok req route e kept found)
        ]

    check-Ok :
        (w : World) (req : Request) (route : Route H) (e : S)
        → E e
        → V e
        → Ok req (copied route)
        → Ok req (check route (gate glz w req (steps.tokens_of e) route.min_role))
    unfolding check
    check-Ok w req route e kept seen ok =
        by_verdict (gate glz w req (steps.tokens_of e) route.min_role) refl
      where
        by_verdict :
            (v : Verdict)
            → gate glz w req (steps.tokens_of e) route.min_role ≡ v
            → Ok req (check route v)
        by_verdict (refused res) is = keeps.answered_ok req res
        by_verdict (admitted caller) is = keeps.passed w req route caller e kept seen ok is

    gate_step-AllOk :
        (i : ℕ) (w : World) (req : Request) (phase : Phase H R) (t : Threads H R S)
        → AllOk t
        → V t.engine
        → Ok req phase
        → After AllOk (gate_step glz steps i w req phase t)
    unfolding gate_step
    gate_step-AllOk i w req (copied route) t h v ok =
        put_flight-AllOk i req _ t h (check-Ok w req route t.engine h.0 v ok)
    gate_step-AllOk i w req (let_in route caller) t h v ok = tt
    gate_step-AllOk i w req (working route caller r) t h v ok = tt
    gate_step-AllOk i w req (answered res) t h v ok = tt

    handler_step-AllOk :
        (i : ℕ) (w : World) (req : Request) (phase : Phase H R) (t : Threads H R S)
        → AllOk t
        → V t.engine
        → Ok req phase
        → After AllOk (handler_step glz steps i w req phase t)
    unfolding handler_step
    handler_step-AllOk i w req (copied route) t h v ok = tt
    handler_step-AllOk i w req (answered res) t h v ok = tt
    handler_step-AllOk i w req (let_in route caller) t h v ok =
        put_flight-AllOk i req _ t h (keeps.started req route caller ok)
    handler_step-AllOk i w req (working route caller r) t h v ok =
        let (kept, later) = keeps.stepped w req route caller r t.engine h.0 v ok in
        put_flight-AllOk i req _ (record t { engine = (steps.go w r t.engine).1 }) (kept, h.1) later

    -- A move of a request that there is, and of one that there is not.
    move-AllOk :
        (m : Move) (t : Threads H R S)
        → AllOk t
        → V t.engine
        → Permitted M m
        → After AllOk (move glz steps m t)
    unfolding move
    move-AllOk (arrive i req) t h v permitted = elim (Option-cases (lookup i t.flights)) [
      | inl free ↦ rw (free, move) (put_flight-AllOk i req _ t h (look_up-Ok req t.engine h.0))
      | inr (f, taken) ↦ rw (taken, move) tt
    ]
    move-AllOk (pass_gate i w) t h v permitted = elim (Option-cases (lookup i t.flights)) [
      | inl free ↦ rw (free, move) tt
      | inr (f, taken) ↦
          rw (taken, move) (gate_step-AllOk i w f.request f.phase t h v (h.1 i f taken))
    ]
    move-AllOk (handle i w) t h v permitted = elim (Option-cases (lookup i t.flights)) [
      | inl free ↦ rw (free, move) tt
      | inr (f, taken) ↦
          rw (taken, move) (handler_step-AllOk i w f.request f.phase t h v (h.1 i f taken))
    ]
    move-AllOk (set_role path min_role) t (kept, all) v permitted =
        (keeps.rerouted path min_role t.engine permitted kept, all)

    pub run_moves-AllOk :
        (moves : List Move) (t t' : Threads H R S)
        → run_moves glz steps moves t ≡ some t'
        → ((u : Threads H R S) → Visits moves t u → V u.engine)
        → All (Permitted M) moves
        → AllOk t
        → AllOk t'
    unfolding run_moves
    run_moves-AllOk [] t t' e seen permitted h = subst (After AllOk) e h
    run_moves-AllOk (m ∷ rest) t t' e seen (first, others) h =
        elim (Option-cases (move glz steps m t)) [
          | inl stuck ↦ absurd (ground arith)
          | inr (u, went) ↦
              run_moves-AllOk rest u t' (ground arith)
                (λ v visited. seen v (inr (u, went, visited))) others
                (subst (After AllOk) went (move-AllOk m t h (seen t (inl refl)) first))
        ]
