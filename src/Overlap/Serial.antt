-- ===== src/Overlap/Serial.antt =====
-- A request that no other thread interrupts: its moves, and the engine that they leave.
use nginx_front_back_end_dem.Prelude.{
  ℕ, zero, suc, ◌+◌, ◌≤◌, ◌≡◌, refl, sym, ap, ◌∙◌, inl, inr, Option, none, some, List, [], ◌∷◌,
  codes, arith, length, Option-cases, lookup, insert, nat_eq, nat_beq_iff,
}
use nginx_front_back_end_dem.Auth.{UserInfo}
use nginx_front_back_end_dem.World.{World}
use nginx_front_back_end_dem.Http.{Status, text, Request, Response, RequestContext}
use nginx_front_back_end_dem.Json.{Glaze}
use nginx_front_back_end_dem.Router.{
  Route, Verdict, refused, admitted, find_route, path_of, gate, contain, call, dispatch,
}
use nginx_front_back_end_dem.Overlap.{
  Progress, more, done, Steps, Phase, copied, let_in, working, answered, Threads, Move, arrive,
  pass_gate, handle, look_up, check, settled, context, put_flight, gate_step, handler_step, move,
  run_moves,
}

module _ {H R S : Type 0} where
  abbrev pub alone : ℕ → Request → Response × S → Threads H R S
  alone i req (res, e) = record {
    engine = e;
    flights = (i, record { request = req; phase = answered res }) ∷ [];
  }

  abbrev at_phase : ℕ → Request → Phase H R → S → Threads H R S
  at_phase i req phase e = record {
    engine = e;
    flights = (i, record { request = req; phase = phase }) ∷ [];
  }

module _ {H R S : Type 0} (steps : Steps H R S) where
  -- A handler to its end, in at most a number of steps.
  unfoldable pub perform : ℕ → World → Progress R × S → Option (Option Response × S)
  perform n w (done res, e) = some (res, e)
  perform zero w (more r, e) = none
  perform (suc n) w (more r, e) = perform n w (steps.go w r e)

  -- The moves that these steps are.
  abbrev pub drive : ℕ → ℕ → World → Progress R × S → List Move
  drive n i w (done res, e) = []
  drive zero i w (more r, e) = []
  drive (suc n) i w (more r, e) = handle i w ∷ drive n i w (steps.go w r e)

  length-drive :
      (n i : ℕ) (w : World) (progress : Progress R) (e : S) → length (drive n i w (progress, e)) ≤ n
  length-drive n i w (done res) e = omega arith
  length-drive zero i w (more r) e = omega arith
  length-drive (suc n) i w (more r) e =
      omega (arith, length-drive n i w (steps.go w r e).0 (steps.go w r e).1)

module _ (glz : Glaze) {H R S : Type 0} (steps : Steps H R S) (n : ℕ) where
  abbrev started : Route H → Request → Option UserInfo → Progress R
  started route req caller = more (steps.begin route.handler (context req caller))

  abbrev behind_gate : ℕ → World → Request → Route H → S → Verdict → List Move
  behind_gate i w req route e (refused res) = []
  behind_gate i w req route e (admitted caller) =
      handle i w ∷ drive steps n i w (started route req caller, e)

  abbrev behind_lookup : ℕ → World → Request → S → Option (Route H) → List Move
  behind_lookup i w req e none = []
  behind_lookup i w req e (some route) =
      pass_gate i w
      ∷ behind_gate i w req route e (gate glz w req (steps.tokens_of e) route.min_role)

  -- The moves of a request whose turn comes at an engine.
  abbrev pub own_moves : ℕ → World → Request → S → List Move
  own_moves i w req e =
      arrive i req
      ∷ behind_lookup i w req e (find_route req.method (path_of req.target) (steps.router_of e))

  length-behind_gate :
      (i : ℕ) (w : World) (req : Request) (route : Route H) (e : S) (v : Verdict)
      → length (behind_gate i w req route e v) ≤ n + 1
  length-behind_gate i w req route e (refused res) = omega arith
  length-behind_gate i w req route e (admitted caller) =
      omega (arith, length-drive steps n i w (started route req caller) e)

  pub length-own_moves :
      (i : ℕ) (w : World) (req : Request) (e : S) → length (own_moves i w req e) ≤ n + 3
  length-own_moves i w req e =
      bound (find_route req.method (path_of req.target) (steps.router_of e))
    where
      bound :
          (found : Option (Route H)) → length (arrive i req ∷ behind_lookup i w req e found) ≤ n + 3
      bound none = omega arith
      bound (some route) = omega (arith, length-behind_gate i w req route e _)

  put_alone :
      (i : ℕ) (req : Request) (phase later : Phase H R) (e e' : S)
      → put_flight i req later (record (at_phase i req phase e) { engine = e' })
        ≡ at_phase i req later e'
  unfolding insert
  put_alone i req phase later e e' = rw ((nat_beq_iff i i).1 refl) refl

  found_alone :
      (i : ℕ) (req : Request) (phase : Phase H R) (e : S)
      → lookup i (at_phase i req phase e).flights ≡ some (record { request = req; phase = phase })
  unfolding lookup
  found_alone i req phase e = rw ((nat_beq_iff i i).1 refl) refl

  run_moves-first :
      (m : Move) (rest : List Move) (t u : Threads H R S)
      → move glz steps m t ≡ some u
      → run_moves glz steps (m ∷ rest) t ≡ run_moves glz steps rest u
  unfolding run_moves
  run_moves-first m rest t u e = rw (e, run_moves) refl

  pass_gate-alone :
      (i : ℕ) (w : World) (req : Request) (route : Route H) (e : S)
      → move glz steps (pass_gate i w) (at_phase i req (copied route) e)
        ≡ some (at_phase i req (check route (gate glz w req (steps.tokens_of e) route.min_role)) e)
  unfolding move gate_step
  pass_gate-alone i w req route e =
      rw (found_alone i req (copied route) e, move, gate_step)
        (ap some (put_alone i req (copied route) _ e e))

  begin-alone :
      (i : ℕ) (w : World) (req : Request) (route : Route H) (caller : Option UserInfo) (e : S)
      → move glz steps (handle i w) (at_phase i req (let_in route caller) e)
        ≡ some (at_phase i req (settled glz route caller (started route req caller)) e)
  unfolding move handler_step settled
  begin-alone i w req route caller e =
      rw (found_alone i req (let_in route caller) e, move, handler_step)
        (ap some (put_alone i req (let_in route caller) _ e e))

  go-alone :
      (i : ℕ) (w : World) (req : Request) (route : Route H) (caller : Option UserInfo) (r : R)
      (e : S)
      → move glz steps (handle i w) (at_phase i req (working route caller r) e)
        ≡ some (at_phase i req (settled glz route caller (steps.go w r e).0) (steps.go w r e).1)
  unfolding move handler_step
  go-alone i w req route caller r e =
      rw (found_alone i req (working route caller r) e, move, handler_step)
        (ap some (put_alone i req (working route caller r) _ e (steps.go w r e).1))

  arrive-alone :
      (i : ℕ) (req : Request) (e : S)
      → move glz steps (arrive i req) (record { engine = e; flights = [] })
        ≡ some (at_phase i req (look_up glz steps req e) e)
  unfolding move lookup insert
  arrive-alone i req e = refl

module _ (glz : Glaze) {H R S : Type 0} (steps : Steps H R S)
    (run : World → H → RequestContext → S → Option Response × S) (n : ℕ)
    (performs : (w : World) (h : H) (ctx : RequestContext) (e : S)
      → perform steps n w (more (steps.begin h ctx), e) ≡ some (run w h ctx e)) where
  abbrev contained : Option Response × S → Response × S
  contained r = contain glz steps.router_of steps.tokens_of run r

  drive-alone :
      (n i : ℕ) (w : World) (req : Request) (route : Route H) (caller : Option UserInfo)
      (progress : Progress R) (e : S) (r : Option Response × S)
      → perform steps n w (progress, e) ≡ some r
      → run_moves glz steps
          (drive steps n i w (progress, e))
          (at_phase i req (settled glz route caller progress) e)
        ≡ some (alone i req (contained r))
  unfolding perform run_moves settled contain
  drive-alone n i w req route caller (done none) e (res, e') is = cc
  drive-alone n i w req route caller (done (some res)) e (res', e') is = cc
  drive-alone zero i w req route caller (more k) e r is = cc
  drive-alone (suc n) i w req route caller (more k) e r is =
      run_moves-first glz steps n (handle i w) (drive steps n i w (steps.go w k e))
        (at_phase i req (working route caller k) e) _
        (go-alone glz steps n i w req route caller k e)
      ∙ drive-alone n i w req route caller (steps.go w k e).0 (steps.go w k e).1 r is

  gate-alone :
      (i : ℕ) (w : World) (req : Request) (route : Route H) (e : S) (v : Verdict)
      → gate glz w req (steps.tokens_of e) route.min_role ≡ v
      → run_moves glz steps
          (behind_gate glz steps n i w req route e v)
          (at_phase i req (check route v) e)
        ≡ some (alone i req (call glz steps.router_of steps.tokens_of run w req route e))
  unfolding run_moves check call
  gate-alone i w req route e (refused res) passed =
      let is : call glz steps.router_of steps.tokens_of run w req route e ≡ (res, e) =
        rw (passed, call) refl in
      rw is refl
  gate-alone i w req route e (admitted caller) passed =
      let is : call glz steps.router_of steps.tokens_of run w req route e
          ≡ contained (run w route.handler (context req caller) e) =
        rw (passed, call) refl in
      run_moves-first glz steps n (handle i w)
        (drive steps n i w (started glz steps n route req caller, e))
        (at_phase i req (let_in route caller) e) _ (begin-alone glz steps n i w req route caller e)
      ∙ drive-alone n i w req route caller (started glz steps n route req caller) e _
          (performs w route.handler (context req caller) e)
      ∙ ap (λ r. some (alone i req r)) (sym is)

  -- The moves of a request with no move of another thread between them give the answer of `dispatch`,
  -- and leave the engine that `dispatch` leaves.
  pub run_moves-dispatch :
      (i : ℕ) (w : World) (req : Request) (e : S)
      → run_moves glz steps (own_moves glz steps n i w req e) (record { engine = e; flights = [] })
        ≡ some (alone i req (dispatch glz steps.router_of steps.tokens_of run w req e))
  unfolding run_moves dispatch look_up
  run_moves-dispatch i w req e =
      elim (Option-cases (find_route req.method (path_of req.target) (steps.router_of e))) [
        | inl missing ↦
            let is : dispatch glz steps.router_of steps.tokens_of run w req e
                ≡ (text Status.not_found (codes "Not Found"), e) =
              rw (missing, dispatch) refl in
            rw (is, arrive-alone glz steps n i req e, missing, run_moves, look_up) refl
        | inr (route, found) ↦
            let is : dispatch glz steps.router_of steps.tokens_of run w req e
                ≡ call glz steps.router_of steps.tokens_of run w req route e =
              rw (found, dispatch) refl in
            rw (is, arrive-alone glz steps n i req e, found, look_up, run_moves)
              (run_moves-first glz steps n (pass_gate i w)
                  (behind_gate glz steps n i w req route e
                    (gate glz w req (steps.tokens_of e) route.min_role))
                  (at_phase i req (copied route) e) _ (pass_gate-alone glz steps n i w req route e)
                ∙ gate-alone i w req route e _ refl)
      ]
