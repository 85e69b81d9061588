-- ===== src/Overlap.antt =====
-- backend/src/Router.cpp, as the worker threads of backend/src/WebEngine.cpp run it: the lookup of the
-- route under the lock, the gate and each step of the handler of a request are moves of their own,
-- between which other threads make theirs and the application changes the roles of its routes. The
-- engine is a state `S`, as in Router; a handler that is at work is a state `R`, which `Steps` runs.
pub mod Handlers
pub mod Kept
pub mod Entitled
pub mod Known
pub mod Admitted
pub mod Serial
pub mod Uninterrupted
pub mod Past
pub mod Allowed
pub mod Confirmed
use nginx_front_back_end_dem.Prelude.{
  ℕ, Option, none, some, List, [], ◌∷◌, Text, codes, Dict, lookup, insert, nat_eq,
}
use nginx_front_back_end_dem.Role.{Role}
use nginx_front_back_end_dem.Auth.{UserInfo}
use nginx_front_back_end_dem.World.{World}
use nginx_front_back_end_dem.Http.{Status, Request, Response, RequestContext, text}
use nginx_front_back_end_dem.Json.{Glaze}
use nginx_front_back_end_dem.Tokens.{TokenStore}
use nginx_front_back_end_dem.Router.{
  Route, Router, Verdict, refused, admitted, handler_threw, set_route_role, find_route, path_of,
  gate,
}

-- What a handler has after a step: more to do, or its response, `none` where it has thrown.
pub data Progress (R : Type 0) : Type 0 where
  more : R → Progress R
  done : Option Response → Progress R

-- The engine's parts that the dispatch uses, and its handlers by their steps. A step calls into one
-- object, whose lock it holds meanwhile.
pub record Steps (H R S : Type 0) : Type 0 where
  pub router_of : S → Router H
  pub with_router : Router H → S → S
  pub tokens_of : S → TokenStore
  pub begin : H → RequestContext → R
  pub go : World → R → S → Progress R × S

-- How far a request has come: its route and its role are copied, it is let in, its handler is at work,
-- it is answered.
pub data Phase (H R : Type 0) : Type 0 where
  copied : Route H → Phase H R
  let_in : Route H → Option UserInfo → Phase H R
  working : Route H → Option UserInfo → R → Phase H R
  answered : Response → Phase H R

pub record Flight (H R : Type 0) : Type 0 where
  pub request : Request
  pub phase : Phase H R

-- The engine, and the requests by their numbers.
pub record Threads (H R S : Type 0) : Type 0 where
  pub engine : S
  pub flights : Dict ℕ (Flight H R)

pub data Move : Type 0 where
  arrive : ℕ → Request → Move
  pass_gate handle : ℕ → World → Move
  set_role : Text → Option Role → Move

module _ {H R : Type 0} where
  unfoldable pub check : Route H → Verdict → Phase H R
  check route (refused res) = answered res
  check route (admitted caller) = let_in route caller

  -- `catch (...)` around the handler.
  unfoldable pub settled : Glaze → Route H → Option UserInfo → Progress R → Phase H R
  settled glz route caller (more r) = working route caller r
  settled glz route caller (done none) = answered (handler_threw glz)
  settled glz route caller (done (some res)) = answered res

  module _ {S : Type 0} where
    abbrev pub put_flight : ℕ → Request → Phase H R → Threads H R S → Threads H R S
    put_flight i req phase t = record t {
      flights = insert i (record { request = req; phase = phase }) t.flights;
    }

abbrev pub context : Request → Option UserInfo → RequestContext
context req caller = record { request = req; caller = caller }

module _ (glz : Glaze) {H R S : Type 0} (steps : Steps H R S) where
  abbrev not_found : Response
  not_found = text Status.not_found (codes "Not Found")

  unfoldable pub look_up : Request → S → Phase H R
  look_up req e = elim (find_route req.method (path_of req.target) (steps.router_of e)) [
    | none ↦ answered not_found
    | some route ↦ copied route
  ]

  -- A move of the request `i`, by what it has come to.
  unfoldable pub gate_step :
      ℕ → World → Request → Phase H R → Threads H R S → Option (Threads H R S)
  unfolding check
  gate_step i w req (copied route) t =
      some (
        put_flight i req (check route (gate glz w req (steps.tokens_of t.engine) route.min_role)) t)
  gate_step i w req _ t = none

  unfoldable pub handler_step :
      ℕ → World → Request → Phase H R → Threads H R S → Option (Threads H R S)
  unfolding settled
  handler_step i w req (let_in route caller) t =
      let r = steps.begin route.handler (context req caller) in
      some (put_flight i req (working route caller r) t)
  handler_step i w req (working route caller r) t =
      let (progress, e) = steps.go w r t.engine in
      some (put_flight i req (settled glz route caller progress) (record t { engine = e }))
  handler_step i w req _ t = none

  -- `none` is a move that no request can make.
  unfoldable pub move : Move → Threads H R S → Option (Threads H R S)
  unfolding look_up gate_step handler_step
  move (arrive i req) t = elim (lookup i t.flights) [
    | none ↦ some (put_flight i req (look_up req t.engine) t)
    | some f ↦ none
  ]
  move (pass_gate i w) t = elim (lookup i t.flights) [
    | none ↦ none
    | some f ↦ gate_step i w f.request f.phase t
  ]
  move (handle i w) t = elim (lookup i t.flights) [
    | none ↦ none
    | some f ↦ handler_step i w f.request f.phase t
  ]
  move (set_role path min_role) t = some (record t {
    engine = steps.with_router (set_route_role path min_role (steps.router_of t.engine)).1 t.engine;
  })

  unfoldable pub run_moves : List Move → Threads H R S → Option (Threads H R S)
  unfolding move
  run_moves [] t = some t
  run_moves (m ∷ rest) t = elim (move m t) [ none ↦ none | some t' ↦ run_moves rest t' ]
