-- ===== src/Overlap/Admitted.antt =====
-- Whom the gate has let in, however the threads overlap.
use nginx_front_back_end_dem.Prelude.{◌≡◌, Option, some, List, [], Text, ℕ, nat_eq, lookup}
use nginx_front_back_end_dem.Role.{Role}
use nginx_front_back_end_dem.Auth.{UserInfo, AuthProvider}
use nginx_front_back_end_dem.World.{World}
use nginx_front_back_end_dem.Http.{Request, Response, RequestContext}
use nginx_front_back_end_dem.Json.{Glaze}
use nginx_front_back_end_dem.Tokens.{TokenEntry}
use nginx_front_back_end_dem.Router.{Route}
use nginx_front_back_end_dem.Engine.{Handler, Engine}
use nginx_front_back_end_dem.Overlap.{Phase, let_in, working, Threads, Move, run_moves}
use nginx_front_back_end_dem.Overlap.Handlers.{Work, engine_steps}
use nginx_front_back_end_dem.Overlap.Past.{HadSession, WasAllowed, run_moves-Past}
use nginx_front_back_end_dem.Overlap.Kept.{no_flights}
use nginx_front_back_end_dem.Overlap.Entitled.{Entitled}
use nginx_front_back_end_dem.Overlap.Known.{PhaseOk}

-- A request that has been let in on a route, with its caller, also while its handler is at work.
pub data Inside {H R : Type 0} (route : Route H) (caller : Option UserInfo)
    : Phase H R → Type 0 where
  at_door : Inside route caller (let_in route caller)
  at_work : (r : R) → Inside route caller (working route caller r)

module _ {P C : Type 0} (glz : Glaze) (provider : AuthProvider P)
    (run_app : World → C → RequestContext → Engine P C → Option Response × Engine P C)
    (keeps_tokens : (w : World) (c : C) (ctx : RequestContext) (e : Engine P C)
      → (run_app w c ctx e).1.tokens ≡ e.tokens) where
  Inside-Entitled :
      (T : Request → TokenEntry → Type 0) (G : Role → Text → Type 0) (req : Request)
      (phase : Phase (Handler C) (Work C)) (route : Route (Handler C)) (caller : Option UserInfo)
      (need : Role)
      → Inside route caller phase
      → PhaseOk glz provider run_app keeps_tokens T G req phase
      → route.min_role ≡ some need
      → Entitled provider (T req) need caller
  Inside-Entitled T G req _ route caller need at_door right protected = right need protected
  Inside-Entitled T G req _ route caller need (at_work r) (right, ok) protected =
      right need protected

  -- However worker threads interleave the lookup, the gate and the steps of the handlers of their
  -- requests, on an engine that starts without tokens, and whatever roles its routes are given
  -- meanwhile: if a request has been let in on a route with a minimum role, its handler being at work or
  -- not, and the role being the one that the route had when it was looked up, then the request presented
  -- a token that was valid at some point of the run, its caller is the user of that session, the role of
  -- the session satisfies the route's, and the provider accepts that user with it. The application's
  -- handlers are asked to leave the tokens alone.
  pub run_moves-Entitled :
      (e : Engine P C) (moves : List Move) (t : Threads (Handler C) (Work C) (Engine P C)) (i : ℕ)
      (req : Request) (phase : Phase (Handler C) (Work C)) (route : Route (Handler C))
      (caller : Option UserInfo) (need : Role)
      → e.tokens.store ≡ []
      → run_moves glz (engine_steps glz provider run_app) moves (no_flights e) ≡ some t
      → lookup i t.flights ≡ some (record { request = req; phase = phase })
      → Inside route caller phase
      → route.min_role ≡ some need
      → Entitled provider (HadSession glz provider run_app keeps_tokens e moves req) need caller
  run_moves-Entitled e moves t i req phase route caller need empty ran found inside protected =
      Inside-Entitled (HadSession glz provider run_app keeps_tokens e moves)
        (WasAllowed glz provider run_app keeps_tokens e moves) req phase route caller need inside
        (run_moves-Past glz provider run_app keeps_tokens e moves t i req phase empty ran found).0
        protected
