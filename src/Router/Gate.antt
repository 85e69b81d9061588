-- ===== src/Router/Gate.antt =====
-- Who reaches a handler.
use nginx_front_back_end_dem.Prelude.{
  ◌≡◌, ◌⊎◌, inl, inr, refl, true, Option, none, some, arith, Option-cases, Bool-cases,
}
use nginx_front_back_end_dem.Role.{Role, role_satisfies}
use nginx_front_back_end_dem.World.{World}
use nginx_front_back_end_dem.Http.{Request, Response, RequestContext}
use nginx_front_back_end_dem.Json.{Glaze}
use nginx_front_back_end_dem.Tokens.{TokenEntry, TokenStore}
use nginx_front_back_end_dem.Cookies.{validated_token}
use nginx_front_back_end_dem.Router.{
  Route, Router, find_route, path_of, Verdict, refused, admitted, caller_of,
  authentication_required, insufficient_permissions, admit, gate, contain, call, dispatch,
}

-- A session that a request presents and that satisfies a role.
pub record HasSession (w : World) (req : Request) (tokens : TokenStore) (need : Role) : Type 0 where
  pub entry : TokenEntry
  pub validated : validated_token w req tokens ≡ some entry
  pub satisfied : role_satisfies entry.role need ≡ true

module _ (glz : Glaze) {H S : Type 0} (router_of : S → Router H) (tokens_of : S → TokenStore)
    (run : World → H → RequestContext → S → Option Response × S) where
  -- On a route with a minimum role, a request whose session satisfies the role reaches the handler,
  -- with the session's user as the caller.
  pub dispatch-admits :
      (w : World) (req : Request) (s : S) (route : Route H) (need : Role)
      → find_route req.method (path_of req.target) (router_of s) ≡ some route
      → route.min_role ≡ some need
      → (session : HasSession w req (tokens_of s) need)
      → dispatch glz router_of tokens_of run w req s
        ≡ contain glz router_of tokens_of run (
            run w route.handler
              (record { request = req; caller = some (caller_of session.entry) })
              s)
  unfolding dispatch gate admit
  dispatch-admits w req s route need found protected session = ground arith

  -- On a route with a minimum role, a request with no such session is refused and changes nothing:
  -- 401 without a valid session, 403 with one of too low a role.
  pub dispatch-refuses :
      (w : World) (req : Request) (s : S) (route : Route H) (need : Role)
      → find_route req.method (path_of req.target) (router_of s) ≡ some route
      → route.min_role ≡ some need
      → ¬ HasSession w req (tokens_of s) need
      → ((dispatch glz router_of tokens_of run w req s ≡ (authentication_required glz, s))
          × (validated_token w req (tokens_of s) ≡ none))
        ⊎ ((dispatch glz router_of tokens_of run w req s ≡ (insufficient_permissions glz, s))
            × ((entry : TokenEntry) × (validated_token w req (tokens_of s) ≡ some entry)))
  unfolding dispatch gate admit
  dispatch-refuses w req s route need found protected without =
      elim (Option-cases (validated_token w req (tokens_of s))) [
        | inl missing ↦ inl (ground arith, missing)
        | inr (entry, valid) ↦ elim (Bool-cases (role_satisfies entry.role need)) [
          | inl enough ↦
              absurd (without (record { entry = entry; validated = valid; satisfied = enough }))
          | inr low ↦ inr (ground arith, (entry, valid))
        ]
      ]

  contain-state : (r : Option Response × S) → (contain glz router_of tokens_of run r).1 ≡ r.1
  unfolding contain
  contain-state (none, s) = refl
  contain-state (some res, s) = refl

  pub call_inv {ℓ} :
      (Inv : S → Type ℓ) (w : World) (req : Request) (route : Route H) (s : S)
      → ((ctx : RequestContext) → Inv (run w route.handler ctx s).1)
      → Inv s
      → Inv (call glz router_of tokens_of run w req route s).1
  unfolding call
  call_inv Inv w req route s keep h = after (gate glz w req (tokens_of s) route.min_role)
    where
      answer : Verdict → Response × S
      answer (refused res) = (res, s)
      answer (admitted caller) =
          contain glz router_of tokens_of run
            (run w route.handler (record { request = req; caller = caller }) s)

      after : (v : Verdict) → Inv (answer v).1
      after (refused res) = h
      after (admitted caller) =
          rw (contain-state _) (keep (record { request = req; caller = caller }))

  -- What holds before a request, and behind the handler that it may reach, holds after it.
  pub dispatch_either {ℓ} :
      (Inv : S → Type ℓ) (w : World) (req : Request) (s : S)
      → ((handler : H) (ctx : RequestContext) → Inv (run w handler ctx s).1)
      → Inv s
      → Inv (dispatch glz router_of tokens_of run w req s).1
  unfolding dispatch
  dispatch_either Inv w req s handled h =
      elim (Option-cases (find_route req.method (path_of req.target) (router_of s))) [
        | inl missing ↦ rw (missing, dispatch) h
        | inr (route, found) ↦
            rw (found, dispatch) (call_inv Inv w req route s (handled route.handler) h)
      ]

  -- What holds before a request, and is kept by every handler, holds after it.
  pub dispatch_inv {ℓ} :
      (Inv : S → Type ℓ)
      → ((w : World) (handler : H) (ctx : RequestContext) (s : S)
          → Inv s
          → Inv (run w handler ctx s).1)
      → (w : World) (req : Request) (s : S) → Inv s
      → Inv (dispatch glz router_of tokens_of run w req s).1
  dispatch_inv Inv keep w req s h =
      dispatch_either Inv w req s (λ handler ctx. keep w handler ctx s h) h
