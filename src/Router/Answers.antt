-- ===== src/Router/Answers.antt =====
-- What a request to a guarded route is answered, by the session that it presents.
use nginx_front_back_end_dem.Prelude.{
  ◌≤◌, ◌<◌, ◌≡◌, ◌≢◌, ◌⊎◌, inl, inr, refl, true, false, Option, none, some, [], lookup, text_eq,
  arith, Option-cases, Bool-cases,
}
use nginx_front_back_end_dem.Role.{Role, value, role_satisfies}
use nginx_front_back_end_dem.World.{World}
use nginx_front_back_end_dem.Http.{Status, json, Request, Response, RequestContext}
use nginx_front_back_end_dem.Json.{Glaze, error_json}
use nginx_front_back_end_dem.Tokens.{TokenEntry, TokenStore, validate}
use nginx_front_back_end_dem.Cookies.{extract_token, validated_token}
use nginx_front_back_end_dem.Router.Gate.{dispatch-admits}
use nginx_front_back_end_dem.Router.{
  Route, Router, find_route, path_of, caller_of, authentication_required, insufficient_permissions,
  handler_threw, admit, gate, contain, call, dispatch,
}

-- The request carries a token of the store that has not expired.
abbrev pub Presents : World → Request → TokenStore → TokenEntry → Type 0
Presents w req tokens entry =
    (extract_token req ≢ [])
    × (lookup (extract_token req) tokens.store ≡ some entry)
    × (w.now ≤ entry.expires_at)

validated_token-Presents :
    (w : World) (req : Request) (tokens : TokenStore) (entry : TokenEntry)
    → validated_token w req tokens ≡ some entry
    → Presents w req tokens entry
unfolding validated_token validate
validated_token-Presents w req tokens entry e = ground arith

Presents-validated_token :
    (w : World) (req : Request) (tokens : TokenStore) (entry : TokenEntry)
    → Presents w req tokens entry
    → validated_token w req tokens ≡ some entry
unfolding validated_token validate
Presents-validated_token w req tokens entry h = ground arith

module _ (glz : Glaze) where
  refusals :
      ((authentication_required glz).status ≡ Status.unauthorized)
      × ((insufficient_permissions glz).status ≡ Status.forbidden)
      × ((handler_threw glz).status ≡ Status.internal_server_error)
  unfolding authentication_required insufficient_permissions handler_threw error_json json
  refusals = (refl, refl, refl)

  module _ {H S : Type 0} (router_of : S → Router H) (tokens_of : S → TokenStore)
      (run : World → H → RequestContext → S → Option Response × S) where
    -- The response and the state are the handler's, or 500 where it has thrown.
    abbrev pub Handled : Option Response × S → Response × S → Type 0
    Handled r (res, s') =
        (s' ≡ r.1)
        × ((r.0 ≡ some res) ⊎ ((r.0 ≡ none) × (res.status ≡ Status.internal_server_error)))

    contain-Handled : (r : Option Response × S) → Handled r (contain glz router_of tokens_of run r)
    unfolding contain
    contain-Handled (none, s) = (refl, inr (refl, refusals.2))
    contain-Handled (some res, s) = (refl, inl refl)

    module _ (w : World) (req : Request) (s : S) (route : Route H) (need : Role)
        (found : find_route req.method (path_of req.target) (router_of s) ≡ some route)
        (guarded : route.min_role ≡ some need) where
      dispatch-missing :
          validated_token w req (tokens_of s) ≡ none
          → dispatch glz router_of tokens_of run w req s ≡ (authentication_required glz, s)
      unfolding dispatch call gate admit
      dispatch-missing missing = ground arith

      dispatch-low :
          (entry : TokenEntry)
          → validated_token w req (tokens_of s) ≡ some entry
          → role_satisfies entry.role need ≡ false
          → dispatch glz router_of tokens_of run w req s ≡ (insufficient_permissions glz, s)
      unfolding dispatch call gate admit
      dispatch-low entry valid low = ground arith

      dispatch-enough :
          (entry : TokenEntry)
          → validated_token w req (tokens_of s) ≡ some entry
          → role_satisfies entry.role need ≡ true
          → Handled
              (run w route.handler (record { request = req; caller = some (caller_of entry) }) s)
              (dispatch glz router_of tokens_of run w req s)
      dispatch-enough entry valid enough =
          let is =
            dispatch-admits glz router_of tokens_of run w req s route need found guarded
              (record { entry = entry; validated = valid; satisfied = enough }) in
          rw is (
            contain-Handled
              (run w route.handler (record { request = req; caller = some (caller_of entry) }) s))

      -- A request to a route that needs a role is answered 401, if it presents no token of the store
      -- that is still valid; 403, if it presents one of a role below; and otherwise by the handler,
      -- which has the session's user as the caller, or with 500 where the handler throws. In the first
      -- two cases nothing changes, and in the third what the handler does is kept, also before it throws.
      pub dispatch-Decided :
          let (res, s') = dispatch glz router_of tokens_of run w req s in
          let session = Presents w req (tokens_of s) in
          ((¬ ((entry : TokenEntry) × session entry))
            × (res.status ≡ Status.unauthorized)
            × (s' ≡ s))
          ⊎ ((entry : TokenEntry) × session entry
              × (((value entry.role < value need) × (res.status ≡ Status.forbidden) × (s' ≡ s))
                  ⊎ ((value need ≤ value entry.role)
                      × Handled
                          (run w route.handler
                            (record { request = req; caller = some (caller_of entry) })
                            s)
                          (res, s'))))
      unfolding role_satisfies
      dispatch-Decided = elim (Option-cases (validated_token w req (tokens_of s))) [
        | inl missing ↦
            let none_presented : ¬ ((entry : TokenEntry) × Presents w req (tokens_of s) entry) =
              λ (entry, session).
                let valid = Presents-validated_token w req (tokens_of s) entry session in cc in
            rw (dispatch-missing missing) (inl (none_presented, refusals.0, refl))
        | inr (entry, valid) ↦
            let session = validated_token-Presents w req (tokens_of s) entry valid in
            elim (Bool-cases (role_satisfies entry.role need)) [
              | inl enough ↦
                  inr (entry, session, inr (ground arith, dispatch-enough entry valid enough))
              | inr low ↦
                  rw (dispatch-low entry valid low)
                    (inr (entry, session, inl (ground arith, refusals.1, refl)))
            ]
      ]
