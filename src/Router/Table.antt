-- ===== src/Router/Table.antt =====
-- The table of routes.
use nginx_front_back_end_dem.Prelude.{
  ◌≤◌, ◌≡◌, ◌≢◌, ◌↔◌, refl, inl, inr, Option-cases, true, false, Option, none, some, List, [], ◌∷◌,
  Text, Dict, All, arith, lookup, text_beq, text_beq_iff, text_eq, pair_eq, lookup-insert,
  if◌then◌else◌, length, starts_with, ◌&&◌,
}
use mathlib.Core.Option
use mathlib.Core.List.{Memᴰ}
use nginx_front_back_end_dem.Role.{Role}
use nginx_front_back_end_dem.Http.{Verb, verb_eq, verb_beq, verb_beq_iff}
use nginx_front_back_end_dem.Longest.Laws.{longest-max, longest-eq-none_iff, longest-mem}
use nginx_front_back_end_dem.Router.{
  Route, PrefixRoute, Key, Router, add_route, set_roles, set_route_role, prefix_matches,
  find_prefix, find_route,
}

module _ {H : Type 0} where
  -- A route that is added answers for its method and path from then on, in place of whatever did;
  -- every other request finds the route that it found before.
  pub find_route-add_route :
      (method method' : Verb) (path path' : Text) (handler : H) (min_role : Option Role)
      (r : Router H)
      → find_route method' path' (add_route method path handler min_role r) ≡ (
          if verb_beq method method' && text_beq path path'
          then some (record { handler = handler; min_role = min_role })
          else find_route method' path' r)
  unfolding find_route add_route
  find_route-add_route method method' path path' handler min_role r = ground (
    arith,
    lookup-insert (method, path) (method', path')
        (record { handler = handler; min_role = min_role }) r.routes,
  )

  -- The table after `set_route_role`, entry by entry.
  lookup-set_roles :
      (path path' : Text) (method : Verb) (min_role : Option Role) (routes : Dict Key (Route H))
      → lookup (method, path') (set_roles path min_role routes).1
        ≡ Option.map
            (λ (route : Route H).
              if text_beq path' path then record route { min_role = min_role } else route)
            (lookup (method, path') routes)
  unfolding lookup set_roles
  lookup-set_roles path path' method min_role [] = refl
  lookup-set_roles path path' method min_role (((m, p), route) ∷ rest) = ground (
    arith,
    text_beq_iff p path,
    text_beq_iff p path',
    text_beq_iff path' path,
    lookup-set_roles path path' method min_role rest,
  )

  set_roles-found :
      (path : Text) (min_role : Option Role) (routes : Dict Key (Route H))
      → ((set_roles path min_role routes).0 ≡ false)
        ↔ All (λ (entry : Key × Route H). entry.0.1 ≢ path) routes
  unfolding set_roles
  set_roles-found path min_role [] = ground arith
  set_roles-found path min_role (((m, p), route) ∷ rest) =
      ground (arith, text_beq_iff p path, set_roles-found path min_role rest)

  -- `set_route_role` gives its role to every method's route at the path, keeps their handlers, and
  -- touches no other route and no prefix route; it reports `false` exactly when no route is there.
  set_route_role_lem :
      (path path' : Text) (method : Verb) (min_role : Option Role) (r : Router H)
      → let (found, r') = set_route_role path min_role r in
        (lookup (method, path') r'.routes
          ≡ Option.map
              (λ (route : Route H).
                if text_beq path' path then record route { min_role = min_role } else route)
              (lookup (method, path') r.routes))
        × (r'.prefix_routes ≡ r.prefix_routes)
        × ((found ≡ false) ↔ All (λ (entry : Key × Route H). entry.0.1 ≢ path) r.routes)
  unfolding set_route_role
  set_route_role_lem path path' method min_role r = (
    lookup-set_roles path path' method min_role r.routes,
    refl,
    set_roles-found path min_role r.routes,
  )

  -- What the search of the prefix routes may give: nothing, if none of them has the method and a prefix
  -- of the path; or one that has, and such that no other that has is for a longer prefix.
  abbrev pub IsLongestMatch : Verb → Text → List (PrefixRoute H) → Option (PrefixRoute H) → Type 0
  IsLongestMatch method path ps none = All (λ p. prefix_matches method path p ≡ false) ps
  IsLongestMatch method path ps (some best) =
      Memᴰ best ps
      × (best.method ≡ method)
      × (starts_with path best.prefix ≡ true)
      × All (λ p. prefix_matches method path p ≡ true → length p.prefix ≤ length best.prefix) ps

  -- A request without an exact route finds nothing only if no prefix route of its method has a prefix
  -- of its path; else it finds one of those, and none of them has a longer prefix.
  pub find_prefix_lem :
      (method : Verb) (path : Text) (ps : List (PrefixRoute H))
      → IsLongestMatch method path ps (find_prefix method path ps)
  unfolding find_prefix
  find_prefix_lem method path ps =
      let prefix_of : PrefixRoute H → Text = λ p. p.prefix in
      let matches = prefix_matches {H = H} method path in
      elim (Option-cases (find_prefix method path ps)) [
        | inl e ↦ rw e (longest-eq-none_iff prefix_of matches ps e)
        | inr (best, e) ↦
            let (held, hit) = longest-mem prefix_of matches ps best e in
            rw e (
              held,
              ground (arith, verb_beq_iff best.method method),
              ground arith,
              longest-max prefix_of matches none ps best e,
            )
      ]
