-- ===== src/Router/Routes.antt =====
-- Predicates that every route of a table satisfies, prefix routes included.
use nginx_front_back_end_dem.Prelude.{
  ◌≡◌, ◌&&◌, Option, some, List, [], ◌∷◌, Text, Dict, All, arith, lookup, insert, Eq, Option-cases,
  Bool-cases, inl, inr, subst, text_beq, sym, pair_eq, text_eq,
}
use mathlib.Core.List.{Memᴰ}
use nginx_front_back_end_dem.Role.{Role}
use nginx_front_back_end_dem.Http.{Verb, verb_beq, verb_eq}
use nginx_front_back_end_dem.Longest.Laws.{longest-mem}
use nginx_front_back_end_dem.Router.{
  Route, PrefixRoute, Key, Router, add_route, put_prefix, add_prefix_route, prefix_matches,
  find_prefix, find_route,
}

module _ {ℓ κ ι} {K : Type ℓ} {V : Type κ} ⦃e : Eq K⦄ (G : V → Type ι) where
  All-insert :
      (k : K) (v : V) (m : Dict K V)
      → G v
      → All (λ (entry : K × V). G entry.1) m
      → All (λ (entry : K × V). G entry.1) (insert k v m)
  unfolding insert
  All-insert k v [] g h = (g, tt)
  All-insert k v ((j, w) ∷ m) g (first, rest) = elim (Bool-cases (e.beq j k)) [
    | inl same ↦ rw same (g, rest)
    | inr other ↦ rw other (first, All-insert k v m g rest)
  ]

  All-lookup :
      (k : K) (v : V) (m : Dict K V)
      → All (λ (entry : K × V). G entry.1) m
      → lookup k m ≡ some v
      → G v
  unfolding lookup
  All-lookup k v [] h found = cc
  All-lookup k v ((j, w) ∷ m) (first, rest) found = elim (Bool-cases (e.beq j k)) [
    | inl same ↦ let is_w : w ≡ v = ground arith in subst G is_w first
    | inr other ↦ All-lookup k v m rest (ground arith)
  ]

All-Mem {ℓ ι} : {A : Type ℓ} (G : A → Type ι) {x : A} (xs : List A) → All G xs → Memᴰ x xs → G x
All-Mem G [] h m = elim m [ ]
All-Mem G (y ∷ ys) (first, rest) (Memᴰ.head e) = subst G (sym e) first
All-Mem G (y ∷ ys) (first, rest) (Memᴰ.tail m) = All-Mem G ys rest m

module _ {ι} {H : Type 0} (G : Route H → Type ι) where
  abbrev route_of : PrefixRoute H → Route H
  route_of p = record { handler = p.handler; min_role = p.min_role }

  abbrev pub AllRoutes : Router H → Type ι
  AllRoutes r =
      All (λ (entry : Key × Route H). G entry.1) r.routes
      × All (λ (p : PrefixRoute H). G (route_of p)) r.prefix_routes

  pub add_route-AllRoutes :
      (method : Verb) (path : Text) (handler : H) (min_role : Option Role) (r : Router H)
      → G (record { handler = handler; min_role = min_role })
      → AllRoutes r
      → AllRoutes (add_route method path handler min_role r)
  unfolding add_route
  add_route-AllRoutes method path handler min_role r g (exact, prefixes) = (
    All-insert G (method, path) (record { handler = handler; min_role = min_role }) r.routes g
        exact,
    prefixes,
  )

  All-put_prefix :
      (method : Verb) (prefix : Text) (handler : H) (min_role : Option Role)
      (ps : List (PrefixRoute H))
      → G (record { handler = handler; min_role = min_role })
      → All (λ (p : PrefixRoute H). G (route_of p)) ps
      → All (λ (p : PrefixRoute H). G (route_of p)) (put_prefix method prefix handler min_role ps)
  unfolding put_prefix
  All-put_prefix method prefix handler min_role [] g h = (g, tt)
  All-put_prefix method prefix handler min_role (p ∷ ps) g (first, rest) =
      elim (Bool-cases (verb_beq p.method method && text_beq p.prefix prefix)) [
        | inl same ↦ rw same (g, rest)
        | inr other ↦ rw other (first, All-put_prefix method prefix handler min_role ps g rest)
      ]

  pub add_prefix_route-AllRoutes :
      (method : Verb) (prefix : Text) (handler : H) (min_role : Option Role) (r : Router H)
      → G (record { handler = handler; min_role = min_role })
      → AllRoutes r
      → AllRoutes (add_prefix_route method prefix handler min_role r)
  unfolding add_prefix_route
  add_prefix_route-AllRoutes method prefix handler min_role r g (exact, prefixes) =
      (exact, All-put_prefix method prefix handler min_role r.prefix_routes g prefixes)

  pub find_route-AllRoutes :
      (method : Verb) (path : Text) (r : Router H) (route : Route H)
      → AllRoutes r
      → find_route method path r ≡ some route
      → G route
  unfolding find_route find_prefix
  find_route-AllRoutes method path r route (exact, prefixes) found =
      elim (Option-cases (lookup (method, path) r.routes)) [
        | inl none_exact ↦ elim (Option-cases (find_prefix method path r.prefix_routes)) [
          | inl nothing ↦ absurd (ground arith)
          | inr (best, longest) ↦
              let held =
                longest-mem (λ (p : PrefixRoute H). p.prefix) (prefix_matches method path)
                  r.prefix_routes best longest in
              let is_best : route_of best ≡ route = ground arith in
              subst G is_best
                (All-Mem (λ (p : PrefixRoute H). G (route_of p)) r.prefix_routes prefixes held.0)
        ]
        | inr (held, is_exact) ↦
            let same : held ≡ route = ground arith in
            subst G same (All-lookup G (method, path) held r.routes exact is_exact)
      ]
