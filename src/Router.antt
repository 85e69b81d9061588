-- ===== src/Router.antt =====
-- backend/src/Router.hpp and backend/src/Router.cpp: the table of routes and the dispatch of a
-- request. `H` is the type of handlers; what a handler does to the state `S` of the whole engine is
-- the parameter `run`, which gives `none` for a response where the handler throws. The copy of the
-- handler and of its role under the lock is the value that `find_route` returns.
pub mod Table
pub mod Gate
pub mod Answers
pub mod Routes
use nginx_front_back_end_dem.Prelude.{
  ◌≡◌, Bool, true, false, ◌&&◌, ◌||◌, Option, none, some, List, [], ◌∷◌, Text, codes, Dict, lookup,
  insert, text_beq, text_eq, pair_eq, starts_with, find_char, take, if◌then◌else◌,
}
use nginx_front_back_end_dem.Role.{Role, role_satisfies}
use nginx_front_back_end_dem.Auth.{UserInfo}
use nginx_front_back_end_dem.World.{World}
use nginx_front_back_end_dem.Http.{
  Verb, verb_beq, verb_eq, Status, Request, Response, RequestContext, text,
}
use nginx_front_back_end_dem.Json.{Glaze, error_json}
use nginx_front_back_end_dem.Longest.{longest}
use nginx_front_back_end_dem.Tokens.{TokenEntry, TokenStore}
use nginx_front_back_end_dem.Cookies.{validated_token}

pub record Route (H : Type 0) : Type 0 where
  pub handler : H
  pub min_role : Option Role

pub record PrefixRoute (H : Type 0) : Type 0 where
  pub method : Verb
  pub prefix : Text
  pub handler : H
  pub min_role : Option Role

abbrev pub Key : Type 0
Key = Verb × Text

pub record Router (H : Type 0) : Type 0 where
  pub routes : Dict Key (Route H)
  pub prefix_routes : List (PrefixRoute H)

module _ {H : Type 0} where
  unfoldable pub add_route : Verb → Text → H → Option Role → Router H → Router H
  add_route method path handler min_role r = record r {
    routes = insert (method, path) (record { handler = handler; min_role = min_role }) r.routes;
  }

  unfoldable pub put_prefix :
      Verb → Text → H → Option Role → List (PrefixRoute H) → List (PrefixRoute H)
  put_prefix method prefix handler min_role [] =
      record { method = method; prefix = prefix; handler = handler; min_role = min_role } ∷ []
  put_prefix method prefix handler min_role (p ∷ ps) =
      if verb_beq p.method method && text_beq p.prefix prefix
      then record p { handler = handler; min_role = min_role } ∷ ps
      else p ∷ put_prefix method prefix handler min_role ps

  unfoldable pub add_prefix_route : Verb → Text → H → Option Role → Router H → Router H
  add_prefix_route method prefix handler min_role r = record r {
    prefix_routes = put_prefix method prefix handler min_role r.prefix_routes;
  }

  -- The loop over the table: its entries with the new role, and whether one was at the path.
  unfoldable pub set_roles : Text → Option Role → Dict Key (Route H) → Bool × Dict Key (Route H)
  set_roles path min_role [] = (false, [])
  set_roles path min_role (((method, p), route) ∷ rest) =
      let (found, rest') = set_roles path min_role rest in
      if text_beq p path
      then (true, ((method, p), record route { min_role = min_role }) ∷ rest')
      else (found, ((method, p), route) ∷ rest')

  unfoldable pub set_route_role : Text → Option Role → Router H → Bool × Router H
  set_route_role path min_role r =
      let (found, routes) = set_roles path min_role r.routes in
      (found, record r { routes = routes })

  abbrev pub prefix_matches : Verb → Text → PrefixRoute H → Bool
  prefix_matches method path p = verb_beq p.method method && starts_with path p.prefix

  unfoldable pub find_prefix : Verb → Text → List (PrefixRoute H) → Option (PrefixRoute H)
  find_prefix method path =
      longest (λ (p : PrefixRoute H). p.prefix) (prefix_matches method path) none

  abbrev pub as_route : Option (PrefixRoute H) → Option (Route H)
  as_route none = none
  as_route (some best) = some (record { handler = best.handler; min_role = best.min_role })

  -- The exact route, else the one with the longest matching prefix.
  unfoldable pub find_route : Verb → Text → Router H → Option (Route H)
  find_route method path r = elim (lookup (method, path) r.routes) [
    | none ↦ as_route (find_prefix method path r.prefix_routes)
    | some route ↦ some route
  ]

-- The target without its query string.
unfoldable pub path_of : Text → Text
path_of target = elim (find_char target b'?') [ none ↦ target | some q ↦ take q target ]

pub data Verdict : Type 0 where
  refused : Response → Verdict
  admitted : Option UserInfo → Verdict

abbrev pub caller_of : TokenEntry → UserInfo
caller_of entry = record { username = entry.username; role = entry.role }

module _ (glz : Glaze) where
  unfoldable pub authentication_required : Response
  authentication_required = error_json glz Status.unauthorized (codes "authentication required")

  unfoldable pub insufficient_permissions : Response
  insufficient_permissions = error_json glz Status.forbidden (codes "insufficient permissions")

  unfoldable pub handler_threw : Response
  handler_threw = error_json glz Status.internal_server_error (codes "internal server error")

  -- Who may pass with a given session, if there is one.
  unfoldable pub admit : Role → Option TokenEntry → Verdict
  admit need none = refused authentication_required
  admit need (some entry) =
      if role_satisfies entry.role need
      then admitted (some (caller_of entry))
      else refused insufficient_permissions

  unfoldable pub gate : World → Request → TokenStore → Option Role → Verdict
  gate w req tokens none = admitted none
  gate w req tokens (some need) = admit need (validated_token w req tokens)

  module _ {H S : Type 0} (router_of : S → Router H) (tokens_of : S → TokenStore)
      (run : World → H → RequestContext → S → Option Response × S) where
    -- `catch (...)`: the state is as the handler left it.
    unfoldable pub contain : Option Response × S → Response × S
    contain (none, s) = (handler_threw, s)
    contain (some res, s) = (res, s)

    unfoldable pub call : World → Request → Route H → S → Response × S
    unfolding contain
    call w req route s = elim (gate w req (tokens_of s) route.min_role) [
      | refused res ↦ (res, s)
      | admitted caller ↦
          contain (run w route.handler (record { request = req; caller = caller }) s)
    ]

    unfoldable pub dispatch : World → Request → S → Response × S
    unfolding call
    dispatch w req s = elim (find_route req.method (path_of req.target) (router_of s)) [
      | none ↦ (text Status.not_found (codes "Not Found"), s)
      | some route ↦ call w req route s
    ]
