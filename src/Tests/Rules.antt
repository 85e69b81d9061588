-- ===== src/Tests/Rules.antt =====
-- Runs of the access list, the tokens and the table of routes.
use nginx_front_back_end_dem.Prelude.{
  ℕ, ◌≡◌, insert, refl, false, Option, none, some, List, [], ◌∷◌, Text, codes, text_beq, pair_eq,
  text_eq,
}
use nginx_front_back_end_dem.Role.{guest, viewer, user, admin, role_satisfies}
use nginx_front_back_end_dem.Http.{Verb, verb_eq}
use nginx_front_back_end_dem.Acl.{Acl, authorize, set, remove}
use nginx_front_back_end_dem.Acl.Scan.{rule_of, longest_rule}
use nginx_front_back_end_dem.Acl.Rules.{authorize-longest_rule, authorize-set_remove}
use nginx_front_back_end_dem.Tokens.{TokenStore, issue, validate, new_entry}
use nginx_front_back_end_dem.Tokens.Laws.{validate-issue}
use nginx_front_back_end_dem.Hex.{to_hex}
use nginx_front_back_end_dem.Router.{PrefixRoute, Router, add_route, find_prefix}
use nginx_front_back_end_dem.Router.Table.{IsLongestMatch, find_prefix_lem}
use nginx_front_back_end_dem.Tests.{world_at, copies}

abbrev rules : Acl
rules = record {
  entries =
      record { path_prefix = codes "/"; min_role = user }
      ∷ record { path_prefix = codes "/docs"; min_role = guest }
      ∷ [];
}

authorize-longest_rule_example :
    authorize rules guest (codes "/docs/a")
    ≡ role_satisfies guest (longest_rule (rule_of rules.entries) (codes "/docs/a") 7)
authorize-longest_rule_example = authorize-longest_rule rules guest (codes "/docs/a")

authorize-set_remove_example :
    (authorize (set (codes "/docs") admin rules) viewer (codes "/docs/a") ≡ false)
    × (authorize (remove (codes "/docs") rules) viewer (codes "/docs/a") ≡ false)
unfolding role_satisfies text_beq
authorize-set_remove_example =
    authorize-set_remove rules (codes "/docs") (codes "/docs/a") admin viewer

abbrev one_token : Option (Text × TokenStore)
one_token = issue (world_at 5) (codes "ann") user 10 (record { store = [] })

abbrev token : Text
token = to_hex (copies 32 171)

abbrev issued : TokenStore
issued = record { store = (token, new_entry (world_at 5) (codes "ann") user 10) ∷ [] }

validate-issue_example :
    validate (world_at 6) token issued ≡ some (new_entry (world_at 5) (codes "ann") user 10)
unfolding issue insert text_beq to_hex
validate-issue_example =
    validate-issue (world_at 5) (world_at 6) (codes "ann") token token user 10
      (record { store = [] }) issued refl

abbrev routes : Router ℕ
routes =
    add_route Verb.get (codes "/a") 1 none
      (add_route Verb.post (codes "/a") 2 (some user) (record { routes = []; prefix_routes = [] }))

abbrev prefixes : List (PrefixRoute ℕ)
prefixes =
    record { method = Verb.get; prefix = codes "/docs"; handler = 1; min_role = none }
    ∷ record { method = Verb.get; prefix = codes "/docs/x"; handler = 2; min_role = none }
    ∷ []

find_prefix_example :
    IsLongestMatch Verb.get
      (codes "/docs/xy")
      prefixes
      (find_prefix Verb.get (codes "/docs/xy") prefixes)
find_prefix_example = find_prefix_lem Verb.get (codes "/docs/xy") prefixes
