-- ===== src/Admin.antt =====
-- The management handlers that backend/src/WebEngine.cpp registers in `enable_admin_endpoints`, with
-- the views that they print. A handler takes and returns what its closure captures, the access list or
-- the provider's state; `none` for a response is an exception.
pub mod Requests
use mathlib.Core.Option
use nginx_front_back_end_dem.Prelude.{
  Bool, true, false, Option, none, some, List, [], map, Text, codes, empty, get_or, if◌then◌else◌,
}
use nginx_front_back_end_dem.Role.{Role, role_name, role_from_string}
use nginx_front_back_end_dem.World.{World}
use nginx_front_back_end_dem.Auth.{UserInfo, AuthProvider}
use nginx_front_back_end_dem.Http.{Status, Request, Response, json}
use nginx_front_back_end_dem.Json.{
  AclEntryView, AclListView, UserView, UserListView, AclSetReq, PrefixReq, AddUserReq, UsernameReq,
  SetRoleReq, Parsed, Glaze, error_json, ok_json,
}
use nginx_front_back_end_dem.Acl.{AclEntry, Acl}
use nginx_front_back_end_dem.Acl

unfoldable pub acl_view : List AclEntry → AclListView
acl_view entries = record {
  entries = map (λ e. record { prefix = e.path_prefix; min_role = role_name e.min_role }) entries;
}

unfoldable pub user_view : List UserInfo → UserListView
user_view users = record {
  users = map (λ u. record { username = u.username; role = role_name u.role }) users;
}

infixl 5 ◌>>=◌
abbrev ◌>>=◌ : {A B : Type 0} → Option A → (A → Option B) → Option B
none >>= f = none
some a >>= f = f a

-- The value of a body that was read without an error.
abbrev pub read_ok : {A : Type 0} → Parsed A → Option A
read_ok r = if r.failed then none else some r.value

-- A field that is there and is not empty.
abbrev pub non_empty : Text → Option Text
non_empty s = if empty s then none else some s

-- The arguments of a request, `none` where the handler answers "required: ...".
unfoldable pub acl_set_args : Parsed AclSetReq → Option (Text × Role)
acl_set_args body = do
  req ← read_ok body
  prefix ← req.prefix
  prefix ← non_empty prefix
  name ← req.role
  min_role ← role_from_string name
  some (prefix, min_role)

unfoldable pub prefix_arg : Parsed PrefixReq → Option Text
prefix_arg body = do req ← read_ok body; prefix ← req.prefix; non_empty prefix

unfoldable pub add_user_args : Parsed AddUserReq → Option (Text × Text × Role)
add_user_args body = do
  req ← read_ok body
  username ← req.username
  username ← non_empty username
  password ← req.password
  password ← non_empty password
  name ← req.role
  role ← role_from_string name
  some (username, password, role)

unfoldable pub username_arg : Parsed UsernameReq → Option Text
username_arg body = do req ← read_ok body; username ← req.username; non_empty username

unfoldable pub set_role_args : Parsed SetRoleReq → Option (Text × Role)
set_role_args body = do
  req ← read_ok body
  username ← req.username
  username ← non_empty username
  name ← req.role
  role ← role_from_string name
  some (username, role)

module _ (glz : Glaze) where
  unfoldable pub acl_list : Acl → Response
  acl_list acl = json Status.ok (get_or (glz.write_acl_list (acl_view (Acl.list acl))) [])

  unfoldable pub acl_set : Request → Acl → Response × Acl
  acl_set req acl = elim (acl_set_args (glz.read_acl_set req.body)) [
    | none ↦ (
      error_json glz Status.bad_request
          (codes "required: prefix (string), role (admin|user|viewer|guest)"),
      acl,
    )
    | some (prefix, min_role) ↦ (ok_json, Acl.set prefix min_role acl)
  ]

  unfoldable pub acl_remove : Request → Acl → Response × Acl
  acl_remove req acl = elim (prefix_arg (glz.read_prefix req.body)) [
    | none ↦ (error_json glz Status.bad_request (codes "required: prefix (string)"), acl)
    | some prefix ↦ (ok_json, Acl.remove prefix acl)
  ]

  unfoldable pub read_only_error : Response
  read_only_error = error_json glz Status.not_implemented (codes "auth provider is read-only")

  unfoldable pub user_not_found : Response
  user_not_found = error_json glz Status.not_found (codes "user not found")

  -- The answer to a change of a user that must exist.
  unfoldable pub changed : {P : Type 0} → Option Bool × P → Option Response × P
  changed (none, p) = (none, p)
  changed (some true, p) = (some ok_json, p)
  changed (some false, p) = (some user_not_found, p)

  -- The answer to a new user: the result of `add_user` is dropped.
  unfoldable pub added : {P : Type 0} → Option Bool × P → Option Response × P
  added (none, p) = (none, p)
  added (some done, p) = (some ok_json, p)

  module _ {P : Type 0} (provider : AuthProvider P) where
    unfoldable pub users_list : P → Option Response
    users_list p =
        Option.map (λ users. json Status.ok (get_or (glz.write_user_list (user_view users)) []))
          (provider.list_users p)

    unfoldable pub users_add : World → Request → P → Option Response × P
    users_add w req p =
        if provider.supports_management p
        then (elim (add_user_args (glz.read_add_user req.body)) [
          | none ↦ (
            some (
                error_json glz Status.bad_request
                  (codes "required: username, password, role (admin|user|viewer|guest)")),
            p,
          )
          | some (username, password, role) ↦ added (provider.add_user w username password role p)
        ])
        else (some read_only_error, p)

    unfoldable pub users_remove : Request → P → Option Response × P
    users_remove req p =
        if provider.supports_management p
        then (elim (username_arg (glz.read_username req.body)) [
          | none ↦
              (some (error_json glz Status.bad_request (codes "required: username (string)")), p)
          | some username ↦ changed (provider.remove_user username p)
        ])
        else (some read_only_error, p)

    unfoldable pub users_set_role : Request → P → Option Response × P
    users_set_role req p =
        if provider.supports_management p
        then (elim (set_role_args (glz.read_set_role req.body)) [
          | none ↦ (
            some (
                error_json glz Status.bad_request
                  (codes "required: username, role (admin|user|viewer|guest)")),
            p,
          )
          | some (username, role) ↦ changed (provider.set_user_role username role p)
        ])
        else (some read_only_error, p)
