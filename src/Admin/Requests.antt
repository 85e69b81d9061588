-- ===== src/Admin/Requests.antt =====
-- What the management handlers answer and change.
use nginx_front_back_end_dem.Prelude.{
  ◌≡◌, ◌≢◌, ◌↔◌, ◌⊎◌, refl, inl, inr, Bool, Option, none, true, false, some, [], Text, arith,
  Option-cases,
}
use nginx_front_back_end_dem.Role.{Role, role_from_string}
use nginx_front_back_end_dem.World.{World}
use nginx_front_back_end_dem.Auth.{AuthProvider}
use nginx_front_back_end_dem.Http.{Status, Request, json}
use nginx_front_back_end_dem.Json.{AclSetReq, Parsed, Glaze, error_json, ok_json}
use nginx_front_back_end_dem.Acl.{Acl}
use nginx_front_back_end_dem.Acl
use nginx_front_back_end_dem.Admin.{
  acl_set_args, username_arg, add_user_args, acl_set, read_only_error, changed, added, users_add,
  users_remove, users_set_role,
}

ok_json-status : ok_json.status ≡ Status.ok
unfolding ok_json json
ok_json-status = refl

error_json-status :
    (glz : Glaze) (status : Status) (message : Text)
    → (error_json glz status message).status ≡ status
unfolding error_json json
error_json-status glz status message = refl

-- A body that asks for this rule: read without an error, with a prefix that is not empty and the name
-- of a role.
pub record AsksRule (body : Parsed AclSetReq) (prefix : Text) (min_role : Role) : Type 0 where
  pub read : body.failed ≡ false
  prefix_given : body.value.prefix ≡ some prefix
  pub prefix_filled : prefix ≢ []
  pub name : Text
  pub name_given : body.value.role ≡ some name
  pub role_named : role_from_string name ≡ some min_role

acl_set_args-AsksRule :
    (body : Parsed AclSetReq) (prefix : Text) (min_role : Role)
    → (acl_set_args body ≡ some (prefix, min_role)) ↔ AsksRule body prefix min_role
unfolding acl_set_args
acl_set_args-AsksRule body prefix min_role = (asks, λ a. ground (arith, a.role_named))
  where
    asks : acl_set_args body ≡ some (prefix, min_role) → AsksRule body prefix min_role
    asks e = elim (Option-cases body.value.role) [
      | inl absent ↦ absurd (ground arith)
      | inr (name, given) ↦ record {
        read = ground arith;
        prefix_given = ground arith;
        prefix_filled = ground arith;
        name = name;
        name_given = given;
        role_named = ground arith;
      }
    ]

module _ (glz : Glaze) where
  changed-state : {P : Type 0} (r : Option Bool × P) → (changed glz r).1 ≡ r.1
  unfolding changed
  changed-state (none, p) = refl
  changed-state (some true, p) = refl
  changed-state (some false, p) = refl

  pub users_remove-state :
      {P : Type 0} (provider : AuthProvider P) (req : Request) (p : P) (username : Text)
      → provider.supports_management p ≡ true
      → username_arg (glz.read_username req.body) ≡ some username
      → (users_remove glz provider req p).1 ≡ (provider.remove_user username p).1
  unfolding users_remove
  users_remove-state provider req p username managed named =
      ground (arith, changed-state (provider.remove_user username p))

  -- A request that asks for a rule is answered 200 and sets exactly that rule; one that asks for none
  -- is answered 400 and changes nothing.
  acl_set-AsksRule :
      (req : Request) (acl : Acl)
      → let (res, acl') = acl_set glz req acl in
        ((prefix : Text) × (min_role : Role) × AsksRule (glz.read_acl_set req.body) prefix min_role
          × (res.status ≡ Status.ok)
          × (acl' ≡ Acl.set prefix min_role acl))
        ⊎ (((prefix : Text) (min_role : Role)
              → ¬ AsksRule (glz.read_acl_set req.body) prefix min_role)
            × (res.status ≡ Status.bad_request)
            × (acl' ≡ acl))
  unfolding acl_set
  acl_set-AsksRule req acl =
      let asked = acl_set_args-AsksRule (glz.read_acl_set req.body) in
      elim (Option-cases (acl_set_args (glz.read_acl_set req.body))) [
        | inl absent ↦ inr (
          (λ prefix min_role a. ground (arith, (asked prefix min_role).1 a)),
          rw (absent, acl_set) (error_json-status glz Status.bad_request _),
          rw (absent, acl_set) refl,
        )
        | inr ((prefix, min_role), given) ↦ inl (
          prefix,
          min_role,
          (asked prefix min_role).0 given,
          rw (given, acl_set) ok_json-status,
          rw (given, acl_set) refl,
        )
      ]

  -- On a provider that does not manage users, the three requests that change a user are answered 501,
  -- whatever they hold, and the provider is not called.
  pub users_read_only :
      {P : Type 0} (provider : AuthProvider P) (w : World) (req : Request) (p : P)
      → provider.supports_management p ≡ false
      → ((users_add glz provider w req p ≡ (some (read_only_error glz), p))
          × (users_remove glz provider req p ≡ (some (read_only_error glz), p))
          × (users_set_role glz provider req p ≡ (some (read_only_error glz), p)))
        × ((read_only_error glz).status ≡ Status.not_implemented)
  unfolding users_add users_remove users_set_role read_only_error
  users_read_only provider w req p fixed =
      ((ground arith, ground arith, ground arith), error_json-status glz Status.not_implemented _)

  -- On a provider that manages users, a request that names a new user, a password and a role is
  -- answered 200 whether the provider reports success or failure.
  users_add-any_result :
      {P : Type 0} (provider : AuthProvider P) (w : World) (req : Request) (p p' : P)
      (username password : Text) (role : Role) (done : Bool)
      → provider.supports_management p ≡ true
      → add_user_args (glz.read_add_user req.body) ≡ some (username, password, role)
      → provider.add_user w username password role p ≡ (some done, p')
      → users_add glz provider w req p ≡ (some ok_json, p')
  unfolding users_add added
  users_add-any_result provider w req p p' username password role done managed asked added =
      ground arith
