-- ===== src/TestAuth/Accounts.antt =====
-- The accounts: each method of the provider against the one thing that the engine asks of it, which
-- name and password belong to which role.
use nginx_front_back_end_dem.Prelude.{
  ◌≡◌, refl, Bool, true, Option, none, some, List, [], ◌∷◌, Text, Dict, lookup, text_beq,
  text_beq_iff, text_eq, lookup-insert, lookup-erase, arith, is_some, if◌then◌else◌, Option-cases,
  inl, inr,
}
use mathlib.Core.Option
use nginx_front_back_end_dem.Role.{Role}
use nginx_front_back_end_dem.World.{World}
use nginx_front_back_end_dem.Auth.{UserInfo}
use nginx_front_back_end_dem.TestAuth.{
  Crypto, UserRecord, TestAuth, pbkdf2_hash, pbkdf2_verify, seed_user, authenticate, add_user,
  remove_user, set_user_role, list_users,
}

module _ (crypto : Crypto) where
  -- Where `add_user` returns, it returns true, and a hash of the password was made. After it the
  -- name has the new role for the passwords that this hash accepts and for no others, whatever its
  -- password was before; every other name is as before.
  pub authenticate-add_user :
      (w : World) (username password other guess : Text) (role : Role) (p p' : TestAuth)
      (done : Bool)
      → add_user crypto w username password role p ≡ some (done, p')
      → (hash : Text) × (pbkdf2_hash crypto w password ≡ some hash)
        × (done ≡ true)
        × (authenticate crypto p' other guess ≡ (
            if text_beq username other
            then (if pbkdf2_verify crypto guess hash then some role else none)
            else authenticate crypto p other guess))
  unfolding add_user seed_user authenticate
  authenticate-add_user w username password other guess role p p' done e =
      elim (Option-cases (pbkdf2_hash crypto w password)) [
        | inl failed ↦ absurd (ground arith)
        | inr (hash, made) ↦ (
          hash,
          made,
          ground arith,
          ground (
            arith,
            lookup-insert username other (record { password_hash = hash; role = role }) p.users,
          ),
        )
      ]

  -- `remove_user` and `set_user_role` report whether the name is known. After the first, nobody
  -- gets in under it; after the second, the same passwords give the new role. No other name changes.
  pub authenticate-remove_set :
      (username other guess : Text) (role : Role) (p : TestAuth)
      → ((remove_user username p).0 ≡ is_some (lookup username p.users))
        × ((set_user_role username role p).0 ≡ is_some (lookup username p.users))
        × (authenticate crypto (remove_user username p).1 other guess
            ≡ (if text_beq username other then none else authenticate crypto p other guess))
        × (authenticate crypto (set_user_role username role p).1 other guess ≡ (
            if text_beq username other
            then Option.map (λ _. role) (authenticate crypto p other guess)
            else authenticate crypto p other guess))
  unfolding remove_user set_user_role authenticate
  authenticate-remove_set username other guess role p = (
    ground arith,
    ground arith,
    ground (arith, lookup-erase username other p.users),
    elim (Option-cases (lookup username p.users)) [
      | inl unknown ↦ ground (arith, text_beq_iff username other)
      | inr (found, known) ↦ ground (
        arith,
        text_beq_iff username other,
        lookup-insert username other (record found { role = role }) p.users,
      )
    ],
  )

-- The first listed role of a name.
abbrev pub listed_role : Text → List UserInfo → Option Role
listed_role name [] = none
listed_role name (u ∷ us) = if text_beq u.username name then some u.role else listed_role name us

listed_role-users :
    (name : Text) (users : Dict Text UserRecord)
    → listed_role name (list_users (record { users = users }))
      ≡ Option.map (λ (r : UserRecord). r.role) (lookup name users)
unfolding list_users lookup
listed_role-users name [] = refl
listed_role-users name ((n, r) ∷ users) = ground (arith, listed_role-users name users)

-- Whoever can log in is listed, with the role that the login gives.
listed_role-list_users :
    (crypto : Crypto) (name guess : Text) (p : TestAuth) (role : Role)
    → authenticate crypto p name guess ≡ some role
    → listed_role name (list_users p) ≡ some role
unfolding authenticate
listed_role-list_users crypto name guess p role e = ground (arith, listed_role-users name p.users)
