-- ===== src/Tests/Accounts.antt =====
-- Runs of the accounts and of the requests that manage them.
use nginx_front_back_end_dem.Prelude.{
  insert, ◌≡◌, ◌↔◌, refl, true, none, some, [], ◌∷◌, Text, codes, arith, text_beq, lookup,
  if◌then◌else◌,
}
use mathlib.Core.Option
use nginx_front_back_end_dem.Role.{viewer, admin}
use nginx_front_back_end_dem.Decimal.{pos}
use nginx_front_back_end_dem.Auth.{AuthProvider}
use nginx_front_back_end_dem.TestAuth.{
  seed_user, TestAuth, iterations, stored_hash, pbkdf2_hash, pbkdf2_verify, authenticate, add_user,
  remove_user, set_user_role,
}
use nginx_front_back_end_dem.TestAuth.Password.{pbkdf2_verify-pbkdf2_hash}
use nginx_front_back_end_dem.TestAuth.Accounts.{authenticate-add_user, authenticate-remove_set}
use nginx_front_back_end_dem.Tests.{
  world_at, copies, copies-IsByte, ann_only, toy_crypto, toy_crypto-IsCrypto,
}

abbrev password : Text
password = codes "pw"

abbrev hash : Text
hash = stored_hash (copies 16 171) (copies 32 112)

abbrev accounts : TestAuth
accounts = record { users = (codes "ann", record { password_hash = hash; role = viewer }) ∷ [] }

pbkdf2_verify-pbkdf2_hash_example : (pbkdf2_verify toy_crypto (codes "other") hash ≡ true) ↔ (
    toy_crypto.pbkdf2 (codes "other") (copies 16 171) (pos iterations)
    ≡ toy_crypto.pbkdf2 password (copies 16 171) (pos iterations))
unfolding pbkdf2_hash
pbkdf2_verify-pbkdf2_hash_example =
    pbkdf2_verify-pbkdf2_hash toy_crypto toy_crypto-IsCrypto (world_at 0) password (codes "other")
      hash (copies 16 171) refl (copies-IsByte 16 171 (omega arith)) refl

authenticate-add_user_example :
    (made : Text) × (pbkdf2_hash toy_crypto (world_at 0) password ≡ some made)
    × (true ≡ true)
    × (authenticate toy_crypto accounts (codes "ann") password
        ≡ (if pbkdf2_verify toy_crypto password made then some viewer else none))
unfolding add_user seed_user pbkdf2_hash insert pbkdf2_verify text_beq
authenticate-add_user_example =
    authenticate-add_user toy_crypto (world_at 0) (codes "ann") password (codes "ann") password
      viewer (record { users = [] }) accounts true refl

authenticate-remove_set_example :
    ((remove_user (codes "ann") accounts).0 ≡ true)
    × ((set_user_role (codes "ann") admin accounts).0 ≡ true)
    × (authenticate toy_crypto (remove_user (codes "ann") accounts).1 (codes "ann") password ≡ none)
    × (authenticate toy_crypto (set_user_role (codes "ann") admin accounts).1 (codes "ann") password
        ≡ Option.map (λ _. admin) (authenticate toy_crypto accounts (codes "ann") password))
unfolding lookup text_beq authenticate
authenticate-remove_set_example =
    authenticate-remove_set toy_crypto (codes "ann") (codes "ann") password admin accounts

-- A provider that refuses to add users.
abbrev full : AuthProvider Unit
full = record ann_only { supports_management = λ p. true }
