-- ===== src/TestAuth.antt =====
-- backend/include/webengine/TestAuthProvider.hpp: the in-memory provider with salted password hashes.
-- OpenSSL's PBKDF2 and its constant-time comparison are parameters. The hash is computed outside the
-- lock from the arguments alone, so a method is one step on the map.
pub mod Password
pub mod Accounts
use nginx_front_back_end_dem.Prelude.{
  ℕ, suc, ◌+◌, ◌-◌, Bool, true, false, Option, none, some, List, [], ◌∷◌, ◌++◌, map, Text, codes,
  Dict, lookup, insert, erase, text_eq, length, take, drop, find_char, nat_beq, is_some,
  if◌then◌else◌,
}
use mathlib.Core.Option
use nginx_front_back_end_dem.Role.{Role, admin, user, viewer}
use nginx_front_back_end_dem.World.{World}
use nginx_front_back_end_dem.Auth.{UserInfo, AuthProvider}
use nginx_front_back_end_dem.Hex.{to_hex, from_hex}
use nginx_front_back_end_dem.Decimal.{ℤ, pos, to_string, stoi}

pub record Crypto : Type 0 where
  -- `PKCS5_PBKDF2_HMAC` with SHA-256 and a key of `KEY_LEN` bytes, of a password, a salt and the
  -- iterations.
  pub pbkdf2 : Text → List ℕ → ℤ → List ℕ
  -- `CRYPTO_memcmp(a, b, KEY_LEN) == 0`
  pub same_key : List ℕ → List ℕ → Bool

abbrev pub iterations : ℕ
iterations = 200000

abbrev pub salt_len : ℕ
salt_len = 16

abbrev pub key_len : ℕ
key_len = 32

pub record UserRecord : Type 0 where
  pub password_hash : Text
  pub role : Role

pub record TestAuth : Type 0 where
  pub users : Dict Text UserRecord

-- "iterations:salt_hex:key_hex"
unfoldable pub stored_hash : List ℕ → List ℕ → Text
stored_hash salt key = to_string iterations ++ (b':' ∷ (to_hex salt ++ (b':' ∷ to_hex key)))

-- `s.find(c, from)`
unfoldable pub find_from : Text → ℕ → ℕ → Option ℕ
find_from s c from = Option.map (λ n. from + n) (find_char (drop from s) c)

module _ (crypto : Crypto) where
  -- `none` is the exception that `RAND_bytes` failed.
  unfoldable pub pbkdf2_hash : World → Text → Option Text
  pbkdf2_hash w password =
      Option.map (λ salt. stored_hash salt (crypto.pbkdf2 password salt (pos iterations)))
        (w.rand_bytes salt_len)

  -- With the three parts at hand.
  unfoldable pub verify_parts : Text → Option ℤ → List ℕ → List ℕ → Bool
  verify_parts password none salt expected = false
  verify_parts password (some n) salt expected =
      if nat_beq (length expected) key_len
      then crypto.same_key (crypto.pbkdf2 password salt n) expected
      else false

  unfoldable pub pbkdf2_verify : Text → Text → Bool
  pbkdf2_verify password stored = elim (find_char stored b':') [
    | none ↦ false
    | some p1 ↦ elim (find_from stored b':' (p1 + 1)) [
      | none ↦ false
      | some p2 ↦
          verify_parts password (stoi (take p1 stored))
            (from_hex (take (p2 - p1 - 1) (drop (p1 + 1) stored))) (from_hex (drop (p2 + 1) stored))
    ]
  ]

  unfoldable pub seed_user : World → Text → Text → Role → TestAuth → Option TestAuth
  seed_user w username password role p =
      Option.map
        (λ hash.
          let r : UserRecord = record { password_hash = hash; role = role } in
          record { users = insert username r p.users })
        (pbkdf2_hash w password)

  unfoldable pub authenticate : TestAuth → Text → Text → Option Role
  authenticate p username password = elim (lookup username p.users) [
    | none ↦ none
    | some found ↦ if pbkdf2_verify password found.password_hash then some found.role else none
  ]

  unfoldable pub add_user : World → Text → Text → Role → TestAuth → Option (Bool × TestAuth)
  add_user w username password role p =
      Option.map (λ p'. (true, p')) (seed_user w username password role p)

unfoldable pub remove_user : Text → TestAuth → Bool × TestAuth
remove_user username p =
    (is_some (lookup username p.users), record { users = erase username p.users })

unfoldable pub set_user_role : Text → Role → TestAuth → Bool × TestAuth
set_user_role username role p = elim (lookup username p.users) [
  | none ↦ (false, p)
  | some found ↦ (true, record { users = insert username (record found { role = role }) p.users })
]

unfoldable pub list_users : TestAuth → List UserInfo
list_users p = map (λ entry. record { username = entry.0; role = entry.1.role }) p.users

-- An exception of `add_user` comes before the accounts are touched.
abbrev reported : TestAuth → Option (Bool × TestAuth) → Option Bool × TestAuth
reported p none = (none, p)
reported p (some (done, p')) = (some done, p')

unfoldable pub test_auth_provider : Crypto → AuthProvider TestAuth
test_auth_provider crypto = record {
  authenticate = λ p username password. (some (authenticate crypto p username password), p);
  supports_management = λ p. true;
  add_user = λ w username password role p. reported p (add_user crypto w username password role p);
  remove_user = λ username p. let (removed, p') = remove_user username p in (some removed, p');
  set_user_role =
      λ username role p. let (found, p') = set_user_role username role p in (some found, p');
  list_users = λ p. some (list_users p);
}

infixl 5 ◌>>=◌
abbrev ◌>>=◌ : Option TestAuth → (TestAuth → Option TestAuth) → Option TestAuth
none >>= f = none
some p >>= f = f p

-- The constructor's accounts; the three draws of a salt are three readings of the world.
unfoldable pub new_test_auth : Crypto → World → World → World → Option TestAuth
unfolding seed_user
new_test_auth crypto w1 w2 w3 = do
  p1 ← seed_user crypto w1 (codes "admin") (codes "admin123") admin (record { users = [] })
  p2 ← seed_user crypto w2 (codes "alice") (codes "user123") user p1
  seed_user crypto w3 (codes "viewer") (codes "viewer123") viewer p2
