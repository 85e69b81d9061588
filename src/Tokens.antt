-- ===== src/Tokens.antt =====
-- backend/src/TokenStore.hpp: the session tokens. A time is a number of the steady clock's
-- nanoseconds, which does not wrap; the mutex makes each method one step.
pub mod Laws
use nginx_front_back_end_dem.Prelude.{
  ℕ, ◌+◌, ◌*◌, Option, none, some, List, Text, Dict, lookup, insert, erase, text_eq, ltb,
  if◌then◌else◌,
}
use nginx_front_back_end_dem.Role.{Role}
use nginx_front_back_end_dem.World.{World}
use nginx_front_back_end_dem.Hex.{to_hex}

pub record TokenEntry : Type 0 where
  pub username : Text
  pub role : Role
  pub expires_at : ℕ

pub record TokenStore : Type 0 where
  pub store : Dict Text TokenEntry

-- `std::chrono::hours(8)`, the default lifetime, in seconds.
abbrev pub default_ttl : ℕ
default_ttl = 8 * 3600

-- The clock's ticks in a number of seconds.
abbrev pub ticks : ℕ → ℕ
ticks seconds = seconds * 1000000000

-- The bytes drawn for a token.
abbrev pub token_bytes : ℕ
token_bytes = 32

abbrev pub new_entry : World → Text → Role → ℕ → TokenEntry
new_entry w username role ttl = record {
  username = username;
  role = role;
  expires_at = w.now + ticks ttl;
}

-- `none` is the exception that `RAND_bytes` failed.
unfoldable pub issue : World → Text → Role → ℕ → TokenStore → Option (Text × TokenStore)
issue w username role ttl tokens = elim (w.rand_bytes token_bytes) [
  | none ↦ none
  | some buf ↦ some (
    to_hex buf,
    record { store = insert (to_hex buf) (new_entry w username role ttl) tokens.store },
  )
]

unfoldable pub validate : World → Text → TokenStore → Option TokenEntry
validate w token tokens = elim (lookup token tokens.store) [
  | none ↦ none
  | some entry ↦ if ltb entry.expires_at w.now then none else some entry
]

unfoldable pub revoke : Text → TokenStore → TokenStore
revoke token tokens = record { store = erase token tokens.store }
