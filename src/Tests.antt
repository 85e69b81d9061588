-- ===== src/Tests.antt =====
-- Concrete worlds, readers, providers and requests, on which the theorems are tried in the modules
-- below this one.
pub mod Sessions
pub mod Gates
pub mod Rules
pub mod Accounts
pub mod Controllers
pub mod Connections
pub mod Loops
pub mod Overlaps
pub mod Fetches
pub mod Programs
pub mod Disks
pub mod Restarts
pub mod Waits
pub mod Threads
use nginx_front_back_end_dem.Prelude.{
  ℕ, zero, suc, ◌%◌, ◌&&◌, ◌≡◌, refl, Bool, true, false, Option, none, some, List, [], ◌∷◌, Text,
  codes, text_beq, text_beq_iff, if◌then◌else◌, All, length, arith, ◌<◌,
}
use nginx_front_back_end_dem.Role.{Role, viewer, user, admin}
use nginx_front_back_end_dem.World.{World}
use nginx_front_back_end_dem.Auth.{AuthProvider, read_only}
use nginx_front_back_end_dem.Http.{Verb, Request, Response, RequestContext, text, Status}
use nginx_front_back_end_dem.Json.{Glaze}
use nginx_front_back_end_dem.Hex.Laws.{IsByte}
use nginx_front_back_end_dem.TestAuth.{Crypto}
use nginx_front_back_end_dem.TestAuth.Password.{IsCrypto}
use nginx_front_back_end_dem.Engine.{Engine, new_engine, Handler}

abbrev pub copies : ℕ → ℕ → List ℕ
copies zero b = []
copies (suc n) b = b ∷ copies n b

pub copies-IsByte : (n b : ℕ) → IsByte b → All IsByte (copies n b)
copies-IsByte zero b h = tt
copies-IsByte (suc n) b h = (h, copies-IsByte n b h)

pub length-copies : (n b : ℕ) → length (copies n b) ≡ n
length-copies zero b = refl
length-copies (suc n) b = omega (arith, length-copies n b)

-- A machine at a time, whose random bytes are all the same and which has one file.
abbrev pub world_at : ℕ → World
world_at t = record {
  now = t;
  rand_bytes = λ n. some (copies n 171);
  read_file = λ path. if text_beq path (codes "/srv/a.txt") then some (codes "hello") else none;
}

-- The same machine with a secret outside of `/srv`.
abbrev pub leaky_world : World
leaky_world = record {
  now = 0;
  rand_bytes = λ n. some (copies n 171);
  read_file = λ path.
      if text_beq path (codes "/srv/a.txt")
      then some (codes "hello")
      else if text_beq path (codes "/etc/passwd")
      then some (codes "secret")
      else none;
}

-- A reader that finds the same fields in every body.
abbrev pub glaze : Glaze
glaze = record {
  write_obj = λ fields. some (codes "{}");
  write_acl_list = λ view. some (codes "{}");
  write_user_list = λ view. some (codes "{}");
  read_login = λ body. record {
    failed = false;
    value = record { username = some (codes "ann"); password = some (codes "pw") };
  };
  read_acl_set = λ body. record {
    failed = false;
    value = record { prefix = some (codes "/docs"); role = some (codes "viewer") };
  };
  read_prefix = λ body. record { failed = false; value = record { prefix = some (codes "/docs") } };
  read_add_user = λ body. record {
    failed = false;
    value = record {
      username = some (codes "ann");
      password = some (codes "pw");
      role = some (codes "viewer");
    };
  };
  read_username =
      λ body. record { failed = false; value = record { username = some (codes "ann") } };
  read_set_role = λ body. record {
    failed = false;
    value = record { username = some (codes "ann"); role = some (codes "viewer") };
  };
}

-- A provider that knows one user.
abbrev pub ann_only : AuthProvider Unit
ann_only = read_only λ p name password. (
  some (if text_beq name (codes "ann") && text_beq password (codes "pw") then some user else none),
  p,
)

abbrev pub request : Verb → Text → Option Text → Request
request method target cookie = record {
  method = method;
  target = target;
  version = 11;
  cookie = cookie;
  authorization = none;
  x_original_uri = none;
  keep_alive = true;
  body = [];
}

-- A key of 32 times the first byte of the password.
abbrev pub first_byte : Text → ℕ
first_byte [] = 0
first_byte (c ∷ rest) = c % 256

abbrev pub toy_crypto : Crypto
toy_crypto = record {
  pbkdf2 = λ password salt n. copies 32 (first_byte password);
  same_key = text_beq;
}

first_byte-IsByte : (s : Text) → IsByte (first_byte s)
first_byte-IsByte [] = omega arith
first_byte-IsByte (c ∷ rest) = omega arith

pub toy_crypto-IsCrypto : IsCrypto toy_crypto
toy_crypto-IsCrypto = record {
  key_length = λ password salt n. length-copies 32 (first_byte password);
  key_bytes =
      λ password salt n. copies-IsByte 32 (first_byte password) (first_byte-IsByte password);
  same_key_iff = λ a b p q. text_beq_iff a b;
}

-- Application handlers that answer a fixed page.
abbrev pub run_page :
    {P : Type 0} → World → Text → RequestContext → Engine P Text → Option Response × Engine P Text
run_page w page ctx e = (some (text Status.ok page), e)
