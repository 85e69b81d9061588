-- ===== src/World.antt =====
-- What a request reads from outside the program: `std::chrono::steady_clock::now()` in the clock's
-- nanoseconds, read once for a request; OpenSSL's `RAND_bytes`, which fills a buffer of the given
-- size or fails (`none`); and the bytes of a file, `none` where it cannot be opened.
use nginx_front_back_end_dem.Prelude.{ℕ, Option, List, Text}

pub record World : Type 0 where
  pub now : ℕ
  pub rand_bytes : ℕ → Option (List ℕ)
  pub read_file : Text → Option Text
