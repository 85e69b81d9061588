-- ===== src/Process.antt =====
-- backend/src/ProcessUtil.hpp and backend/src/ProcessUtil.cpp: processes, pidfiles and files. The
-- operating system is the parameter `Sys`, over a state `W` of the machine; a call that fails gives
-- the text that `strerror` has for it. A result of -1 is `none`.
pub mod Atomic
use nginx_front_back_end_dem.Prelude.{
  ℕ, ◌+◌, ◌-◌, ◌%◌, ◌^◌, Bool, true, false, not, Option, none, some, List, [], ◌∷◌, ◌++◌, Text,
  codes, leb, ltb, nat_beq, find, find_char, take, is_some, if◌then◌else◌, length,
}
use mathlib.Core.Option
use nginx_front_back_end_dem.Hex.{skip_spaces}
use nginx_front_back_end_dem.Decimal.{to_string, read_digits}

-- How a launch ended: before the child ran, or with what the child wrote, if that is captured, and
-- its exit code, `none` if it did not exit by itself.
pub data Launch : Type 0 where
  no_pipe no_spawn : Text → Launch
  ended : Text → Option ℕ → Launch

pub record Sys (W : Type 0) : Type 0 where
  -- `pipe`, `posix_spawnp`, `read` to the end of the pipe, `waitpid`
  pub launch : List Text → Bool → W → Launch × W
  pub read_file : Text → W → Option Text
  -- `kill(pid, sig)`; `none` for success
  pub kill : ℕ → ℕ → W → Option Text × W
  -- `std::ofstream o(path, std::ios::trunc)`; `o << content; o.flush()`
  pub open_trunc : Text → W → Bool × W
  pub write_flush : Text → Text → W → Bool × W
  pub rename : Text → Text → W → Option Text × W
  pub remove : Text → W → W
  -- `mkdir`: made, or `EEXIST`
  pub mkdir : Text → W → Bool × W
  pub usleep : ℕ → W → W

pub record Spawned : Type 0 where
  pub code : Option ℕ
  pub output : Text
  pub errmsg : Text

abbrev pub name_of : List Text → Text
name_of [] = []
name_of (a ∷ rest) = a

unfoldable pub spawned : List Text → Bool → Launch → Spawned
spawned argv capture (no_pipe error) = record {
  code = none;
  output = [];
  errmsg = codes "pipe() failed: " ++ error;
}
spawned argv capture (no_spawn error) = record {
  code = none;
  output = [];
  errmsg = codes "posix_spawnp(" ++ (name_of argv ++ (codes ") failed: " ++ error));
}
spawned argv capture (ended output code) = record {
  code = code;
  output = if capture then output else [];
  errmsg = [];
}

-- `f >> pid` for a `long`: 0 where no number stands there, the largest one beyond the range, and
-- `none` for what is not positive.
unfoldable pub extract_pid : Text → Option ℕ
unfolding skip_spaces read_digits
extract_pid s = elim (skip_spaces s) [
  | [] ↦ none
  | c ∷ rest ↦
      let n = read_digits 0 (if nat_beq c b'+' then rest else c ∷ rest) in
      if nat_beq n 0 then none else if ltb n (2 ^ 63) then some n else some (2 ^ 63 - 1)
]

-- `std::getline`
unfoldable pub first_line : Text → Text
first_line s = elim (find_char s 10) [ none ↦ s | some n ↦ take n s ]

-- `static_cast<pid_t>(pid)`, as the bit pattern of an `int`.
abbrev pub pid_t : ℕ → ℕ
pid_t pid = pid % 2 ^ 32

unfoldable pub tmp_of : Text → Text
tmp_of path = path ++ codes ".tmp"

module _ {W : Type 0} (sys : Sys W) where
  unfoldable pub spawn : List Text → Bool → W → Spawned × W
  spawn argv capture w = let (l, w') = sys.launch argv capture w in (spawned argv capture l, w')

  unfoldable pub read_pid : Text → W → Option ℕ
  read_pid pidfile w = elim (sys.read_file pidfile w) [ none ↦ none | some s ↦ extract_pid s ]

  unfoldable pub pid_is : ℕ → Text → W → Bool
  pid_is pid name_substr w =
      elim (sys.read_file (codes "/proc/" ++ (to_string pid ++ codes "/comm")) w) [
        | none ↦ false
        | some s ↦ is_some (find (first_line s) name_substr)
      ]

  -- The probe `kill(pid, 0)` sends nothing, so it is read as an observation.
  unfoldable pub is_running : Text → Text → W → Bool
  is_running pidfile name_substr w = elim (read_pid pidfile w) [
    | none ↦ false
    | some pid ↦ if is_some (sys.kill (pid_t pid) 0 w).0 then false else pid_is pid name_substr w
  ]

  -- The error message, `none` for success.
  unfoldable pub signal_pid : ℕ → ℕ → W → Option Text × W
  signal_pid pid sig w =
      let (failed, w') = sys.kill (pid_t pid) sig w in
      (
        Option.map
            (λ error.
              codes "kill("
              ++ (to_string pid
                  ++ (codes ", " ++ (to_string sig ++ (codes ") failed: " ++ error)))))
            failed,
        w',
      )

  -- After the flush: the promotion of the temporary file.
  unfoldable pub promote : Text → W → Option Text × W
  promote path w =
      let (failed, w') = sys.rename (tmp_of path) path w in
      elim failed [
        | none ↦ (none, w')
        | some error ↦ (
          some (codes "rename to " ++ (path ++ (codes " failed: " ++ error))),
          sys.remove (tmp_of path) w',
        )
      ]

  unfoldable pub fill : Text → Text → W → Option Text × W
  unfolding promote
  fill path content w =
      let (written, w') = sys.write_flush (tmp_of path) content w in
      if written then promote path w' else (
        some (codes "failed writing " ++ (tmp_of path ++ codes " (disk full?)")),
        sys.remove (tmp_of path) w',
      )

  -- The error message, `none` for success.
  unfoldable pub write_file_atomic : Text → Text → W → Option Text × W
  unfolding fill
  write_file_atomic path content w =
      let (opened, w') = sys.open_trunc (tmp_of path) w in
      if opened
      then fill path content w'
      else (some (codes "cannot write " ++ (tmp_of path ++ codes " (permission?)")), w')

  unfoldable pub ensure_dir : Text → W → Bool × W
  ensure_dir path w = sys.mkdir path w
