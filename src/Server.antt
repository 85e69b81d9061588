-- ===== src/Server.antt =====
-- backend/include/webengine/WebServerController.hpp: the controllers of the reverse proxy, as far as
-- the two implementations share them: their options, their state and the way their methods chain.
-- `Options` has the fields of both classes' `Options`; nginx reads no `ssl_pemfile`.
pub mod Diagnosed
pub mod Snippet
pub mod Reliable
pub mod Pauses
use nginx_front_back_end_dem.Prelude.{
  ℕ, zero, suc, Bool, true, false, not, Option, none, some, List, [], ◌++◌, Text, codes, empty,
  nat_beq, if◌then◌else◌,
}
use nginx_front_back_end_dem.Decimal.{to_string}
use nginx_front_back_end_dem.Process.{
  Sys, Spawned, spawn, is_running, write_file_atomic, ensure_dir,
}

pub data WebServer : Type 0 where
  nginx lighttpd : WebServer

pub record WebServerPaths : Type 0 where
  pub config : Text
  pub listen_file : Text
  pub pidfile : Text
  pub temp_root : Text

-- The ports are `uint16_t`: whoever sets them has cut them to 16 bits.
pub record Options : Type 0 where
  pub bin : Text
  pub paths : WebServerPaths
  pub open paths use *
  pub ssl_pemfile : Text
  pub http_port : ℕ
  pub https_port : ℕ
  pub https_enabled : Bool

-- A controller and the machine that it acts on.
pub record Server (W : Type 0) : Type 0 where
  pub opts : Options
  pub last_error : Text
  pub machine : W

-- The abstract class, over the state of a controller.
pub record WebServerController (W : Type 0) : Type 0 where
  pub on : Server W → Bool × Server W
  pub off : Server W → Bool × Server W
  pub reset : Server W → Bool × Server W
  pub reload : Server W → Bool × Server W
  pub set_listen_port : ℕ → Server W → Bool × Server W
  pub set_listen_ports : ℕ → ℕ → Server W → Bool × Server W
  pub is_running : Server W → Bool
  pub test_config : Server W → Bool × Server W

abbrev pub is_zero : Option ℕ → Bool
is_zero none = false
is_zero (some code) = nat_beq code 0

module _ {W : Type 0} where
  abbrev pub fail : Text → Server W → Bool × Server W
  fail message s = (false, record s { last_error = message })

  -- `if (!m) return false;` and on with the rest.
  infixl 5 ◌and_then◌
  abbrev pub ◌and_then◌ : Bool × Server W → (Server W → Bool × Server W) → Bool × Server W
  (true, s) and_then k = k s
  (false, s) and_then k = (false, s)

  abbrev pub with_ports : ℕ → ℕ → Server W → Server W
  with_ports http https s = record s {
    opts = record s.opts { http_port = http; https_port = https };
  }

  -- What `run` leaves in `last_error_`, and the exit code.
  unfoldable pub note_exit : Text → Spawned → Server W → Option ℕ × Server W
  note_exit name r s = elim r.code [
    | none ↦ (
      none,
      record s {
        last_error = if empty r.errmsg then name ++ codes " terminated abnormally" else r.errmsg;
      },
    )
    | some code ↦ (
      some code,
      if nat_beq code 0 then s else record s {
        last_error =
            if empty r.output
            then name ++ (codes " exited with code " ++ to_string code)
            else r.output;
      },
    )
  ]

module _ {W : Type 0} (sys : Sys W) where
  -- `spawn`, then `note_exit`.
  unfoldable pub run_command : Text → List Text → Bool → Server W → Option ℕ × Server W
  run_command name argv capture s =
      let (r, w) = spawn sys argv capture s.machine in note_exit name r (record s { machine = w })

  unfoldable pub write_snippet : Text → Server W → Bool × Server W
  write_snippet content s =
      let (failed, w) = write_file_atomic sys s.opts.listen_file content s.machine in
      elim failed [
        | none ↦ (true, record s { machine = w })
        | some error ↦ (false, record s { last_error = error; machine = w })
      ]

  -- A pause of a tenth of a second.
  unfoldable pub pause : Server W → Server W
  pause s = record s { machine = sys.usleep 100000 s.machine }

  -- `for (int i = 0; i < rounds && test; ++i) usleep(100 * 1000);`
  unfoldable pub wait_while : ℕ → (Server W → Bool) → Server W → Server W
  unfolding pause
  wait_while zero test s = s
  wait_while (suc rounds) test s = elim (test s) [
    | false ↦ s
    | true ↦ wait_while rounds test (pause s)
  ]
