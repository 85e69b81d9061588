-- ===== src/Lighttpd.antt =====
-- backend/include/webengine/LighttpdController.hpp and backend/src/LighttpdController.cpp.
pub mod Contract
pub mod Disk
pub mod Pauses
pub mod Up
use nginx_front_back_end_dem.Prelude.{
  ℕ, Bool, true, false, not, Option, none, some, List, [], ◌∷◌, ◌++◌, Text, codes, if◌then◌else◌,
}
use nginx_front_back_end_dem.Decimal.{to_string}
use nginx_front_back_end_dem.Process.{Sys, is_running, read_pid, signal_pid, ensure_dir}
use nginx_front_back_end_dem.Server.{
  Options, Server, fail, ◌and_then◌, with_ports, is_zero, run_command, write_snippet, wait_while,
}

abbrev pub default_options : Options
default_options = record {
  bin = codes "/usr/sbin/lighttpd";
  paths = record {
    config = codes "/etc/lighttpd/lighttpd.conf";
    listen_file = codes "/etc/lighttpd/conf.d/listen.conf";
    pidfile = codes "/tmp/lighttpd.pid";
    temp_root = codes "/tmp/lighttpd";
  };
  ssl_pemfile = codes "/etc/lighttpd/ssl/server.pem";
  http_port = 8080;
  https_port = 8443;
  https_enabled = true;
}

-- `SIGINT`
abbrev pub sigint : ℕ
sigint = 2

unfoldable pub tls_socket : Options → Text
tls_socket o =
    codes "$SERVER[\"socket\"] == \"0.0.0.0:"
    ++ (to_string o.https_port
        ++ (codes "\" {\n    ssl.engine  = \"enable\"\n    ssl.pemfile = \""
            ++ (o.ssl_pemfile ++ codes "\"\n}\n")))

unfoldable pub listen_snippet : Options → Text
unfolding tls_socket
listen_snippet o =
    let http = codes "server.port = " ++ (to_string o.http_port ++ codes "\n") in
    if o.https_enabled then http ++ tls_socket o else http

module _ {W : Type 0} (sys : Sys W) where
  unfoldable pub run : List Text → Bool → Server W → Option ℕ × Server W
  run args capture s = run_command sys (codes "lighttpd") (s.opts.bin ∷ args) capture s

  unfoldable pub running : Server W → Bool
  running s = is_running sys s.opts.pidfile (codes "lighttpd") s.machine

  unfoldable pub ensure_dirs : Server W → Bool × Server W
  ensure_dirs s =
      let (ok, w) = ensure_dir sys s.opts.temp_root s.machine in
      let s' = record s { machine = w } in
      if ok then (true, s') else fail (codes "cannot create temp dir " ++ s.opts.temp_root) s'

  unfoldable pub write_listen_snippet : Server W → Bool × Server W
  write_listen_snippet s = write_snippet sys (listen_snippet s.opts) s

  unfoldable pub test_config : Server W → Bool × Server W
  test_config s =
      let (code, s') = run (codes "-tt" ∷ codes "-f" ∷ s.opts.config ∷ []) true s in
      (is_zero code, s')

  abbrev pub down : Server W → Bool
  down s = not (running s)

  -- Up to 30 rounds for the daemon's master to come up.
  unfoldable pub await_start : Server W → Bool × Server W
  await_start s =
      let s' = wait_while sys 30 down s in
      if running s'
      then (true, s')
      else fail (codes "lighttpd did not come up (port in use? see stderr)") s'

  unfoldable pub start : Server W → Bool × Server W
  unfolding await_start
  start s =
      let (code, s') = run (codes "-f" ∷ s.opts.config ∷ []) false s in
      if is_zero code
      then await_start s'
      else fail (codes "lighttpd failed to start (see stderr)") s'

  unfoldable pub on : Server W → Bool × Server W
  unfolding start
  on s =
      if running s
      then (true, s)
      else (ensure_dirs s and_then write_listen_snippet and_then test_config and_then start)

  unfoldable pub interrupt : Option ℕ → Server W → Bool × Server W
  interrupt none s = (true, s)
  interrupt (some pid) s =
      let (failed, w) = signal_pid sys pid sigint s.machine in
      elim failed [
        | none ↦ (true, record s { machine = w })
        | some error ↦ (false, record s { last_error = error; machine = w })
      ]

  unfoldable pub off : Server W → Bool × Server W
  unfolding interrupt
  off s = if running s then interrupt (read_pid sys s.opts.pidfile s.machine) s else (true, s)

  -- After `off()`: wait for the master to exit, up to 50 rounds.
  unfoldable pub await_exit : Server W → Bool × Server W
  await_exit s =
      let s' = wait_while sys 50 running s in
      if running s' then fail (codes "lighttpd did not stop within timeout") s' else (true, s')

  unfoldable pub reset : Server W → Bool × Server W
  unfolding await_exit
  reset s = if running s then (off s and_then await_exit and_then on) else on s

  unfoldable pub reload : Server W → Bool × Server W
  reload s =
      if running s then (test_config s and_then reset) else fail (codes "lighttpd is not running") s

  -- The snippet is put back for the old ports.
  unfoldable pub roll_back : ℕ → ℕ → Server W → Bool × Server W
  roll_back http https s = (false, (write_listen_snippet (with_ports http https s)).1)

  unfoldable pub apply_ports : ℕ → ℕ → Bool × Server W → Bool × Server W
  apply_ports http https (true, s) = (true, s)
  apply_ports http https (false, s) = roll_back http https s

  unfoldable pub after_write : ℕ → ℕ → Bool × Server W → Bool × Server W
  unfolding apply_ports roll_back
  after_write http https (false, s) = (false, with_ports http https s)
  after_write http https (true, s) =
      if running s then apply_ports http https (reload s) else (true, s)

  unfoldable pub set_listen_ports : ℕ → ℕ → Server W → Bool × Server W
  unfolding after_write
  set_listen_ports http https s =
      after_write s.opts.http_port s.opts.https_port
        (write_listen_snippet (with_ports http https s))

  unfoldable pub set_listen_port : ℕ → Server W → Bool × Server W
  set_listen_port http s = set_listen_ports http s.opts.https_port s
