-- ===== src/Nginx.antt =====
-- backend/include/webengine/NginxController.hpp and backend/src/NginxController.cpp.
pub mod Contract
pub mod Disk
pub mod Pauses
use nginx_front_back_end_dem.Prelude.{
  ℕ, Bool, true, false, ◌&&◌, Option, none, some, List, [], ◌∷◌, ◌++◌, Text, codes, if◌then◌else◌,
}
use nginx_front_back_end_dem.Decimal.{to_string}
use nginx_front_back_end_dem.Process.{Sys, is_running, ensure_dir}
use nginx_front_back_end_dem.Server.{
  Options, Server, fail, ◌and_then◌, with_ports, is_zero, run_command, write_snippet, wait_while,
}

abbrev pub default_options : Options
default_options = record {
  bin = codes "/usr/sbin/nginx";
  paths = record {
    config = codes "/etc/nginx/nginx.conf";
    listen_file = codes "/etc/nginx/conf.d/listen.conf";
    pidfile = codes "/tmp/nginx.pid";
    temp_root = codes "/tmp/nginx";
  };
  ssl_pemfile = [];
  http_port = 8080;
  https_port = 8443;
  https_enabled = true;
}

unfoldable pub listen_snippet : Options → Text
listen_snippet o =
    let http = codes "listen " ++ (to_string o.http_port ++ codes ";\n") in
    if o.https_enabled
    then http ++ (codes "listen " ++ (to_string o.https_port ++ codes " ssl;\n"))
    else http

module _ {W : Type 0} (sys : Sys W) where
  unfoldable pub run : List Text → Bool → Server W → Option ℕ × Server W
  run args capture s =
      run_command sys (codes "nginx")
        (s.opts.bin ∷ codes "-e" ∷ codes "stderr" ∷ codes "-c" ∷ s.opts.config ∷ args) capture s

  unfoldable pub running : Server W → Bool
  running s = is_running sys s.opts.pidfile (codes "nginx") s.machine

  -- Each directory is made in turn, whether those before it were or not.
  unfoldable pub make_dirs : List Text → Bool → W → Bool × W
  make_dirs [] ok w = (ok, w)
  make_dirs (path ∷ rest) ok w =
      let (made, w') = ensure_dir sys path w in make_dirs rest (made && ok) w'

  unfoldable pub ensure_dirs : Server W → Bool × Server W
  unfolding make_dirs
  ensure_dirs s =
      let root = s.opts.temp_root in
      let (ok, w) =
        make_dirs
          (root
            ∷ (root ++ codes "/client_body")
            ∷ (root ++ codes "/proxy")
            ∷ (root ++ codes "/fastcgi")
            ∷ (root ++ codes "/uwsgi")
            ∷ (root ++ codes "/scgi")
            ∷ [])
          true s.machine in
      let s' = record s { machine = w } in
      if ok then (true, s') else fail (codes "cannot create temp dirs under " ++ root) s'

  unfoldable pub write_listen_snippet : Server W → Bool × Server W
  write_listen_snippet s = write_snippet sys (listen_snippet s.opts) s

  unfoldable pub test_config : Server W → Bool × Server W
  test_config s = let (code, s') = run (codes "-t" ∷ []) true s in (is_zero code, s')

  unfoldable pub start : Server W → Bool × Server W
  start s =
      let (code, s') = run [] false s in
      if is_zero code
      then (true, s')
      else fail (codes "nginx failed to start (port in use? see stderr)") s'

  unfoldable pub on : Server W → Bool × Server W
  unfolding start
  on s =
      if running s
      then (true, s)
      else (ensure_dirs s and_then write_listen_snippet and_then test_config and_then start)

  unfoldable pub off : Server W → Bool × Server W
  off s =
      if running s
      then (let (code, s') = run (codes "-s" ∷ codes "quit" ∷ []) true s in (is_zero code, s'))
      else (true, s)

  unfoldable pub reload : Server W → Bool × Server W
  reload s =
      if running s
      then (test_config s and_then (λ s'.
          let (code, s'') = run (codes "-s" ∷ codes "reload" ∷ []) true s' in (is_zero code, s'')))
      else fail (codes "nginx is not running") s

  -- After `off()`: wait for the master to exit, up to 50 rounds.
  unfoldable pub await_exit : Server W → Bool × Server W
  await_exit s =
      let s' = wait_while sys 50 running s in
      if running s' then fail (codes "nginx did not stop within timeout") s' else (true, s')

  unfoldable pub reset : Server W → Bool × Server W
  unfolding await_exit
  reset s = if running s then (off s and_then await_exit and_then on) else on s

  -- The snippet is put back for the old ports.
  unfoldable pub roll_back : ℕ → ℕ → Server W → Bool × Server W
  roll_back http https s = (false, (write_listen_snippet (with_ports http https s)).1)

  unfoldable pub apply_ports : ℕ → ℕ → Bool × Server W → Bool × Server W
  apply_ports http https (true, s) = (true, s)
  apply_ports http https (false, s) = roll_back http https s

  unfoldable pub after_write : ℕ → ℕ → Bool × Server W → Bool × Server W
  unfolding apply_ports roll_back
  after_write http https (false, s) = (false, with_ports http https s)
  after_write http https (true, s) =
      if running s then apply_ports http https (reload s) else (true, s)

  unfoldable pub set_listen_ports : ℕ → ℕ → Server W → Bool × Server W
  unfolding after_write
  set_listen_ports http https s =
      after_write s.opts.http_port s.opts.https_port
        (write_listen_snippet (with_ports http https s))

  unfoldable pub set_listen_port : ℕ → Server W → Bool × Server W
  set_listen_port http s = set_listen_ports http s.opts.https_port s
