-- ===== src/Factory/Pauses.antt =====
-- How long a call of the controller of each kind pauses.
use nginx_front_back_end_dem.Prelude.{ℕ, ◌+◌}
use nginx_front_back_end_dem.Process.{Sys}
use nginx_front_back_end_dem.Server.{WebServer, nginx, lighttpd, Server}
use nginx_front_back_end_dem.Server.Pauses.{Sleeps, Within}
use nginx_front_back_end_dem.Nginx
use nginx_front_back_end_dem.Nginx.Pauses as NginxPauses
use nginx_front_back_end_dem.Lighttpd
use nginx_front_back_end_dem.Lighttpd.Pauses as LighttpdPauses
use nginx_front_back_end_dem.Factory.{methods_of}

-- nginx is up when its start returns; lighttpd is looked for for 3 seconds.
abbrev pub start_pause : WebServer → ℕ
start_pause nginx = 0
start_pause lighttpd = 3000000

-- A reload of lighttpd is a restart: at most 5 seconds for the end of the old server, and its start.
abbrev pub reload_pause : WebServer → ℕ
reload_pause nginx = 0
reload_pause lighttpd = 8000000

module _ {W : Type 0} (sys : Sys W) (clock : Sleeps sys) where
  -- Of the machine it is asked only that it counts the microseconds that `usleep` is called for. Each
  -- call of a controller then comes back with bounded pauses: no longer than `start_pause` for `on`, none
  -- for `off` and `test_config`, 5 seconds more than `start_pause` for `reset`, and `reload_pause` for
  -- `reload` and for a change of the ports.
  pub methods_of-Within :
      (kind : WebServer) (http https : ℕ) (s : Server W)
      → let srv = methods_of sys kind in
        Within sys clock (start_pause kind) s (srv.on s).1
        × Within sys clock 0 s (srv.off s).1
        × Within sys clock 0 s (srv.test_config s).1
        × Within sys clock (5000000 + start_pause kind) s (srv.reset s).1
        × Within sys clock (reload_pause kind) s (srv.reload s).1
        × Within sys clock (reload_pause kind) s (srv.set_listen_ports http https s).1
        × Within sys clock (reload_pause kind) s (srv.set_listen_port http s).1
  unfolding Nginx.set_listen_port Lighttpd.set_listen_port
  methods_of-Within nginx http https s = (
    NginxPauses.on-Within sys clock s,
    NginxPauses.off-Within sys clock s,
    NginxPauses.test_config-Within sys clock s,
    NginxPauses.reset-Within sys clock s,
    NginxPauses.reload-Within sys clock s,
    NginxPauses.set_listen_ports-Within sys clock http https s,
    NginxPauses.set_listen_ports-Within sys clock http s.opts.https_port s,
  )
  methods_of-Within lighttpd http https s = (
    LighttpdPauses.on-Within sys clock s,
    LighttpdPauses.off-Within sys clock s,
    LighttpdPauses.test_config-Within sys clock s,
    LighttpdPauses.reset-Within sys clock s,
    LighttpdPauses.reload-Within sys clock s,
    LighttpdPauses.set_listen_ports-Within sys clock http https s,
    LighttpdPauses.set_listen_ports-Within sys clock http s.opts.https_port s,
  )
