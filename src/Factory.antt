-- ===== src/Factory.antt =====
-- backend/src/WebServerFactory.cpp: the kinds of server by name, and a controller for a kind.
pub mod Names
pub mod Snippets
pub mod Reliable
pub mod Restarts
pub mod Pauses
use nginx_front_back_end_dem.Prelude.{
  ℕ, ◌+◌, ◌&&◌, Option, none, some, map, Text, codes, empty, text_beq, leb, if◌then◌else◌,
}
use nginx_front_back_end_dem.Server.{
  WebServer, nginx, lighttpd, WebServerPaths, Options, Server, WebServerController,
}
use nginx_front_back_end_dem.Process.{Sys}
use nginx_front_back_end_dem.Nginx
use nginx_front_back_end_dem.Lighttpd

unfoldable pub to_string : WebServer → Text
to_string lighttpd = codes "lighttpd"
to_string nginx = codes "nginx"

-- `std::tolower` in the C locale.
unfoldable pub tolower : ℕ → ℕ
tolower c = if leb b'A' c && leb c b'Z' then c + 32 else c

unfoldable pub web_server_from_string : Text → Option WebServer
unfolding tolower
web_server_from_string name =
    let s = map tolower name in
    if text_beq s (codes "nginx")
    then some nginx
    else if text_beq s (codes "lighttpd")
    then some lighttpd
    else none

-- A path that is not empty takes the place of the default.
unfoldable pub overridden : Text → Text → Text
overridden given default = if empty given then default else given

unfoldable pub apply : WebServerPaths → Options → Options
unfolding overridden
apply paths o = record o {
  paths = record {
    config = overridden paths.config o.config;
    listen_file = overridden paths.listen_file o.listen_file;
    pidfile = overridden paths.pidfile o.pidfile;
    temp_root = overridden paths.temp_root o.temp_root;
  };
}

abbrev pub default_of : WebServer → Options
default_of nginx = Nginx.default_options
default_of lighttpd = Lighttpd.default_options

-- The controller that is made, as its state on a machine.
unfoldable pub make_web_server_controller : {W : Type 0} → WebServer → WebServerPaths → W → Server W
unfolding apply
make_web_server_controller kind paths machine = record {
  opts = apply paths (default_of kind);
  last_error = codes "";
  machine = machine;
}

-- The methods of the class that the kind selects.
abbrev pub methods_of : {W : Type 0} → Sys W → WebServer → WebServerController W
methods_of sys nginx = record {
  on = Nginx.on sys;
  off = Nginx.off sys;
  reset = Nginx.reset sys;
  reload = Nginx.reload sys;
  set_listen_port = Nginx.set_listen_port sys;
  set_listen_ports = Nginx.set_listen_ports sys;
  is_running = Nginx.running sys;
  test_config = Nginx.test_config sys;
}
methods_of sys lighttpd = record {
  on = Lighttpd.on sys;
  off = Lighttpd.off sys;
  reset = Lighttpd.reset sys;
  reload = Lighttpd.reload sys;
  set_listen_port = Lighttpd.set_listen_port sys;
  set_listen_ports = Lighttpd.set_listen_ports sys;
  is_running = Lighttpd.running sys;
  test_config = Lighttpd.test_config sys;
}
