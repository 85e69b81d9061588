-- ===== src/Factory/Snippets.antt =====
-- The listen file of the controller of each kind.
use nginx_front_back_end_dem.Prelude.{ℕ, ◌≡◌, Text}
use nginx_front_back_end_dem.Process.{Sys}
use nginx_front_back_end_dem.Process.Atomic.{IsFileSystem}
use nginx_front_back_end_dem.Server.{
  WebServer, nginx, lighttpd, Options, Server, WebServerController,
}
use nginx_front_back_end_dem.Server.Snippet.{LeavesFile, IsWritten, Stored}
use nginx_front_back_end_dem.Nginx
use nginx_front_back_end_dem.Nginx.Disk as NginxDisk
use nginx_front_back_end_dem.Lighttpd
use nginx_front_back_end_dem.Lighttpd.Disk as LighttpdDisk
use nginx_front_back_end_dem.Factory.{methods_of}

abbrev pub snippet_of : WebServer → Options → Text
snippet_of nginx o = Nginx.listen_snippet o
snippet_of lighttpd o = Lighttpd.listen_snippet o

-- What a client may rely on for the listen file.
pub record KeepsSnippet {W : Type 0} (sys : Sys W) (path : Text) (snippet : Options → Text)
    (srv : WebServerController W) : Type 0 where
  pub on_keeps :
      (s : Server W) → IsWritten sys path snippet s → IsWritten sys path snippet (srv.on s).1
  pub off_keeps :
      (s : Server W) → IsWritten sys path snippet s → IsWritten sys path snippet (srv.off s).1
  pub reset_keeps :
      (s : Server W) → IsWritten sys path snippet s → IsWritten sys path snippet (srv.reset s).1
  pub reload_keeps :
      (s : Server W) → IsWritten sys path snippet s → IsWritten sys path snippet (srv.reload s).1
  pub port_stored :
      (http : ℕ) (s : Server W)
      → s.opts.listen_file ≡ path
      → Stored sys path snippet http s.opts.https_port s (srv.set_listen_port http s)
  pub ports_stored :
      (http https : ℕ) (s : Server W)
      → s.opts.listen_file ≡ path
      → Stored sys path snippet http https s (srv.set_listen_ports http https s)

-- On a file system that behaves as documented, where only the controller writes the listen file: `on`,
-- `off`, `reset` and `reload` keep the file equal to the snippet of the options. The two methods that
-- set ports leave, where they return true, options with the new ports and their snippet in the file;
-- where they return false, the file is as it was, or the snippet of the options before, or the
-- snippet of the new ports, the last only if the write of the snippet of the options before has failed.
pub methods_of-KeepsSnippet :
    {W : Type 0} (sys : Sys W) (path : Text) (kind : WebServer)
    → IsFileSystem sys
    → LeavesFile sys path
    → KeepsSnippet sys path (snippet_of kind) (methods_of sys kind)
unfolding Nginx.set_listen_port Lighttpd.set_listen_port
methods_of-KeepsSnippet sys path nginx law quiet = record {
  on_keeps = NginxDisk.on-IsWritten sys law path quiet;
  off_keeps = NginxDisk.off-IsWritten sys law path quiet;
  reset_keeps = NginxDisk.reset-IsWritten sys law path quiet;
  reload_keeps = NginxDisk.reload-IsWritten sys law path quiet;
  port_stored =
      λ http s at. NginxDisk.set_listen_ports-Stored sys law path quiet http s.opts.https_port s at;
  ports_stored = NginxDisk.set_listen_ports-Stored sys law path quiet;
}
methods_of-KeepsSnippet sys path lighttpd law quiet = record {
  on_keeps = LighttpdDisk.on-IsWritten sys law path quiet;
  off_keeps = LighttpdDisk.off-IsWritten sys law path quiet;
  reset_keeps = LighttpdDisk.reset-IsWritten sys law path quiet;
  reload_keeps = LighttpdDisk.reload-IsWritten sys law path quiet;
  port_stored = λ http s at.
      LighttpdDisk.set_listen_ports-Stored sys law path quiet http s.opts.https_port s at;
  ports_stored = LighttpdDisk.set_listen_ports-Stored sys law path quiet;
}
