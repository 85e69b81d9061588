-- ===== src/Factory/Reliable.antt =====
-- The listen file of the controller of each kind, on a disk that carries out every write.
use nginx_front_back_end_dem.Prelude.{ℕ, ◌≡◌, inl, inr, Bool, true, false, Text, Bool-cases}
use nginx_front_back_end_dem.Process.{Sys}
use nginx_front_back_end_dem.Process.Atomic.{IsFileSystem}
use nginx_front_back_end_dem.Server.{WebServer, nginx, lighttpd, Server, with_ports}
use nginx_front_back_end_dem.Server.Snippet.{LeavesFile, IsWritten}
use nginx_front_back_end_dem.Server.Reliable.{Reliable, write_snippet-IsWritten}
use nginx_front_back_end_dem.Nginx
use nginx_front_back_end_dem.Nginx.Disk as NginxDisk
use nginx_front_back_end_dem.Lighttpd
use nginx_front_back_end_dem.Lighttpd.Disk as LighttpdDisk
use nginx_front_back_end_dem.Factory.{methods_of}
use nginx_front_back_end_dem.Factory.Snippets.{snippet_of}

module _ {W : Type 0} (sys : Sys W) (law : IsFileSystem sys) (path : Text)
    (quiet : LeavesFile sys path) (reliable : Reliable sys) where
  nginx_apply-IsWritten :
      (http https : ℕ) (r : Bool × Server W)
      → IsWritten sys path Nginx.listen_snippet r.1
      → IsWritten sys path Nginx.listen_snippet (Nginx.apply_ports sys http https r).1
  unfolding Nginx.apply_ports Nginx.roll_back Nginx.write_listen_snippet
  nginx_apply-IsWritten http https (true, s) h = h
  nginx_apply-IsWritten http https (false, s) h =
      (write_snippet-IsWritten sys law reliable path Nginx.listen_snippet (with_ports http https s)
        h.0).1

  nginx_after_write-IsWritten :
      (http https : ℕ) (r : Bool × Server W)
      → (r.0 ≡ true) × IsWritten sys path Nginx.listen_snippet r.1
      → IsWritten sys path Nginx.listen_snippet (Nginx.after_write sys http https r).1
  unfolding Nginx.after_write
  nginx_after_write-IsWritten http https (false, s) (done, h) = cc
  nginx_after_write-IsWritten http https (true, s) (done, h) =
      elim (Bool-cases (Nginx.running sys s)) [
        | inl up ↦
            rw (up, Nginx.after_write)
              (nginx_apply-IsWritten http https (Nginx.reload sys s)
                (NginxDisk.reload-IsWritten sys law path quiet s h))
        | inr idle ↦ rw (idle, Nginx.after_write) h
      ]

  lighttpd_apply-IsWritten :
      (http https : ℕ) (r : Bool × Server W)
      → IsWritten sys path Lighttpd.listen_snippet r.1
      → IsWritten sys path Lighttpd.listen_snippet (Lighttpd.apply_ports sys http https r).1
  unfolding Lighttpd.apply_ports Lighttpd.roll_back Lighttpd.write_listen_snippet
  lighttpd_apply-IsWritten http https (true, s) h = h
  lighttpd_apply-IsWritten http https (false, s) h =
      (write_snippet-IsWritten sys law reliable path Lighttpd.listen_snippet
        (with_ports http https s) h.0).1

  lighttpd_after_write-IsWritten :
      (http https : ℕ) (r : Bool × Server W)
      → (r.0 ≡ true) × IsWritten sys path Lighttpd.listen_snippet r.1
      → IsWritten sys path Lighttpd.listen_snippet (Lighttpd.after_write sys http https r).1
  unfolding Lighttpd.after_write
  lighttpd_after_write-IsWritten http https (false, s) (done, h) = cc
  lighttpd_after_write-IsWritten http https (true, s) (done, h) =
      elim (Bool-cases (Lighttpd.running sys s)) [
        | inl up ↦
            rw (up, Lighttpd.after_write)
              (lighttpd_apply-IsWritten http https (Lighttpd.reload sys s)
                (LighttpdDisk.reload-IsWritten sys law path quiet s h))
        | inr idle ↦ rw (idle, Lighttpd.after_write) h
      ]

  -- Whatever was in the listen file, behind a call that sets ports it is the snippet of the options.
  pub set_listen_ports-IsWritten :
      (kind : WebServer) (http https : ℕ) (s : Server W)
      → s.opts.listen_file ≡ path
      → IsWritten sys path (snippet_of kind) ((methods_of sys kind).set_listen_ports http https s).1
  unfolding Nginx.set_listen_ports Nginx.write_listen_snippet Lighttpd.set_listen_ports
      Lighttpd.write_listen_snippet
  set_listen_ports-IsWritten nginx http https s at =
      nginx_after_write-IsWritten s.opts.http_port s.opts.https_port _ (
        write_snippet-IsWritten sys law reliable path Nginx.listen_snippet (with_ports http https s)
          at)
  set_listen_ports-IsWritten lighttpd http https s at =
      lighttpd_after_write-IsWritten s.opts.http_port s.opts.https_port _ (
        write_snippet-IsWritten sys law reliable path Lighttpd.listen_snippet
          (with_ports http https s) at)

  pub set_listen_port-IsWritten :
      (kind : WebServer) (http : ℕ) (s : Server W)
      → s.opts.listen_file ≡ path
      → IsWritten sys path (snippet_of kind) ((methods_of sys kind).set_listen_port http s).1
  unfolding Nginx.set_listen_port Lighttpd.set_listen_port
  set_listen_port-IsWritten nginx http s at =
      set_listen_ports-IsWritten nginx http s.opts.https_port s at
  set_listen_port-IsWritten lighttpd http s at =
      set_listen_ports-IsWritten lighttpd http s.opts.https_port s at
