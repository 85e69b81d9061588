-- ===== src/Factory/Restarts.antt =====
-- What a restart and a start leave running, for the controller of each kind.
use nginx_front_back_end_dem.Prelude.{◌≡◌, ◌⊎◌, refl, inl, inr, Bool, true, false, Bool-cases, sym}
use nginx_front_back_end_dem.Process.{Sys}
use nginx_front_back_end_dem.Server.{
  WebServer, nginx, lighttpd, Server, WebServerController, ◌and_then◌, wait_while,
}
use nginx_front_back_end_dem.Nginx
use nginx_front_back_end_dem.Lighttpd
use nginx_front_back_end_dem.Factory.{methods_of}

module _ {W : Type 0} (srv : WebServerController W) where
  -- A start from a state in which the server is seen down; or a failure, which is that of `off` or leaves
  -- a server that is seen running.
  abbrev pub Restarted : Server W → Bool × Server W → Type 0
  Restarted s r =
      ((u : Server W) × (srv.is_running u ≡ false) × (r ≡ srv.on u))
      ⊎ ((r.0 ≡ false) × ((r ≡ srv.off s) ⊎ (srv.is_running r.1 ≡ true)))

module _ {W : Type 0} (sys : Sys W) where
  nginx_exit-Restarted :
      (s u : Server W)
      → Restarted (methods_of sys nginx) s (Nginx.await_exit sys u and_then Nginx.on sys)
  unfolding Nginx.await_exit Nginx.running
  nginx_exit-Restarted s u =
      let left = wait_while sys 50 (Nginx.running sys) u in
      elim (Bool-cases (Nginx.running sys left)) [
        | inl up ↦ rw (up, Nginx.await_exit) (inr (refl, inr up))
        | inr gone ↦ rw (gone, Nginx.await_exit) (inl (left, gone, refl))
      ]

  nginx_off-Restarted :
      (s : Server W) (stopped : Bool × Server W)
      → Nginx.off sys s ≡ stopped
      → Restarted
          (methods_of sys nginx)
          s
          (stopped and_then Nginx.await_exit sys and_then Nginx.on sys)
  nginx_off-Restarted s (true, u) is = nginx_exit-Restarted s u
  nginx_off-Restarted s (false, u) is = inr (refl, inl (sym is))

  lighttpd_exit-Restarted :
      (s u : Server W)
      → Restarted (methods_of sys lighttpd) s (Lighttpd.await_exit sys u and_then Lighttpd.on sys)
  unfolding Lighttpd.await_exit Lighttpd.running
  lighttpd_exit-Restarted s u =
      let left = wait_while sys 50 (Lighttpd.running sys) u in
      elim (Bool-cases (Lighttpd.running sys left)) [
        | inl up ↦ rw (up, Lighttpd.await_exit) (inr (refl, inr up))
        | inr gone ↦ rw (gone, Lighttpd.await_exit) (inl (left, gone, refl))
      ]

  lighttpd_off-Restarted :
      (s : Server W) (stopped : Bool × Server W)
      → Lighttpd.off sys s ≡ stopped
      → Restarted
          (methods_of sys lighttpd)
          s
          (stopped and_then Lighttpd.await_exit sys and_then Lighttpd.on sys)
  lighttpd_off-Restarted s (true, u) is = lighttpd_exit-Restarted s u
  lighttpd_off-Restarted s (false, u) is = inr (refl, inl (sym is))

  -- Whatever the machine does: a restart comes down to a start from a state in which the server is seen
  -- down, so that it never starts a second server beside one that it sees; or it fails, either as
  -- `off` does, or with the server still seen running at the end of the wait.
  pub methods_of-Restarted :
      (kind : WebServer) (s : Server W)
      → Restarted (methods_of sys kind) s ((methods_of sys kind).reset s)
  unfolding Nginx.reset Lighttpd.reset
  methods_of-Restarted nginx s = elim (Bool-cases (Nginx.running sys s)) [
    | inl up ↦ rw (up, Nginx.reset) (nginx_off-Restarted s (Nginx.off sys s) refl)
    | inr idle ↦ rw (idle, Nginx.reset) (inl (s, idle, refl))
  ]
  methods_of-Restarted lighttpd s = elim (Bool-cases (Lighttpd.running sys s)) [
    | inl up ↦ rw (up, Lighttpd.reset) (lighttpd_off-Restarted s (Lighttpd.off sys s) refl)
    | inr idle ↦ rw (idle, Lighttpd.reset) (inl (s, idle, refl))
  ]
