-- ===== src/Nginx/Pauses.antt =====
-- How long the nginx controller pauses.
use nginx_front_back_end_dem.Prelude.{
  ℕ, ◌≡◌, refl, ◌∙◌, Bool, true, false, ◌&&◌, List, [], ◌∷◌, ◌++◌, Text, codes, arith, Bool-cases,
  inl, inr,
}
use nginx_front_back_end_dem.Process.{Sys, ensure_dir}
use nginx_front_back_end_dem.Server.{Server, ◌and_then◌, with_ports, is_zero, wait_while}
use nginx_front_back_end_dem.Server.Pauses.{
  Sleeps, Within, and_then-Within, run_command-Within, wait_while-Within, write_snippet-Within,
}
use nginx_front_back_end_dem.Nginx.{
  run, running, make_dirs, ensure_dirs, write_listen_snippet, test_config, start, on, off, reload,
  await_exit, reset, roll_back, apply_ports, after_write, set_listen_ports,
}

module _ {W : Type 0} (sys : Sys W) (clock : Sleeps sys) where
  make_dirs-slept :
      (dirs : List Text) (ok : Bool) (w : W)
      → clock.slept (make_dirs sys dirs ok w).1 ≡ clock.slept w
  unfolding make_dirs ensure_dir
  make_dirs-slept [] ok w = refl
  make_dirs-slept (dir ∷ rest) ok w =
      make_dirs-slept rest ((sys.mkdir dir w).0 && ok) (sys.mkdir dir w).1 ∙ clock.slept-mkdir dir w

  ensure_dirs-Within : (s : Server W) → Within sys clock 0 s (ensure_dirs sys s).1
  unfolding ensure_dirs
  ensure_dirs-Within s =
      let root = s.opts.temp_root in
      let same =
        make_dirs-slept
          (root
            ∷ (root ++ codes "/client_body")
            ∷ (root ++ codes "/proxy")
            ∷ (root ++ codes "/fastcgi")
            ∷ (root ++ codes "/uwsgi")
            ∷ (root ++ codes "/scgi")
            ∷ [])
          true s.machine in
      ground (arith, same)

  run-Within :
      (args : List Text) (capture : Bool) (s : Server W)
      → Within sys clock 0 s (run sys args capture s).1
  unfolding run
  run-Within args capture s = run_command-Within sys clock _ _ capture s

  write-Within : (s : Server W) → Within sys clock 0 s (write_listen_snippet sys s).1
  unfolding write_listen_snippet
  write-Within s = write_snippet-Within sys clock _ s

  pub test_config-Within : (s : Server W) → Within sys clock 0 s (test_config sys s).1
  unfolding test_config
  test_config-Within s = run-Within (codes "-t" ∷ []) true s

  start-Within : (s : Server W) → Within sys clock 0 s (start sys s).1
  unfolding start
  start-Within s = elim (Bool-cases (is_zero (run sys [] false s).0)) [
    | inl up ↦ rw (up, start) (run-Within [] false s)
    | inr failed ↦ rw (failed, start) (run-Within [] false s)
  ]

  pub on-Within : (s : Server W) → Within sys clock 0 s (on sys s).1
  unfolding on
  on-Within s = elim (Bool-cases (running sys s)) [
    | inl up ↦ rw (up, on) (omega arith)
    | inr idle ↦
        let after = and_then-Within sys clock 0 0 s in
        let made = ensure_dirs sys s in
        let written = made and_then write_listen_snippet sys in
        rw (idle, on)
          (after (written and_then test_config sys) (start sys)
            (after written (test_config sys)
              (after made (write_listen_snippet sys) (ensure_dirs-Within s) write-Within)
              test_config-Within)
            start-Within)
  ]

  pub off-Within : (s : Server W) → Within sys clock 0 s (off sys s).1
  unfolding off
  off-Within s = elim (Bool-cases (running sys s)) [
    | inl up ↦ rw (up, off) (run-Within (codes "-s" ∷ codes "quit" ∷ []) true s)
    | inr idle ↦ rw (idle, off) (omega arith)
  ]

  pub reload-Within : (s : Server W) → Within sys clock 0 s (reload sys s).1
  unfolding reload
  reload-Within s = elim (Bool-cases (running sys s)) [
    | inl up ↦
        rw (up, reload)
          (and_then-Within sys clock 0 0 s (test_config sys s) _ (test_config-Within s)
            (λ t. run-Within (codes "-s" ∷ codes "reload" ∷ []) true t))
    | inr idle ↦ rw (idle, reload) (omega arith)
  ]

  await_exit-Within : (s : Server W) → Within sys clock 5000000 s (await_exit sys s).1
  unfolding await_exit
  await_exit-Within s =
      let waited = wait_while-Within sys clock 50 (running sys) s in
      elim (Bool-cases (running sys (wait_while sys 50 (running sys) s))) [
        | inl up ↦ rw (up, await_exit) waited
        | inr gone ↦ rw (gone, await_exit) waited
      ]

  pub reset-Within : (s : Server W) → Within sys clock 5000000 s (reset sys s).1
  unfolding reset
  reset-Within s = elim (Bool-cases (running sys s)) [
    | inl up ↦
        rw (up, reset)
          (and_then-Within sys clock 5000000 0 s (off sys s and_then await_exit sys) (on sys)
            (and_then-Within sys clock 0 5000000 s (off sys s) (await_exit sys) (off-Within s)
              await_exit-Within)
            on-Within)
    | inr idle ↦ let started = on-Within s in rw (idle, reset) (omega (arith, started))
  ]

  apply_ports-Within :
      (http https : ℕ) (s : Server W) (r : Bool × Server W)
      → Within sys clock 0 s r.1
      → Within sys clock 0 s (apply_ports sys http https r).1
  unfolding apply_ports roll_back
  apply_ports-Within http https s (true, t) h = h
  apply_ports-Within http https s (false, t) h =
      let back = write-Within (with_ports http https t) in omega (arith, back, h)

  after_write-Within :
      (http https : ℕ) (s : Server W) (r : Bool × Server W)
      → Within sys clock 0 s r.1
      → Within sys clock 0 s (after_write sys http https r).1
  unfolding after_write
  after_write-Within http https s (false, t) h = h
  after_write-Within http https s (true, t) h = elim (Bool-cases (running sys t)) [
    | inl up ↦
        let reloaded = reload-Within t in
        rw (up, after_write)
          (apply_ports-Within http https s (reload sys t) (omega (arith, reloaded, h)))
    | inr idle ↦ rw (idle, after_write) h
  ]

  pub set_listen_ports-Within :
      (http https : ℕ) (s : Server W) → Within sys clock 0 s (set_listen_ports sys http https s).1
  unfolding set_listen_ports
  set_listen_ports-Within http https s =
      after_write-Within _ _ s _ (write-Within (with_ports http https s))
