-- ===== src/Nginx/Contract.antt =====
-- The contract of the controllers, for nginx.
use nginx_front_back_end_dem.Prelude.{
  ℕ, ◌≡◌, refl, ap, ◌∙◌, Bool, true, false, List, [], ◌∷◌, Text, codes, arith, Bool-cases, inl, inr,
}
use nginx_front_back_end_dem.Process.{Sys}
use nginx_front_back_end_dem.Server.{Options, Server, with_ports, is_zero}
use nginx_front_back_end_dem.Server.Diagnosed.{
  Diagnosed, Reported, Diagnosed→Reported, and_then-Diagnosed, run_command-Diagnosed,
  write_snippet-Diagnosed, write_snippet-last_error, Committed, wait_while-opts,
}
use nginx_front_back_end_dem.Nginx.{
  run, running, ensure_dirs, listen_snippet, write_listen_snippet, test_config, start, on, off,
  reload, await_exit, reset, roll_back, apply_ports, after_write, set_listen_ports,
}

module _ {W : Type 0} (sys : Sys W) where
  ensure_dirs-Diagnosed : (s : Server W) → Diagnosed s.opts (ensure_dirs sys s)
  unfolding ensure_dirs
  ensure_dirs-Diagnosed s = ground arith

  write-Diagnosed : (s : Server W) → Diagnosed s.opts (write_listen_snippet sys s)
  unfolding write_listen_snippet
  write-Diagnosed s = write_snippet-Diagnosed sys (listen_snippet s.opts) s

  pub test_config-Diagnosed : (s : Server W) → Diagnosed s.opts (test_config sys s)
  unfolding test_config run
  test_config-Diagnosed s = run_command-Diagnosed sys _ _ true s

  at :
      {o : Options} (m : Server W → Bool × Server W)
      → ((s : Server W) → Diagnosed s.opts (m s))
      → (s : Server W) → s.opts ≡ o
      → Diagnosed o (m s)
  at m h s e = rw (← e) (h s)

  run-Diagnosed :
      (args : List Text) (capture : Bool) (s : Server W)
      → Diagnosed s.opts (is_zero (run sys args capture s).0, (run sys args capture s).1)
  unfolding run
  run-Diagnosed args capture s = run_command-Diagnosed sys _ _ capture s

  start-Diagnosed : (s : Server W) → Diagnosed s.opts (start sys s)
  unfolding start
  start-Diagnosed s = ground (arith, run-Diagnosed [] false s)

  pub on-Diagnosed : (s : Server W) → Diagnosed s.opts (on sys s)
  unfolding on
  on-Diagnosed s = elim (Bool-cases (running sys s)) [
    | inl up ↦ rw (up, on) (refl, λ e. absurd (ground arith))
    | inr down ↦
        rw (down, on)
          (and_then-Diagnosed _ (start sys)
            (and_then-Diagnosed _ (test_config sys)
              (and_then-Diagnosed _ (write_listen_snippet sys) (ensure_dirs-Diagnosed s)
                (at (write_listen_snippet sys) write-Diagnosed))
              (at (test_config sys) test_config-Diagnosed))
            (at (start sys) start-Diagnosed))
  ]

  pub off-Diagnosed : (s : Server W) → Diagnosed s.opts (off sys s)
  unfolding off
  off-Diagnosed s = ground (arith, run-Diagnosed (codes "-s" ∷ codes "quit" ∷ []) true s)

  pub reload-Diagnosed : (s : Server W) → Diagnosed s.opts (reload sys s)
  unfolding reload
  reload-Diagnosed s = elim (Bool-cases (running sys s)) [
    | inl up ↦
        rw (up, reload)
          (and_then-Diagnosed _ _ (test_config-Diagnosed s)
            (λ s' e. rw (← e) (run-Diagnosed (codes "-s" ∷ codes "reload" ∷ []) true s')))
    | inr down ↦ rw (down, reload) (refl, λ e. λ e'. ground arith)
  ]

  await_exit-Diagnosed : (s : Server W) → Diagnosed s.opts (await_exit sys s)
  unfolding await_exit
  await_exit-Diagnosed s = ground (arith, wait_while-opts sys 50 (running sys) s)

  pub reset-Diagnosed : (s : Server W) → Diagnosed s.opts (reset sys s)
  unfolding reset
  reset-Diagnosed s = elim (Bool-cases (running sys s)) [
    | inl up ↦
        rw (up, reset)
          (and_then-Diagnosed _ (on sys)
            (and_then-Diagnosed _ (await_exit sys) (off-Diagnosed s)
              (at (await_exit sys) await_exit-Diagnosed))
            (at (on sys) on-Diagnosed))
    | inr down ↦ rw (down, reset) (on-Diagnosed s)
  ]

  -- Whatever the machine does, each lifecycle method of the nginx controller (`on`, `off`, `reload`,
  -- `reset`) leaves the options as they were, and where it returns false, `last_error` is not empty.
  pub nginx_lifecycle-Reported :
      (s : Server W)
      → Reported s.opts (on sys s)
        × Reported s.opts (off sys s)
        × Reported s.opts (reload sys s)
        × Reported s.opts (reset sys s)
  nginx_lifecycle-Reported s =
      let report = Diagnosed→Reported s.opts in
      (
        report (on sys s) (on-Diagnosed s),
        report (off sys s) (off-Diagnosed s),
        report (reload sys s) (reload-Diagnosed s),
        report (reset sys s) (reset-Diagnosed s),
      )

  apply_ports-Committed :
      (http https : ℕ) (s : Server W) (r : Bool × Server W)
      → Diagnosed (with_ports http https s).opts r
      → Committed http https s (apply_ports sys s.opts.http_port s.opts.https_port r)
  unfolding apply_ports roll_back write_listen_snippet
  apply_ports-Committed http https s (true, s') (same, h) = same
  apply_ports-Committed http https s (false, s') (same, h) =
      let back = with_ports s.opts.http_port s.opts.https_port s' in
      (
        (write-Diagnosed back).0
            ∙ ap {A = Options}
                (λ o. record o { http_port = s.opts.http_port; https_port = s.opts.https_port })
                same,
        write_snippet-last_error sys (listen_snippet back.opts) back (h refl),
      )

  after_write-Committed :
      (http https : ℕ) (s : Server W) (r : Bool × Server W)
      → Diagnosed (with_ports http https s).opts r
      → Committed http https s (after_write sys s.opts.http_port s.opts.https_port r)
  unfolding after_write
  after_write-Committed http https s (false, s') (same, h) = (
    ap {A = Options}
        (λ o. record o { http_port = s.opts.http_port; https_port = s.opts.https_port }) same,
    h refl,
  )
  after_write-Committed http https s (true, s') (same, h) = elim (Bool-cases (running sys s')) [
    | inl up ↦
        rw (up, after_write)
          (apply_ports-Committed http https s (reload sys s') (rw (← same) (reload-Diagnosed s')))
    | inr down ↦ rw (down, after_write) same
  ]

  -- Whatever the machine does: where `set_listen_ports` of the nginx controller returns true, its
  -- options are the ones before with the two new ports, and where it returns false they are the ones
  -- before and `last_error` is not empty.
  pub nginx_ports-Committed :
      (http https : ℕ) (s : Server W) → Committed http https s (set_listen_ports sys http https s)
  unfolding set_listen_ports
  nginx_ports-Committed http https s =
      after_write-Committed http https s _ (write-Diagnosed (with_ports http https s))
