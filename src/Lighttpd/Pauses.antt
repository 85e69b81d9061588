-- ===== src/Lighttpd/Pauses.antt =====
-- How long the lighttpd controller pauses.
use nginx_front_back_end_dem.Prelude.{
  ℕ, Bool, true, false, List, [], ◌∷◌, Text, codes, arith, Bool-cases, Option, none, some, inl, inr,
}
use nginx_front_back_end_dem.Process.{Sys, ensure_dir, signal_pid, pid_t}
use nginx_front_back_end_dem.Server.{Server, ◌and_then◌, with_ports, is_zero, wait_while}
use nginx_front_back_end_dem.Server.Pauses.{
  Sleeps, Within, and_then-Within, run_command-Within, wait_while-Within, write_snippet-Within,
}
use nginx_front_back_end_dem.Lighttpd.{
  run, running, down, sigint, interrupt, await_start, ensure_dirs, write_listen_snippet,
  test_config, start, on, off, reload, await_exit, reset, roll_back, apply_ports, after_write,
  set_listen_ports,
}

module _ {W : Type 0} (sys : Sys W) (clock : Sleeps sys) where
  ensure_dirs-Within : (s : Server W) → Within sys clock 0 s (ensure_dirs sys s).1
  unfolding ensure_dirs ensure_dir
  ensure_dirs-Within s = ground (arith, clock.slept-mkdir s.opts.temp_root s.machine)

  run-Within :
      (args : List Text) (capture : Bool) (s : Server W)
      → Within sys clock 0 s (run sys args capture s).1
  unfolding run
  run-Within args capture s = run_command-Within sys clock _ _ capture s

  write-Within : (s : Server W) → Within sys clock 0 s (write_listen_snippet sys s).1
  unfolding write_listen_snippet
  write-Within s = write_snippet-Within sys clock _ s

  pub test_config-Within : (s : Server W) → Within sys clock 0 s (test_config sys s).1
  unfolding test_config
  test_config-Within s = run-Within (codes "-tt" ∷ codes "-f" ∷ s.opts.config ∷ []) true s

  await_start-Within : (s : Server W) → Within sys clock 3000000 s (await_start sys s).1
  unfolding await_start
  await_start-Within s =
      let waited = wait_while-Within sys clock 30 (down sys) s in
      elim (Bool-cases (running sys (wait_while sys 30 (down sys) s))) [
        | inl up ↦ rw (up, await_start) waited
        | inr gone ↦ rw (gone, await_start) waited
      ]

  start-Within : (s : Server W) → Within sys clock 3000000 s (start sys s).1
  unfolding start
  start-Within s =
      let args = codes "-f" ∷ s.opts.config ∷ [] in
      let launched = run-Within args false s in
      elim (Bool-cases (is_zero (run sys args false s).0)) [
        | inl ok ↦
            let waited = await_start-Within (run sys args false s).1 in
            rw (ok, start) (omega (arith, launched, waited))
        | inr failed ↦ rw (failed, start) (omega (arith, launched))
      ]

  pub on-Within : (s : Server W) → Within sys clock 3000000 s (on sys s).1
  unfolding on
  on-Within s = elim (Bool-cases (running sys s)) [
    | inl up ↦ rw (up, on) (omega arith)
    | inr idle ↦
        let after = and_then-Within sys clock 0 0 s in
        let made = ensure_dirs sys s in
        let written = made and_then write_listen_snippet sys in
        rw (idle, on)
          (and_then-Within sys clock 0 3000000 s (written and_then test_config sys) (start sys)
            (after written (test_config sys)
              (after made (write_listen_snippet sys) (ensure_dirs-Within s) write-Within)
              test_config-Within)
            start-Within)
  ]

  interrupt-Within : (pid : Option ℕ) (s : Server W) → Within sys clock 0 s (interrupt sys pid s).1
  unfolding interrupt signal_pid
  interrupt-Within none s = omega arith
  interrupt-Within (some pid) s = ground (arith, clock.slept-kill (pid_t pid) sigint s.machine)

  pub off-Within : (s : Server W) → Within sys clock 0 s (off sys s).1
  unfolding off
  off-Within s = elim (Bool-cases (running sys s)) [
    | inl up ↦ rw (up, off) (interrupt-Within _ s)
    | inr idle ↦ rw (idle, off) (omega arith)
  ]

  await_exit-Within : (s : Server W) → Within sys clock 5000000 s (await_exit sys s).1
  unfolding await_exit
  await_exit-Within s =
      let waited = wait_while-Within sys clock 50 (running sys) s in
      elim (Bool-cases (running sys (wait_while sys 50 (running sys) s))) [
        | inl up ↦ rw (up, await_exit) waited
        | inr gone ↦ rw (gone, await_exit) waited
      ]

  pub reset-Within : (s : Server W) → Within sys clock 8000000 s (reset sys s).1
  unfolding reset
  reset-Within s = elim (Bool-cases (running sys s)) [
    | inl up ↦
        rw (up, reset)
          (and_then-Within sys clock 5000000 3000000 s (off sys s and_then await_exit sys) (on sys)
            (and_then-Within sys clock 0 5000000 s (off sys s) (await_exit sys) (off-Within s)
              await_exit-Within)
            on-Within)
    | inr idle ↦ let started = on-Within s in rw (idle, reset) (omega (arith, started))
  ]

  pub reload-Within : (s : Server W) → Within sys clock 8000000 s (reload sys s).1
  unfolding reload
  reload-Within s = elim (Bool-cases (running sys s)) [
    | inl up ↦
        rw (up, reload)
          (and_then-Within sys clock 0 8000000 s (test_config sys s) (reset sys)
            (test_config-Within s) reset-Within)
    | inr idle ↦ rw (idle, reload) (omega arith)
  ]

  apply_ports-Within :
      (http https : ℕ) (s : Server W) (r : Bool × Server W)
      → Within sys clock 8000000 s r.1
      → Within sys clock 8000000 s (apply_ports sys http https r).1
  unfolding apply_ports roll_back
  apply_ports-Within http https s (true, t) h = h
  apply_ports-Within http https s (false, t) h =
      let back = write-Within (with_ports http https t) in omega (arith, back, h)

  after_write-Within :
      (http https : ℕ) (s : Server W) (r : Bool × Server W)
      → Within sys clock 0 s r.1
      → Within sys clock 8000000 s (after_write sys http https r).1
  unfolding after_write
  after_write-Within http https s (false, t) h = omega (arith, h)
  after_write-Within http https s (true, t) h = elim (Bool-cases (running sys t)) [
    | inl up ↦
        let reloaded = reload-Within t in
        rw (up, after_write)
          (apply_ports-Within http https s (reload sys t) (omega (arith, reloaded, h)))
    | inr idle ↦ rw (idle, after_write) (omega (arith, h))
  ]

  pub set_listen_ports-Within :
      (http https : ℕ) (s : Server W)
      → Within sys clock 8000000 s (set_listen_ports sys http https s).1
  unfolding set_listen_ports
  set_listen_ports-Within http https s =
      after_write-Within _ _ s _ (write-Within (with_ports http https s))
