-- ===== src/Lighttpd/Disk.antt =====
-- The listen file of the lighttpd controller.
use nginx_front_back_end_dem.Prelude.{
  ℕ, ◌≡◌, ◌∙◌, Bool, true, false, Option, none, some, List, [], ◌∷◌, Text, codes, arith, Bool-cases,
  Option-cases, inl, inr,
}
use nginx_front_back_end_dem.Process.{Sys, ensure_dir, read_pid, signal_pid, pid_t}
use nginx_front_back_end_dem.Process.Atomic.{IsFileSystem}
use nginx_front_back_end_dem.Server.{Server, ◌and_then◌, with_ports, is_zero, wait_while}
use nginx_front_back_end_dem.Server.Snippet.{
  LeavesFile, Still, IsWritten, Still-IsWritten, and_then-IsWritten, run_command-IsWritten,
  wait_while-IsWritten, Wrote, roll_back-Stored, new-IsWritten, Wrote-IsWritten,
  write_snippet-Wrote, Stored,
}
use nginx_front_back_end_dem.Lighttpd.Contract.{reload-Diagnosed}
use nginx_front_back_end_dem.Lighttpd.{
  listen_snippet, run, running, ensure_dirs, write_listen_snippet, test_config, await_start, down,
  interrupt, sigint, start, on, off, reload, await_exit, reset, roll_back, apply_ports, after_write,
  set_listen_ports,
}

module _ {W : Type 0} (sys : Sys W) (law : IsFileSystem sys) (path : Text)
    (quiet : LeavesFile sys path) where
  abbrev pub IsLighttpdWritten : Server W → Type 0
  IsLighttpdWritten s = IsWritten sys path listen_snippet s

  ensure_dirs-Still : (s : Server W) → Still sys path s (ensure_dirs sys s).1
  unfolding ensure_dirs ensure_dir
  ensure_dirs-Still s = ground (arith, quiet.mkdir_frame s.opts.temp_root s.machine)

  run-IsWritten :
      (args : List Text) (capture : Bool) (s : Server W)
      → IsLighttpdWritten s
      → IsLighttpdWritten (run sys args capture s).1
  unfolding run
  run-IsWritten args capture s h =
      run_command-IsWritten sys path quiet listen_snippet _ _ capture s h

  write-IsWritten :
      (s : Server W) → IsLighttpdWritten s → IsLighttpdWritten (write_listen_snippet sys s).1
  unfolding write_listen_snippet
  write-IsWritten s h =
      Wrote-IsWritten sys path listen_snippet s _
        (write_snippet-Wrote sys law path (listen_snippet s.opts) s h.0) h

  test_config-IsWritten :
      (s : Server W) → IsLighttpdWritten s → IsLighttpdWritten (test_config sys s).1
  unfolding test_config
  test_config-IsWritten s h = run-IsWritten (codes "-tt" ∷ codes "-f" ∷ s.opts.config ∷ []) true s h

  await_start-IsWritten :
      (s : Server W) → IsLighttpdWritten s → IsLighttpdWritten (await_start sys s).1
  unfolding await_start
  await_start-IsWritten s h =
      let waited = wait_while-IsWritten sys path quiet listen_snippet 30 (down sys) s h in
      elim (Bool-cases (running sys (wait_while sys 30 (down sys) s))) [
        | inl up ↦ rw (up, await_start) waited
        | inr gone ↦ rw (gone, await_start) waited
      ]

  start-IsWritten : (s : Server W) → IsLighttpdWritten s → IsLighttpdWritten (start sys s).1
  unfolding start
  start-IsWritten s h =
      let args : List Text = codes "-f" ∷ s.opts.config ∷ [] in
      let ran = run-IsWritten args false s h in
      elim (Bool-cases (is_zero (run sys args false s).0)) [
        | inl up ↦ rw (up, start) (await_start-IsWritten (run sys args false s).1 ran)
        | inr failed ↦ rw (failed, start) ran
      ]

  pub on-IsWritten : (s : Server W) → IsLighttpdWritten s → IsLighttpdWritten (on sys s).1
  unfolding on
  on-IsWritten s h = elim (Bool-cases (running sys s)) [
    | inl up ↦ rw (up, on) h
    | inr idle ↦
        let keeps = and_then-IsWritten sys path listen_snippet in
        let made = ensure_dirs sys s in
        let written = made and_then write_listen_snippet sys in
        let tested = written and_then test_config sys in
        rw (idle, on)
          (keeps tested (start sys)
            (keeps written (test_config sys)
              (keeps made (write_listen_snippet sys)
                (Still-IsWritten sys path listen_snippet s made.1 (ensure_dirs-Still s) h)
                write-IsWritten)
              test_config-IsWritten)
            start-IsWritten)
  ]

  interrupt-IsWritten :
      (pid : Option ℕ) (s : Server W)
      → IsLighttpdWritten s
      → IsLighttpdWritten (interrupt sys pid s).1
  unfolding interrupt signal_pid
  interrupt-IsWritten none s h = h
  interrupt-IsWritten (some pid) s (at, content) =
      elim (Option-cases (signal_pid sys pid sigint s.machine).0) [
        | inl sent ↦
            rw (sent, interrupt) (at, quiet.kill_frame (pid_t pid) sigint s.machine ∙ content)
        | inr (error, failed) ↦
            rw (failed, interrupt) (at, quiet.kill_frame (pid_t pid) sigint s.machine ∙ content)
      ]

  pub off-IsWritten : (s : Server W) → IsLighttpdWritten s → IsLighttpdWritten (off sys s).1
  unfolding off
  off-IsWritten s h = elim (Bool-cases (running sys s)) [
    | inl up ↦ rw (up, off) (interrupt-IsWritten (read_pid sys s.opts.pidfile s.machine) s h)
    | inr idle ↦ rw (idle, off) h
  ]

  await_exit-IsWritten :
      (s : Server W) → IsLighttpdWritten s → IsLighttpdWritten (await_exit sys s).1
  unfolding await_exit
  await_exit-IsWritten s h =
      let waited = wait_while-IsWritten sys path quiet listen_snippet 50 (running sys) s h in
      elim (Bool-cases (running sys (wait_while sys 50 (running sys) s))) [
        | inl up ↦ rw (up, await_exit) waited
        | inr gone ↦ rw (gone, await_exit) waited
      ]

  pub reset-IsWritten : (s : Server W) → IsLighttpdWritten s → IsLighttpdWritten (reset sys s).1
  unfolding reset
  reset-IsWritten s h = elim (Bool-cases (running sys s)) [
    | inl up ↦
        let keeps = and_then-IsWritten sys path listen_snippet in
        rw (up, reset)
          (keeps (off sys s and_then await_exit sys) (on sys)
            (keeps (off sys s) (await_exit sys) (off-IsWritten s h) await_exit-IsWritten)
            on-IsWritten)
    | inr idle ↦ rw (idle, reset) (on-IsWritten s h)
  ]

  pub reload-IsWritten : (s : Server W) → IsLighttpdWritten s → IsLighttpdWritten (reload sys s).1
  unfolding reload
  reload-IsWritten s h = elim (Bool-cases (running sys s)) [
    | inl up ↦
        rw (up, reload)
          (and_then-IsWritten sys path listen_snippet (test_config sys s) (reset sys)
            (test_config-IsWritten s h) reset-IsWritten)
    | inr idle ↦ rw (idle, reload) h
  ]

  -- What the file is behind an attempt to apply the new ports, and behind a write.
  apply_ports-Stored :
      (http https : ℕ) (s : Server W) (r : Bool × Server W)
      → r.1.opts ≡ (with_ports http https s).opts
      → IsLighttpdWritten r.1
      → Stored sys path listen_snippet http https s
          (apply_ports sys s.opts.http_port s.opts.https_port r)
  unfolding apply_ports roll_back write_listen_snippet
  apply_ports-Stored http https s (true, s') same h = (same, h)
  apply_ports-Stored http https s (false, s') same h =
      roll_back-Stored sys law path listen_snippet http https s s' same h

  after_write-Stored :
      (http https : ℕ) (s : Server W) (r : Bool × Server W)
      → s.opts.listen_file ≡ path
      → Wrote sys path (listen_snippet (with_ports http https s).opts) (with_ports http https s) r
      → Stored sys path listen_snippet http https s
          (after_write sys s.opts.http_port s.opts.https_port r)
  unfolding after_write
  after_write-Stored http https s (false, s') at (same, file) = inl file
  after_write-Stored http https s (true, s') at (same, content) =
      let written = new-IsWritten sys law path listen_snippet http https s s' same at content in
      elim (Bool-cases (running sys s')) [
        | inl up ↦
            rw (up, after_write)
              (apply_ports-Stored http https s (reload sys s') ((reload-Diagnosed sys s').0 ∙ same)
                (reload-IsWritten s' written))
        | inr idle ↦ rw (idle, after_write) (same, written)
      ]

  pub set_listen_ports-Stored :
      (http https : ℕ) (s : Server W)
      → s.opts.listen_file ≡ path
      → Stored sys path listen_snippet http https s (set_listen_ports sys http https s)
  unfolding set_listen_ports write_listen_snippet
  set_listen_ports-Stored http https s at = after_write-Stored http https s _ at (
      write_snippet-Wrote sys law path (listen_snippet (with_ports http https s).opts)
        (with_ports http https s) at)
