-- ===== src/Server/Pauses.antt =====
-- How long the controllers pause, for both: what each step that they take adds to the time slept.
use nginx_front_back_end_dem.Prelude.{
  ℕ, zero, suc, ◌+◌, ◌*◌, ◌≤◌, ◌≡◌, ap, ◌∙◌, Bool, true, false, Option-cases, List, Text, arith,
  Bool-cases, inl, inr,
}
use nginx_front_back_end_dem.Process.{Sys, spawn, write_file_atomic, fill, promote, tmp_of}
use nginx_front_back_end_dem.Server.{
  Server, ◌and_then◌, run_command, write_snippet, pause, wait_while,
}
use nginx_front_back_end_dem.Server.Snippet.{note_exit-machine}

-- The microseconds that the process has asked `usleep` for; no other call of it counts as a pause.
pub record Sleeps {W : Type 0} (sys : Sys W) : Type 0 where
  pub slept : W → ℕ
  pub slept-usleep : (us : ℕ) (w : W) → slept (sys.usleep us w) ≡ us + slept w
  pub slept-launch :
      (argv : List Text) (capture : Bool) (w : W) → slept (sys.launch argv capture w).1 ≡ slept w
  pub slept-kill : (pid sig : ℕ) (w : W) → slept (sys.kill pid sig w).1 ≡ slept w
  pub slept-open : (path : Text) (w : W) → slept (sys.open_trunc path w).1 ≡ slept w
  pub slept-write :
      (path content : Text) (w : W) → slept (sys.write_flush path content w).1 ≡ slept w
  pub slept-rename : (path path' : Text) (w : W) → slept (sys.rename path path' w).1 ≡ slept w
  pub slept-remove : (path : Text) (w : W) → slept (sys.remove path w) ≡ slept w
  pub slept-mkdir : (path : Text) (w : W) → slept (sys.mkdir path w).1 ≡ slept w

module _ {W : Type 0} (sys : Sys W) (clock : Sleeps sys) where
  -- From the first state to the second, `us` microseconds of pauses at most.
  abbrev pub Within : ℕ → Server W → Server W → Type 0
  Within us s s' = clock.slept s'.machine ≤ us + clock.slept s.machine

  pub and_then-Within :
      (us us' : ℕ) (s : Server W) (m : Bool × Server W) (k : Server W → Bool × Server W)
      → Within us s m.1
      → ((t : Server W) → Within us' t (k t).1)
      → Within (us + us') s (m and_then k).1
  and_then-Within us us' s (true, t) k h next = let after = next t in omega (arith, after, h)
  and_then-Within us us' s (false, t) k h next = omega (arith, h)

  run_command-slept :
      (name : Text) (argv : List Text) (capture : Bool) (s : Server W)
      → clock.slept (run_command sys name argv capture s).1.machine ≡ clock.slept s.machine
  unfolding run_command spawn
  run_command-slept name argv capture s =
      ap clock.slept (note_exit-machine name _ _) ∙ clock.slept-launch argv capture s.machine

  pub run_command-Within :
      (name : Text) (argv : List Text) (capture : Bool) (s : Server W)
      → Within 0 s (run_command sys name argv capture s).1
  run_command-Within name argv capture s = omega (arith, run_command-slept name argv capture s)

  pub wait_while-Within :
      (rounds : ℕ) (test : Server W → Bool) (s : Server W)
      → Within (rounds * 100000) s (wait_while sys rounds test s)
  unfolding wait_while pause
  wait_while-Within zero test s = omega arith
  wait_while-Within (suc rounds) test s = elim (Bool-cases (test s)) [
    | inl on ↦
        let rest = wait_while-Within rounds test (pause sys s) in
        let slept = clock.slept-usleep 100000 s.machine in rw (on, wait_while) (omega arith)
    | inr over ↦ rw (over, wait_while) (omega arith)
  ]

  write_file_atomic-slept :
      (path content : Text) (w : W)
      → clock.slept (write_file_atomic sys path content w).1 ≡ clock.slept w
  unfolding write_file_atomic fill promote
  write_file_atomic-slept path content w =
      let tmp = tmp_of path in
      let opened = (sys.open_trunc tmp w).1 in
      let written = (sys.write_flush tmp content opened).1 in
      let renamed = (sys.rename tmp path written).1 in
      ground (
        arith,
        clock.slept-open tmp w,
        clock.slept-write tmp content opened,
        clock.slept-rename tmp path written,
        clock.slept-remove tmp renamed,
        clock.slept-remove tmp written,
      )

  pub write_snippet-Within :
      (content : Text) (s : Server W) → Within 0 s (write_snippet sys content s).1
  unfolding write_snippet
  write_snippet-Within content s =
      let same = write_file_atomic-slept s.opts.listen_file content s.machine in
      elim (Option-cases (write_file_atomic sys s.opts.listen_file content s.machine).0) [
        | inl done ↦ rw (done, write_snippet) (omega (arith, same))
        | inr (error, failed) ↦ rw (failed, write_snippet) (omega (arith, same))
      ]
