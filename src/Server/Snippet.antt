-- ===== src/Server/Snippet.antt =====
-- The listen file on disk, for both controllers: what each step that they take does to it.
use nginx_front_back_end_dem.Prelude.{
  ℕ, zero, suc, ◌≡◌, ◌⊎◌, refl, sym, ap, ◌∙◌, subst, Bool, true, false, some, List, Text, arith,
  Option-cases, Bool-cases, inl, inr,
}
use nginx_front_back_end_dem.Process.{Sys, Spawned, spawn, write_file_atomic}
use nginx_front_back_end_dem.Process.Atomic.{IsFileSystem, write_file_atomic_lem}
use nginx_front_back_end_dem.Server.{
  Options, Server, ◌and_then◌, with_ports, note_exit, run_command, write_snippet, pause, wait_while,
}
use nginx_front_back_end_dem.Server.Diagnosed.{run_command-Diagnosed}

-- The programs that are started, the processes that get signals, and the other calls leave the file
-- alone: only the controller writes it.
pub record LeavesFile {W : Type 0} (sys : Sys W) (path : Text) : Type 0 where
  pub launch_frame :
      (argv : List Text) (capture : Bool) (w : W)
      → sys.read_file path (sys.launch argv capture w).1 ≡ sys.read_file path w
  pub kill_frame :
      (pid sig : ℕ) (w : W) → sys.read_file path (sys.kill pid sig w).1 ≡ sys.read_file path w
  pub mkdir_frame :
      (dir : Text) (w : W) → sys.read_file path (sys.mkdir dir w).1 ≡ sys.read_file path w
  pub usleep_frame : (us : ℕ) (w : W) → sys.read_file path (sys.usleep us w) ≡ sys.read_file path w

-- The note of how a program ended does not act on the machine.
pub note_exit-machine :
    {W : Type 0} (name : Text) (r : Spawned) (s : Server W)
    → (note_exit name r s).1.machine ≡ s.machine
unfolding note_exit
note_exit-machine name r s = ground arith

module _ {W : Type 0} (sys : Sys W) (path : Text) where
  -- The same options and the same listen file.
  abbrev pub Still : Server W → Server W → Type 0
  Still s s' = (s'.opts ≡ s.opts) × (sys.read_file path s'.machine ≡ sys.read_file path s.machine)

  -- The listen file is the snippet of the options.
  abbrev pub IsWritten : (Options → Text) → Server W → Type 0
  IsWritten snippet s =
      (s.opts.listen_file ≡ path) × (sys.read_file path s.machine ≡ some (snippet s.opts))

  -- A write of the snippet: done, or without an effect on the file.
  abbrev pub Wrote : Text → Server W → Bool × Server W → Type 0
  Wrote content s (true, s') = (s'.opts ≡ s.opts) × (sys.read_file path s'.machine ≡ some content)
  Wrote content s (false, s') = Still s s'

  -- A write either is done or leaves what was there.
  Wrote-either :
      (content before : Text) (s : Server W) (r : Bool × Server W)
      → Wrote content s r
      → sys.read_file path s.machine ≡ some before
      → (sys.read_file path r.1.machine ≡ some content)
        ⊎ ((sys.read_file path r.1.machine ≡ some before) × (r.0 ≡ false))
  Wrote-either content before s (true, s') (same, file) was = inl file
  Wrote-either content before s (false, s') (same, file) was = inr (file ∙ was, refl)

  pub Still-IsWritten :
      (snippet : Options → Text) (s s' : Server W)
      → Still s s'
      → IsWritten snippet s
      → IsWritten snippet s'
  Still-IsWritten snippet s s' (same, file) (at, content) = (
    ap (λ (o : Options). o.listen_file) same ∙ at,
    file ∙ content ∙ ap (λ o. some (snippet o)) (sym same),
  )

  pub and_then-IsWritten :
      (snippet : Options → Text) (m : Bool × Server W) (k : Server W → Bool × Server W)
      → IsWritten snippet m.1
      → ((s : Server W) → IsWritten snippet s → IsWritten snippet (k s).1)
      → IsWritten snippet (m and_then k).1
  and_then-IsWritten snippet (true, s) k h next = next s h
  and_then-IsWritten snippet (false, s) k h next = h

  module _ (quiet : LeavesFile sys path) where
    run_command-Still :
        (name : Text) (argv : List Text) (capture : Bool) (s : Server W)
        → Still s (run_command sys name argv capture s).1
    unfolding run_command spawn
    run_command-Still name argv capture s = (
      (run_command-Diagnosed sys name argv capture s).0,
      ap (sys.read_file path) (note_exit-machine name _ _)
          ∙ quiet.launch_frame argv capture s.machine,
    )

    wait_while-Still :
        (rounds : ℕ) (test : Server W → Bool) (s : Server W)
        → Still s (wait_while sys rounds test s)
    unfolding wait_while pause
    wait_while-Still zero test s = (refl, refl)
    wait_while-Still (suc rounds) test s = elim (Bool-cases (test s)) [
      | inl on ↦
          let (same, file) = wait_while-Still rounds test (pause sys s) in
          rw (on, wait_while) (same, file ∙ quiet.usleep_frame 100000 s.machine)
      | inr over ↦ rw (over, wait_while) (refl, refl)
    ]

    pub run_command-IsWritten :
        (snippet : Options → Text) (name : Text) (argv : List Text) (capture : Bool) (s : Server W)
        → IsWritten snippet s
        → IsWritten snippet (run_command sys name argv capture s).1
    run_command-IsWritten snippet name argv capture s h =
        Still-IsWritten snippet s (run_command sys name argv capture s).1
          (run_command-Still name argv capture s) h

    pub wait_while-IsWritten :
        (snippet : Options → Text) (rounds : ℕ) (test : Server W → Bool) (s : Server W)
        → IsWritten snippet s
        → IsWritten snippet (wait_while sys rounds test s)
    wait_while-IsWritten snippet rounds test s h =
        Still-IsWritten snippet s (wait_while sys rounds test s) (wait_while-Still rounds test s) h

  pub Wrote-IsWritten :
      (snippet : Options → Text) (s : Server W) (r : Bool × Server W)
      → Wrote (snippet s.opts) s r
      → IsWritten snippet s
      → IsWritten snippet r.1
  Wrote-IsWritten snippet s (true, s') (same, content) (at, before) = (
    ap (λ (o : Options). o.listen_file) same ∙ at,
    content ∙ ap (λ o. some (snippet o)) (sym same),
  )
  Wrote-IsWritten snippet s (false, s') still h = Still-IsWritten snippet s s' still h

module _ {W : Type 0} (sys : Sys W) (law : IsFileSystem sys) where
  write_own-Wrote :
      (content : Text) (s : Server W)
      → Wrote sys s.opts.listen_file content s (write_snippet sys content s)
  unfolding write_snippet
  write_own-Wrote content s =
      let path = s.opts.listen_file in
      let (own, others) = write_file_atomic_lem sys law path content path s.machine in
      elim (Option-cases (write_file_atomic sys path content s.machine).0) [
        | inl done ↦ rw (done, write_snippet) (refl, own.0 done)
        | inr (error, failed) ↦ rw (failed, write_snippet) (refl, own.1 error failed)
      ]

  pub write_snippet-Wrote :
      (path content : Text) (s : Server W)
      → s.opts.listen_file ≡ path
      → Wrote sys path content s (write_snippet sys content s)
  write_snippet-Wrote path content s at =
      subst (λ p. Wrote sys p content s (write_snippet sys content s)) at
        (write_own-Wrote content s)

-- What `set_listen_ports` leaves in the listen file: where it returns true the snippet of its options,
-- which have the new ports, and where it returns false what was there, or the snippet of the options
-- before, or the one of the ports that were asked for; then the last step was to write the one of the
-- options before back, which failed.
abbrev pub Stored :
    {W : Type 0} → Sys W → Text → (Options → Text) → ℕ → ℕ → Server W → Bool × Server W → Type 0
Stored {W} sys path snippet http https s (true, s') =
    (s'.opts ≡ (with_ports http https s).opts) × IsWritten sys path snippet s'
Stored {W} sys path snippet http https s (false, s') =
    (sys.read_file path s'.machine ≡ sys.read_file path s.machine)
    ⊎ (sys.read_file path s'.machine ≡ some (snippet s.opts))
    ⊎ ((sys.read_file path s'.machine ≡ some (snippet (with_ports http https s).opts))
        × ((back : Server W) × (back.opts ≡ s.opts)
            × (write_snippet sys (snippet s.opts) back ≡ (false, s'))))

module _ {W : Type 0} (sys : Sys W) (law : IsFileSystem sys) (path : Text)
    (snippet : Options → Text) (http https : ℕ) (s s' : Server W)
    (same : s'.opts ≡ (with_ports http https s).opts) where
  -- The new snippet is on disk, and the ports are put back.
  pub roll_back-Stored :
      IsWritten sys path snippet s'
      → let back = with_ports s.opts.http_port s.opts.https_port s' in
        Stored sys path snippet http https s (false, (write_snippet sys (snippet back.opts) back).1)
  roll_back-Stored (at, content) =
      let back = with_ports s.opts.http_port s.opts.https_port s' in
      let r = write_snippet sys (snippet back.opts) back in
      let old : back.opts ≡ s.opts =
        ap {A = Options}
          (λ o. record o { http_port = s.opts.http_port; https_port = s.opts.https_port }) same in
      let new = snippet (with_ports http https s).opts in
      elim (Wrote-either sys path (snippet back.opts) new back r
        (write_snippet-Wrote sys law path (snippet back.opts) back at)
        (content ∙ ap (λ o. some (snippet o)) same)) [
          | inl done ↦ inr (inl (done ∙ ap (λ o. some (snippet o)) old))
          | inr (kept, failed) ↦ inr (
              inr (
                kept,
                (
                  back,
                  old,
                  ap (λ o. write_snippet sys (snippet o) back) (sym old)
                      ∙ ap (λ b. (b, r.1)) failed,
                ),
              ))
        ]

  pub new-IsWritten :
      s.opts.listen_file ≡ path
      → sys.read_file path s'.machine ≡ some (snippet (with_ports http https s).opts)
      → IsWritten sys path snippet s'
  new-IsWritten at content = (
    ap (λ (o : Options). o.listen_file) same ∙ at,
    content ∙ ap (λ o. some (snippet o)) (sym same),
  )
