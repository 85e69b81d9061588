-- ===== src/Server/Diagnosed.antt =====
-- Predicates on a method's result, for the contracts of the two controllers.
use nginx_front_back_end_dem.Prelude.{
  ℕ, zero, suc, ◌≡◌, ◌≢◌, refl, Bool, true, false, some, List, [], ◌∷◌, ◌++◌, Text, arith,
  Option-cases, Bool-cases, inl, inr, empty, nat_beq, if◌then◌else◌,
}
use nginx_front_back_end_dem.Process.{Sys, Spawned, spawn, write_file_atomic, signal_pid}
use nginx_front_back_end_dem.Server.{
  Options, Server, ◌and_then◌, with_ports, is_zero, note_exit, run_command, write_snippet, pause,
  wait_while,
}

append-ne-nil : (s t : Text) (c : ℕ) → s ++ (c ∷ t) ≢ []
append-ne-nil [] t c e = cc
append-ne-nil (a ∷ s) t c e = cc

-- A message that stands in for an empty one.
message-ne-nil : (m t : Text) → m ≢ [] → (if empty t then m else t) ≢ []
message-ne-nil m [] h = h
message-ne-nil m (c ∷ t) h = λ e. cc

module _ {W : Type 0} where
  -- A method's result, from options `o`: they are unchanged, and a failure has left a diagnostic.
  abbrev pub Diagnosed : Options → Bool × Server W → Type 0
  Diagnosed o r = (r.1.opts ≡ o) × (r.0 ≡ false → r.1.last_error ≢ [])

  pub and_then-Diagnosed :
      {o : Options} (m : Bool × Server W) (k : Server W → Bool × Server W)
      → Diagnosed o m
      → ((s : Server W) → s.opts ≡ o → Diagnosed o (k s))
      → Diagnosed o (m and_then k)
  and_then-Diagnosed (true, s) k h next = next s h.0
  and_then-Diagnosed (false, s) k h next = h

  note_exit-Diagnosed :
      (name : Text) (r : Spawned) (s : Server W)
      → Diagnosed s.opts (is_zero (note_exit name r s).0, (note_exit name r s).1)
  unfolding note_exit
  note_exit-Diagnosed name r s = elim (Option-cases r.code) [
    | inl abnormal ↦
        rw (abnormal, note_exit) (refl, λ _. message-ne-nil _ r.errmsg (append-ne-nil name _ b' '))
    | inr (code, exited) ↦ elim (Bool-cases (nat_beq code 0)) [
      | inl fine ↦ rw (exited, note_exit, fine) (refl, λ e. absurd (ground arith))
      | inr bad ↦
          rw (exited, note_exit, bad)
            (refl, λ _. message-ne-nil _ r.output (append-ne-nil name _ b' '))
    ]
  ]

  -- The same, by result.
  abbrev pub Reported : Options → Bool × Server W → Type 0
  Reported o (true, s) = s.opts ≡ o
  Reported o (false, s) = (s.opts ≡ o) × (s.last_error ≢ [])

  pub Diagnosed→Reported : (o : Options) (r : Bool × Server W) → Diagnosed o r → Reported o r
  Diagnosed→Reported o (true, s) (same, h) = same
  Diagnosed→Reported o (false, s) (same, h) = (same, h refl)

  -- The ports that a call asks for are in the options, or the call has failed with a diagnostic and the
  -- options are those before it.
  abbrev pub Committed : ℕ → ℕ → Server W → Bool × Server W → Type 0
  Committed http https s (true, s') = s'.opts ≡ (with_ports http https s).opts
  Committed http https s (false, s') = (s'.opts ≡ s.opts) × (s'.last_error ≢ [])

module _ {W : Type 0} (sys : Sys W) where
  pub run_command-Diagnosed :
      (name : Text) (argv : List Text) (capture : Bool) (s : Server W)
      → let (code, s') = run_command sys name argv capture s in Diagnosed s.opts (is_zero code, s')
  unfolding run_command
  run_command-Diagnosed name argv capture s =
      let (r, w) = spawn sys argv capture s.machine in
      note_exit-Diagnosed name r (record s { machine = w })

  write_file_atomic-error :
      (path content error : Text) (w : W)
      → (write_file_atomic sys path content w).0 ≡ some error
      → error ≢ []
  unfolding write_file_atomic
  write_file_atomic-error path content error w e = ground arith

  pub signal_pid-error :
      (pid sig : ℕ) (error : Text) (w : W) → (signal_pid sys pid sig w).0 ≡ some error → error ≢ []
  unfolding signal_pid
  signal_pid-error pid sig error w e = ground arith

  pub write_snippet-Diagnosed :
      (content : Text) (s : Server W) → Diagnosed s.opts (write_snippet sys content s)
  unfolding write_snippet
  write_snippet-Diagnosed content s =
      elim (Option-cases (write_file_atomic sys s.opts.listen_file content s.machine).0) [
        | inl done ↦ rw (done, write_snippet) (refl, λ e. absurd (ground arith))
        | inr (error, failed) ↦
            rw (failed, write_snippet)
              (refl, λ _. write_file_atomic-error s.opts.listen_file content error s.machine failed)
      ]

  -- A diagnostic that is there is replaced, not removed.
  pub write_snippet-last_error :
      (content : Text) (s : Server W)
      → s.last_error ≢ []
      → (write_snippet sys content s).1.last_error ≢ []
  unfolding write_snippet
  write_snippet-last_error content s h =
      elim (Option-cases (write_file_atomic sys s.opts.listen_file content s.machine).0) [
        | inl done ↦ rw (done, write_snippet) h
        | inr (error, failed) ↦
            rw (failed, write_snippet)
              (write_file_atomic-error s.opts.listen_file content error s.machine failed)
      ]

  -- Waiting changes neither options nor diagnostic, and ends after the given rounds at most.
  pub wait_while-opts :
      (rounds : ℕ) (test : Server W → Bool) (s : Server W)
      → (wait_while sys rounds test s).opts ≡ s.opts
  unfolding wait_while
  wait_while-opts zero test s = refl
  wait_while-opts (suc rounds) test s = elim (Bool-cases (test s)) [
    | inl on ↦ rw (on, wait_while) (wait_while-opts rounds test (pause sys s))
    | inr over ↦ rw (over, wait_while) refl
  ]
