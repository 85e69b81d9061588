-- ===== src/Serving/Shutdown.antt =====
-- When the loop returns, and which runs a signal can end.
use nginx_front_back_end_dem.Prelude.{
  ◌≤◌, After, ℕ, zero, suc, ◌≡◌, refl, ◌∙◌, subst, Bool, true, false, not, ◌||◌, ◌&&◌, some, List,
  [], ◌∷◌, arith,
}
use nginx_front_back_end_dem.World.{World}
use nginx_front_back_end_dem.Http.{Request, Response}
use nginx_front_back_end_dem.Serving.{
  Event, accepted, accept_failed, signalled, stop_called, completed, Serving, do_accept,
  open_session, on_accept, on_signal, enable_signal_shutdown, stop, start, happen, step, run_loop,
  loop_returns, worker_count,
}
use nginx_front_back_end_dem.Serving.Steps.{complete_at-Completed, run_loop-first}

abbrev pub has_signal : List Event → Bool
has_signal [] = false
has_signal (signalled ∷ rest) = true
has_signal (_ ∷ rest) = has_signal rest

-- Whether `stop` was called.
abbrev pub has_stop : List Event → Bool
has_stop [] = false
has_stop (stop_called ∷ rest) = true
has_stop (_ ∷ rest) = has_stop rest

-- Whether a signal was delivered or `stop` was called.
abbrev pub ends : List Event → Bool
ends [] = false
ends (signalled ∷ rest) = true
ends (stop_called ∷ rest) = true
ends (_ ∷ rest) = ends rest

-- What events do to the acceptors, to the flag and to the wait, which a signal needs.
abbrev Flags : {S : Type 0} → List Event → Serving S → Serving S → Type 0
Flags events s t =
    (t.accepting ≡ s.accepting)
    × (t.stopped ≡ (s.stopped || ends events))
    × (t.waiting ≡ (s.waiting && not (has_signal events)))
    × ((has_signal events && not s.waiting) ≡ false)

-- There is a thread at least, the one that calls `run`: `n - 1` does not wrap around.
worker_count-positive : (n hardware : ℕ) → 1 ≤ worker_count n hardware
unfolding worker_count
worker_count-positive n hardware = ground arith

module _ {S : Type 0} (serve : World → Request → S → Response × S) where
  on_accept-Flags :
      (ok : Bool) (n : ℕ) (s : Serving S)
      → s.accepting ≡ n
      → After (Flags (accepted ∷ []) s) (on_accept ok n s)
  unfolding on_accept do_accept open_session
  on_accept-Flags ok zero s e = tt
  on_accept-Flags true (suc n) s e = ground arith
  on_accept-Flags false (suc n) s e = ground arith

  happen-Flags :
      (event : Event) (s t : Serving S) → happen serve event s ≡ some t → Flags (event ∷ []) s t
  unfolding happen on_signal stop
  happen-Flags accepted s t e =
      subst (After (Flags (accepted ∷ []) s)) e (on_accept-Flags true s.accepting s refl)
  happen-Flags accept_failed s t e =
      subst (After (Flags (accepted ∷ []) s)) e (on_accept-Flags false s.accepting s refl)
  happen-Flags signalled s t e = ground arith
  happen-Flags stop_called s t e = ground arith
  happen-Flags (completed i event) s t e =
      let done = complete_at-Completed serve i event s t e in
      subst (Flags (completed i event ∷ []) s) done.is_put (ground arith)

  ends-has_signal : (events : List Event) → ends events ≡ false → has_signal events ≡ false
  ends-has_signal [] e = refl
  ends-has_signal (accepted ∷ rest) e = ends-has_signal rest e
  ends-has_signal (accept_failed ∷ rest) e = ends-has_signal rest e
  ends-has_signal (signalled ∷ rest) e = cc
  ends-has_signal (stop_called ∷ rest) e = cc
  ends-has_signal (completed i event ∷ rest) e = ends-has_signal rest e

  Flags-refl : (s : Serving S) → Flags [] s s
  Flags-refl s = ground arith

  Flags-trans :
      (event : Event) (rest : List Event) (s t u : Serving S)
      → Flags (event ∷ []) s t
      → Flags rest t u
      → Flags (event ∷ rest) s u
  Flags-trans accepted rest s t u first later = ground arith
  Flags-trans accept_failed rest s t u first later = ground arith
  Flags-trans signalled rest s t u first later = ground arith
  Flags-trans stop_called rest s t u first later = ground arith
  Flags-trans (completed i event) rest s t u first later = ground arith

  run_loop-Flags :
      (events : List Event) (s s' : Serving S)
      → run_loop serve events s ≡ some s'
      → Flags events s s'
  unfolding run_loop
  run_loop-Flags [] s s' e = let same : s ≡ s' = cc in subst (Flags [] s) same (Flags-refl s)
  run_loop-Flags (event ∷ rest) s s' e =
      let (t, on, happened, later) = run_loop-first serve event rest s s' e in
      Flags-trans event rest s t s' (happen-Flags event s t happened)
        (run_loop-Flags rest t s' later)

  -- In a run whose socket could be bound, the event loop returns exactly if a signal was handled or
  -- `stop` was called: it is never out of work, whatever the accepts and the connections end in, and
  -- it does not start stopped, even if an earlier run left it so.
  pub loop_returns-ends :
      (events : List Event) (s s' : Serving S)
      → run_loop serve events (start true s).1 ≡ some s'
      → loop_returns s' ≡ ends events
  unfolding loop_returns start do_accept
  loop_returns-ends events s s' ran =
      let (acceptors, halted, waits, heard) = run_loop-Flags events (start true s).1 s' ran in
      ground arith

  -- In a run behind `enable_signal_shutdown`, a signal that comes while the loop has not been stopped
  -- is handled, and the loop returns.
  pub step-signalled :
      (events : List Event) (s s' : Serving S)
      → run_loop serve events (start true (enable_signal_shutdown s)).1 ≡ some s'
      → ends events ≡ false
      → (t : Serving S) × (step serve signalled s' ≡ some t) × (loop_returns t ≡ true)
  unfolding loop_returns start do_accept enable_signal_shutdown step happen on_signal
  step-signalled events s s' ran quiet =
      let (acceptors, halted, waits, heard) =
        run_loop-Flags events (start true (enable_signal_shutdown s)).1 s' ran in
      let silent = ends-has_signal events quiet in
      (record s' { waiting = false; stopped = true }, ground arith, refl)

  silent-has_stop :
      (events : List Event) → has_signal events ≡ false → ends events ≡ has_stop events
  silent-has_stop [] e = refl
  silent-has_stop (accepted ∷ rest) e = silent-has_stop rest e
  silent-has_stop (accept_failed ∷ rest) e = silent-has_stop rest e
  silent-has_stop (signalled ∷ rest) e = cc
  silent-has_stop (stop_called ∷ rest) e = refl
  silent-has_stop (completed i event ∷ rest) e = silent-has_stop rest e

  -- A signal ends one run only: let a run have handled one, and run the same engine again, without
  -- another wait for signals and with a socket that can be bound. The later run handles no signal, and
  -- its loop returns exactly if `stop` was called.
  pub later_run-deaf :
      (events again : List Event) (s s' s'' : Serving S)
      → run_loop serve events s ≡ some s'
      → has_signal events ≡ true
      → run_loop serve again (start true s').1 ≡ some s''
      → (has_signal again ≡ false) × (loop_returns s'' ≡ has_stop again)
  unfolding start do_accept
  later_run-deaf events again s s' s'' ran signal ran_again =
      let (acceptors, halted, waits, heard) = run_loop-Flags events s s' ran in
      let later = run_loop-Flags again (start true s').1 s'' ran_again in
      let silent : has_signal again ≡ false = ground (arith, later) in
      (silent, loop_returns-ends again s' s'' ran_again ∙ silent-has_stop again silent)
