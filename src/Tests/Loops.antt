-- ===== src/Tests/Loops.antt =====
-- Runs of the event loop: two connections whose completions interleave, then a signal.
use nginx_front_back_end_dem.Prelude.{
  ℕ, suc, ◌≡◌, refl, Bool, true, false, some, none, List, [], ◌∷◌, codes, lookup, insert,
}
use nginx_front_back_end_dem.World.{World}
use nginx_front_back_end_dem.Http.{Verb, Status, Request, Response, text, prepare_payload}
use nginx_front_back_end_dem.Session.{complete, request_read, written, writing, closed}
use nginx_front_back_end_dem.Serving.{
  Event, accepted, accept_failed, signalled, completed, Conn, Serving, enable_signal_shutdown,
  start, step, run_loop, loop_returns,
}
use nginx_front_back_end_dem.Serving.Replies.{Owed, answers, run_loop-Owed}
use nginx_front_back_end_dem.Serving.Shutdown.{
  has_signal, has_stop, ends, loop_returns-ends, step-signalled, later_run-deaf,
}
use nginx_front_back_end_dem.Tests.{world_at, request}

-- A handler that answers the number of requests before.
abbrev count : World → Request → ℕ → Response × ℕ
count w req n = (text Status.ok (n ∷ []), suc n)

abbrev kept : Request
kept = request Verb.get (codes "/") none

abbrev last : Request
last = record kept { keep_alive = false }

abbrev idle : Serving ℕ
idle = record { engine = 0; conns = []; next = 0; accepting = 0; waiting = true; stopped = true }

abbrev begun : Serving ℕ
begun = record idle { accepting = 1; stopped = false }

abbrev events : List Event
events =
    accepted
    ∷ accept_failed
    ∷ completed 0 (request_read (world_at 0) kept)
    ∷ accepted
    ∷ completed 1 (request_read (world_at 1) last)
    ∷ completed 1 written
    ∷ completed 0 written
    ∷ completed 0 (request_read (world_at 2) kept)
    ∷ []

-- The answer behind `n` others.
abbrev answer : ℕ → Bool → Response
answer n keep_alive = prepare_payload (record (text Status.ok (n ∷ [])) { keep_alive = keep_alive })

abbrev first_conn : Conn
first_conn = record { pending = writing (answer 2 true) true; sent = answer 0 true ∷ [] }

abbrev served : Serving ℕ
served = record {
  engine = 3;
  conns = (0, first_conn) ∷ (1, record { pending = closed; sent = answer 1 false ∷ [] }) ∷ [];
  next = 2;
  accepting = 1;
  waiting = true;
  stopped = false;
}

abbrev halted : Serving ℕ
halted = record served { waiting = false; stopped = true }

abbrev again : Serving ℕ
again = record served { waiting = false; accepting = 2 }

runs : run_loop count events begun ≡ some served
unfolding run_loop insert lookup complete
runs = refl

runs_out : run_loop count (signalled ∷ []) served ≡ some halted
unfolding run_loop
runs_out = refl

starts : start true (enable_signal_shutdown idle) ≡ (true, begun)
unfolding start enable_signal_shutdown
starts = refl

run_loop-Owed_example :
    Owed (writing (answer 2 true) true) (answer 0 true ∷ []) (answers count 0 events 0)
unfolding lookup
run_loop-Owed_example = run_loop-Owed count 0 events begun served first_conn refl runs refl

loop_returns-ends_example : loop_returns served ≡ ends events
unfolding start
loop_returns-ends_example = loop_returns-ends count events idle served runs

step-signalled_example :
    (t : Serving ℕ) × (step count signalled served ≡ some t) × (loop_returns t ≡ true)
unfolding start enable_signal_shutdown
step-signalled_example = step-signalled count events idle served runs refl

later_run-deaf_example :
    (has_signal (accept_failed ∷ []) ≡ false) × (loop_returns again ≡ has_stop (accept_failed ∷ []))
unfolding start run_loop
later_run-deaf_example =
    later_run-deaf count (signalled ∷ []) (accept_failed ∷ []) served halted again runs_out refl
      refl
