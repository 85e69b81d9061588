-- ===== src/Serving.antt =====
-- backend/src/Listener.hpp, backend/src/Listener.cpp and the lifecycle of backend/src/WebEngine.cpp:
-- the event loop, the acceptor, the signal wait and the connections, which share one engine of state
-- `S`. A connection is numbered by the order of acceptance. A step is a whole completion handler, so a
-- run is what one thread does, or several whose handlers do not overlap. Which completion comes next is
-- Boost.Asio's and the clients'; `none` is a completion that no pending operation can have. Whether
-- the socket could be bound is a parameter; the calls that do so are in Socket.
pub mod Steps
pub mod Socket
pub mod Log
pub mod Replies
pub mod Shutdown
use nginx_front_back_end_dem.Prelude.{
  ℕ, zero, suc, Bool, true, false, not, ◌||◌, Option, none, some, List, [], ◌∷◌, Dict, lookup,
  insert, nat_eq, ltb, nat_beq, if◌then◌else◌,
}
use nginx_front_back_end_dem.World.{World}
use nginx_front_back_end_dem.Http.{Request, Response}
use nginx_front_back_end_dem.Session.{Pending, reading, closed, Completion, Session, complete}

-- A connection without the engine that all of them share.
pub record Conn : Type 0 where
  pub pending : Pending
  pub sent : List Response

pub data Event : Type 0 where
  accepted accept_failed signalled stop_called : Event
  completed : ℕ → Completion → Event

-- `accepting` counts the acceptors with a pending accept: a listener of an earlier run keeps its own.
-- `waiting` is the signal wait.
pub record Serving (S : Type 0) : Type 0 where
  pub engine : S
  pub conns : Dict ℕ Conn
  pub next : ℕ
  pub accepting : ℕ
  pub waiting : Bool
  pub stopped : Bool

-- The worker threads; `hardware` is what `hardware_concurrency` says.
unfoldable pub worker_count : ℕ → ℕ → ℕ
worker_count num_threads hardware =
    if nat_beq num_threads 0 then (if ltb hardware 1 then 1 else hardware) else num_threads

-- A connection with an operation of its own pending.
abbrev is_open : Conn → Bool
is_open c = elim c.pending [ closed ↦ false | _ ↦ true ]

abbrev pub any_open : Dict ℕ Conn → Bool
any_open [] = false
any_open ((i, c) ∷ conns) = is_open c || any_open conns

module _ {S : Type 0} where
  unfoldable pub do_accept : Serving S → Serving S
  do_accept s = record s { accepting = suc s.accepting }

  -- A new connection, which reads at once.
  unfoldable pub open_session : Serving S → Serving S
  open_session s = record s {
    conns = insert s.next (record { pending = reading; sent = [] }) s.conns;
    next = suc s.next;
  }

  -- The callback of `do_accept`; the accept that has ended is no longer pending.
  unfoldable pub on_accept : Bool → ℕ → Serving S → Option (Serving S)
  unfolding do_accept open_session
  on_accept ok zero s = none
  on_accept ok (suc n) s =
      let s = record s { accepting = n } in some (do_accept (if ok then open_session s else s))

  unfoldable pub enable_signal_shutdown : Serving S → Serving S
  enable_signal_shutdown s = record s { waiting = true }

  -- The wait's callback: it is not waited for again.
  unfoldable pub on_signal : Serving S → Option (Serving S)
  on_signal s = if s.waiting then some (record s { waiting = false; stopped = true }) else none

  unfoldable pub stop : Serving S → Serving S
  stop s = record s { stopped = true }

  -- `run` up to the loop, and whether it got there: `bound` is whether the socket could be bound.
  unfoldable pub start : Bool → Serving S → Bool × Serving S
  unfolding do_accept
  start bound s =
      let s = record s { stopped = false } in if bound then (true, do_accept s) else (false, s)

  -- Whether `io_context::run` returns: it is stopped or its work is exhausted, as the comments of
  -- `run` say.
  unfoldable pub loop_returns : Serving S → Bool
  loop_returns s = s.stopped || not (ltb 0 s.accepting || s.waiting || any_open s.conns)

  abbrev pub put_back : ℕ → Serving S → Session S → Serving S
  put_back i s c = record s {
    engine = c.engine;
    conns = insert i (record { pending = c.pending; sent = c.sent }) s.conns;
  }

  module _ (serve : World → Request → S → Response × S) where
    unfoldable pub complete_at : ℕ → Completion → Serving S → Option (Serving S)
    complete_at i event s = elim (lookup i s.conns) [
      | none ↦ none
      | some c ↦
          elim (complete serve event c.pending
            (record { pending = c.pending; engine = s.engine; sent = c.sent })) [
              | none ↦ none
              | some after ↦ some (put_back i s after)
            ]
    ]

    unfoldable pub happen : Event → Serving S → Option (Serving S)
    unfolding on_accept on_signal stop complete_at
    happen accepted s = on_accept true s.accepting s
    happen accept_failed s = on_accept false s.accepting s
    happen signalled s = on_signal s
    happen stop_called s = some (stop s)
    happen (completed i event) s = complete_at i event s

    -- A stopped loop handles nothing, as the comment on `restart` says.
    unfoldable pub step : Event → Serving S → Option (Serving S)
    unfolding happen
    step event s = if s.stopped then none else happen event s

    unfoldable pub run_loop : List Event → Serving S → Option (Serving S)
    unfolding step
    run_loop [] s = some s
    run_loop (event ∷ rest) s = elim (step event s) [ none ↦ none | some s' ↦ run_loop rest s' ]

    -- `run`, with the events of its loop: whether it returns or throws, and the state after it. `none`
    -- is a loop that these events cannot take or do not end.
    unfoldable pub run : Bool → List Event → Serving S → Option (Bool × Serving S)
    unfolding start run_loop loop_returns
    run false events s = some (start false s)
    run true events s = elim (run_loop events (start true s).1) [
      | none ↦ none
      | some s' ↦ if loop_returns s' then some (true, s') else none
    ]
