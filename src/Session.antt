-- ===== src/Session.antt =====
-- backend/src/Session.hpp and backend/src/Session.cpp: a connection, as what its callbacks do at each
-- completion of a read or a write. Boost.Asio decides which completion comes next; `none` is a
-- completion that no pending operation can have. The parameter `serve` is `router_.dispatch`, on a
-- state `S` of the engine.
pub mod KeepAlive
use nginx_front_back_end_dem.Prelude.{Bool, Option, none, some, List, [], ◌∷◌, ◌++◌, if◌then◌else◌}
use nginx_front_back_end_dem.World.{World}
use nginx_front_back_end_dem.Http.{Request, Response, prepare_payload}

-- What is pending: a read, a write with the choice whether to read on after it, or nothing.
pub data Pending : Type 0 where
  reading closed : Pending
  writing : Response → Bool → Pending

pub data Completion : Type 0 where
  request_read : World → Request → Completion
  end_of_stream read_failed written write_failed : Completion

-- A connection, the engine behind it, and the responses that have been written.
pub record Session (S : Type 0) : Type 0 where
  pub pending : Pending
  pub engine : S
  pub sent : List Response

module _ {S : Type 0} (serve : World → Request → S → Response × S) where
  -- `do_read` and its callback, for a request.
  unfoldable pub answer_request : World → Request → Session S → Session S
  answer_request w req c =
      let keep_alive = req.keep_alive in
      let (res, engine) = serve w req c.engine in
      record c {
        pending = writing (prepare_payload (record res { keep_alive = keep_alive })) keep_alive;
        engine = engine;
      }

  -- The callback of `do_write`.
  unfoldable pub after_write : Response → Bool → Session S → Session S
  after_write res keep_alive c = record c {
    pending = if keep_alive then reading else closed;
    sent = c.sent ++ (res ∷ []);
  }

  unfoldable pub complete : Completion → Pending → Session S → Option (Session S)
  unfolding answer_request after_write
  complete (request_read w req) reading c = some (answer_request w req c)
  complete end_of_stream reading c = some (record c { pending = closed })
  complete read_failed reading c = some (record c { pending = closed })
  complete written (writing res keep_alive) c = some (after_write res keep_alive c)
  complete write_failed (writing res keep_alive) c = some (record c { pending = closed })
  complete _ _ c = none

  unfoldable pub run : List Completion → Session S → Option (Session S)
  unfolding complete
  run [] c = some c
  run (event ∷ rest) c = elim (complete event c.pending c) [ none ↦ none | some c' ↦ run rest c' ]
