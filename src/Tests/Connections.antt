-- ===== src/Tests/Connections.antt =====
-- A run of a connection that is kept once and then closed.
use nginx_front_back_end_dem.Prelude.{
  ℕ, suc, ◌≡◌, refl, true, false, some, none, List, [], ◌∷◌, codes,
}
use nginx_front_back_end_dem.World.{World}
use nginx_front_back_end_dem.Http.{Verb, Status, Request, Response, text, prepare_payload}
use nginx_front_back_end_dem.Session.{
  Completion, request_read, written, Session, reading, closed, run,
}
use nginx_front_back_end_dem.Tests.{world_at, request}

-- A handler that counts the requests.
abbrev count : World → Request → ℕ → Response × ℕ
count w req n = (text Status.ok [], suc n)

abbrev kept : Request
kept = request Verb.get (codes "/") none

abbrev last : Request
last = record kept { keep_alive = false }

abbrev events : List Completion
events = request_read (world_at 0) kept ∷ written ∷ request_read (world_at 1) last ∷ written ∷ []

abbrev opened : Session ℕ
opened = record { pending = reading; engine = 0; sent = [] }

abbrev ended : Session ℕ
ended = record {
  pending = closed;
  engine = 2;
  sent =
      prepare_payload (record (text Status.ok []) { keep_alive = true })
      ∷ prepare_payload (record (text Status.ok []) { keep_alive = false })
      ∷ [];
}

runs : run count events opened ≡ some ended
unfolding run
runs = refl
