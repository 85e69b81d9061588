-- ===== src/Tests/Waits.antt =====
-- The example program with a server that does not end: a login, and a restart on another connection.
use nginx_front_back_end_dem.Prelude.{
  ℕ, ◌≤◌, ◌≡◌, refl, true, false, some, List, [], ◌∷◌, lookup, insert,
}
use nginx_front_back_end_dem.World.{World}
use nginx_front_back_end_dem.Http.{Request, Response}
use nginx_front_back_end_dem.Session.{reading, Session, request_read, answer_request, complete}
use nginx_front_back_end_dem.Server.{lighttpd}
use nginx_front_back_end_dem.Factory.{methods_of}
use nginx_front_back_end_dem.Serving.{Event, accepted, completed, Serving, run_loop}
use nginx_front_back_end_dem.Main.{Program, serve_program}
use nginx_front_back_end_dem.Main.Pauses.{run_loop-Within}
use nginx_front_back_end_dem.Tests.{world_at, glaze}
use nginx_front_back_end_dem.Tests.Sessions.{login_request}
use nginx_front_back_end_dem.Tests.Controllers.{readers}
use nginx_front_back_end_dem.Tests.Programs.{one_admin, nobody, start, restart_request}
use nginx_front_back_end_dem.Tests.Restarts.{stuck, stuck-Sleeps, stuck_server}

abbrev serve : World → Request → Program Unit ℕ → Response × Program Unit ℕ
serve = serve_program glaze readers one_admin (methods_of stuck lighttpd) nobody

abbrev begun : Program Unit ℕ
begun = record { engine = start.engine; srv = stuck_server }

abbrev fresh : Serving (Program Unit ℕ)
fresh = record {
  engine = begun;
  conns = [];
  next = 0;
  accepting = 1;
  waiting = true;
  stopped = false;
}

abbrev reads : Request → Program Unit ℕ → Session (Program Unit ℕ)
reads req p =
    answer_request serve (world_at 0) req (record { pending = reading; engine = p; sent = [] })

abbrev events : List Event
events =
    accepted
    ∷ accepted
    ∷ completed 0 (request_read (world_at 0) login_request)
    ∷ completed 1 (request_read (world_at 0) restart_request)
    ∷ []

abbrev logged_in : Program Unit ℕ
logged_in = (reads login_request begun).engine

abbrev ended : Serving (Program Unit ℕ)
ended = record fresh {
  engine = (reads restart_request logged_in).engine;
  conns =
      (
        0,
        record {
          pending = (reads login_request begun).pending;
          sent = (reads login_request begun).sent;
        },
      )
      ∷ (
        1,
        record {
          pending = (reads restart_request logged_in).pending;
          sent = (reads restart_request logged_in).sent;
        },
      )
      ∷ [];
  next = 2;
}

runs : run_loop serve events fresh ≡ some ended
unfolding run_loop insert lookup complete
runs = refl

run_loop-Within_example : ended.engine.srv.machine ≤ 16000007
run_loop-Within_example =
    run_loop-Within glaze readers one_admin nobody stuck stuck-Sleeps lighttpd events fresh ended
      runs
