-- ===== src/Tests/Disks.antt =====
-- The listen file of the example program: a login, and a new port on another connection.
use nginx_front_back_end_dem.Factory.{web_server_from_string, make_web_server_controller}
use nginx_front_back_end_dem.Prelude.{
  arith, text_beq, ◌≡◌, refl, some, List, [], ◌∷◌, ◌++◌, codes, lookup, insert, nat_eq,
}
use nginx_front_back_end_dem.Http.{Verb, Request}
use nginx_front_back_end_dem.Session.{request_read, complete}
use nginx_front_back_end_dem.Server.{nginx}
use nginx_front_back_end_dem.Server.Snippet.{IsWritten}
use nginx_front_back_end_dem.Server.Reliable.{Reliable}
use nginx_front_back_end_dem.Factory.Snippets.{snippet_of}
use nginx_front_back_end_dem.Serving.{Event, accepted, completed, Serving, run_loop, worker_count}
use nginx_front_back_end_dem.Main.{kind_of, paths_of, Program}
use nginx_front_back_end_dem.Main.OnDisk.{run_loop-IsWritten}
use nginx_front_back_end_dem.Tests.{world_at, glaze, request}
use nginx_front_back_end_dem.Tests.Sessions.{token, login_request}
use nginx_front_back_end_dem.Tests.Controllers.{
  Files, table, machine, readers, nginx_file, table-IsFileSystem, table-LeavesFile,
}
use nginx_front_back_end_dem.Tests.Programs.{
  one_admin, unset, nobody, methods, start, made, serve, fresh, reads,
}

table-Reliable : Reliable table
table-Reliable = record {
  opens = λ path w. refl;
  writes = λ path content w. refl;
  renames = λ path path' w. refl;
}

abbrev port_request : Request
port_request = request Verb.post (codes "/api/admin/server/port") (some (codes "session=" ++ token))

abbrev begun : Program Unit Files
begun = record start { srv = ((methods nginx).on start.srv).1 }

abbrev events : List Event
events =
    accepted
    ∷ accepted
    ∷ completed 0 (request_read (world_at 0) login_request)
    ∷ completed 1 (request_read (world_at 0) port_request)
    ∷ []

abbrev logged_in : Program Unit Files
logged_in = (reads login_request begun).engine

abbrev ended : Serving (Program Unit Files)
ended = record fresh {
  engine = (reads port_request logged_in).engine;
  conns =
      (
        0,
        record {
          pending = (reads login_request begun).pending;
          sent = (reads login_request begun).sent;
        },
      )
      ∷ (
        1,
        record {
          pending = (reads port_request logged_in).pending;
          sent = (reads port_request logged_in).sent;
        },
      )
      ∷ [];
  next = 2;
}

runs : run_loop serve events (record fresh { engine = begun }) ≡ some ended
unfolding run_loop insert lookup complete
runs = refl

run_loop-IsWritten_example :
    (worker_count begun.engine.num_threads 1 ≡ 1)
    × IsWritten table nginx_file (snippet_of nginx) ended.engine.srv
unfolding make_web_server_controller paths_of kind_of web_server_from_string text_beq
run_loop-IsWritten_example =
    run_loop-IsWritten glaze readers one_admin nobody table table-IsFileSystem nginx_file
      table-LeavesFile table-Reliable unset tt machine start made refl 1 events
      (record fresh { engine = begun }) ended (omega arith) refl runs
