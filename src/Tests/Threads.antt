-- ===== src/Tests/Threads.antt =====
-- Threads of the example program: a login, and a restart of the proxy by another request.
use nginx_front_back_end_dem.Prelude.{
  arith, ◌≡◌, ◌⊎◌, refl, some, List, [], ◌∷◌, codes, lookup, insert, text_beq, find_char, find,
  starts_with, trim_back, trim_front, nat_eq, text_eq, pair_eq,
}
use nginx_front_back_end_dem.Role.{admin, role_satisfies}
use nginx_front_back_end_dem.Auth.{read_only}
use nginx_front_back_end_dem.Http.{verb_beq, verb_eq}
use nginx_front_back_end_dem.Longest.{longest}
use nginx_front_back_end_dem.Acl.{set, set_entry}
use nginx_front_back_end_dem.Hex.{to_hex}
use nginx_front_back_end_dem.Tokens.{TokenEntry, new_entry, default_ttl, issue, validate}
use nginx_front_back_end_dem.Cookies.{extract_cookie, extract_token, validated_token}
use nginx_front_back_end_dem.Router.{
  Route, caller_of, find_route, add_route, add_prefix_route, put_prefix, path_of, admit,
  find_prefix, gate,
}
use nginx_front_back_end_dem.AuthHandler.{logged_in, start_session}
use nginx_front_back_end_dem.Engine.{
  Handler, app, add_api, enable_admin_endpoints, enable_auth_endpoints, serve_protected_files,
  protect_path, set_socket_path,
}
use nginx_front_back_end_dem.Control.{server_result, server_reset, answer}
use nginx_front_back_end_dem.Overlap.Handlers.{Work, begun, next_step, first_step, login_answered}
use nginx_front_back_end_dem.Main.{Endpoint, restart, Program, configure, run_endpoint}
use nginx_front_back_end_dem.Main.Threads.{program_step}
use nginx_front_back_end_dem.Server.{nginx}
use nginx_front_back_end_dem.Overlap.{
  Move, Flight, working, answered, context, arrive, pass_gate, handle, check, settled, handler_step,
  move, run_moves,
}
use nginx_front_back_end_dem.Overlap.Kept.{no_flights}
use nginx_front_back_end_dem.Main.Admins.{SameRule}
use nginx_front_back_end_dem.Main.Overlapping.{
  State, AdminMove, moves_of, move_of, run_moves-ByAdmin,
}
use nginx_front_back_end_dem.Tests.{world_at, glaze}
use nginx_front_back_end_dem.Tests.Sessions.{token, login_request}
use nginx_front_back_end_dem.Tests.Controllers.{Files, machine, readers}
use nginx_front_back_end_dem.Tests.Programs.{
  one_admin, unset, nobody, methods, start, made, restart_request,
}

abbrev Running : Type 0
Running = State glaze readers one_admin (methods nginx) nobody

abbrev moves : List Move
moves =
    arrive 0 login_request
    ∷ arrive 1 restart_request
    ∷ pass_gate 0 (world_at 0)
    ∷ handle 0 (world_at 0)
    ∷ handle 0 (world_at 0)
    ∷ handle 0 (world_at 0)
    ∷ pass_gate 1 (world_at 0)
    ∷ handle 1 (world_at 0)
    ∷ []

abbrev idle : Running
idle = no_flights start

abbrev ann_admin : TokenEntry
ann_admin = new_entry (world_at 0) (codes "ann") admin default_ttl

abbrev with_admin : Program Unit Files
with_admin = record start {
  engine = record start.engine { tokens = record { store = (token, ann_admin) ∷ [] } };
}

abbrev restart_route : Route (Handler Endpoint)
restart_route = record { handler = app restart; min_role = some admin }

abbrev restart_work : Work Endpoint
restart_work = begun (app restart) (context restart_request (some (caller_of ann_admin)))

abbrev logged : Flight (Handler Endpoint) (Work Endpoint)
logged = record { request = login_request; phase = answered (logged_in token) }

-- The restart is let in.
abbrev admitted_state : Running
admitted_state = record {
  engine = with_admin;
  flights =
      (0, logged)
      ∷ (
        1,
        record {
          request = restart_request;
          phase = working restart_route (some (caller_of ann_admin)) restart_work;
        },
      )
      ∷ [];
}

-- The controller has restarted the server.
abbrev restarted : Running
restarted = record {
  engine = record with_admin { srv = ((methods nginx).reset start.srv).1 };
  flights =
      (0, logged)
      ∷ (
        1,
        record {
          request = restart_request;
          phase = answered (
              server_result glaze ((methods nginx).reset start.srv).0
                ((methods nginx).reset start.srv).1);
        },
      )
      ∷ [];
}

ran : moves_of glaze readers one_admin (methods nginx) nobody moves idle ≡ some admitted_state
unfolding run_moves lookup insert find_route configure add_api add_route enable_admin_endpoints
    serve_protected_files add_prefix_route protect_path enable_auth_endpoints set_socket_path
    verb_beq text_beq path_of find_char set set_entry extract_cookie extract_token validated_token
    longest check settled find starts_with trim_back trim_front role_satisfies admit find_prefix
    gate put_prefix validate program_step next_step first_step login_answered start_session issue
    to_hex read_only logged_in
ran = refl

restarts :
    move_of glaze readers one_admin (methods nginx) nobody (handle 1 (world_at 0)) admitted_state
    ≡ some restarted
unfolding move lookup insert handler_step settled program_step run_endpoint server_reset answer
restarts = refl

run_moves-ByAdmin_example :
    SameRule one_admin admitted_state.engine restarted.engine
    ⊎ AdminMove glaze readers one_admin
        (methods nginx)
        nobody
        start
        moves
        (handle 1 (world_at 0))
        admitted_state
run_moves-ByAdmin_example =
    run_moves-ByAdmin glaze readers one_admin (methods nginx) nobody methods unset tt machine start
      start.srv made moves (handle 1 (world_at 0)) admitted_state restarted (omega arith) tt ran
      restarts
