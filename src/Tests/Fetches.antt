-- ===== src/Tests/Fetches.antt =====
-- A protected file is sent and a sub-request of the proxy confirmed, while another thread logs in.
use nginx_front_back_end_dem.Longest.{longest}
use nginx_front_back_end_dem.Acl.{authorize, required_role, best_entry}
use nginx_front_back_end_dem.Hex.{to_hex}
use nginx_front_back_end_dem.Tokens.{issue, validate}
use nginx_front_back_end_dem.Cookies.{validated_token, extract_token, extract_cookie}
use nginx_front_back_end_dem.Prelude.{
  nat_eq, text_beq, text_eq, insert, find_char, find, trim_back, trim_front, starts_with,
  ends_with_char, rfind_char, rfind_char, trim_front, text_beq, ends_with_char, find, insert, ◌≡◌,
  refl, none, some, List, [], ◌∷◌, Text, codes, lookup,
}
use nginx_front_back_end_dem.Role.{viewer, role_satisfies}
use nginx_front_back_end_dem.Auth.{read_only}
use nginx_front_back_end_dem.Http.{
  verb_beq, status_response, Verb, Status, Request, Response, make_response,
}
use nginx_front_back_end_dem.Router.{Route, find_route, find_prefix, path_of, gate, admit}
use nginx_front_back_end_dem.Engine.{Handler, protected_file, login, auth_check, Engine}
use nginx_front_back_end_dem.AuthHandler.{
  logged_in, start_session, serve_file, relative, pop_slash, content_type_for,
}
use nginx_front_back_end_dem.Overlap.{
  working, answered, Move, arrive, pass_gate, handle, move, run_moves, check, settled, handler_step,
}
use nginx_front_back_end_dem.Overlap.Handlers.{
  Work, allowing, fetching, next_step, guarded, checked_uri, checked, identity,
}
use nginx_front_back_end_dem.Overlap.Kept.{no_flights}
use nginx_front_back_end_dem.Overlap.Allowed.{Fetched, run_moves-Fetched}
use nginx_front_back_end_dem.Overlap.Past.{HadSession, WasAllowed}
use nginx_front_back_end_dem.Overlap.Confirmed.{Confirmed, run_moves-Confirmed}
use nginx_front_back_end_dem.Tests.{world_at, glaze, ann_only, run_page}
use nginx_front_back_end_dem.Tests.Sessions.{token, ann, after_login, login_request, with_session}
use nginx_front_back_end_dem.Tests.Overlaps.{steps, State, engine}

abbrev file_engine : Engine Unit Text
file_engine = record engine {
  acl = record { entries = record { path_prefix = codes "/p/"; min_role = viewer } ∷ [] };
  router = record engine.router {
    prefix_routes =
        record {
          method = Verb.get;
          prefix = codes "/p/";
          handler = protected_file (codes "/srv") (codes "/p/");
          min_role = none;
        }
        ∷ [];
  };
}

abbrev file_route : Route (Handler Text)
file_route = record { handler = protected_file (codes "/srv") (codes "/p/"); min_role = none }

abbrev file_request : Request
file_request = with_session (codes "/p/a.txt")

abbrev fetch : Work Text
fetch = fetching ann (codes "/p/a.txt") (codes "/srv") (codes "/p/")

abbrev file_moves : List Move
file_moves =
    arrive 0 login_request
    ∷ arrive 1 file_request
    ∷ pass_gate 0 (world_at 0)
    ∷ pass_gate 1 (world_at 0)
    ∷ handle 0 (world_at 0)
    ∷ handle 1 (world_at 0)
    ∷ handle 0 (world_at 0)
    ∷ handle 0 (world_at 0)
    ∷ handle 1 (world_at 5)
    ∷ handle 1 (world_at 5)
    ∷ []

abbrev file_answer : Response
file_answer = make_response Status.ok (codes "hello") (codes "text/plain")

abbrev fetching_state : State
fetching_state = record {
  engine = record file_engine { tokens = after_login };
  flights =
      (0, record { request = login_request; phase = answered (logged_in token) })
      ∷ (1, record { request = file_request; phase = working file_route none fetch })
      ∷ [];
}

abbrev sent_state : State
sent_state = record {
  engine = record file_engine { tokens = after_login };
  flights =
      (0, record { request = login_request; phase = answered (logged_in token) })
      ∷ (1, record { request = file_request; phase = answered file_answer })
      ∷ [];
}

fetches : run_moves glaze steps file_moves (no_flights file_engine) ≡ some fetching_state
unfolding run_moves lookup insert find_route verb_beq text_beq path_of find_char gate admit
    validated_token extract_token extract_cookie find trim_back trim_front validate to_hex next_step
    read_only start_session issue logged_in role_satisfies check settled find_prefix longest
    starts_with authorize required_role best_entry guarded
fetches = refl

sends : move glaze steps (handle 1 (world_at 5)) fetching_state ≡ some sent_state
unfolding move handler_step lookup insert next_step settled serve_file relative find trim_front
    make_response ends_with_char text_beq pop_slash content_type_for rfind_char
sends = refl

run_moves-Fetched_example :
    Fetched glaze ann_only run_page
      (λ w c ctx e. refl)
      (codes "/srv")
      (codes "/p/")
      (world_at 5)
      file_request
      file_route
      none
      file_answer
      (HadSession glaze ann_only run_page (λ w c ctx e. refl) file_engine file_moves)
      (WasAllowed glaze ann_only run_page (λ w c ctx e. refl) file_engine file_moves)
unfolding lookup make_response
run_moves-Fetched_example =
    run_moves-Fetched glaze ann_only run_page (λ w c ctx e. refl) (codes "/srv") (codes "/p/")
      (world_at 5) file_request file_route none file_answer file_engine file_moves fetching_state
      sent_state 1 fetch refl fetches refl refl sends refl refl

abbrev check_engine : Engine Unit Text
check_engine = record engine {
  acl = file_engine.acl;
  router = record engine.router {
    routes =
        ((Verb.post, codes "/api/login"), record { handler = login; min_role = none })
        ∷ ((Verb.get, codes "/auth-check"), record { handler = auth_check; min_role = none })
        ∷ [];
  };
}

abbrev check_route : Route (Handler Text)
check_route = record { handler = auth_check; min_role = none }

abbrev check_request : Request
check_request = record (with_session (codes "/auth-check")) {
  x_original_uri = some (codes "/p/a.txt");
}

abbrev check_moves : List Move
check_moves =
    arrive 0 login_request
    ∷ arrive 1 check_request
    ∷ pass_gate 0 (world_at 0)
    ∷ pass_gate 1 (world_at 0)
    ∷ handle 0 (world_at 0)
    ∷ handle 1 (world_at 0)
    ∷ handle 0 (world_at 0)
    ∷ handle 0 (world_at 0)
    ∷ handle 1 (world_at 5)
    ∷ []

abbrev asking_state : State
asking_state = record {
  engine = record check_engine { tokens = after_login };
  flights =
      (0, record { request = login_request; phase = answered (logged_in token) })
      ∷ (
        1,
        record {
          request = check_request;
          phase = working check_route none (allowing ann (codes "/p/a.txt"));
        },
      )
      ∷ [];
}

abbrev confirmed_state : State
confirmed_state = record {
  engine = record check_engine { tokens = after_login };
  flights =
      (0, record { request = login_request; phase = answered (logged_in token) })
      ∷ (1, record { request = check_request; phase = answered (identity ann) })
      ∷ [];
}

asks : run_moves glaze steps check_moves (no_flights check_engine) ≡ some asking_state
unfolding run_moves lookup insert find_route verb_beq text_beq path_of find_char gate admit
    validated_token extract_token extract_cookie find trim_back trim_front validate to_hex next_step
    read_only start_session issue logged_in role_satisfies check settled checked authorize
    required_role best_entry checked_uri
asks = refl

confirms : move glaze steps (handle 1 (world_at 5)) asking_state ≡ some confirmed_state
unfolding move handler_step lookup insert next_step settled authorize required_role best_entry
    longest role_satisfies starts_with
confirms = refl

run_moves-Confirmed_example :
    Confirmed glaze ann_only run_page
      (λ w c ctx e. refl)
      (world_at 5)
      check_request
      check_route
      none
      (identity ann)
      (HadSession glaze ann_only run_page (λ w c ctx e. refl) check_engine check_moves)
      (WasAllowed glaze ann_only run_page (λ w c ctx e. refl) check_engine check_moves)
unfolding lookup identity status_response
run_moves-Confirmed_example =
    run_moves-Confirmed glaze ann_only run_page (λ w c ctx e. refl) (world_at 5) check_request
      check_route none (identity ann) check_engine check_moves asking_state confirmed_state 1
      (allowing ann (codes "/p/a.txt")) refl asks refl refl confirms refl refl
