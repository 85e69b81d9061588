-- ===== src/Tests/Overlaps.antt =====
-- Two threads: a request is let in while another logs in, its route getting another role meanwhile.
use nginx_front_back_end_dem.Hex.{to_hex}
use nginx_front_back_end_dem.Tokens.{issue, validate}
use nginx_front_back_end_dem.Cookies.{validated_token, extract_token, extract_cookie}
use nginx_front_back_end_dem.Prelude.{
  nat_eq, text_beq, text_eq, insert, find_char, find, trim_back, trim_front, trim_front, text_beq,
  find, insert, ◌≡◌, refl, some, List, [], ◌∷◌, Text, codes, lookup,
}
use nginx_front_back_end_dem.Role.{user, admin, role_satisfies}
use nginx_front_back_end_dem.Auth.{UserInfo, read_only}
use nginx_front_back_end_dem.Http.{verb_beq, Request}
use nginx_front_back_end_dem.Router.{
  Route, set_route_role, set_roles, find_route, path_of, gate, admit,
}
use nginx_front_back_end_dem.Engine.{Handler, users_get, Engine}
use nginx_front_back_end_dem.AuthHandler.{logged_in, start_session}
use nginx_front_back_end_dem.Overlap.{
  Steps, working, answered, Threads, Move, arrive, pass_gate, handle, set_role, context, run_moves,
  check, settled,
}
use nginx_front_back_end_dem.Overlap.Handlers.{Work, begun, engine_steps, next_step}
use nginx_front_back_end_dem.Overlap.Kept.{no_flights}
use nginx_front_back_end_dem.Overlap.Admitted.{at_work, run_moves-Entitled}
use nginx_front_back_end_dem.Overlap.Entitled.{Entitled}
use nginx_front_back_end_dem.Overlap.Past.{HadSession}
use nginx_front_back_end_dem.Tests.{world_at, glaze, ann_only, run_page}
use nginx_front_back_end_dem.Tests.Sessions.{
  token, after_login, no_tokens, engine_with, login_request, with_session,
}

abbrev pub steps : Steps (Handler Text) (Work Text) (Engine Unit Text)
steps = engine_steps glaze ann_only run_page

abbrev pub State : Type 0
State = Threads (Handler Text) (Work Text) (Engine Unit Text)

abbrev users_route : Route (Handler Text)
users_route = record { handler = users_get; min_role = some user }

abbrev ann_user : UserInfo
ann_user = record { username = codes "ann"; role = user }

abbrev users_request : Request
users_request = with_session (codes "/api/users")

abbrev moves : List Move
moves =
    arrive 0 login_request
    ∷ arrive 1 users_request
    ∷ pass_gate 0 (world_at 0)
    ∷ handle 0 (world_at 0)
    ∷ handle 0 (world_at 0)
    ∷ set_role (codes "/api/users") (some admin)
    ∷ handle 0 (world_at 0)
    ∷ pass_gate 1 (world_at 5)
    ∷ handle 1 (world_at 5)
    ∷ []

abbrev pub engine : Engine Unit Text
engine = engine_with tt no_tokens

abbrev ended : State
ended = record {
  engine = record engine {
    tokens = after_login;
    router = (set_route_role (codes "/api/users") (some admin) engine.router).1;
  };
  flights =
      (0, record { request = login_request; phase = answered (logged_in token) })
      ∷ (
        1,
        record {
          request = users_request;
          phase =
              working users_route (some ann_user)
                (begun users_get (context users_request (some ann_user)));
        },
      )
      ∷ [];
}

runs : run_moves glaze steps moves (no_flights engine) ≡ some ended
unfolding run_moves lookup insert find_route verb_beq text_beq path_of find_char gate admit
    validated_token extract_token extract_cookie find trim_back trim_front validate to_hex next_step
    read_only start_session issue logged_in set_route_role set_roles role_satisfies check settled
runs = refl

run_moves-Entitled_example :
    Entitled ann_only
      (HadSession glaze ann_only run_page (λ w c ctx e. refl) engine moves users_request)
      user
      (some ann_user)
unfolding lookup
run_moves-Entitled_example =
    run_moves-Entitled glaze ann_only run_page (λ w c ctx e. refl) engine moves ended 1
      users_request
      (working users_route (some ann_user)
        (begun users_get (context users_request (some ann_user))))
      users_route (some ann_user) user refl runs refl (at_work _) refl
