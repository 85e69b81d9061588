-- ===== src/Tests/Programs.antt =====
-- Runs of the example program: a login on one connection, a restart of the proxy on another.
use nginx_front_back_end_dem.Prelude.{
  find_char, ℕ, ◌≡◌, ◌⊎◌, ◌++◌, refl, sym, ◌∙◌, ◌&&◌, true, false, Option, none, some, [], ◌∷◌,
  List, Text, codes, lookup, insert, text_beq, if◌then◌else◌,
}
use nginx_front_back_end_dem.Role.{Role, viewer, admin}
use nginx_front_back_end_dem.World.{World}
use nginx_front_back_end_dem.Auth.{UserInfo, AuthProvider, read_only}
use nginx_front_back_end_dem.Http.{Verb, Status, Request, Response}
use nginx_front_back_end_dem.Decimal.{pos}
use nginx_front_back_end_dem.Router.{path_of}
use nginx_front_back_end_dem.Router.Gate.{HasSession}
use nginx_front_back_end_dem.Tokens.{TokenStore}
use nginx_front_back_end_dem.Cookies.{validated_token, extract_token}
use nginx_front_back_end_dem.Session.{reading, Session, request_read, answer_request, complete}
use nginx_front_back_end_dem.Session.KeepAlive.{serve_all}
use nginx_front_back_end_dem.Engine.{new_engine}
use nginx_front_back_end_dem.Server.{Server, WebServer, WebServerController, nginx}
use nginx_front_back_end_dem.Factory.{
  methods_of, make_web_server_controller, to_string, web_server_from_string,
}
use nginx_front_back_end_dem.Control.{initial_ports, env_int}
use nginx_front_back_end_dem.Serving.{
  enable_signal_shutdown, Event, accepted, signalled, completed, run, Conn, Serving, put_back,
  happen, run_loop,
}
use nginx_front_back_end_dem.Main.{
  Program, configure, prepare, paths_of, kind_of, env_str, serve_program, main,
}
use nginx_front_back_end_dem.Main.Admins.{SameRule, ByAdmin}
use nginx_front_back_end_dem.Main.Callers.{serve_program-any_user}
use nginx_front_back_end_dem.Main.Exit.{main-Ended}
use nginx_front_back_end_dem.Serving.Shutdown.{ends}
use nginx_front_back_end_dem.Main.Required.{server_reset, serve_program-NeedsRole}
use nginx_front_back_end_dem.Main.Running.{run_loop-ByAdmin}
use nginx_front_back_end_dem.Tests.{world_at, glaze, request}
use nginx_front_back_end_dem.Tests.Sessions.{token, login_request}
use nginx_front_back_end_dem.Tests.Controllers.{Files, table, machine, readers}

-- A provider that knows one administrator.
abbrev pub one_admin : AuthProvider Unit
one_admin = read_only λ p name password. (
  some (if text_beq name (codes "ann") && text_beq password (codes "pw") then some admin else none),
  p,
)

abbrev pub unset : Text → Option Text
unset name = none

abbrev pub nobody : UserInfo
nobody = record { username = []; role = viewer }

abbrev pub methods : WebServer → WebServerController Files
methods kind = methods_of table kind

abbrev pub start : Program Unit Files
start = record {
  engine = configure (codes "nginx") (pos 1) (pos 65535) (record {
    auth = tt;
    tokens = record { store = [] };
    acl = record { entries = [] };
    router = record { routes = []; prefix_routes = [] };
    socket_path = codes "/tmp/backend.sock";
    num_threads = 0;
  });
  srv =
      initial_ports (methods nginx) none none
        (make_web_server_controller nginx (paths_of unset) machine);
}

pub made : prepare methods unset tt machine ≡ some start
unfolding prepare new_engine kind_of env_str web_server_from_string text_beq to_string env_int
made = refl

abbrev pub serve : World → Request → Program Unit Files → Response × Program Unit Files
serve = serve_program glaze readers one_admin (methods nginx) nobody

abbrev pub restart_request : Request
restart_request =
    request Verb.post (codes "/api/admin/server/reset") (some (codes "session=" ++ token))

abbrev pub fresh : Serving (Program Unit Files)
fresh = record {
  engine = start;
  conns = [];
  next = 0;
  accepting = 1;
  waiting = true;
  stopped = false;
}

abbrev pub opened : Conn
opened = record { pending = reading; sent = [] }

abbrev both_open : Serving (Program Unit Files)
both_open = record fresh { conns = (0, opened) ∷ (1, opened) ∷ []; next = 2 }

-- A connection that reads a request.
abbrev pub reads : Request → Program Unit Files → Session (Program Unit Files)
reads req p =
    answer_request serve (world_at 0) req (record { pending = reading; engine = p; sent = [] })

abbrev after_login : Serving (Program Unit Files)
after_login = record both_open {
  engine = (reads login_request start).engine;
  conns =
      (
        0,
        record {
          pending = (reads login_request start).pending;
          sent = (reads login_request start).sent;
        },
      )
      ∷ (1, opened)
      ∷ [];
}

abbrev after_restart : Serving (Program Unit Files)
after_restart = put_back 1 after_login (reads restart_request after_login.engine)

abbrev events : List Event
events = accepted ∷ accepted ∷ completed 0 (request_read (world_at 0) login_request) ∷ []

logs_in : run_loop serve events fresh ≡ some after_login
unfolding run_loop insert lookup complete
logs_in = refl

restarts :
    happen serve (completed 1 (request_read (world_at 0) restart_request)) after_login
    ≡ some after_restart
unfolding happen complete lookup
restarts = refl

run_loop-ByAdmin_example :
    SameRule one_admin after_login.engine after_restart.engine
    ⊎ ByAdmin one_admin (world_at 0) restart_request after_login.engine
run_loop-ByAdmin_example =
    run_loop-ByAdmin glaze readers one_admin (methods nginx) nobody methods unset tt machine start
      start.srv made events fresh after_login after_restart 1 (world_at 0) restart_request refl
      logs_in restarts

abbrev history : List (World × Request)
history = (world_at 0, login_request) ∷ []

abbrev bare_request : Request
bare_request = request Verb.post (codes "/api/admin/server/reset") none

unseen : (tokens : TokenStore) → validated_token (world_at 0) bare_request tokens ≡ none
unfolding validated_token extract_token
unseen tokens = refl

no_session :
    (tokens : TokenStore) (need : Role) → ¬ HasSession (world_at 0) bare_request tokens need
no_session tokens need held = let none_is_some = sym (unseen tokens) ∙ held.validated in cc

serve_program-NeedsRole_example :
    let p = serve_all serve history start in
    let (res, p') = serve (world_at 0) bare_request p in
    (p' ≡ p) × ((res.status ≡ Status.unauthorized) ⊎ (res.status ≡ Status.forbidden))
unfolding path_of find_char
serve_program-NeedsRole_example =
    serve_program-NeedsRole methods unset tt machine glaze readers one_admin (methods nginx) nobody
      start start.srv made history (world_at 0) bare_request admin server_reset
      (no_session (serve_all serve history start).engine.tokens admin)

abbrev private_request : Request
private_request = request Verb.get (codes "/api/private") (some (codes "session=" ++ token))

serve_program-any_user_example :
    let p = serve_all serve history start in
    serve_program glaze readers one_admin (methods nginx) nobody (world_at 0) private_request p
    ≡ serve_program glaze readers one_admin
        (methods nginx)
        (record { username = codes "eve"; role = admin })
        (world_at 0)
        private_request
        p
serve_program-any_user_example =
    serve_program-any_user glaze readers one_admin (methods nginx) nobody
      (record { username = codes "eve"; role = admin }) methods unset tt machine start start.srv
      made history (world_at 0) private_request

abbrev one_visit : List Event
one_visit = accepted ∷ signalled ∷ []

abbrev switched_on : Server Files
switched_on = ((methods nginx).on start.srv).1

exits :
    main glaze readers one_admin nobody methods unset (some tt) true one_visit machine
    ≡ some (0, some ((methods nginx).off switched_on).1)
unfolding main run run_loop prepare new_engine kind_of env_str web_server_from_string text_beq
    to_string env_int enable_signal_shutdown
exits = refl

main-Ended_example :
    let code : ℕ = 0 in
    let left : Option (Server Files) = some ((methods nginx).off switched_on).1 in
    ((true ≡ true)
      × (ends one_visit ≡ true)
      × (code ≡ 0)
      × (left ≡ some ((methods nginx).off switched_on).1))
    ⊎ ((true ≡ false) × (code ≡ 1) × (left ≡ some switched_on))
unfolding kind_of env_str web_server_from_string text_beq
main-Ended_example =
    main-Ended glaze readers one_admin nobody methods unset tt true one_visit machine start 0
      (some ((methods nginx).off switched_on).1) made exits
