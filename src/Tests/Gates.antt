-- ===== src/Tests/Gates.antt =====
-- Runs of the gated routes and the gated files.
use nginx_front_back_end_dem.Prelude.{
  ◌≤◌, ◌<◌, ◌≡◌, ◌⊎◌, refl, lookup, Option, some, [], ◌∷◌, Text, codes, text_beq, ends_with_char,
  find_char,
}
use nginx_front_back_end_dem.Role.{user, admin, value}
use nginx_front_back_end_dem.World.{World}
use nginx_front_back_end_dem.Http.{verb_beq, Status, Request, Response, RequestContext, text}
use nginx_front_back_end_dem.Tokens.{TokenStore, TokenEntry}
use nginx_front_back_end_dem.Cookies.{extract_token}
use nginx_front_back_end_dem.Acl.{Acl}
use nginx_front_back_end_dem.Router.{Router, caller_of, dispatch, find_route, path_of}
use nginx_front_back_end_dem.Router.Answers.{Presents, Handled, dispatch-Decided}
use nginx_front_back_end_dem.AuthHandler.{handle_check, handle_protected_file, relative, pop_slash}
use nginx_front_back_end_dem.AuthHandler.Files.{
  handle_protected_file-SameBelow, Fetched, handle_check-handle_protected_file,
}
use nginx_front_back_end_dem.Engine.{
  Handler, users_get, Engine, run_handler, serve, enable_admin_endpoints,
}
use nginx_front_back_end_dem.Engine.Guard.{reads_users, serve-IsAdminEndpoint}
use nginx_front_back_end_dem.Tests.{world_at, leaky_world, glaze, ann_only, run_page}
use nginx_front_back_end_dem.Tests.Sessions.{
  after_login, engine_with, with_session, ann_is_no_admin,
}

abbrev user_files : Acl
user_files = record { entries = record { path_prefix = codes "/p"; min_role = user } ∷ [] }

handle_protected_file-SameBelow_example :
    handle_protected_file
      (world_at 0)
      (with_session (codes "/p/../etc/passwd"))
      after_login
      user_files
      (codes "/srv/")
      (codes "/p")
    ≡ handle_protected_file leaky_world
        (with_session (codes "/p/../etc/passwd"))
        after_login
        user_files
        (codes "/srv/")
        (codes "/p")
unfolding pop_slash text_beq ends_with_char
handle_protected_file-SameBelow_example =
    handle_protected_file-SameBelow (world_at 0) leaky_world
      (with_session (codes "/p/../etc/passwd")) after_login user_files (codes "/srv/") (codes "/p")
      refl (λ rel below. refl)

abbrev check_request : Request
check_request = record (with_session (codes "/auth-check")) {
  x_original_uri = some (codes "/p/a.txt");
}

handle_check-handle_protected_file_example :
    let answer = handle_check (world_at 5) check_request after_login user_files in
    let file =
      handle_protected_file
        (world_at 5)
        (with_session (codes "/p/a.txt"))
        after_login
        user_files
        (codes "/srv")
        (codes "/p") in
    ((answer.status ≡ Status.unauthorized)
      × (file.status ≡ Status.found)
      × (file.location ≡ some (codes "/?reason=unauthenticated")))
    ⊎ ((answer.status ≡ Status.forbidden) × (file ≡ text Status.forbidden (codes "Access denied")))
    ⊎ ((answer.status ≡ Status.ok)
        × Fetched
            (world_at 5)
            (codes "/srv")
            (relative (path_of (codes "/p/a.txt")) (codes "/p"))
            file)
unfolding path_of extract_token find_char
handle_check-handle_protected_file_example =
    handle_check-handle_protected_file (world_at 5) check_request (with_session (codes "/p/a.txt"))
      after_login user_files (codes "/srv") (codes "/p") refl refl (λ e. cc)

abbrev engine : Engine Unit Text
engine = engine_with tt after_login

abbrev router_of : Engine Unit Text → Router (Handler Text)
router_of e = e.router

abbrev tokens_of : Engine Unit Text → TokenStore
tokens_of e = e.tokens

abbrev run_engine :
    World → Handler Text → RequestContext → Engine Unit Text → Option Response × Engine Unit Text
run_engine = run_handler glaze ann_only run_page

dispatch-Decided_example :
    let req = with_session (codes "/api/roles") in
    let (res, after) = dispatch glaze router_of tokens_of run_engine (world_at 5) req engine in
    let session = Presents (world_at 5) req after_login in
    ((¬ ((entry : TokenEntry) × session entry))
      × (res.status ≡ Status.unauthorized)
      × (after ≡ engine))
    ⊎ ((entry : TokenEntry) × session entry
        × (((value entry.role < 3) × (res.status ≡ Status.forbidden) × (after ≡ engine))
            ⊎ ((3 ≤ value entry.role)
                × Handled glaze router_of tokens_of run_engine
                    (run_engine
                      (world_at 5)
                      users_get
                      (record { request = req; caller = some (caller_of entry) })
                      engine)
                    (res, after))))
unfolding find_route path_of find_char verb_beq text_beq lookup
dispatch-Decided_example =
    dispatch-Decided glaze router_of tokens_of run_engine (world_at 5)
      (with_session (codes "/api/roles")) engine
      (record { handler = users_get; min_role = some admin }) admin refl refl

serve-IsAdminEndpoint_example :
    let enabled = enable_admin_endpoints (engine_with tt after_login) in
    let (res, after) =
      serve glaze ann_only run_page
        (world_at 5)
        (with_session (codes "/api/admin/users"))
        enabled in
    (after ≡ enabled) × ((res.status ≡ Status.unauthorized) ⊎ (res.status ≡ Status.forbidden))
unfolding path_of find_char enable_admin_endpoints
serve-IsAdminEndpoint_example =
    serve-IsAdminEndpoint glaze ann_only run_page (world_at 5)
      (with_session (codes "/api/admin/users")) (engine_with tt after_login) users_get reads_users
      (ann_is_no_admin (codes "/api/admin/users"))
