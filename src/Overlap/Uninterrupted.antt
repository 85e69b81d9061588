-- ===== src/Overlap/Uninterrupted.antt =====
-- The engine's handlers by their steps, where no other thread interrupts them, against the handlers
-- that are one step.
use nginx_front_back_end_dem.Prelude.{
  ℕ, ◌≤◌, ◌≡◌, refl, inl, inr, Bool, true, false, Option, none, some, [], get_or, empty, Text,
  codes, length, if◌then◌else◌, Option-cases, Bool-cases,
}
use nginx_front_back_end_dem.Role.{Role}
use nginx_front_back_end_dem.Auth.{AuthProvider}
use nginx_front_back_end_dem.World.{World}
use nginx_front_back_end_dem.Http.{Status, text, Request, Response, RequestContext}
use nginx_front_back_end_dem.Json.{Glaze}
use nginx_front_back_end_dem.Tokens.{TokenEntry}
use nginx_front_back_end_dem.Acl.{authorize}
use nginx_front_back_end_dem.Cookies.{validated_token}
use nginx_front_back_end_dem.Router.{path_of}
use nginx_front_back_end_dem.AuthHandler.{
  authenticated, handle_login, uri_allowed, handle_check, handle_protected_file, relative,
  serve_file,
}
use nginx_front_back_end_dem.Engine.{
  Handler, login, auth_check, protected_file, Engine, run_handler, serve,
}
use nginx_front_back_end_dem.Overlap.{Progress, more, run_moves}
use nginx_front_back_end_dem.Overlap.Handlers.{
  Work, begun, identity, checked_uri, checked, identified, guarded, login_answered, first_step,
  next_step, engine_steps,
}
use nginx_front_back_end_dem.Overlap.Kept.{no_flights}
use nginx_front_back_end_dem.Overlap.Serial.{
  perform, alone, own_moves, run_moves-dispatch, length-own_moves,
}

module _ {P C : Type 0} (glz : Glaze) (provider : AuthProvider P)
    (run_app : World → C → RequestContext → Engine P C → Option Response × Engine P C) where
  abbrev perform_engine :
      ℕ → World → Progress (Work C) × Engine P C → Option (Option Response × Engine P C)
  perform_engine n w r = perform (engine_steps glz provider run_app) n w r

  login-perform :
      (w : World) (username : Text) (e : Engine P C) (answer : Option (Option Role) × P)
      → perform_engine 2 w (login_answered glz provider run_app username e answer) ≡ (
          let (res, auth, tokens) = authenticated glz w username e.tokens answer in
          some (res, record e { auth = auth; tokens = tokens }))
  unfolding perform login_answered authenticated next_step
  login-perform w username e (none, auth) = refl
  login-perform w username e (some none, auth) = refl
  login-perform w username e (some (some role), auth) = refl

  -- The two ways on behind the token.
  check-perform :
      (w : World) (req : Request) (e : Engine P C) (entry : TokenEntry) (uri : Option Text)
      → validated_token w req e.tokens ≡ some entry
      → req.x_original_uri ≡ uri
      → perform_engine 2 w (checked_uri entry uri, e)
        ≡ some (some (handle_check w req e.tokens e.acl), e)
  unfolding perform checked_uri handle_check uri_allowed next_step identity
  check-perform w req e entry none valid is = rw (valid, is, handle_check, uri_allowed) refl
  check-perform w req e entry (some uri) valid is = elim (Bool-cases (empty uri)) [
    | inl blank ↦ rw (valid, is, blank, checked_uri, handle_check, uri_allowed) refl
    | inr asked ↦ rw (valid, is, asked, checked_uri, handle_check, uri_allowed) refl
  ]

  guarded-perform :
      (w : World) (e : Engine P C) (entry : TokenEntry) (path fs_root url_prefix : Text)
      (permitted : Bool)
      → perform_engine 1 w (guarded entry path fs_root url_prefix permitted, e)
        ≡ some (
          some (
              if permitted
              then serve_file w fs_root (relative path url_prefix)
              else text Status.forbidden (codes "Access denied")),
          e,
        )
  unfolding perform guarded next_step
  guarded-perform w e entry path fs_root url_prefix true = refl
  guarded-perform w e entry path fs_root url_prefix false = refl

  file-perform :
      (w : World) (req : Request) (e : Engine P C) (entry : TokenEntry) (fs_root url_prefix : Text)
      → validated_token w req e.tokens ≡ some entry
      → perform_engine 2 w (identified req fs_root url_prefix (some entry), e)
        ≡ some (some (handle_protected_file w req e.tokens e.acl fs_root url_prefix), e)
  unfolding perform identified handle_protected_file next_step
  file-perform w req e entry fs_root url_prefix valid =
      rw (valid, handle_protected_file)
        (guarded-perform w e entry (path_of req.target) fs_root url_prefix
          (authorize e.acl entry.role (path_of req.target)))

  first_step-perform :
      (w : World) (handler : Handler C) (ctx : RequestContext) (e : Engine P C)
      → perform_engine 2 w (first_step glz provider run_app w handler ctx e)
        ≡ some (run_handler glz provider run_app w handler ctx e)
  unfolding perform first_step run_handler handle_login handle_check handle_protected_file checked
      identified
  first_step-perform w login ctx e =
      let body = (glz.read_login ctx.request.body).value in
      let username = get_or body.username [] in
      elim (Bool-cases (empty username)) [
        | inl nameless ↦ rw (nameless, first_step, run_handler, handle_login) refl
        | inr named ↦
            rw (named, first_step, run_handler, handle_login)
              (login-perform w username e
                (provider.authenticate e.auth username (get_or body.password [])))
      ]
  first_step-perform w auth_check ctx e =
      elim (Option-cases (validated_token w ctx.request e.tokens)) [
        | inl missing ↦ rw (missing, checked, handle_check) refl
        | inr (entry, valid) ↦
            rw (valid, checked)
              (check-perform w ctx.request e entry ctx.request.x_original_uri valid refl)
      ]
  first_step-perform w (protected_file fs_root url_prefix) ctx e =
      elim (Option-cases (validated_token w ctx.request e.tokens)) [
        | inl missing ↦ rw (missing, identified, handle_protected_file) refl
        | inr (entry, valid) ↦
            rw (valid, identified) (file-perform w ctx.request e entry fs_root url_prefix valid)
      ]
  first_step-perform w handler ctx e = refl

  handler-perform :
      (w : World) (handler : Handler C) (ctx : RequestContext) (e : Engine P C)
      → perform_engine 3 w (more (begun handler ctx), e)
        ≡ some (run_handler glz provider run_app w handler ctx e)
  unfolding perform next_step
  handler-perform w handler ctx e = first_step-perform w handler ctx e

  -- A request whose steps no move of another thread interrupts makes at most six moves, and they give
  -- the answer of the engine that runs each handler in one step, and leave that engine.
  pub run_moves-serve :
      (i : ℕ) (w : World) (req : Request) (e : Engine P C)
      → let moves = own_moves glz (engine_steps glz provider run_app) 3 i w req e in
        (length moves ≤ 6)
        × (run_moves glz (engine_steps glz provider run_app) moves (no_flights e)
            ≡ some (alone i req (serve glz provider run_app w req e)))
  unfolding serve
  run_moves-serve i w req e = (
    length-own_moves glz (engine_steps glz provider run_app) 3 i w req e,
    run_moves-dispatch glz (engine_steps glz provider run_app) (run_handler glz provider run_app) 3
        handler-perform i w req e,
  )
