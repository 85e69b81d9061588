-- ===== src/Main/Unprivileged.antt =====
-- What the steps of handlers that are not for administrators leave alone.
use nginx_front_back_end_dem.Prelude.{
  ◌≡◌, refl, sym, ap, ◌∙◌, inl, inr, false, get_or, empty, Option, none, some, [], Text, Bool-cases,
  nat_eq,
}
use nginx_front_back_end_dem.Role.{Role}
use nginx_front_back_end_dem.World.{World}
use nginx_front_back_end_dem.Auth.{UserInfo, AuthProvider}
use nginx_front_back_end_dem.Http.{Request, RequestContext}
use nginx_front_back_end_dem.Json.{Glaze}
use nginx_front_back_end_dem.Tokens.{TokenEntry}
use nginx_front_back_end_dem.Engine.{
  Handler, login, logout, auth_check, protected_file, app, run_handler,
}
use nginx_front_back_end_dem.Server.{WebServerController}
use nginx_front_back_end_dem.Control.{ControlReaders}
use nginx_front_back_end_dem.Overlap.Handlers.{Work, begun, login_answered, first_step, next_step}
use nginx_front_back_end_dem.Overlap.Known.{WorkOk}
use nginx_front_back_end_dem.Main.{
  Endpoint, public_data, server_object, server_text, tiered, Program, run_endpoint,
}
use nginx_front_back_end_dem.Main.Guarded.{privileged}
use nginx_front_back_end_dem.Main.Admins.{SameRule}
use nginx_front_back_end_dem.Main.Threads.{run_none, keeps_none, program_step}

module _ (glz : Glaze) (readers : ControlReaders) {P W : Type 0} (provider : AuthProvider P)
    (ctl : WebServerController W) (nobody : UserInfo) where
  login_answered-SameRule :
      (username password : Text) (p : Program P W) (answer : Option (Option Role) × P)
      → provider.authenticate p.engine.auth username password ≡ answer
      → SameRule provider p
          (record p { engine = (login_answered glz provider run_none username p.engine answer).1 })
  unfolding login_answered
  login_answered-SameRule username password p (none, auth) is =
      (refl, refl, inr (username, password, sym (ap (λ a. a.1) is)))
  login_answered-SameRule username password p (some none, auth) is =
      (refl, refl, inr (username, password, sym (ap (λ a. a.1) is)))
  login_answered-SameRule username password p (some (some role), auth) is =
      (refl, refl, inr (username, password, sym (ap (λ a. a.1) is)))

  begun-SameRule :
      (w : World) (handler : Handler Endpoint) (ctx : RequestContext) (p : Program P W)
      → privileged handler ≡ false
      → SameRule provider p (program_step glz readers provider ctl nobody w (begun handler ctx) p).1
  unfolding program_step next_step first_step run_handler run_endpoint
  begun-SameRule w login ctx p plain =
      let body = (glz.read_login ctx.request.body).value in
      let username = get_or body.username [] in
      elim (Bool-cases (empty username)) [
        | inl nameless ↦ rw (nameless, program_step, next_step, first_step) (refl, refl, inl refl)
        | inr named ↦
            rw (named, program_step, next_step, first_step)
              (login_answered-SameRule username (get_or body.password []) p _ refl)
      ]
  begun-SameRule w logout ctx p plain = (refl, refl, inl refl)
  begun-SameRule w auth_check ctx p plain = (refl, refl, inl refl)
  begun-SameRule w (protected_file fs_root url_prefix) ctx p plain = (refl, refl, inl refl)
  begun-SameRule w (app public_data) ctx p plain = (refl, refl, inl refl)
  begun-SameRule w (app (server_object server)) ctx p plain = (refl, refl, inl refl)
  begun-SameRule w (app (server_text server)) ctx p plain = (refl, refl, inl refl)
  begun-SameRule w (app (tiered level)) ctx p plain = (refl, refl, inl refl)
  begun-SameRule w _ ctx p plain = cc

  pub program_step-SameRule :
      (T : Request → TokenEntry → Type 0) (G : Role → Text → Type 0) (w : World) (req : Request)
      (h : Handler Endpoint) (r : Work Endpoint) (p : Program P W)
      → WorkOk glz provider run_none keeps_none T G req h r
      → privileged h ≡ false
      → SameRule provider p (program_step glz readers provider ctl nobody w r p).1
  unfolding program_step next_step
  program_step-SameRule T G w req h (begun handler ctx) p (same, of) plain =
      begun-SameRule w handler ctx p (ap (λ (h : Handler Endpoint). privileged h) same ∙ plain)
  program_step-SameRule T G w req h r p ok plain = (refl, refl, inl refl)
