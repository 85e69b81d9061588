-- ===== src/Main/Admins.antt =====
-- Who may change the controller, the access list and the users, over a history of requests.
use nginx_front_back_end_dem.Prelude.{
  get_or, empty, ◌≡◌, ◌⊎◌, refl, sym, ap, subst, inl, inr, true, false, Option, none, some, List,
  [], Text, arith, Option-cases, Bool-cases,
}
use nginx_front_back_end_dem.Role.{Role, guest, viewer, user, admin, role_satisfies}
use nginx_front_back_end_dem.World.{World}
use nginx_front_back_end_dem.Auth.{UserInfo, AuthProvider}
use nginx_front_back_end_dem.Http.{Request, RequestContext}
use nginx_front_back_end_dem.Json.{Glaze}
use nginx_front_back_end_dem.Tokens.{TokenStore, TokenEntry}
use nginx_front_back_end_dem.Cookies.{validated_token}
use nginx_front_back_end_dem.Cookies.Laws.{validated_token-lookup}
use nginx_front_back_end_dem.Router.{Route, find_route, path_of, gate, admit, call, dispatch}
use nginx_front_back_end_dem.Router.Gate.{call_inv}
use nginx_front_back_end_dem.Router.Routes.{find_route-AllRoutes}
use nginx_front_back_end_dem.Session.KeepAlive.{serve_all}
use nginx_front_back_end_dem.Engine.{
  Handler, login, logout, protected_file, auth_check, app, run_handler,
}
use nginx_front_back_end_dem.AuthHandler.{authenticated, handle_login}
use nginx_front_back_end_dem.Engine.Sessions.{Holds, Accepted}
use nginx_front_back_end_dem.Server.{WebServer, Server, WebServerController}
use nginx_front_back_end_dem.Control.{ControlReaders}
use nginx_front_back_end_dem.Main.{
  Endpoint, public_data, server_object, server_text, tiered, Program, run_endpoint, run_program,
  serve_program, prepare,
}
use nginx_front_back_end_dem.Main.Served.{served-AllGuarded}
use nginx_front_back_end_dem.Main.Guarded.{privileged, AllGuarded, IsGuarded}

pub satisfies-admin : (role : Role) → role_satisfies role admin ≡ true → role ≡ admin
unfolding role_satisfies
satisfies-admin viewer e = cc
satisfies-admin user e = cc
satisfies-admin admin e = refl
satisfies-admin guest e = cc

-- The provider is in its state before, or where trying a password leaves it.
abbrev pub AuthKept : {P : Type 0} → AuthProvider P → P → P → Type 0
AuthKept provider p p' =
    (p' ≡ p)
    ⊎ ((username : Text) × (password : Text) × (p' ≡ (provider.authenticate p username password).1))

-- Nothing has changed that only an administrator may change.
abbrev pub SameRule : {P W : Type 0} → AuthProvider P → Program P W → Program P W → Type 0
SameRule provider p p' =
    (p'.srv ≡ p.srv)
    × (p'.engine.acl ≡ p.engine.acl)
    × AuthKept provider p.engine.auth p'.engine.auth

-- Who makes a request: an administrator whom the provider accepts as one.
abbrev pub ByAdmin : {P W : Type 0} → AuthProvider P → World → Request → Program P W → Type 0
ByAdmin provider w req p =
    (entry : TokenEntry) × (validated_token w req p.engine.tokens ≡ some entry)
    × (entry.role ≡ admin)
    × Accepted provider entry.username admin

module _ (glz : Glaze) (readers : ControlReaders) {P W : Type 0} (provider : AuthProvider P)
    (ctl : WebServerController W) (nobody : UserInfo) where
  authenticated-AuthKept :
      (w : World) (username password : Text) (p : P) (tokens : TokenStore)
      (answer : Option (Option Role) × P)
      → provider.authenticate p username password ≡ answer
      → AuthKept provider p (authenticated glz w username tokens answer).1
  unfolding authenticated
  authenticated-AuthKept w username password p tokens (none, p') e =
      inr (username, password, sym (ap (λ a. a.1) e))
  authenticated-AuthKept w username password p tokens (some none, p') e =
      inr (username, password, sym (ap (λ a. a.1) e))
  authenticated-AuthKept w username password p tokens (some (some role), p') e =
      inr (username, password, sym (ap (λ a. a.1) e))

  handle_login-AuthKept :
      (w : World) (req : Request) (p : P) (tokens : TokenStore)
      → AuthKept provider p (handle_login glz provider w req p tokens).1
  unfolding handle_login authenticated
  handle_login-AuthKept w req p tokens =
      let body = (glz.read_login req.body).value in
      let username = get_or body.username [] in
      elim (Bool-cases (empty username)) [
        | inl nameless ↦ rw (nameless, handle_login) (inl refl)
        | inr named ↦
            rw (named, handle_login)
              (authenticated-AuthKept w username (get_or body.password []) p tokens _ refl)
      ]

  run_program-SameRule :
      (w : World) (handler : Handler Endpoint) (ctx : RequestContext) (p : Program P W)
      → privileged handler ≡ false
      → SameRule provider p (run_program glz readers provider ctl nobody w handler ctx p).1
  unfolding run_program run_handler run_endpoint
  run_program-SameRule w login ctx p e =
      (refl, refl, handle_login-AuthKept w ctx.request p.engine.auth p.engine.tokens)
  run_program-SameRule w logout ctx p e = (refl, refl, inl refl)
  run_program-SameRule w auth_check ctx p e = (refl, refl, inl refl)
  run_program-SameRule w (protected_file fs_root url_prefix) ctx p e = (refl, refl, inl refl)
  run_program-SameRule w (app public_data) ctx p e = (refl, refl, inl refl)
  run_program-SameRule w (app (server_object server)) ctx p e = (refl, refl, inl refl)
  run_program-SameRule w (app (server_text server)) ctx p e = (refl, refl, inl refl)
  run_program-SameRule w (app (tiered level)) ctx p e = (refl, refl, inl refl)
  run_program-SameRule w _ ctx p e = cc

  session-ByAdmin :
      (w : World) (req : Request) (p : Program P W) (entry : TokenEntry)
      → Holds (Accepted provider) p.engine.tokens
      → validated_token w req p.engine.tokens ≡ some entry
      → role_satisfies entry.role admin ≡ true
      → ByAdmin provider w req p
  session-ByAdmin w req p entry genuine valid enough =
      let is_admin = satisfies-admin entry.role enough in
      let (token, found) = validated_token-lookup w req p.engine.tokens entry valid in
      (
        entry,
        valid,
        is_admin,
        subst (Accepted provider entry.username) is_admin (genuine token entry found),
      )

  privileged-ByAdmin :
      (w : World) (req : Request) (p : Program P W) (route : Route (Handler Endpoint))
      → Holds (Accepted provider) p.engine.tokens
      → route.min_role ≡ some admin
      → (let p' =
            (call glz
              (λ (p : Program P W). p.engine.router)
              (λ p. p.engine.tokens)
              (run_program glz readers provider ctl nobody)
              w
              req
              route
              p).1 in
          p' ≡ p)
        ⊎ ByAdmin provider w req p
  unfolding call gate admit
  privileged-ByAdmin w req p route genuine need =
      elim (Option-cases (validated_token w req p.engine.tokens)) [
        | inl missing ↦ inl (ground arith)
        | inr (entry, valid) ↦ elim (Bool-cases (role_satisfies entry.role admin)) [
          | inl enough ↦ inr (session-ByAdmin w req p entry genuine valid enough)
          | inr low ↦ inl (ground arith)
        ]
      ]

  request-ByAdmin :
      (w : World) (req : Request) (p : Program P W)
      → AllGuarded p.engine.router
      → Holds (Accepted provider) p.engine.tokens
      → SameRule provider p (serve_program glz readers provider ctl nobody w req p).1
        ⊎ ByAdmin provider w req p
  unfolding serve_program dispatch
  request-ByAdmin w req p guarded genuine =
      elim (Option-cases (find_route req.method (path_of req.target) p.engine.router)) [
        | inl missing ↦ inl (rw (missing, serve_program, dispatch) (refl, refl, inl refl))
        | inr (route, found) ↦ elim (Bool-cases (privileged route.handler)) [
          | inl rules ↦
              elim (privileged-ByAdmin w req p route genuine (
                (find_route-AllRoutes IsGuarded req.method (path_of req.target) p.engine.router
                    route guarded found).0
                  rules)) [
                    | inl same ↦ inl (
                        rw (found, serve_program, dispatch)
                          (
                            ap (λ (p : Program P W). p.srv) same,
                            ap (λ (p : Program P W). p.engine.acl) same,
                            inl (ap (λ (p : Program P W). p.engine.auth) same),
                          ))
                    | inr by ↦ inr by
                  ]
          | inr plain ↦ inl (
              rw (found, serve_program, dispatch)
                (call_inv glz (λ (p : Program P W). p.engine.router) (λ p. p.engine.tokens)
                  (run_program glz readers provider ctl nobody) (SameRule provider p) w req route p
                  (λ ctx. run_program-SameRule w route.handler ctx p plain) (refl, refl, inl refl)))
        ]
      ]

  module _ (methods : WebServer → WebServerController W) (getenv : Text → Option Text) (auth : P)
      (machine : W) (start : Program P W) (srv : Server W)
      (made : prepare methods getenv auth machine ≡ some start) where
    -- Whatever requests the program that `main` prepares has had, and for every behaviour of the
    -- controller, a request leaves the controller and the access list as they are, and the provider too
    -- or as a password that is tried leaves it, unless the request presents a valid session that stands
    -- for an administrator whom the provider accepts as one, for some password and in some state of its
    -- own.
    pub serve_program-ByAdmin :
        (history : List (World × Request)) (w : World) (req : Request)
        → let p =
            serve_all
              (serve_program glz readers provider ctl nobody)
              history
              (record start { srv = srv }) in
          let p' = (serve_program glz readers provider ctl nobody w req p).1 in
          SameRule provider p p' ⊎ ByAdmin provider w req p
    serve_program-ByAdmin history w req =
        let (same, guarded, genuine) =
          served-AllGuarded glz readers provider ctl nobody methods getenv auth machine start srv
            made history in
        request-ByAdmin w req _ guarded genuine
