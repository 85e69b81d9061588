-- ===== src/Main/Overlapping.antt =====
-- Who may change the controller, the access list and the users, however worker threads overlap.
use nginx_front_back_end_dem.Prelude.{
  ℕ, ◌≡◌, ◌⊎◌, refl, sym, subst, inl, inr, All, Option, some, List, Text, arith, Option-cases,
  Bool-cases, lookup, nat_eq,
}
use nginx_front_back_end_dem.Role.{admin}
use nginx_front_back_end_dem.World.{World}
use nginx_front_back_end_dem.Auth.{UserInfo, AuthProvider}
use nginx_front_back_end_dem.Http.{Request}
use nginx_front_back_end_dem.Json.{Glaze}
use nginx_front_back_end_dem.Tokens.{TokenEntry}
use nginx_front_back_end_dem.Cookies.{validated_token}
use nginx_front_back_end_dem.Engine.{Handler}
use nginx_front_back_end_dem.Engine.Sessions.{Holds, Accepted}
use nginx_front_back_end_dem.Server.{WebServer, Server, WebServerController}
use nginx_front_back_end_dem.Control.{ControlReaders}
use nginx_front_back_end_dem.Overlap.{
  Phase, copied, let_in, working, answered, Flight, Threads, Move, arrive, pass_gate, handle,
  set_role, gate_step, handler_step, move, run_moves,
}
use nginx_front_back_end_dem.Overlap.Handlers.{Work}
use nginx_front_back_end_dem.Overlap.Kept.{no_flights, Permitted, Visits, AllOk, run_moves-AllOk}
use nginx_front_back_end_dem.Overlap.Entitled.{Entitled}
use nginx_front_back_end_dem.Main.{Endpoint, Program, prepare}
use nginx_front_back_end_dem.Main.Guarded.{privileged}
use nginx_front_back_end_dem.Main.Served.{prepare-AllGuarded}
use nginx_front_back_end_dem.Main.Admins.{SameRule, satisfies-admin}
use nginx_front_back_end_dem.Main.Threads.{
  program_step, program_steps, FlightOk, program_steps-Keeps,
}
use nginx_front_back_end_dem.Main.Unprivileged.{program_step-SameRule}

module _ (glz : Glaze) (readers : ControlReaders) {P W : Type 0} (provider : AuthProvider P)
    (ctl : WebServerController W) (nobody : UserInfo) where
  abbrev pub State : Type 0
  State = Threads (Handler Endpoint) (Work Endpoint) (Program P W)

  abbrev pub moves_of : List Move → State → Option State
  moves_of moves t = run_moves glz (program_steps glz readers provider ctl nobody) moves t

  abbrev pub move_of : Move → State → Option State
  move_of m t = move glz (program_steps glz readers provider ctl nobody) m t

  -- A move other than a change of a route's role.
  abbrev pub Served : Move → Type 0
  Served m = Permitted (λ path min_role. ⊥) m

  module _ (p : Program P W) (moves : List Move) where
    -- At some point of the run, the request's token was the valid one of this session.
    abbrev pub HadSession : Request → TokenEntry → Type 0
    HadSession req entry =
        (u : State) × Visits glz (program_steps glz readers provider ctl nobody) moves
          (no_flights p) u
        × ((w : World) × (validated_token w req u.engine.engine.tokens ≡ some entry))

    -- An administrator's request: of a session that the request had, for a user whom the provider
    -- accepts as an administrator.
    abbrev pub AdminRequest : Request → Type 0
    AdminRequest req =
        (entry : TokenEntry) × HadSession req entry
        × (entry.role ≡ admin)
        × Accepted provider entry.username admin

    Entitled-AdminRequest :
        (req : Request) (caller : Option UserInfo)
        → Entitled provider (HadSession req) admin caller
        → AdminRequest req
    Entitled-AdminRequest req caller (entry, had, is_caller, enough, accepted) =
        let is_admin = satisfies-admin entry.role enough in
        (entry, had, is_admin, subst (Accepted provider entry.username) is_admin accepted)

    handler-AdminRequest :
        (i : ℕ) (w : World) (req : Request) (phase : Phase (Handler Endpoint) (Work Endpoint))
        (t t' : State)
        → FlightOk glz readers provider ctl nobody HadSession req phase
        → handler_step glz (program_steps glz readers provider ctl nobody) i w req phase t ≡ some t'
        → SameRule provider t.engine t'.engine ⊎ AdminRequest req
    unfolding handler_step
    handler-AdminRequest i w req (copied route) t t' ok went = cc
    handler-AdminRequest i w req (answered res) t t' ok went = cc
    handler-AdminRequest i w req (let_in route caller) t t' ok went =
        let same : t'.engine ≡ t.engine = ground arith in
        inl (subst (SameRule provider t.engine) (sym same) (refl, refl, inl refl))
    handler-AdminRequest i w req (working route caller r) t t' (guarded, (right, work)) went =
        elim (Bool-cases (privileged route.handler)) [
          | inl rules ↦ inr (Entitled-AdminRequest req caller (right admin (guarded.0 rules)))
          | inr plain ↦
              let same : t'.engine ≡ (program_step glz readers provider ctl nobody w r t.engine).1 =
                ground arith in
              inl (
                subst (SameRule provider t.engine) (sym same) (
                  program_step-SameRule glz readers provider ctl nobody HadSession
                    (λ role path. Unit) w req route.handler r t.engine work plain))
        ]

    gate-engine :
        (i : ℕ) (w : World) (req : Request) (phase : Phase (Handler Endpoint) (Work Endpoint))
        (t t' : State)
        → gate_step glz (program_steps glz readers provider ctl nobody) i w req phase t ≡ some t'
        → t'.engine ≡ t.engine
    unfolding gate_step
    gate-engine i w req (copied route) t t' went = ground arith
    gate-engine i w req (let_in route caller) t t' went = cc
    gate-engine i w req (working route caller r) t t' went = cc
    gate-engine i w req (answered res) t t' went = cc

    -- The request by whose step an administrator changes something.
    abbrev pub AdminMove : Move → State → Type 0
    AdminMove m t =
        (i : ℕ) × (w : World) × (f : Flight (Handler Endpoint) (Work Endpoint)) × (m ≡ handle i w)
        × (lookup i t.flights ≡ some f)
        × AdminRequest f.request

    move-AdminMove :
        (m : Move) (t t' : State)
        → AllOk glz
            (program_steps glz readers provider ctl nobody)
            (program_steps-Keeps glz readers provider ctl nobody HadSession)
            t
        → Served m
        → move_of m t ≡ some t'
        → SameRule provider t.engine t'.engine ⊎ AdminMove m t
    unfolding move
    move-AdminMove (arrive i req) t t' ok served went = elim (Option-cases (lookup i t.flights)) [
      | inl free ↦
          let same : t'.engine ≡ t.engine = ground arith in
          inl (subst (SameRule provider t.engine) (sym same) (refl, refl, inl refl))
      | inr (f, taken) ↦ absurd (ground arith)
    ]
    move-AdminMove (pass_gate i w) t t' ok served went = elim (Option-cases (lookup i t.flights)) [
      | inl free ↦ absurd (ground arith)
      | inr (f, taken) ↦
          let same = gate-engine i w f.request f.phase t t' (ground arith) in
          inl (subst (SameRule provider t.engine) (sym same) (refl, refl, inl refl))
    ]
    move-AdminMove (handle i w) t t' ok served went = elim (Option-cases (lookup i t.flights)) [
      | inl free ↦ absurd (ground arith)
      | inr (f, taken) ↦
          elim (handler-AdminRequest i w f.request f.phase t t' (ok.1 i f taken) (ground arith)) [
            | inl same ↦ inl same
            | inr by ↦ inr (i, w, f, refl, taken, by)
          ]
    ]
    move-AdminMove (set_role path min_role) t t' ok served went = absurd served

module _ (glz : Glaze) (readers : ControlReaders) {P W : Type 0} (provider : AuthProvider P)
    (ctl : WebServerController W) (nobody : UserInfo) (methods : WebServer → WebServerController W)
    (getenv : Text → Option Text) (auth : P) (machine : W) (start : Program P W) (srv : Server W)
    (made : prepare methods getenv auth machine ≡ some start) where
  -- Let worker threads run the program that `main` prepares, from any state of its controller, and let
  -- them interleave the lookups, the gates and the steps of the handlers of any number of requests. A
  -- move then leaves the controller and the access list as they are, and the provider too or as a
  -- password that is tried leaves it, unless it is a step of a request that presented, at some point
  -- of the run, a valid session of an administrator whom the provider accepts as one, for some password
  -- and in some state of its own. The roles of the routes stay those that `main` gives.
  pub run_moves-ByAdmin :
      (moves : List Move) (m : Move) (t t' : State glz readers provider ctl nobody)
      → All (Served glz readers provider ctl nobody) moves
      → Served glz readers provider ctl nobody m
      → moves_of glz readers provider ctl nobody moves (no_flights (record start { srv = srv }))
        ≡ some t
      → move_of glz readers provider ctl nobody m t ≡ some t'
      → SameRule provider t.engine t'.engine
        ⊎ AdminMove glz readers provider ctl nobody (record start { srv = srv }) moves m t
  unfolding lookup
  run_moves-ByAdmin moves m t t' served is_served ran went =
      let p = record start { srv = srv } in
      let had = HadSession glz readers provider ctl nobody p moves in
      let (guarded, fresh) = prepare-AllGuarded methods getenv auth machine start made in
      move-AdminMove glz readers provider ctl nobody p moves m t t'
        (run_moves-AllOk glz (program_steps glz readers provider ctl nobody)
          (program_steps-Keeps glz readers provider ctl nobody had) moves (no_flights p) t ran
          (λ u visited. (λ w req entry valid. (u, visited, (w, valid)), λ role path allowed. tt))
          served ((guarded, rw (fresh, Holds) (λ token entry f. cc)), λ i f found. cc))
        is_served went
