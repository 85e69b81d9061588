-- ===== src/Overlap/Known.antt =====
-- What a handler at work has found out on the engine, whatever the other threads do meanwhile.
use nginx_front_back_end_dem.Prelude.{
  ◌≡◌, refl, sym, ap, subst, inl, inr, Bool, true, false, Option, none, some, [], Text, Bool-cases,
  get_or, empty,
}
use nginx_front_back_end_dem.Role.{Role}
use nginx_front_back_end_dem.Auth.{UserInfo, AuthProvider}
use nginx_front_back_end_dem.World.{World}
use nginx_front_back_end_dem.Http.{Request, Response, RequestContext}
use nginx_front_back_end_dem.Json.{Glaze}
use nginx_front_back_end_dem.Tokens.{TokenEntry}
use nginx_front_back_end_dem.Acl.{authorize}
use nginx_front_back_end_dem.Cookies.{validated_token}
use nginx_front_back_end_dem.Cookies.Laws.{validated_token-lookup}
use nginx_front_back_end_dem.Router.{Route, path_of}
use nginx_front_back_end_dem.Engine.{
  Handler, login, auth_check, protected_file, Engine, run_handler,
}
use nginx_front_back_end_dem.Engine.Sessions.{
  Holds, Accepted, start_session-Holds, run_handler-Genuine,
}
use nginx_front_back_end_dem.Overlap.Entitled.{Entitled}
use nginx_front_back_end_dem.Overlap.{
  Progress, more, done, Phase, copied, let_in, working, answered, settled,
}
use nginx_front_back_end_dem.Overlap.Handlers.{
  Work, begun, opening, allowing, guarding, fetching, checked_uri, checked, identified, guarded,
  login_answered, first_step, next_step,
}

-- `T` is what is known of a request and the session that it had in the run, `G` of a role and a path
-- that an access list of the run allowed.
module _ {P C : Type 0} (glz : Glaze) (provider : AuthProvider P)
    (run_app : World → C → RequestContext → Engine P C → Option Response × Engine P C)
    (keeps_tokens : (w : World) (c : C) (ctx : RequestContext) (e : Engine P C)
      → (run_app w c ctx e).1.tokens ≡ e.tokens)
    (T : Request → TokenEntry → Type 0) (G : Role → Text → Type 0) where
  abbrev pub Known : Request → TokenEntry → Type 0
  Known req entry = T req entry × Accepted provider entry.username entry.role

  -- What a handler at work on a request knows, and which handler it is.
  abbrev pub WorkOk : Request → Handler C → Work C → Type 0
  WorkOk req h (begun handler ctx) = (handler ≡ h) × (ctx.request ≡ req)
  WorkOk req h (opening username role) = (h ≡ login) × Accepted provider username role
  WorkOk req h (allowing entry uri) =
      (h ≡ auth_check) × (req.x_original_uri ≡ some uri) × Known req entry
  WorkOk req h (guarding entry path fs_root url_prefix) =
      (h ≡ protected_file fs_root url_prefix) × (path ≡ path_of req.target) × Known req entry
  WorkOk req h (fetching entry path fs_root url_prefix) =
      (h ≡ protected_file fs_root url_prefix)
      × (path ≡ path_of req.target)
      × Known req entry
      × G entry.role path

  abbrev ProgressOk : Request → Handler C → Progress (Work C) → Type 0
  ProgressOk req h (more r) = WorkOk req h r
  ProgressOk req h (done res) = Unit

  abbrev pub Rightful : Request → Route (Handler C) → Option UserInfo → Type 0
  Rightful req route caller =
      (need : Role) → route.min_role ≡ some need → Entitled provider (T req) need caller

  abbrev pub PhaseOk : Request → Phase (Handler C) (Work C) → Type 0
  PhaseOk req (copied route) = Unit
  PhaseOk req (let_in route caller) = Rightful req route caller
  PhaseOk req (working route caller r) = Rightful req route caller × WorkOk req route.handler r
  PhaseOk req (answered res) = Unit

  abbrev pub Genuine : Engine P C → Type 0
  Genuine e = Holds (Accepted provider) e.tokens

  -- What a step comes to, and the engine after it.
  abbrev Fine : Request → Handler C → Progress (Work C) × Engine P C → Type 0
  Fine req h (progress, e) = Genuine e × ProgressOk req h progress

  abbrev pub Seen : Engine P C → Type 0
  Seen e =
      ((w : World) (req : Request) (entry : TokenEntry)
        → validated_token w req e.tokens ≡ some entry
        → T req entry)
      × ((role : Role) (path : Text) → authorize e.acl role path ≡ true → G role path)

  pub settled-PhaseOk :
      (req : Request) (route : Route (Handler C)) (caller : Option UserInfo)
      (progress : Progress (Work C))
      → Rightful req route caller
      → ProgressOk req route.handler progress
      → PhaseOk req (settled glz route caller progress)
  unfolding settled
  settled-PhaseOk req route caller (more r) right ok = (right, ok)
  settled-PhaseOk req route caller (done none) right ok = tt
  settled-PhaseOk req route caller (done (some res)) right ok = tt

  pub session-Known :
      (w : World) (req : Request) (e : Engine P C) (entry : TokenEntry)
      → Genuine e
      → Seen e
      → validated_token w req e.tokens ≡ some entry
      → Known req entry
  session-Known w req e entry held seen valid =
      let (token, found) = validated_token-lookup w req e.tokens entry valid in
      (seen.0 w req entry valid, held token entry found)

  login_answered-Fine :
      (username password : Text) (req : Request) (e : Engine P C)
      (answer : Option (Option Role) × P)
      → provider.authenticate e.auth username password ≡ answer
      → Genuine e
      → Fine req login (login_answered glz provider run_app username e answer)
  unfolding login_answered
  login_answered-Fine username password req e (none, auth) is held = (held, tt)
  login_answered-Fine username password req e (some none, auth) is held = (held, tt)
  login_answered-Fine username password req e (some (some role), auth) is held =
      (held, (refl, (e.auth, password, ap (λ a. a.0) is)))

  checked-ProgressOk :
      (req : Request) (session : Option TokenEntry)
      → ((entry : TokenEntry) → session ≡ some entry → Known req entry)
      → ProgressOk req auth_check (checked req session)
  unfolding checked
  checked-ProgressOk req none known = tt
  checked-ProgressOk req (some entry) known = of_uri req.x_original_uri refl
    where
      of_uri :
          (uri : Option Text)
          → req.x_original_uri ≡ uri
          → ProgressOk req auth_check (checked_uri entry uri)
      of_uri none is = unfold checked_uri in tt
      of_uri (some uri) is = elim (Bool-cases (empty uri)) [
        | inl blank ↦ rw (blank, checked_uri) tt
        | inr asked ↦ rw (asked, checked_uri) (refl, is, known entry refl)
      ]

  identified-ProgressOk :
      (req : Request) (fs_root url_prefix : Text) (session : Option TokenEntry)
      → ((entry : TokenEntry) → session ≡ some entry → Known req entry)
      → ProgressOk req
          (protected_file fs_root url_prefix)
          (identified req fs_root url_prefix session)
  unfolding identified
  identified-ProgressOk req fs_root url_prefix none known = tt
  identified-ProgressOk req fs_root url_prefix (some entry) known = (refl, refl, known entry refl)

  guarded-ProgressOk :
      (req : Request) (entry : TokenEntry) (path fs_root url_prefix : Text) (permitted : Bool)
      → path ≡ path_of req.target
      → Known req entry
      → (permitted ≡ true → G entry.role path)
      → ProgressOk req
          (protected_file fs_root url_prefix)
          (guarded entry path fs_root url_prefix permitted)
  unfolding guarded
  guarded-ProgressOk req entry path fs_root url_prefix true is known allows =
      (refl, is, known, allows refl)
  guarded-ProgressOk req entry path fs_root url_prefix false is known allows = tt

  first_step-Fine :
      (w : World) (handler : Handler C) (ctx : RequestContext) (e : Engine P C)
      → Genuine e
      → Seen e
      → Fine ctx.request handler (first_step glz provider run_app w handler ctx e)
  unfolding first_step run_handler
  first_step-Fine w login ctx e held seen =
      let body = (glz.read_login ctx.request.body).value in
      let username = get_or body.username [] in
      elim (Bool-cases (empty username)) [
        | inl nameless ↦ rw (nameless, first_step) (held, tt)
        | inr named ↦
            rw (named, first_step)
              (login_answered-Fine username (get_or body.password []) ctx.request e _ refl held)
      ]
  first_step-Fine w auth_check ctx e held seen = (
    held,
    checked-ProgressOk ctx.request _ (λ entry. session-Known w ctx.request e entry held seen),
  )
  first_step-Fine w (protected_file fs_root url_prefix) ctx e held seen = (
    held,
    identified-ProgressOk ctx.request fs_root url_prefix _
        (λ entry. session-Known w ctx.request e entry held seen),
  )
  first_step-Fine w handler ctx e held seen =
      (run_handler-Genuine glz provider run_app keeps_tokens w handler ctx e held, tt)

  pub next_step-Fine :
      (w : World) (req : Request) (h : Handler C) (r : Work C) (e : Engine P C)
      → Genuine e
      → Seen e
      → WorkOk req h r
      → Fine req h (next_step glz provider run_app w r e)
  unfolding next_step
  next_step-Fine w req h (begun handler ctx) e held seen (same, of) =
      subst (λ h. Fine req h (first_step glz provider run_app w handler ctx e)) same
        (subst (λ req. Fine req handler (first_step glz provider run_app w handler ctx e)) of
          (first_step-Fine w handler ctx e held seen))
  next_step-Fine w req h (opening username role) e held seen (is, known) =
      (start_session-Holds glz provider w username role e.tokens known held, tt)
  next_step-Fine w req h (allowing entry uri) e held seen ok = (held, tt)
  next_step-Fine w req h (fetching entry path fs_root url_prefix) e held seen ok = (held, tt)
  next_step-Fine w req h (guarding entry path fs_root url_prefix) e held seen (is, of, known) =
      subst
        (λ h.
          Fine req h (next_step glz provider run_app w (guarding entry path fs_root url_prefix) e))
        (sym is)
        (
          held,
          guarded-ProgressOk req entry path fs_root url_prefix (authorize e.acl entry.role path) of
              known (seen.1 entry.role path),
        )
