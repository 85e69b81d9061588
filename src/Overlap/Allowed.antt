-- ===== src/Overlap/Allowed.antt =====
-- Which protected files are sent, however the threads overlap.
use nginx_front_back_end_dem.Prelude.{
  ◌≡◌, sym, ap, ◌∙◌, subst, true, false, Option, none, some, List, [], Text, ℕ, lookup, nat_eq,
  Bool,
}
use nginx_front_back_end_dem.Role.{Role}
use nginx_front_back_end_dem.Auth.{UserInfo, AuthProvider}
use nginx_front_back_end_dem.World.{World}
use nginx_front_back_end_dem.Http.{Status, Request, Response, RequestContext, text, make_response}
use nginx_front_back_end_dem.Json.{Glaze}
use nginx_front_back_end_dem.Tokens.{TokenEntry}
use nginx_front_back_end_dem.Acl.{authorize}
use nginx_front_back_end_dem.Cookies.{validated_token}
use nginx_front_back_end_dem.Router.{Route, path_of}
use nginx_front_back_end_dem.AuthHandler.{redirect_to_login, relative, serve_file}
use nginx_front_back_end_dem.Engine.{Handler, protected_file, Engine}
use nginx_front_back_end_dem.Engine.Sessions.{Accepted}
use nginx_front_back_end_dem.Overlap.{
  working, answered, Threads, Move, handle, settled, move, run_moves,
}
use nginx_front_back_end_dem.Overlap.Handlers.{
  Work, begun, opening, allowing, guarding, fetching, identified, guarded, first_step, next_step,
  engine_steps,
}
use nginx_front_back_end_dem.Overlap.Known.{WorkOk}
use nginx_front_back_end_dem.Overlap.Kept.{no_flights}
use nginx_front_back_end_dem.Overlap.Past.{HadSession, WasAllowed, run_moves-Past, handle-answered}

module _ {P C : Type 0} (glz : Glaze) (provider : AuthProvider P)
    (run_app : World → C → RequestContext → Engine P C → Option Response × Engine P C)
    (keeps_tokens : (w : World) (c : C) (ctx : RequestContext) (e : Engine P C)
      → (run_app w c ctx e).1.tokens ≡ e.tokens)
    (fs_root url_prefix : Text) (w : World) (req : Request) (route : Route (Handler C))
    (caller : Option UserInfo) (res : Response) where
  -- The file that a known session of an allowed role asked for.
  abbrev pub Fetched : (Request → TokenEntry → Type 0) → (Role → Text → Type 0) → Type 0
  Fetched T G =
      (entry : TokenEntry) × T req entry
      × Accepted provider entry.username entry.role
      × G entry.role (path_of req.target)
      × (res ≡ serve_file w fs_root (relative (path_of req.target) url_prefix))

  module _ (T : Request → TokenEntry → Type 0) (G : Role → Text → Type 0)
      (ok : res.status ≡ Status.ok) where
    identified-Fetched :
        (session : Option TokenEntry)
        → settled glz route caller (identified {C = C} req fs_root url_prefix session)
          ≡ answered res
        → Fetched T G
    unfolding settled identified redirect_to_login
    identified-Fetched none is = cc
    identified-Fetched (some entry) is = cc

    guarded-Fetched :
        (entry : TokenEntry) (path root prefix : Text) (permitted : Bool)
        → settled glz route caller (guarded {C = C} entry path root prefix permitted) ≡ answered res
        → Fetched T G
    unfolding settled guarded text make_response
    guarded-Fetched entry path root prefix true is = cc
    guarded-Fetched entry path root prefix false is = cc

    next_step-Fetched :
        (r : Work C) (e : Engine P C)
        → WorkOk glz provider run_app keeps_tokens T G req (protected_file fs_root url_prefix) r
        → settled glz route caller (next_step glz provider run_app w r e).0 ≡ answered res
        → Fetched T G
    unfolding next_step first_step settled
    next_step-Fetched (begun handler ctx) e (same, of) is =
        let session = validated_token w ctx.request e.tokens in
        let there : settled glz route caller
              (first_step glz provider run_app w (protected_file fs_root url_prefix) ctx e).0
            ≡ answered res =
          sym
            (ap (λ h. settled glz route caller (first_step glz provider run_app w h ctx e).0) same)
          ∙ is in
        identified-Fetched session (
          sym (ap (λ q. settled glz route caller (identified q fs_root url_prefix session)) of)
          ∙ there)
    next_step-Fetched (opening username role) e (other, known) is = absurd (cc)
    next_step-Fetched (allowing entry uri) e (other, of, known) is = absurd (cc)
    next_step-Fetched (guarding entry path root prefix) e (same, of, known) is =
        guarded-Fetched entry path root prefix (authorize e.acl entry.role path) is
    next_step-Fetched (fetching entry path root prefix) e (same, of, known, g) is =
        (entry, known.0, known.1, subst (G entry.role) of g, cc (of, same, is))

  -- However worker threads interleave the steps of their requests, on an engine that starts without
  -- tokens: if a step of a request on a route that serves protected files answers it with 200, then
  -- the request presented a token that was valid at some point of the run, for a user and a role with
  -- which the provider accepts that user, the access list at some point of the run allowed this role
  -- the request's path, and the answer is the one for the file of that path below the root.
  pub run_moves-Fetched :
      (e : Engine P C) (moves : List Move) (t t' : Threads (Handler C) (Work C) (Engine P C))
      (i : ℕ) (r : Work C)
      → e.tokens.store ≡ []
      → run_moves glz (engine_steps glz provider run_app) moves (no_flights e) ≡ some t
      → lookup i t.flights ≡ some (record { request = req; phase = working route caller r })
      → route.handler ≡ protected_file fs_root url_prefix
      → move glz (engine_steps glz provider run_app) (handle i w) t ≡ some t'
      → lookup i t'.flights ≡ some (record { request = req; phase = answered res })
      → res.status ≡ Status.ok
      → Fetched
          (HadSession glz provider run_app keeps_tokens e moves)
          (WasAllowed glz provider run_app keeps_tokens e moves)
  run_moves-Fetched e moves t t' i r empty ran found serves went after ok =
      let had = HadSession glz provider run_app keeps_tokens e moves in
      let was = WasAllowed glz provider run_app keeps_tokens e moves in
      let ((right, knows), held, sees) =
        run_moves-Past glz provider run_app keeps_tokens e moves t i req (working route caller r)
          empty ran found in
      next_step-Fetched had was ok r t.engine
        (subst (λ h. WorkOk glz provider run_app keeps_tokens had was req h r) serves knows)
        (handle-answered glz (engine_steps glz provider run_app) i w req route caller r t t' res
          found went after)
