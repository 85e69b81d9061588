-- ===== src/Overlap/Confirmed.antt =====
-- Which sub-requests of the proxy are confirmed, however the threads overlap.
use nginx_front_back_end_dem.Prelude.{
  ◌≡◌, sym, ap, ◌∙◌, subst, inl, inr, true, false, Bool, Option, none, some, List, [], Text, ℕ,
  empty, arith, Bool-cases, lookup, nat_eq, if◌then◌else◌, refl,
}
use nginx_front_back_end_dem.Role.{Role}
use nginx_front_back_end_dem.Auth.{UserInfo, AuthProvider}
use nginx_front_back_end_dem.World.{World}
use nginx_front_back_end_dem.Http.{Status, Request, Response, RequestContext, status_response}
use nginx_front_back_end_dem.Json.{Glaze}
use nginx_front_back_end_dem.Tokens.{TokenEntry}
use nginx_front_back_end_dem.Acl.{authorize}
use nginx_front_back_end_dem.Cookies.{validated_token}
use nginx_front_back_end_dem.Router.{Route}
use nginx_front_back_end_dem.Engine.{Handler, auth_check, Engine}
use nginx_front_back_end_dem.Engine.Sessions.{Accepted}
use nginx_front_back_end_dem.Overlap.{
  working, answered, Threads, Move, handle, settled, move, run_moves,
}
use nginx_front_back_end_dem.Overlap.Handlers.{
  Work, begun, opening, allowing, guarding, fetching, identity, checked_uri, checked, first_step,
  next_step, engine_steps,
}
use nginx_front_back_end_dem.Overlap.Known.{WorkOk, Genuine, Seen, Known, session-Known}
use nginx_front_back_end_dem.Overlap.Kept.{no_flights}
use nginx_front_back_end_dem.Overlap.Past.{HadSession, WasAllowed, run_moves-Past, handle-answered}

module _ {P C : Type 0} (glz : Glaze) (provider : AuthProvider P)
    (run_app : World → C → RequestContext → Engine P C → Option Response × Engine P C)
    (keeps_tokens : (w : World) (c : C) (ctx : RequestContext) (e : Engine P C)
      → (run_app w c ctx e).1.tokens ≡ e.tokens)
    (w : World) (req : Request) (route : Route (Handler C)) (caller : Option UserInfo)
    (res : Response) where
  -- The identity of a known session, whose role was allowed the URI, if the proxy has sent one.
  abbrev pub Confirmed : (Request → TokenEntry → Type 0) → (Role → Text → Type 0) → Type 0
  Confirmed T G =
      (entry : TokenEntry) × T req entry
      × Accepted provider entry.username entry.role
      × (res ≡ identity entry)
      × ((uri : Text) → req.x_original_uri ≡ some uri → empty uri ≡ false → G entry.role uri)

  module _ (T : Request → TokenEntry → Type 0) (G : Role → Text → Type 0)
      (ok : res.status ≡ Status.ok) where
    checked_uri-Confirmed :
        (entry : TokenEntry) (uri : Option Text)
        → Known glz provider run_app keeps_tokens T G req entry
        → req.x_original_uri ≡ uri
        → settled glz route caller (checked_uri {C = C} entry uri) ≡ answered res
        → Confirmed T G
    unfolding settled checked_uri
    checked_uri-Confirmed entry none known of is =
        (entry, known.0, known.1, cc, λ uri asked filled. absurd (cc))
    checked_uri-Confirmed entry (some uri) known of is = elim (Bool-cases (empty uri)) [
      | inl blank ↦
          (entry, known.0, known.1, ground arith, λ uri' asked filled. absurd (ground arith))
      | inr filled ↦ absurd (ground arith)
    ]

    checked-Confirmed :
        (session : Option TokenEntry)
        → ((entry : TokenEntry)
            → session ≡ some entry
            → Known glz provider run_app keeps_tokens T G req entry)
        → settled glz route caller (checked {C = C} req session) ≡ answered res
        → Confirmed T G
    unfolding settled checked status_response
    checked-Confirmed none known is = absurd (cc)
    checked-Confirmed (some entry) known is =
        checked_uri-Confirmed entry req.x_original_uri (known entry refl) refl is

    allowing-Confirmed :
        (entry : TokenEntry) (uri : Text) (permitted : Bool)
        → Known glz provider run_app keeps_tokens T G req entry
        → req.x_original_uri ≡ some uri
        → (permitted ≡ true → G entry.role uri)
        → (if permitted then identity entry else status_response Status.forbidden) ≡ res
        → Confirmed T G
    unfolding status_response
    allowing-Confirmed entry uri true known of allows is = (
      entry,
      known.0,
      known.1,
      sym is,
      λ uri' asked filled. let same : uri ≡ uri' = cc in subst (G entry.role) same (allows refl),
    )
    allowing-Confirmed entry uri false known of allows is = absurd (cc)

    next_step-Confirmed :
        (r : Work C) (e : Engine P C)
        → Genuine glz provider run_app keeps_tokens T G e
        → Seen glz provider run_app keeps_tokens T G e
        → WorkOk glz provider run_app keeps_tokens T G req auth_check r
        → settled glz route caller (next_step glz provider run_app w r e).0 ≡ answered res
        → Confirmed T G
    unfolding next_step first_step settled
    next_step-Confirmed (begun handler ctx) e held seen (same, of) is =
        let session = validated_token w ctx.request e.tokens in
        let there : settled glz route caller (first_step glz provider run_app w auth_check ctx e).0
            ≡ answered res =
          sym
            (ap (λ h. settled glz route caller (first_step glz provider run_app w h ctx e).0) same)
          ∙ is in
        checked-Confirmed session
          (λ entry valid.
            subst (λ q. Known glz provider run_app keeps_tokens T G q entry) of
              (session-Known glz provider run_app keeps_tokens T G w ctx.request e entry held seen
                valid))
          (sym (ap (λ q. settled glz route caller (checked q session)) of) ∙ there)
    next_step-Confirmed (opening username role) e held seen (other, known) is = absurd (cc)
    next_step-Confirmed (guarding entry path root prefix) e held seen (other, of, known) is =
        absurd (cc)
    next_step-Confirmed (fetching entry path root prefix) e held seen (other, of, known, g) is =
        absurd (cc)
    next_step-Confirmed (allowing entry uri) e held seen (same, of, known) is =
        allowing-Confirmed entry uri (authorize e.acl entry.role uri) known of
          (seen.1 entry.role uri) (cc (is))

  -- However worker threads interleave the steps of their requests, on an engine that starts without
  -- tokens: if a step of a request on a route of the proxy's check answers it with 200, then the
  -- request presented a token that was valid at some point of the run, for a user and a role with which
  -- the provider accepts that user, the answer names that user and that role, and if the proxy has sent
  -- a URI that is not empty, the access list at some point of the run allowed the role that URI.
  pub run_moves-Confirmed :
      (e : Engine P C) (moves : List Move) (t t' : Threads (Handler C) (Work C) (Engine P C))
      (i : ℕ) (r : Work C)
      → e.tokens.store ≡ []
      → run_moves glz (engine_steps glz provider run_app) moves (no_flights e) ≡ some t
      → lookup i t.flights ≡ some (record { request = req; phase = working route caller r })
      → route.handler ≡ auth_check
      → move glz (engine_steps glz provider run_app) (handle i w) t ≡ some t'
      → lookup i t'.flights ≡ some (record { request = req; phase = answered res })
      → res.status ≡ Status.ok
      → Confirmed
          (HadSession glz provider run_app keeps_tokens e moves)
          (WasAllowed glz provider run_app keeps_tokens e moves)
  run_moves-Confirmed e moves t t' i r empty ran found serves went after ok =
      let had = HadSession glz provider run_app keeps_tokens e moves in
      let was = WasAllowed glz provider run_app keeps_tokens e moves in
      let ((right, knows), held, sees) =
        run_moves-Past glz provider run_app keeps_tokens e moves t i req (working route caller r)
          empty ran found in
      next_step-Confirmed had was ok r t.engine held sees
        (subst (λ h. WorkOk glz provider run_app keeps_tokens had was req h r) serves knows)
        (handle-answered glz (engine_steps glz provider run_app) i w req route caller r t t' res
          found went after)
