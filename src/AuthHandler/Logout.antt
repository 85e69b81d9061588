-- ===== src/AuthHandler/Logout.antt =====
-- Logging out: `AuthHandler::handle_logout`.
use nginx_front_back_end_dem.Prelude.{
  ◌≡◌, refl, not, ◌&&◌, Option, none, some, [], Text, codes, arith, empty, text_beq, text_beq_iff,
  if◌then◌else◌,
}
use nginx_front_back_end_dem.World.{World}
use nginx_front_back_end_dem.Http.{Status, Request, json}
use nginx_front_back_end_dem.Json.{ok_json}
use nginx_front_back_end_dem.Tokens.{TokenStore, validate}
use nginx_front_back_end_dem.Tokens.Laws.{validate-revoke}
use nginx_front_back_end_dem.Cookies.{extract_cookie, extract_token, validated_token}
use nginx_front_back_end_dem.AuthHandler.{expired_cookie, revoke_cookie, handle_logout}

-- The session that a request names by its cookie; "" if by none.
abbrev pub cookie_session : Option Text → Text
cookie_session none = []
cookie_session (some header) = extract_cookie header (codes "session")

validate-revoke_cookie :
    (w : World) (cookie : Option Text) (tokens : TokenStore) (other : Text)
    → validate w other (revoke_cookie cookie tokens) ≡ (
        if text_beq (cookie_session cookie) other && not (empty other)
        then none
        else validate w other tokens)
unfolding revoke_cookie
validate-revoke_cookie w none tokens other = ground (arith, text_beq_iff [] other)
validate-revoke_cookie w (some header) tokens other =
    let token = extract_cookie header (codes "session") in
    ground (arith, validate-revoke w token other tokens, text_beq_iff token other)

no_bearer :
    (w : World) (req : Request) (tokens : TokenStore)
    → req.authorization ≡ none
    → validated_token w req tokens ≡ (
        if empty (cookie_session req.cookie)
        then none
        else validate w (cookie_session req.cookie) tokens)
unfolding validated_token extract_token
no_bearer w req tokens e = ground arith

-- Logging out answers 200 and clears the cookie, whatever the request. The token of the request's
-- session cookie is not valid from then on, and any other token stands for what it stood for; so the
-- same request without an Authorization header is no longer taken for a session.
pub handle_logout_lem :
    (w : World) (req : Request) (tokens : TokenStore) (other : Text)
    → let (res, tokens') = handle_logout req tokens in
      ((res.status ≡ Status.ok) × (res.set_cookie ≡ some expired_cookie))
      × (validate w other tokens' ≡ (
          if text_beq (cookie_session req.cookie) other && not (empty other)
          then none
          else validate w other tokens))
      × (validated_token w (record req { authorization = none }) tokens' ≡ none)
unfolding handle_logout json ok_json
handle_logout_lem w req tokens other = (
  (refl, refl),
  validate-revoke_cookie w req.cookie tokens other,
  let token = cookie_session req.cookie in
      ground (
        arith,
        no_bearer w (record req { authorization = none }) (revoke_cookie req.cookie tokens) refl,
        validate-revoke_cookie w req.cookie tokens token,
        text_beq_iff token token,
      ),
)
