-- ===== src/Http.antt =====
-- backend/include/webengine/Http.hpp: the messages that handlers work with, and the response
-- builders. Of Boost.Beast's message types the records keep what the program reads and sets: a field
-- of a request is the value of the first header field of that name, `none` where `find` gives
-- `end()`. `prepared` notes that `prepare_payload()` has been called; what Beast computes there is
-- Beast's.
use nginx_front_back_end_dem.Prelude.{
  ℕ, ◌≡◌, ◌↔◌, Bool, true, false, Option, none, some, [], Text, codes, Eq, nat_beq, arith,
}
use nginx_front_back_end_dem.Auth.{UserInfo}

-- The methods that the program registers, and any other by its number.
pub data Verb : Type 0 where
  get post delete_ patch : Verb
  other : ℕ → Verb

unfoldable pub verb_beq : Verb → Verb → Bool
verb_beq get get = true
verb_beq post post = true
verb_beq delete_ delete_ = true
verb_beq patch patch = true
verb_beq (other a) (other b) = nat_beq a b
verb_beq _ _ = false

pub verb_beq_iff : (a b : Verb) → (verb_beq a b ≡ true) ↔ (a ≡ b)
unfolding verb_beq
verb_beq_iff get b = ground arith
verb_beq_iff a b = ground arith

instance abbrev pub verb_eq : Eq Verb
verb_eq = record { beq = verb_beq; beq_iff = verb_beq_iff }

-- The statuses that the program sends, and any other by its number.
pub data Status : Type 0 where
  ok found bad_request unauthorized forbidden not_found conflict : Status
  internal_server_error not_implemented : Status
  other : ℕ → Status

pub record Request : Type 0 where
  pub method : Verb
  pub target : Text
  pub version : ℕ
  pub cookie : Option Text
  pub authorization : Option Text
  pub x_original_uri : Option Text
  pub keep_alive : Bool
  pub body : Text

pub record Response : Type 0 where
  pub status : Status
  pub version : ℕ
  pub content_type : Option Text
  pub set_cookie : Option Text
  pub location : Option Text
  pub x_user : Option Text
  pub x_role : Option Text
  pub body : Text
  pub keep_alive : Bool
  pub prepared : Bool

pub record RequestContext : Type 0 where
  pub request : Request
  pub caller : Option UserInfo

-- `Response res{status, version};`
abbrev pub new_response : Status → ℕ → Response
new_response status version = record {
  status = status;
  version = version;
  content_type = none;
  set_cookie = none;
  location = none;
  x_user = none;
  x_role = none;
  body = [];
  keep_alive = true;
  prepared = false;
}

-- `res.prepare_payload();`
abbrev pub prepare_payload : Response → Response
prepare_payload res = record res { prepared = true }

unfoldable pub make_response : Status → Text → Text → Response
make_response status body content_type =
    prepare_payload
      (record (new_response status 11) { content_type = some content_type; body = body })

unfoldable pub json : Status → Text → Response
unfolding make_response
json status body = make_response status body (codes "application/json")

unfoldable pub text : Status → Text → Response
unfolding make_response
text status body = make_response status body (codes "text/plain")

unfoldable pub status_response : Status → Response
status_response status = prepare_payload (new_response status 11)
