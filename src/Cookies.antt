-- ===== src/Cookies.antt =====
-- backend/src/util.hpp: the session token of a request.
pub mod Laws
use nginx_front_back_end_dem.Prelude.{
  ℕ, ◌+◌, ◌-◌, Bool, Option, none, some, [], ◌++◌, Text, codes, empty, starts_with, find_char, find,
  trim_front, trim_back, take, drop, length, text_beq, if◌then◌else◌,
}
use mathlib.Core.Option
use nginx_front_back_end_dem.World.{World}
use nginx_front_back_end_dem.Http.{Request}
use nginx_front_back_end_dem.Tokens.{TokenStore, TokenEntry, validate}

-- Up to the next ';', or all of it.
unfoldable pub until_semicolon : Text → Text
until_semicolon s = elim (find_char s b';') [ none ↦ s | some n ↦ take n s ]

-- The value that begins at a position of the header, without the spaces at either end.
value_at : Text → Option ℕ → Text
value_at header none = []
value_at header (some pos) = trim_back b' ' (trim_front b' ' (until_semicolon (drop pos header)))

-- The text behind the first `name=` of the header, up to the next ';' and without the spaces at
-- either end; "" if `name=` does not occur.
unfoldable pub extract_cookie : Text → Text → Text
unfolding until_semicolon value_at
extract_cookie header name =
    let search = name ++ codes "=" in
    value_at header (Option.map (λ pos. pos + length search) (find header search))

unfoldable pub bearer : Option Text → Text
bearer none = []
bearer (some value) = if starts_with value (codes "Bearer ") then drop 7 value else []

-- The "session" cookie, else the "Authorization: Bearer" header, else "".
unfoldable pub extract_token : Request → Text
unfolding bearer
extract_token req = elim req.cookie [
  | none ↦ bearer req.authorization
  | some header ↦
      let token = extract_cookie header (codes "session") in
      if empty token then bearer req.authorization else token
]

unfoldable pub validated_token : World → Request → TokenStore → Option TokenEntry
validated_token w req tokens =
    let token = extract_token req in if empty token then none else validate w token tokens
