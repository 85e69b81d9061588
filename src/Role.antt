-- ===== src/Role.antt =====
-- backend/include/webengine/Role.hpp: access levels, their names and their order.
pub mod Names
use nginx_front_back_end_dem.Prelude.{
  ℕ, Bool, Option, none, some, Text, codes, text_beq, leb, if◌then◌else◌,
}

pub data Role : Type 0 where
  guest viewer user admin : Role

-- The enumerators' values.
abbrev pub value : Role → ℕ
value guest = 0
value viewer = 1
value user = 2
value admin = 3

unfoldable pub role_name : Role → Text
role_name admin = codes "admin"
role_name user = codes "user"
role_name viewer = codes "viewer"
role_name _ = codes "guest"

-- `none` is the result `false`, which leaves `out` alone.
unfoldable pub role_from_string : Text → Option Role
role_from_string s =
    if text_beq s (codes "admin")
    then some admin
    else if text_beq s (codes "user")
    then some user
    else if text_beq s (codes "viewer")
    then some viewer
    else if text_beq s (codes "guest")
    then some guest
    else none

unfoldable pub role_satisfies : Role → Role → Bool
role_satisfies have need = leb (value need) (value have)
