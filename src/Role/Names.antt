-- ===== src/Role/Names.antt =====
-- The names of the roles, and their order.
use nginx_front_back_end_dem.Prelude.{◌≡◌, ◌↔◌, true, some, Text, codes, text_beq_iff, arith}
use nginx_front_back_end_dem.Role.{Role, guest, role_name, role_from_string, role_satisfies}

-- A text is read as a role exactly when it is the role's name; in particular every name is read back.
role_from_string_iff : (s : Text) (r : Role) → (role_from_string s ≡ some r) ↔ (s ≡ role_name r)
unfolding role_from_string role_name
role_from_string_iff s guest = ground (
  arith,
  text_beq_iff s (codes "admin"),
  text_beq_iff s (codes "user"),
  text_beq_iff s (codes "viewer"),
  text_beq_iff s (codes "guest"),
)
role_from_string_iff s r = ground (
  arith,
  text_beq_iff s (codes "admin"),
  text_beq_iff s (codes "user"),
  text_beq_iff s (codes "viewer"),
  text_beq_iff s (codes "guest"),
)

-- The order of the roles is total, and whoever satisfies a role satisfies every lower one.
role_satisfies_trans :
    (a b c : Role)
    → role_satisfies a b ≡ true
    → role_satisfies b c ≡ true
    → role_satisfies a c ≡ true
unfolding role_satisfies
role_satisfies_trans a b c h k = ground arith
