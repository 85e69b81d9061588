-- ===== src/Acl.antt =====
-- backend/src/Acl.hpp: the list of path prefixes with the role that each one requires.
pub mod Scan
pub mod Rules
use nginx_front_back_end_dem.Prelude.{
  Bool, Option, none, some, List, [], ◌∷◌, Text, text_beq, starts_with, if◌then◌else◌,
}
use nginx_front_back_end_dem.Role.{Role, admin, role_satisfies}
use nginx_front_back_end_dem.Longest.{longest}

pub record AclEntry : Type 0 where
  pub path_prefix : Text
  pub min_role : Role

pub record Acl : Type 0 where
  pub entries : List AclEntry

unfoldable pub best_entry : List AclEntry → Text → Option AclEntry
best_entry entries path =
    longest (λ (e : AclEntry). e.path_prefix) (λ e. starts_with path e.path_prefix) none entries

-- Deny by default: without a matching rule the caller must be Admin.
unfoldable pub required_role : List AclEntry → Text → Role
required_role entries path = elim (best_entry entries path) [
  | none ↦ admin
  | some best ↦ best.min_role
]

unfoldable pub authorize : Acl → Role → Text → Bool
authorize acl role path = role_satisfies role (required_role acl.entries path)

unfoldable pub set_entry : Text → Role → List AclEntry → List AclEntry
set_entry prefix min_role [] = record { path_prefix = prefix; min_role = min_role } ∷ []
set_entry prefix min_role (e ∷ es) =
    if text_beq e.path_prefix prefix
    then record e { min_role = min_role } ∷ es
    else e ∷ set_entry prefix min_role es

unfoldable pub set : Text → Role → Acl → Acl
set prefix min_role acl = record { entries = set_entry prefix min_role acl.entries }

unfoldable pub remove_entries : Text → List AclEntry → List AclEntry
remove_entries prefix [] = []
remove_entries prefix (e ∷ es) =
    if text_beq e.path_prefix prefix then remove_entries prefix es else e ∷ remove_entries prefix es

unfoldable pub remove : Text → Acl → Acl
remove prefix acl = record { entries = remove_entries prefix acl.entries }

unfoldable pub list : Acl → List AclEntry
list acl = acl.entries
