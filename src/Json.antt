-- ===== src/Json.antt =====
-- The JSON that the program reads and writes. Glaze, which does it, is a parameter: `write_*` give
-- the text or an error (`none`), and `read_*` give the error flag of `glz::read` and the object as
-- the read left it, which a failed read may have filled in part.
use nginx_front_back_end_dem.Prelude.{ℕ, Bool, Option, List, [], ◌∷◌, Text, codes, get_or}
use nginx_front_back_end_dem.Http.{Status, Response, json}

-- A value of a `glz::obj`.
pub data Scalar : Type 0 where
  str : Text → Scalar
  num : ℕ → Scalar
  bool : Bool → Scalar

pub record LoginReq : Type 0 where
  pub username : Option Text
  pub password : Option Text

pub record AclEntryView : Type 0 where
  pub prefix : Text
  pub min_role : Text

pub record AclListView : Type 0 where
  pub entries : List AclEntryView

pub record UserView : Type 0 where
  pub username : Text
  pub role : Text

pub record UserListView : Type 0 where
  pub users : List UserView

pub record AclSetReq : Type 0 where
  pub prefix : Option Text
  pub role : Option Text

pub record PrefixReq : Type 0 where
  pub prefix : Option Text

pub record AddUserReq : Type 0 where
  pub username : Option Text
  pub password : Option Text
  pub role : Option Text

pub record UsernameReq : Type 0 where
  pub username : Option Text

pub record SetRoleReq : Type 0 where
  pub username : Option Text
  pub role : Option Text

pub record Parsed (A : Type 0) : Type 0 where
  pub failed : Bool
  pub value : A

pub record Glaze : Type 0 where
  pub write_obj : List (Text × Scalar) → Option Text
  pub write_acl_list : AclListView → Option Text
  pub write_user_list : UserListView → Option Text
  pub read_login : Text → Parsed LoginReq
  pub read_acl_set : Text → Parsed AclSetReq
  pub read_prefix : Text → Parsed PrefixReq
  pub read_add_user : Text → Parsed AddUserReq
  pub read_username : Text → Parsed UsernameReq
  pub read_set_role : Text → Parsed SetRoleReq

-- `json(status, glz::write_json(glz::obj{"error", message}).value_or(std::string{}))`
unfoldable pub error_json : Glaze → Status → Text → Response
error_json glz status message =
    json status (get_or (glz.write_obj ((codes "error", str message) ∷ [])) [])

-- `json(http::status::ok, R"({"status":"ok"})")`
unfoldable pub ok_json : Response
ok_json = json Status.ok (codes "{\"status\":\"ok\"}")
