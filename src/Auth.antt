-- ===== src/Auth.antt =====
-- backend/include/webengine/AuthProvider.hpp: the pluggable store of users. A provider is its state
-- `P` and its methods, virtual ones of which any but `supports_management` may throw: the result is
-- then `none`, and the state what the method has left behind.
use nginx_front_back_end_dem.Prelude.{Bool, false, Option, some, List, [], Text}
use nginx_front_back_end_dem.Role.{Role}
use nginx_front_back_end_dem.World.{World}

pub record UserInfo : Type 0 where
  pub username : Text
  pub role : Role

pub record AuthProvider (P : Type 0) : Type 0 where
  pub authenticate : P → Text → Text → Option (Option Role) × P
  pub supports_management : P → Bool
  pub add_user : World → Text → Text → Role → P → Option Bool × P
  pub remove_user : Text → P → Option Bool × P
  pub set_user_role : Text → Role → P → Option Bool × P
  pub list_users : P → Option (List UserInfo)

-- A subclass that implements `authenticate` alone: the base class's methods report "unsupported".
unfoldable pub read_only :
    {P : Type 0} → (P → Text → Text → Option (Option Role) × P) → AuthProvider P
read_only authenticate = record {
  authenticate = authenticate;
  supports_management = λ p. false;
  add_user = λ w username password role p. (some false, p);
  remove_user = λ username p. (some false, p);
  set_user_role = λ username role p. (some false, p);
  list_users = λ p. some [];
}
