-- ===== src/Longest.antt =====
-- The scan for the entry with the longest matching prefix, which `Acl::authorize` and
-- `Router::dispatch` both make: a later entry replaces the best one only if its prefix is longer.
pub mod Laws
use nginx_front_back_end_dem.Prelude.{
  ℕ, Bool, Option, none, some, List, [], ◌∷◌, Text, length, ltb, if◌then◌else◌,
}

module _ {A : Type 0} (prefix_of : A → Text) (matches : A → Bool) where
  unfoldable pub better : Option A → A → Option A
  better none x = if matches x then some x else none
  better (some b) x =
      if matches x
      then (if ltb (length (prefix_of b)) (length (prefix_of x)) then some x else some b)
      else some b

  unfoldable pub longest : Option A → List A → Option A
  unfolding better
  longest best [] = best
  longest best (x ∷ xs) = longest (better best x) xs
