-- ===== src/Overlap/Entitled.antt =====
-- Whom the gate lets in.
use nginx_front_back_end_dem.Prelude.{
  ◌≡◌, inl, inr, true, Option, some, arith, Option-cases, Bool-cases,
}
use nginx_front_back_end_dem.Role.{Role, role_satisfies}
use nginx_front_back_end_dem.Auth.{UserInfo, AuthProvider}
use nginx_front_back_end_dem.World.{World}
use nginx_front_back_end_dem.Http.{Request}
use nginx_front_back_end_dem.Json.{Glaze}
use nginx_front_back_end_dem.Tokens.{TokenStore, TokenEntry}
use nginx_front_back_end_dem.Cookies.{validated_token}
use nginx_front_back_end_dem.Cookies.Laws.{validated_token-lookup}
use nginx_front_back_end_dem.Router.{admitted, caller_of, gate, admit}
use nginx_front_back_end_dem.Engine.Sessions.{Holds, Accepted}

-- A caller who is the user of a session of which `T` holds, with a role that satisfies the needed one and
-- with which the provider accepts the user.
abbrev pub Entitled :
    {P : Type 0} → AuthProvider P → (TokenEntry → Type 0) → Role → Option UserInfo → Type 0
Entitled provider T need caller =
    (entry : TokenEntry) × T entry
    × (caller ≡ some (caller_of entry))
    × (role_satisfies entry.role need ≡ true)
    × Accepted provider entry.username entry.role

module _ (glz : Glaze) {P : Type 0} (provider : AuthProvider P) (T : TokenEntry → Type 0) where
  pub gate-Entitled :
      (w : World) (req : Request) (tokens : TokenStore) (min_role : Option Role)
      (caller : Option UserInfo) (need : Role)
      → Holds (Accepted provider) tokens
      → ((entry : TokenEntry) → validated_token w req tokens ≡ some entry → T entry)
      → gate glz w req tokens min_role ≡ admitted caller
      → min_role ≡ some need
      → Entitled provider T need caller
  unfolding gate admit
  gate-Entitled w req tokens min_role caller need held seen passed protected =
      elim (Option-cases (validated_token w req tokens)) [
        | inl missing ↦ absurd (ground arith)
        | inr (entry, valid) ↦ elim (Bool-cases (role_satisfies entry.role need)) [
          | inl enough ↦
              let (token, found) = validated_token-lookup w req tokens entry valid in
              (entry, seen entry valid, ground arith, enough, held token entry found)
          | inr low ↦ absurd (ground arith)
        ]
      ]
