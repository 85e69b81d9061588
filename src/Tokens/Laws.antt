-- ===== src/Tokens/Laws.antt =====
-- The life of a token.
use nginx_front_back_end_dem.Prelude.{
  ℕ, ◌≤◌, ◌+◌, ◌≡◌, none, some, Text, lookup, arith, leb, if◌then◌else◌, text_beq, lookup-insert,
  lookup-erase, text_eq,
}
use nginx_front_back_end_dem.Role.{Role}
use nginx_front_back_end_dem.World.{World}
use nginx_front_back_end_dem.Tokens.{
  TokenStore, TokenEntry, ticks, new_entry, issue, validate, revoke,
}

-- A token that `issue` returned is valid up to the end of its lifetime, that moment included, and
-- never after it; it stands for the user and role it was issued to; and what any other token stands
-- for is unchanged.
pub validate-issue :
    (w later : World) (username token other : Text) (role : Role) (ttl : ℕ)
    (tokens tokens' : TokenStore)
    → issue w username role ttl tokens ≡ some (token, tokens')
    → validate later other tokens' ≡ (
        if text_beq token other
        then (if leb later.now (w.now + ticks ttl)
            then some (new_entry w username role ttl)
            else none)
        else validate later other tokens)
unfolding issue validate
validate-issue w later username token other role ttl tokens tokens' e =
    ground (arith, lookup-insert token other (new_entry w username role ttl) tokens.store)

-- A revoked token is never valid again, and the others are untouched.
pub validate-revoke :
    (w : World) (token other : Text) (tokens : TokenStore)
    → validate w other (revoke token tokens)
      ≡ (if text_beq token other then none else validate w other tokens)
unfolding validate revoke
validate-revoke w token other tokens = ground (arith, lookup-erase token other tokens.store)

-- Whoever is let in holds an entry of the store whose time has not passed.
pub validate-eq-some :
    (w : World) (token : Text) (tokens : TokenStore) (entry : TokenEntry)
    → validate w token tokens ≡ some entry
    → (lookup token tokens.store ≡ some entry) × (w.now ≤ entry.expires_at)
unfolding validate
validate-eq-some w token tokens entry e = ground arith
