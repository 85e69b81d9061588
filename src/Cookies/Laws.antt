-- ===== src/Cookies/Laws.antt =====
-- Which cookie is taken for the session.
use nginx_front_back_end_dem.Prelude.{
  ℕ, suc, ◌+◌, ◌≡◌, ◌≢◌, refl, ap, ◌∙◌, true, none, some, [], ◌∷◌, ◌++◌, Text, codes, All,
  find_char, find, trim_front, trim_back, length, drop, arith, starts_with, drop-length-append,
  take-length-append, append-nil, lookup, text_eq, ◌⊎◌, inl, inr,
}
use mathlib.Core.Option
use nginx_front_back_end_dem.World.{World}
use nginx_front_back_end_dem.Http.{Request}
use nginx_front_back_end_dem.Tokens.{TokenStore, TokenEntry, validate}
use nginx_front_back_end_dem.Tokens.Laws.{validate-eq-some}
use nginx_front_back_end_dem.Hex.Laws.{IsPlain}
use nginx_front_back_end_dem.Cookies.{
  until_semicolon, value_at, extract_cookie, extract_token, validated_token,
}

-- What may stand behind a cookie's value: nothing, or the next cookie.
abbrev pub IsRest : Text → Type 0
IsRest rest = (rest ≡ []) ⊎ ((more : Text) × (rest ≡ b';' ∷ more))

find_char-end : (s : Text) → All IsPlain s → find_char s b';' ≡ none
unfolding find_char
find_char-end [] h = refl
find_char-end (c ∷ s) (p, h) = ground (arith, find_char-end s h)

find_char-semicolon :
    (s more : Text) → All IsPlain s → find_char (s ++ b';' ∷ more) b';' ≡ some (length s)
unfolding find_char
find_char-semicolon [] more h = refl
find_char-semicolon (c ∷ s) more (p, h) = ground (arith, find_char-semicolon s more h)

pub until_semicolon-plain :
    (s rest : Text) → All IsPlain s → IsRest rest → until_semicolon (s ++ rest) ≡ s
unfolding until_semicolon
until_semicolon-plain s rest h (inl e) = ground (arith, append-nil s, find_char-end s h)
until_semicolon-plain s rest h (inr (more, e)) =
    ground (arith, find_char-semicolon s more h, take-length-append s (b';' ∷ more))

trim_front-plain : (s : Text) → All IsPlain s → trim_front b' ' s ≡ s
unfolding trim_front
trim_front-plain [] h = refl
trim_front-plain (c ∷ s) (p, h) = ground arith

trim_back-plain : (s : Text) → All IsPlain s → trim_back b' ' s ≡ s
unfolding trim_back
trim_back-plain [] h = refl
trim_back-plain (c ∷ s) (p, h) = ground (arith, trim_back-plain s h)

starts_with-append : (p s : Text) → starts_with (p ++ s) p ≡ true
unfolding starts_with
starts_with-append [] s = refl
starts_with-append (c ∷ p) s = ground (arith, starts_with-append p s)

-- Where no byte in front is the searched text's first, the text is found behind them.
find-behind :
    (before : Text) (c : ℕ) (p s : Text)
    → All (λ b. b ≢ c) before
    → find (before ++ (c ∷ p ++ s)) (c ∷ p) ≡ some (length before)
unfolding find
find-behind [] c p s h = ground (arith, starts_with-append p s)
find-behind (b ∷ before) c p s (ne, h) = ground (arith, find-behind before c p s h)

drop-behind : (xs ys t : Text) → drop (length xs + length ys) (xs ++ (ys ++ t)) ≡ t
drop-behind [] ys t =
    let e : 0 + length ys ≡ length ys = omega arith in rw e (drop-length-append ys t)
drop-behind (x ∷ xs) ys t =
    let e : suc (length xs) + length ys ≡ suc (length xs + length ys) = omega arith in
    rw e (drop-behind xs ys t)

-- Behind any bytes without the letter `s`, whatever cookie's name they begin, the text after
-- `session=` is taken for the session's token, provided it is made of plain characters and ends the
-- header or is followed by a semicolon.
extract_cookie-session :
    (before token rest : Text)
    → All (λ b. b ≢ b's') before
    → All IsPlain token
    → IsRest rest
    → extract_cookie (before ++ (codes "session=" ++ (token ++ rest))) (codes "session") ≡ token
unfolding extract_cookie
extract_cookie-session before token rest h k r =
    let search : Text = codes "session=" in
    let header : Text = before ++ (search ++ (token ++ rest)) in
    ap (λ pos. value_at header (Option.map (λ n. n + 8) pos))
      (find-behind before b's' (codes "ession=") (token ++ rest) h)
    ∙ ap (λ s. trim_back b' ' (trim_front b' ' (until_semicolon s)))
        (drop-behind before search (token ++ rest))
    ∙ ap (λ s. trim_back b' ' (trim_front b' ' s)) (until_semicolon-plain token rest k r)
    ∙ ap (trim_back b' ') (trim_front-plain token k)
    ∙ trim_back-plain token k

-- A request whose Cookie header holds the session's cookie is taken for that session, whatever
-- other headers it has.
pub validated_token-session :
    (w : World) (req : Request) (tokens : TokenStore) (before token rest : Text)
    → req.cookie ≡ some (before ++ (codes "session=" ++ (token ++ rest)))
    → token ≢ []
    → All (λ b. b ≢ b's') before
    → All IsPlain token
    → IsRest rest
    → validated_token w req tokens ≡ validate w token tokens
unfolding validated_token extract_token
validated_token-session w req tokens before token rest e ne h k r =
    ground (arith, extract_cookie-session before token rest h k r)

-- Whoever is taken for a session holds a token of the store.
pub validated_token-lookup :
    (w : World) (req : Request) (tokens : TokenStore) (entry : TokenEntry)
    → validated_token w req tokens ≡ some entry
    → (token : Text) × (lookup token tokens.store ≡ some entry)
unfolding validated_token
validated_token-lookup w req tokens entry e =
    (extract_token req, (validate-eq-some w (extract_token req) tokens entry (ground arith)).0)
