-- ===== src/TestAuth/Password.antt =====
-- A stored hash and the passwords that it accepts.
use nginx_front_back_end_dem.Prelude.{
  ℕ, ◌+◌, ◌-◌, ◌≡◌, ◌≢◌, ◌↔◌, refl, ap, ◌∙◌, true, some, List, [], ◌∷◌, ◌++◌, Text, All, length,
  take, drop, arith, find_char-behind, drop-behind_char, take-length-append, append-nil,
  append_assoc, length-append,
}
use nginx_front_back_end_dem.World.{World}
use nginx_front_back_end_dem.Hex.{to_hex, from_hex}
use nginx_front_back_end_dem.Hex.Laws.{IsByte, IsPlain, from_hex-to_hex, to_hex-IsPlain}
use nginx_front_back_end_dem.Decimal.{ℤ, pos, to_string, stoi}
use nginx_front_back_end_dem.Decimal.Laws.{IsDigit, to_string-IsDigit, stoi-to_string}
use nginx_front_back_end_dem.TestAuth.{
  Crypto, iterations, salt_len, key_len, stored_hash, find_from, verify_parts, pbkdf2_hash,
  pbkdf2_verify,
}

-- What OpenSSL documents of the two calls.
pub record IsCrypto (crypto : Crypto) : Type 0 where
  pub key_length :
      (password : Text) (salt : List ℕ) (n : ℤ) → length (crypto.pbkdf2 password salt n) ≡ key_len
  pub key_bytes :
      (password : Text) (salt : List ℕ) (n : ℤ) → All IsByte (crypto.pbkdf2 password salt n)
  pub same_key_iff :
      (a b : List ℕ)
      → length a ≡ key_len
      → length b ≡ key_len
      → (crypto.same_key a b ≡ true) ↔ (a ≡ b)

no_colon_digits : (s : Text) → All IsDigit s → All (λ b. b ≢ b':') s
no_colon_digits [] h = tt
no_colon_digits (c ∷ s) (p, h) = ((omega arith), no_colon_digits s h)

no_colon_plain : (s : Text) → All IsPlain s → All (λ b. b ≢ b':') s
no_colon_plain [] h = tt
no_colon_plain (c ∷ s) (p, h) = (p.2, no_colon_plain s h)

-- A text of three parts, the first two without a colon, is taken apart at its colons.
module _ (a b c : Text) (ha : All (λ x. x ≢ b':') a) (hb : All (λ x. x ≢ b':') b) where
  abbrev joined : Text
  joined = a ++ (b':' ∷ (b ++ (b':' ∷ c)))

  find_from-joined : find_from joined b':' (length a + 1) ≡ some (length a + 1 + length b)
  unfolding find_from
  find_from-joined = ground (
    arith,
    drop-behind_char a (b ++ (b':' ∷ c)) b':' (length a + 1) refl,
    find_char-behind b c b':' hb,
  )

  pbkdf2_verify-joined :
      (crypto : Crypto) (password : Text)
      → pbkdf2_verify crypto password joined
        ≡ verify_parts crypto password (stoi a) (from_hex b) (from_hex c)
  unfolding pbkdf2_verify
  pbkdf2_verify-joined crypto password =
      let behind : drop (length a + 1) joined ≡ b ++ (b':' ∷ c) =
        drop-behind_char a (b ++ (b':' ∷ c)) b':' (length a + 1) refl in
      let width : length a + 1 + length b - length a - 1 ≡ length b = omega arith in
      let middle : take (length a + 1 + length b - length a - 1) (drop (length a + 1) joined) ≡ b =
        rw (width, behind) (take-length-append b (b':' ∷ c)) in
      let last : drop (length a + 1 + length b + 1) joined ≡ c =
        rw (append_assoc a (b':' ∷ b) (b':' ∷ c)) at (
          drop-behind_char (a ++ (b':' ∷ b)) c b':' (length a + 1 + length b + 1)
            (omega (arith, length-append a (b':' ∷ b)))) in
      ground (
        arith,
        find_char-behind a (b ++ (b':' ∷ c)) b':' ha,
        find_from-joined,
        ap stoi (take-length-append a (b':' ∷ (b ++ (b':' ∷ c)))),
        ap from_hex middle,
        ap from_hex last,
      )

module _ (crypto : Crypto) (law : IsCrypto crypto) where
  stored_hash-accepts :
      (password : Text) (salt key : List ℕ)
      → All IsByte salt
      → All IsByte key
      → length key ≡ key_len
      → (pbkdf2_verify crypto password (stored_hash salt key) ≡ true)
        ↔ (crypto.pbkdf2 password salt (pos iterations) ≡ key)
  unfolding stored_hash verify_parts
  stored_hash-accepts password salt key hs hk len =
      rw whole (law.same_key_iff _ key (law.key_length password salt (pos iterations)) len)
    where
      n : Text
      n = to_string iterations

      read : stoi n ≡ some (pos iterations)
      read = rw (append-nil n) at (stoi-to_string iterations [] (omega arith) refl)

      parts :
          verify_parts crypto password (stoi n) (from_hex (to_hex salt)) (from_hex (to_hex key))
          ≡ crypto.same_key (crypto.pbkdf2 password salt (pos iterations)) key
      parts = rw (read, from_hex-to_hex salt hs, from_hex-to_hex key hk) (ground arith)

      whole :
          pbkdf2_verify crypto password (stored_hash salt key)
          ≡ crypto.same_key (crypto.pbkdf2 password salt (pos iterations)) key
      whole =
          pbkdf2_verify-joined n (to_hex salt) (to_hex key)
            (no_colon_digits n (to_string-IsDigit iterations))
            (no_colon_plain (to_hex salt) (to_hex-IsPlain salt hs)) crypto password
          ∙ parts

  -- Suppose that OpenSSL derives keys of 32 bytes and compares them by their content, and that the
  -- salt is made of bytes. The hash of a password accepts exactly the passwords from which the same
  -- key is derived, with the salt and the number of iterations that it was made with.
  pub pbkdf2_verify-pbkdf2_hash :
      (w : World) (password guess hash : Text) (salt : List ℕ)
      → w.rand_bytes salt_len ≡ some salt
      → All IsByte salt
      → pbkdf2_hash crypto w password ≡ some hash
      → (pbkdf2_verify crypto guess hash ≡ true)
        ↔ (crypto.pbkdf2 guess salt (pos iterations) ≡ crypto.pbkdf2 password salt (pos iterations))
  unfolding pbkdf2_hash
  pbkdf2_verify-pbkdf2_hash w password guess hash salt drawn bytes e =
      let key = crypto.pbkdf2 password salt (pos iterations) in
      let same : hash ≡ stored_hash salt key = ground arith in
      rw same (
        stored_hash-accepts guess salt key bytes (law.key_bytes password salt (pos iterations))
          (law.key_length password salt (pos iterations)))
