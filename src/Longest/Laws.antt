-- ===== src/Longest/Laws.antt =====
-- What the scan for the longest matching prefix returns.
use nginx_front_back_end_dem.Prelude.{
  ◌≤◌, ◌≡◌, refl, Bool, true, false, Option, none, some, List, [], ◌∷◌, Text, All, length, arith,
  Bool-cases, inl, inr, ◌⊎◌, ltb,
}
use mathlib.Core.List.{Memᴰ}
use nginx_front_back_end_dem.Longest.{better, longest}

module _ {A : Type 0} (prefix_of : A → Text) (matches : A → Bool) where
  -- Where an entry is held, one that is no shorter is returned.
  longest-held :
      (b : A) (xs : List A)
      → (c : A) × (longest prefix_of matches (some b) xs ≡ some c)
        × (length (prefix_of b) ≤ length (prefix_of c))
  unfolding longest
  longest-held b [] = (b, refl, omega arith)
  longest-held b (x ∷ xs) = elim (Bool-cases (matches x)) [
    | inl hit ↦ elim (Bool-cases (ltb (length (prefix_of b)) (length (prefix_of x)))) [
      | inl more ↦ let (c, e, h) = longest-held x xs in (c, ground arith, ground arith)
      | inr less ↦ let (c, e, h) = longest-held b xs in (c, ground arith, ground arith)
    ]
    | inr miss ↦ let (c, e, h) = longest-held b xs in (c, ground arith, ground arith)
  ]

  -- Nothing is found exactly when nothing matches.
  pub longest-eq-none_iff :
      (xs : List A) → longest prefix_of matches none xs ≡ none → All (λ x. matches x ≡ false) xs
  unfolding longest
  longest-eq-none_iff [] e = tt
  longest-eq-none_iff (x ∷ xs) e = elim (Bool-cases (matches x)) [
    | inl hit ↦ let (c, f, h) = longest-held x xs in ground arith
    | inr miss ↦ (miss, longest-eq-none_iff xs (ground arith))
  ]

  longest_of_none :
      (xs : List A) → All (λ x. matches x ≡ false) xs → longest prefix_of matches none xs ≡ none
  unfolding longest
  longest_of_none [] h = refl
  longest_of_none (x ∷ xs) (miss, h) = rw (miss) (longest_of_none xs h)

  -- The entry found is at least as long as every matching one.
  pub longest-max :
      (best : Option A) (xs : List A) (c : A)
      → longest prefix_of matches best xs ≡ some c
      → All (λ x. matches x ≡ true → length (prefix_of x) ≤ length (prefix_of c)) xs
  unfolding longest
  longest-max best [] c e = tt
  longest-max none (x ∷ xs) c e = elim (Bool-cases (matches x)) [
    | inl hit ↦
        let (d, f, h) = longest-held x xs in
        (ground arith, longest-max (some x) xs c (ground arith))
    | inr miss ↦ (ground arith, longest-max none xs c (ground arith))
  ]
  longest-max (some b) (x ∷ xs) c e = elim (Bool-cases (matches x)) [
    | inl hit ↦ elim (Bool-cases (ltb (length (prefix_of b)) (length (prefix_of x)))) [
      | inl more ↦
          let (d, f, h) = longest-held x xs in
          (ground arith, longest-max (some x) xs c (ground arith))
      | inr less ↦
          let (d, f, h) = longest-held b xs in
          (ground arith, longest-max (some b) xs c (ground arith))
    ]
    | inr miss ↦ (ground arith, longest-max (some b) xs c (ground arith))
  ]

  better-origin :
      (best : Option A) (x c : A)
      → better prefix_of matches best x ≡ some c
      → (best ≡ some c) ⊎ ((c ≡ x) × (matches c ≡ true))
  unfolding better
  better-origin none x c e = elim (Bool-cases (matches x)) [
    | inl hit ↦ let same : c ≡ x = ground arith in inr (same, rw same hit)
    | inr miss ↦ inl (ground arith)
  ]
  better-origin (some b) x c e = elim (Bool-cases (matches x)) [
    | inl hit ↦ elim (Bool-cases (ltb (length (prefix_of b)) (length (prefix_of x)))) [
      | inl more ↦ let same : c ≡ x = ground arith in inr (same, rw same hit)
      | inr less ↦ inl (ground arith)
    ]
    | inr miss ↦ inl (ground arith)
  ]

  -- What is found was held before, or is a matching entry of the list.
  longest-origin :
      (best : Option A) (xs : List A) (c : A)
      → longest prefix_of matches best xs ≡ some c
      → (best ≡ some c) ⊎ (Memᴰ c xs × (matches c ≡ true))
  unfolding longest
  longest-origin best [] c e = inl e
  longest-origin best (x ∷ xs) c e =
      elim (longest-origin (better prefix_of matches best x) xs c e) [
        | inl held ↦ elim (better-origin best x c held) [
          | inl before ↦ inl before
          | inr (same, hit) ↦ inr (Memᴰ.head same, hit)
        ]
        | inr (later, hit) ↦ inr (Memᴰ.tail later, hit)
      ]

  -- An entry found from nothing is in the list and matches.
  pub longest-mem :
      (xs : List A) (c : A)
      → longest prefix_of matches none xs ≡ some c
      → Memᴰ c xs × (matches c ≡ true)
  longest-mem xs c e = elim (longest-origin none xs c e) [
    | inl held ↦ absurd (cc)
    | inr found ↦ found
  ]
