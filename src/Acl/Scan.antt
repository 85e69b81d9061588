-- ===== src/Acl/Scan.antt =====
-- The scan of the access list against the table of its rules, from prefixes to roles.
use nginx_front_back_end_dem.Prelude.{
  ℕ, zero, suc, ◌≤◌, ◌<◌, ◌≡◌, ◌≢◌, refl, sym, ap, ◌∙◌, true, false, Option, none, some, List, [],
  ◌∷◌, Text, text_beq, text_beq_iff, starts_with, if◌then◌else◌, ltb→lt, length, take, arith, inl,
  inr, Bool-cases, ltb, starts_with-take, starts_with-take_self, length-starts_with, length-take,
  dec_lt,
}
use nginx_front_back_end_dem.Role.{Role, admin}
use nginx_front_back_end_dem.Longest.{longest}
use nginx_front_back_end_dem.Acl.{AclEntry}

-- The rule for exactly this prefix.
abbrev pub rule_of : List AclEntry → Text → Option Role
rule_of [] prefix = none
rule_of (e ∷ es) prefix =
    if text_beq e.path_prefix prefix then some e.min_role else rule_of es prefix

-- The role that a table requires for a path, looking at its first `n` bytes, then at `n - 1`, and so
-- on down to the empty prefix; Admin if there is no rule for any of them.
abbrev pub longest_rule : (Text → Option Role) → Text → ℕ → Role
longest_rule rule path zero = elim (rule []) [ none ↦ admin | some r ↦ r ]
longest_rule rule path (suc n) = elim (rule (take (suc n) path)) [
  | none ↦ longest_rule rule path n
  | some r ↦ r
]

pub longest_rule_cong :
    (f g : Text → Option Role) (path : Text) (n : ℕ)
    → ((k : ℕ) → k ≤ n → f (take k path) ≡ g (take k path))
    → longest_rule f path n ≡ longest_rule g path n
longest_rule_cong f g path zero h = ground (arith, h 0)
longest_rule_cong f g path (suc n) h =
    ground (arith, h (suc n), longest_rule_cong f g path n (λ k p. h k (omega arith)))

module _ (f g : Text → Option Role) (path : Text) (m : ℕ) (r : Role) where
  -- Two tables that agree from a length on, where both have a rule, require the same.
  longest_rule_agree :
      (n : ℕ)
      → ((k : ℕ) → m < k → k ≤ n → f (take k path) ≡ g (take k path))
      → f (take m path) ≡ some r
      → g (take m path) ≡ some r
      → m ≤ n
      → longest_rule f path n ≡ longest_rule g path n
  longest_rule_agree zero h p q le =
      let e : m ≡ 0 = omega arith in ground (arith, ap (λ k. take k path) e)
  longest_rule_agree (suc n) h p q le = elim (dec_lt m (suc n)) [
    | yes below ↦ ground (
      arith,
      h (suc n) below,
      longest_rule_agree n (λ k a b. h k a (omega arith)) p q (omega arith),
    )
    | no at ↦
        let e : m ≡ suc n = omega arith in
        let p' : f (take (suc n) path) ≡ some r = rw e at p in
        let q' : g (take (suc n) path) ≡ some r = rw e at q in ground arith
  ]

module _ (f : Text → Option Role) (path : Text) (m : ℕ) (r : Role) where
  -- A rule that no longer one overrides.
  longest_rule_found :
      (n : ℕ)
      → ((k : ℕ) → m < k → k ≤ n → f (take k path) ≡ none)
      → f (take m path) ≡ some r
      → m ≤ n
      → longest_rule f path n ≡ r
  longest_rule_found zero h p le =
      let e : m ≡ 0 = omega arith in ground (arith, ap (λ k. take k path) e)
  longest_rule_found (suc n) h p le = elim (dec_lt m (suc n)) [
    | yes below ↦ ground (
      arith,
      h (suc n) below,
      longest_rule_found n (λ k a b. h k a (omega arith)) p (omega arith),
    )
    | no at ↦
        let e : m ≡ suc n = omega arith in
        let p' : f (take (suc n) path) ≡ some r = rw e at p in ground arith
  ]

abbrev pub role_of : Option AclEntry → Role
role_of none = admin
role_of (some e) = e.min_role

module _ (path : Text) where
  abbrev pub scan : Option AclEntry → List AclEntry → Option AclEntry
  scan = longest (λ (e : AclEntry). e.path_prefix) (λ e. starts_with path e.path_prefix)

  -- The bytes of the path that a rule's text can equal.
  differs-take :
      (prefix : Text) (k : ℕ)
      → k ≤ length path
      → length prefix ≢ k
      → text_beq prefix (take k path) ≡ false
  differs-take prefix k le ne = elim (Bool-cases (text_beq prefix (take k path))) [
    | inl same ↦ absurd (
        ne (
          omega (
            arith,
            ap (length {A = ℕ}) ((text_beq_iff prefix (take k path)).0 same),
            length-take k path,
          )))
    | inr other ↦ other
  ]

  misses-take :
      (prefix : Text) (k : ℕ)
      → starts_with path prefix ≡ false
      → text_beq prefix (take k path) ≡ false
  misses-take prefix k miss = elim (Bool-cases (text_beq prefix (take k path))) [
    | inl same ↦
        let e : prefix ≡ take k path = (text_beq_iff prefix (take k path)).0 same in
        let hit : starts_with path prefix ≡ true = rw e (starts_with-take_self k path) in cc
    | inr other ↦ other
  ]

  -- A matching rule is found at its own length.
  hit-take :
      (prefix : Text)
      → starts_with path prefix ≡ true
      → text_beq prefix (take (length prefix) path) ≡ true
  hit-take prefix hit = (text_beq_iff _ _).1 (sym (starts_with-take path prefix hit))

  skips :
      (x : AclEntry) (es : List AclEntry) (k : ℕ)
      → text_beq x.path_prefix (take k path) ≡ false
      → rule_of (x ∷ es) (take k path) ≡ rule_of es (take k path)
  skips x es k e = rw e

  takes :
      (x : AclEntry) (es : List AclEntry)
      → starts_with path x.path_prefix ≡ true
      → rule_of (x ∷ es) (take (length x.path_prefix) path) ≡ some x.min_role
  takes x es hit = rw (hit-take x.path_prefix hit)

  scan-held :
      (b : AclEntry) (es : List AclEntry)
      → starts_with path b.path_prefix ≡ true
      → role_of (scan (some b) es) ≡ longest_rule (rule_of (b ∷ es)) path (length path)
  unfolding longest
  scan-held b [] hit = sym (
      longest_rule_found (rule_of (b ∷ [])) path (length b.path_prefix) b.min_role (length path)
        (λ k a le. skips b [] k (differs-take b.path_prefix k le (omega arith))) (takes b [] hit)
        (length-starts_with path b.path_prefix hit))
  scan-held b (x ∷ es) hit = elim (Bool-cases (starts_with path x.path_prefix)) [
    | inl also ↦ elim (Bool-cases (ltb (length b.path_prefix) (length x.path_prefix))) [
      | inl more ↦
          let longer : length b.path_prefix < length x.path_prefix = ltb→lt _ _ more in
          let skip = skips b (x ∷ es) in
          rw (also, more)
            (scan-held x es also
              ∙ sym (
                  longest_rule_agree (rule_of (b ∷ x ∷ es)) (rule_of (x ∷ es)) path
                    (length x.path_prefix) x.min_role (length path)
                    (λ k a le. skip k (differs-take b.path_prefix k le (omega arith)))
                    (skip _ (
                        differs-take b.path_prefix _ (length-starts_with path x.path_prefix also)
                          (omega arith))
                      ∙ takes x es also)
                    (takes x es also) (length-starts_with path x.path_prefix also)))
      | inr less ↦
          rw (also, less)
            (scan-held b es hit
              ∙ sym (
                  longest_rule_agree (rule_of (b ∷ x ∷ es)) (rule_of (b ∷ es)) path
                    (length b.path_prefix) b.min_role (length path)
                    (λ k a le.
                      ground (arith, skips x es k (differs-take x.path_prefix k le (ground arith))))
                    (takes b (x ∷ es) hit) (takes b es hit)
                    (length-starts_with path b.path_prefix hit)))
    ]
    | inr miss ↦ rw miss (
        scan-held b es hit
        ∙ sym (
            longest_rule_cong (rule_of (b ∷ x ∷ es)) (rule_of (b ∷ es)) path (length path)
              λ k le. ground (arith, skips x es k (misses-take x.path_prefix k miss))))
  ]

  longest_rule_empty : (n : ℕ) → longest_rule (rule_of []) path n ≡ admin
  longest_rule_empty zero = refl
  longest_rule_empty (suc n) = longest_rule_empty n

  pub scan-rule :
      (es : List AclEntry) → role_of (scan none es) ≡ longest_rule (rule_of es) path (length path)
  unfolding longest
  scan-rule [] = sym (longest_rule_empty (length path))
  scan-rule (x ∷ es) = elim (Bool-cases (starts_with path x.path_prefix)) [
    | inl hit ↦ rw hit (scan-held x es hit)
    | inr miss ↦ rw miss (
        scan-rule es
        ∙ sym (
            longest_rule_cong (rule_of (x ∷ es)) (rule_of es) path (length path)
              λ k le. skips x es k (misses-take x.path_prefix k miss)))
  ]
