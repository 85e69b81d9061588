-- ===== src/Decimal/Laws.antt =====
-- Reading back a printed number.
use nginx_front_back_end_dem.Prelude.{
  ℕ, zero, suc, ◌+◌, ◌-◌, ◌*◌, ◌/◌, ◌%◌, ◌^◌, ◌<◌, ◌≤◌, ◌≡◌, refl, ap, ◌∙◌, true, false, some, [],
  ◌∷◌, ◌++◌, Text, All, All-append, arith, Bool-cases, inl, inr, ltb, append_assoc,
}
use nginx_front_back_end_dem.Hex.{skip_spaces}
use nginx_front_back_end_dem.Decimal.{
  pos, to_string_from, to_string, read_digits, starts_with_digit, stoi_digits, stoi_sign, stoi,
}

-- A text that goes on with something else than a digit, or not at all.
abbrev pub EndsNumber : Text → Type 0
EndsNumber rest = starts_with_digit rest ≡ false

abbrev pub IsDigit : ℕ → Type 0
IsDigit c = (b'0' ≤ c) × (c ≤ b'9')

to_string_from-IsDigit : (fuel n : ℕ) → All IsDigit (to_string_from fuel n)
unfolding to_string_from
to_string_from-IsDigit zero n = tt
to_string_from-IsDigit (suc fuel) n = elim (Bool-cases (ltb n 10)) [
  | inl small ↦ rw small (ground arith)
  | inr large ↦ rw large (
      All-append IsDigit (to_string_from fuel (n / 10)) (_ ∷ [])
        (to_string_from-IsDigit fuel (n / 10)) (omega arith))
]

pub to_string-IsDigit : (n : ℕ) → All IsDigit (to_string n)
unfolding to_string
to_string-IsDigit n = to_string_from-IsDigit (suc n) n

read_digits_end : (n : ℕ) (rest : Text) → EndsNumber rest → read_digits n rest ≡ n
unfolding read_digits
read_digits_end n [] h = refl
read_digits_end n (c ∷ rest) h = ground arith

-- With fuel above the number, its digits are read back behind whatever was read before.
read_digits-to_string_from :
    (fuel n : ℕ) (tail : Text)
    → n < fuel
    → read_digits 0 (to_string_from fuel n ++ tail) ≡ read_digits n tail
unfolding to_string_from read_digits
read_digits-to_string_from zero n tail h = absurd (omega arith)
read_digits-to_string_from (suc fuel) n tail h = elim (Bool-cases (ltb n 10)) [
  | inl small ↦ rw small (ground arith)
  | inr large ↦ rw (large) (
      ap (read_digits 0) (append_assoc (to_string_from fuel (n / 10)) (_ ∷ []) tail)
      ∙ read_digits-to_string_from fuel (n / 10) ((48 + n % 10) ∷ tail) (ground arith)
      ∙ step)
]
  where
    step : read_digits (n / 10) ((48 + n % 10) ∷ tail) ≡ read_digits n tail
    step =
        let e : n / 10 * 10 + (48 + n % 10 - 48) ≡ n = omega arith in
        ground (arith, ap (λ k. read_digits k tail) e)

starts_with_digit-to_string_from :
    (fuel n : ℕ) (tail : Text) → starts_with_digit (to_string_from (suc fuel) n ++ tail) ≡ true
unfolding to_string_from
starts_with_digit-to_string_from zero n tail = ground arith
starts_with_digit-to_string_from (suc fuel) n tail = elim (Bool-cases (ltb n 10)) [
  | inl small ↦ rw small (ground arith)
  | inr large ↦ rw large (
      ap starts_with_digit (append_assoc (to_string_from (suc fuel) (n / 10)) (_ ∷ []) tail)
      ∙ starts_with_digit-to_string_from fuel (n / 10) ((48 + n % 10) ∷ tail))
]

stoi-stoi_digits : (s : Text) → starts_with_digit s ≡ true → stoi s ≡ stoi_digits false s
unfolding stoi stoi_sign skip_spaces
stoi-stoi_digits [] h = cc
stoi-stoi_digits (c ∷ s) h = ground arith

stoi_digits_lem :
    (n : ℕ) (s : Text)
    → starts_with_digit s ≡ true
    → read_digits 0 s ≡ n
    → n < 2 ^ 31
    → stoi_digits false s ≡ some (pos n)
unfolding stoi_digits
stoi_digits_lem n s d e h = ground arith

-- A number below 2 ^ 31 is read back from its own digits, whatever follows them, as long as that
-- does not begin with a digit.
pub stoi-to_string :
    (n : ℕ) (rest : Text) → n < 2 ^ 31 → EndsNumber rest → stoi (to_string n ++ rest) ≡ some (pos n)
unfolding to_string
stoi-to_string n rest h e =
    let digits = starts_with_digit-to_string_from n n rest in
    stoi-stoi_digits _ digits
    ∙ stoi_digits_lem n _ digits
        (read_digits-to_string_from (suc n) n rest (omega arith) ∙ read_digits_end n rest e) h
