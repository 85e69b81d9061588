-- ===== src/Decimal.antt =====
-- `std::to_string` of a number that is not negative, and `std::stoi`, which the stored password hash,
-- the environment variables and the listen snippets go through.
pub mod Laws
use nginx_front_back_end_dem.Prelude.{
  ℕ, zero, suc, ◌+◌, ◌-◌, ◌*◌, ◌/◌, ◌%◌, ◌^◌, Bool, true, false, ◌&&◌, Option, none, some, [], ◌∷◌,
  ◌++◌, Text, leb, ltb, nat_beq, if◌then◌else◌,
}
use nginx_front_back_end_dem.Hex.{skip_spaces}

-- A C++ `int`; `negsuc n` is -(n + 1).
pub data ℤ : Type 0 where
  pos negsuc : ℕ → ℤ

-- Enough fuel is any number of digits or more.
unfoldable pub to_string_from : ℕ → ℕ → Text
to_string_from zero n = []
to_string_from (suc fuel) n =
    let front = to_string_from fuel (n / 10) in
    if ltb n 10 then (48 + n) ∷ [] else front ++ (48 + n % 10) ∷ []

unfoldable pub to_string : ℕ → Text
unfolding to_string_from
to_string n = to_string_from (suc n) n

unfoldable pub is_digit : ℕ → Bool
is_digit c = leb b'0' c && leb c b'9'

-- The digits at the front of a text, as a number behind the digits read so far.
unfoldable pub read_digits : ℕ → Text → ℕ
unfolding is_digit
read_digits n [] = n
read_digits n (c ∷ s) =
    let rest = read_digits (n * 10 + (c - 48)) s in if is_digit c then rest else n

abbrev pub starts_with_digit : Text → Bool
starts_with_digit [] = false
starts_with_digit (c ∷ s) = leb b'0' c && leb c b'9'

-- No digit: `std::invalid_argument`; beyond `int`: `std::out_of_range`.
unfoldable pub stoi_digits : Bool → Text → Option ℤ
unfolding read_digits
stoi_digits negative s =
    let n = read_digits 0 s in
    if starts_with_digit s
    then (if negative
        then (if nat_beq n 0
            then some (pos 0)
            else if leb n (2 ^ 31)
            then some (negsuc (n - 1))
            else none)
        else if ltb n (2 ^ 31)
        then some (pos n)
        else none)
    else none

stoi_sign : Text → Option ℤ
stoi_sign [] = none
stoi_sign (c ∷ s) =
    if nat_beq c b'-'
    then stoi_digits true s
    else if nat_beq c b'+'
    then stoi_digits false s
    else stoi_digits false (c ∷ s)

unfoldable pub stoi : Text → Option ℤ
unfolding stoi_sign stoi_digits skip_spaces
stoi s = stoi_sign (skip_spaces s)
