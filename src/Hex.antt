-- ===== src/Hex.antt =====
-- Bytes as two lower-case hexadecimal digits: the loop of backend/src/TokenStore.hpp, and `to_hex`
-- and `from_hex` of backend/include/webengine/TestAuthProvider.hpp.
pub mod Laws
use nginx_front_back_end_dem.Prelude.{
  ℕ, suc, ◌+◌, ◌-◌, ◌*◌, ◌/◌, ◌%◌, Bool, ◌&&◌, ◌||◌, Option, none, some, List, [], ◌∷◌, Text, leb,
  nat_beq, get_or, if◌then◌else◌,
}

unfoldable pub hex_digit : ℕ → ℕ
hex_digit d = if leb 10 d then 87 + d else 48 + d

-- `std::hex << std::setw(2) << std::setfill('0')`, `"%02x"`
unfoldable pub to_hex : List ℕ → Text
unfolding hex_digit
to_hex [] = []
to_hex (b ∷ bs) = hex_digit (b / 16) ∷ hex_digit (b % 16) ∷ to_hex bs

-- The value of a hexadecimal digit in either case.
unfoldable pub digit_value : ℕ → Option ℕ
digit_value c =
    if leb b'0' c && leb c b'9'
    then some (c - 48)
    else if leb b'a' c && leb c b'f'
    then some (c - 87)
    else if leb b'A' c && leb c b'F'
    then some (c - 55)
    else none

-- `isspace`
unfoldable pub is_space : ℕ → Bool
is_space c = nat_beq c 32 || leb 9 c && leb c 13

unfoldable pub skip_spaces : Text → Text
unfolding is_space
skip_spaces [] = []
skip_spaces (c ∷ s) = if is_space c then skip_spaces s else c ∷ s

-- The second digit of a field of width 2, if there is one.
second_digit : ℕ → Text → ℕ
unfolding digit_value
second_digit high [] = high
second_digit high (c ∷ s) = elim (digit_value c) [ none ↦ high | some low ↦ high * 16 + low ]

-- The one digit that the width leaves behind a sign; 0 is what `b` was set to before.
signed_digit : Bool → Text → ℕ
unfolding digit_value
signed_digit negative [] = 0
signed_digit negative (c ∷ s) = elim (digit_value c) [
  | none ↦ 0
  | some d ↦ if negative then (256 - d) % 256 else d
]

-- The field behind the spaces.
scan_field : Text → ℕ
unfolding digit_value
scan_field [] = 0
scan_field (c ∷ s) =
    if nat_beq c b'-' || nat_beq c b'+'
    then signed_digit (nat_beq c b'-') s
    else elim (digit_value c) [ none ↦ 0 | some high ↦ second_digit high s ]

-- `unsigned b = 0; sscanf(s, "%02x", &b); (unsigned char) b`
unfoldable pub scan_byte : Text → ℕ
unfolding scan_field second_digit signed_digit skip_spaces
scan_byte t = scan_field (skip_spaces t)

-- Each scan reads at an even offset of the whole text; an odd last character is not scanned.
unfoldable pub from_hex : Text → List ℕ
unfolding scan_byte
from_hex (a ∷ b ∷ s) = scan_byte (a ∷ b ∷ s) ∷ from_hex s
from_hex _ = []
