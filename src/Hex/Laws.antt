-- ===== src/Hex/Laws.antt =====
-- Reading back what was written in hexadecimal, and which characters that text is made of.
use nginx_front_back_end_dem.Prelude.{
  ℕ, ◌<◌, ◌/◌, ◌%◌, ◌≡◌, refl, sym, ap, ◌∙◌, List, [], ◌∷◌, All, length, arith, some, ◌≢◌, ◌*◌, ◌+◌,
}
use nginx_front_back_end_dem.Hex.{
  hex_digit, to_hex, digit_value, skip_spaces, second_digit, scan_field, scan_byte, from_hex,
}

abbrev pub IsByte : ℕ → Type 0
IsByte b = b < 256

-- Neither a separator of the stored hash or of a cookie, nor what `sscanf` or a cookie's reader skips.
abbrev pub IsPlain : ℕ → Type 0
IsPlain c = (c ≢ b' ') × (c ≢ b';') × (c ≢ b':')

digit_value-hex_digit : (d : ℕ) → d < 16 → digit_value (hex_digit d) ≡ some d
unfolding digit_value hex_digit
digit_value-hex_digit d h = ground arith

hex_digit-IsPlain : (d : ℕ) → d < 16 → IsPlain (hex_digit d)
unfolding hex_digit
hex_digit-IsPlain d h = ground arith

skip_spaces-hex_digit :
    (d : ℕ) (s : List ℕ) → d < 16 → skip_spaces (hex_digit d ∷ s) ≡ hex_digit d ∷ s
unfolding skip_spaces hex_digit
skip_spaces-hex_digit d s h = ground arith

hex_digit-ne-sign : (d : ℕ) → d < 16 → (hex_digit d ≢ b'-') × (hex_digit d ≢ b'+')
unfolding hex_digit
hex_digit-ne-sign d h = ground arith

scan_field-digit :
    (c high : ℕ) (s : List ℕ)
    → (c ≢ b'-') × (c ≢ b'+')
    → digit_value c ≡ some high
    → scan_field (c ∷ s) ≡ second_digit high s
unfolding scan_field
scan_field-digit c high s h e = ground arith

second_digit-digit :
    (c high low : ℕ) (s : List ℕ)
    → digit_value c ≡ some low
    → second_digit high (c ∷ s) ≡ high * 16 + low
unfolding second_digit
second_digit-digit c high low s e = ground arith

scan_byte-hex_digits :
    (high low : ℕ) (s : List ℕ)
    → high < 16
    → low < 16
    → scan_byte (hex_digit high ∷ hex_digit low ∷ s) ≡ high * 16 + low
scan_byte-hex_digits high low s h l =
    unfold scan_byte in
    ap scan_field (skip_spaces-hex_digit high (hex_digit low ∷ s) h)
    ∙ scan_field-digit (hex_digit high) high (hex_digit low ∷ s) (hex_digit-ne-sign high h)
        (digit_value-hex_digit high h)
    ∙ second_digit-digit (hex_digit low) high low s (digit_value-hex_digit low l)

-- Bytes are read back from their hexadecimal text: none is lost, added or changed.
pub from_hex-to_hex : (bs : List ℕ) → All IsByte bs → from_hex (to_hex bs) ≡ bs
unfolding from_hex to_hex
from_hex-to_hex [] h = refl
from_hex-to_hex (b ∷ bs) (p, h) =
    ground (arith, scan_byte-hex_digits (b / 16) (b % 16) (to_hex bs), from_hex-to_hex bs h)

pub to_hex-IsPlain : (bs : List ℕ) → All IsByte bs → All IsPlain (to_hex bs)
unfolding to_hex
to_hex-IsPlain [] h = tt
to_hex-IsPlain (b ∷ bs) (p, h) = (
  hex_digit-IsPlain (b / 16) (omega arith),
  (hex_digit-IsPlain (b % 16) (omega arith), to_hex-IsPlain bs h),
)

-- Two digits for each byte.
pub length-to_hex : (bs : List ℕ) → length (to_hex bs) ≡ 2 * length bs
unfolding to_hex
length-to_hex [] = refl
length-to_hex (b ∷ bs) = omega (arith, length-to_hex bs)

-- Different bytes give different texts.
to_hex_inj : (bs cs : List ℕ) → All IsByte bs → All IsByte cs → to_hex bs ≡ to_hex cs → bs ≡ cs
to_hex_inj bs cs h k e = sym (from_hex-to_hex bs h) ∙ ap from_hex e ∙ from_hex-to_hex cs k
