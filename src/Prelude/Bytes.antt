-- ===== src/Prelude/Bytes.antt =====
-- `std::string` as the list of its bytes, with the searches that the program makes.
use Prim.Native.Nat.{ℕ, zero, suc, ◌+◌, ◌≤◌}
use Prim.Native.Char.{code}
use Prim.Native.String.{String}
use mathlib.Core.Path.{◌≡◌, refl}
use mathlib.Core.Logic.{◌↔◌, ◌≢◌}
use mathlib.Core.Bool.{Bool, true, false, ◌&&◌}
use mathlib.Core.Option
use mathlib.Core.Option.{Option, none, some}
use mathlib.Core.List.{List, [], ◌∷◌, ◌++◌}
use native.Mathlib.Omega.{arith}
use nginx_front_back_end_dem.Prelude.Tests.{nat_beq, Eq, if◌then◌else◌}
use nginx_front_back_end_dem.Prelude.Lists.{length, take, drop, All}

abbrev pub Text : Type 0
Text = List ℕ

-- The bytes of an ASCII literal.
abbrev pub codes : String → Text
codes String.[] = []
codes (String.◌∷◌ c s) = code c ∷ codes s

unfoldable pub text_beq : Text → Text → Bool
text_beq [] [] = true
text_beq (a ∷ s) (b ∷ t) = nat_beq a b && text_beq s t
text_beq _ _ = false

pub text_beq_iff : (s t : Text) → (text_beq s t ≡ true) ↔ (s ≡ t)
unfolding text_beq
text_beq_iff [] [] = ground arith
text_beq_iff [] (b ∷ t) = ground arith
text_beq_iff (a ∷ s) [] = ground arith
text_beq_iff (a ∷ s) (b ∷ t) = ground (arith, text_beq_iff s t)

instance abbrev pub text_eq : Eq Text
text_eq = record { beq = text_beq; beq_iff = text_beq_iff }

-- `s.empty()`
abbrev pub empty : Text → Bool
empty [] = true
empty (c ∷ s) = false

-- `s.rfind(p, 0) == 0`: `s` begins with `p`.
unfoldable pub starts_with : Text → Text → Bool
starts_with s [] = true
starts_with [] (b ∷ p) = false
starts_with (a ∷ s) (b ∷ p) = nat_beq a b && starts_with s p

-- `s.find(c)`; `none` is `npos`.
unfoldable pub find_char : Text → ℕ → Option ℕ
find_char [] c = none
find_char (a ∷ s) c = if nat_beq a c then some 0 else Option.map suc (find_char s c)

-- `s.find(p)` for a text `p`.
unfoldable pub find : Text → Text → Option ℕ
unfolding starts_with
find [] p = if starts_with [] p then some 0 else none
find (a ∷ s) p = if starts_with (a ∷ s) p then some 0 else Option.map suc (find s p)

-- `while (!s.empty() && s.front() == c) s.remove_prefix(1);`
unfoldable pub trim_front : ℕ → Text → Text
trim_front c [] = []
trim_front c (a ∷ s) = if nat_beq a c then trim_front c s else a ∷ s

-- `while (!s.empty() && s.back() == c) s.remove_suffix(1);`
unfoldable pub trim_back : ℕ → Text → Text
trim_back c [] = []
trim_back c (a ∷ s) = let rest = trim_back c s in if empty rest && nat_beq a c then [] else a ∷ rest

-- `s.rfind(c)`
unfoldable pub rfind_char : Text → ℕ → Option ℕ
rfind_char [] c = none
rfind_char (a ∷ s) c = elim (rfind_char s c) [
  | none ↦ if nat_beq a c then some 0 else none
  | some n ↦ some (suc n)
]

-- `s.back() == c` for a text that is not empty.
unfoldable pub ends_with_char : Text → ℕ → Bool
ends_with_char [] c = false
ends_with_char (a ∷ []) c = nat_beq a c
ends_with_char (a ∷ b ∷ s) c = ends_with_char (b ∷ s) c

-- A text begins with its own first bytes, and with nothing else of that length.
pub starts_with-take : (s p : Text) → starts_with s p ≡ true → take (length p) s ≡ p
unfolding starts_with
starts_with-take s [] h = refl
starts_with-take [] (b ∷ p) h = cc
starts_with-take (a ∷ s) (b ∷ p) h = ground (arith, starts_with-take s p)

take-starts_with : (s p : Text) → take (length p) s ≡ p → starts_with s p ≡ true
unfolding starts_with
take-starts_with s [] h = refl
take-starts_with [] (b ∷ p) h = cc
take-starts_with (a ∷ s) (b ∷ p) h = ground (arith, take-starts_with s p)

pub length-starts_with : (s p : Text) → starts_with s p ≡ true → length p ≤ length s
unfolding starts_with
length-starts_with s [] h = omega arith
length-starts_with [] (b ∷ p) h = cc
length-starts_with (a ∷ s) (b ∷ p) h = ground (arith, length-starts_with s p)

pub starts_with-take_self : (k : ℕ) (s : Text) → starts_with s (take k s) ≡ true
unfolding starts_with
starts_with-take_self zero s = refl
starts_with-take_self (suc k) [] = refl
starts_with-take_self (suc k) (a ∷ s) = ground (arith, starts_with-take_self k s)

-- The first `c` behind bytes that are not `c`, and the texts on both sides of it.
pub find_char-behind :
    (s t : Text) (c : ℕ) → All (λ b. b ≢ c) s → find_char (s ++ (c ∷ t)) c ≡ some (length s)
unfolding find_char
find_char-behind [] t c h = ground arith
find_char-behind (b ∷ s) t c (p, h) = ground (arith, find_char-behind s t c h)

find_char-absent : (s : Text) (c : ℕ) → All (λ b. b ≢ c) s → find_char s c ≡ none
unfolding find_char
find_char-absent [] c h = refl
find_char-absent (b ∷ s) c (p, h) = ground (arith, find_char-absent s c h)

pub drop-behind_char : (s t : Text) (c n : ℕ) → n ≡ length s + 1 → drop n (s ++ (c ∷ t)) ≡ t
drop-behind_char s t c zero e = absurd (omega arith)
drop-behind_char [] t c (suc n) e = let z : n ≡ 0 = omega arith in rw z
drop-behind_char (b ∷ s) t c (suc n) e = drop-behind_char s t c n (omega arith)
