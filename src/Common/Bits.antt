-- ===== src/Common/Bits.antt =====
-- Masks on one byte as arithmetic; each is a table of at most 256 entries, checked by evaluation.
-- The `|` of numbers whose digits do not overlap is a sum.
use Prim.Native.Nat.{
  ℕ, zero, suc, ◌+◌, ◌*◌, ◌/◌, ◌%◌, ◌<◌, bit_and, bit_or, ◌≤◌, ◌^◌, max, digits, bit_or-bitwise,
}
use mathlib.Core.Path.{◌≡◌, ◌∙◌, refl}
use mathlib.Core.Bool.{Bool, true, ◌&&◌}
use native.Mathlib.Omega.{arith}
use talkintent.Common.Tests.{◌==◌}

module _ (f g : ℕ → ℕ) where
  agree_below : ℕ → Bool
  agree_below zero = true
  agree_below (suc n) = f n == g n && agree_below n

  agree_below-eq : (n : ℕ) → agree_below n ≡ true → (i : ℕ) → i < n → f i ≡ g i
  unfolding agree_below
  agree_below-eq zero e i h = absurd (omega arith)
  agree_below-eq (suc n) e i h = ground (arith, agree_below-eq n (ground arith) i)

-- `b & 0x7f`, the low seven bits
pub low_bits : (b : ℕ) → b < 256 → bit_and b 0x7f ≡ b % 128
unfolding agree_below
low_bits = agree_below-eq _ _ 256 refl

-- `b & 0x80`, the top bit
pub top_bit : (b : ℕ) → b < 256 → bit_and b 0x80 ≡ b / 128 * 128
unfolding agree_below
top_bit = agree_below-eq _ _ 256 refl

-- `b | 0x80`, the top bit set
pub set_top_bit : (b : ℕ) → b < 256 → bit_or b 0x80 ≡ b % 128 + 128
unfolding agree_below
set_top_bit = agree_below-eq _ _ 256 refl

pub power_suc : (s : ℕ) → 2 ^ suc s ≡ 2 * 2 ^ s
power_suc s = omega arith

double : (x s : ℕ) → x * 2 ^ suc s ≡ 2 * (x * 2 ^ s)
double x s = rw (power_suc s) (omega arith)

half : (b y : ℕ) → b ≡ 2 * y → b / 2 ≡ y
half b y e = omega arith

even : (b y : ℕ) → b ≡ 2 * y → b % 2 ≡ 0
even b y e = omega arith

-- Digits that do not overlap: below the shift on the one side, above it on the other.
digits_disjoint :
    (n a x s : ℕ) → a ≤ n → a < 2 ^ s → digits (λ b. b) max n a (x * 2 ^ s) ≡ a + x * 2 ^ s
digits_disjoint zero zero x s h k = omega arith
digits_disjoint zero (suc a) x s h k = absurd (omega arith)
digits_disjoint (suc n) zero x s h k = omega arith
digits_disjoint (suc n) (suc a) x zero h k = absurd (omega arith)
digits_disjoint (suc n) (suc a) x (suc s) h k =
    let e = double x s in
    let f = power_suc s in
    rw (half (x * 2 ^ suc s) (x * 2 ^ s) e, even (x * 2 ^ suc s) (x * 2 ^ s) e)
      (omega (arith, e, f, digits_disjoint n (suc a / 2) x s (omega arith) (omega (arith, f))))

-- `val | x << shift` is a sum where `val` lies below the shift.
pub bit_or-add : (a x s : ℕ) → a < 2 ^ s → bit_or a (x * 2 ^ s) ≡ a + x * 2 ^ s
bit_or-add a x s h = bit_or-bitwise a (x * 2 ^ s) ∙ digits_disjoint a a x s (omega arith) h
