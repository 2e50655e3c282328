-- ===== src/Prelude/Bits.antt =====
-- The masks, shifts and unions of bits that the codec uses, as arithmetic.
use Prim.Native.Nat.{ℕ, zero, suc, ◌+◌, ◌*◌, ◌/◌, ◌%◌, ◌^◌, ◌≤◌, ◌<◌, min, max, bit_and, bit_or}
use Prim.Native.Nat.{digits, bitwise, bit_and-bitwise, bit_or-bitwise}
use mathlib.Core.Path.{◌≡◌, refl, ap, ◌∙◌}
use native.Mathlib.Omega.{arith}
use native.Mathlib.Nat.{pow-suc}

-- The operations mean a recursion on binary digits over fuel; any fuel of at least `a` serves.
module _ (at_zero : ℕ → ℕ) (op : ℕ → ℕ → ℕ) where
  digits_enough : (k m a b : ℕ) → a ≤ k → a ≤ m → digits at_zero op k a b ≡ digits at_zero op m a b
  digits_enough (suc k) (suc m) (suc a) b hk hm =
      rw (digits_enough k m (suc a / 2) (b / 2) (omega arith) (omega arith))
  digits_enough zero m (suc a) b hk hm = absurd (omega arith)
  digits_enough (suc k) zero (suc a) b hk hm = absurd (omega arith)
  digits_enough zero zero zero b hk hm = refl
  digits_enough zero (suc m) zero b hk hm = refl
  digits_enough (suc k) zero zero b hk hm = refl
  digits_enough (suc k) (suc m) zero b hk hm = refl

  -- The lowest digit, and the digits above it.
  bitwise_halves :
      (a b : ℕ)
      → bitwise at_zero op (suc a) b
        ≡ bitwise at_zero op (suc a / 2) (b / 2) * 2 + op (suc a % 2) (b % 2)
  bitwise_halves a b =
      omega (arith, digits_enough a (suc a / 2) (suc a / 2) (b / 2) (omega arith) (omega arith))

bit_or_halves : (a b : ℕ) → bit_or a b ≡ bit_or (a / 2) (b / 2) * 2 + max (a % 2) (b % 2)
bit_or_halves (suc a) b = simp bit_or-bitwise (bitwise_halves (λ rest. rest) max a b)
bit_or_halves zero b = simp bit_or-bitwise (omega arith)

bit_and_halves : (a b : ℕ) → bit_and a b ≡ bit_and (a / 2) (b / 2) * 2 + min (a % 2) (b % 2)
bit_and_halves (suc a) b = simp bit_and-bitwise (bitwise_halves (λ rest. 0) min a b)
bit_and_halves zero b = simp bit_and-bitwise (omega arith)

pub zero-bit_or : (b : ℕ) → bit_or 0 b ≡ b
zero-bit_or b = simp bit_or-bitwise (omega arith)

bit_and_zero_below : (n a : ℕ) → a ≤ n → bit_and a 0 ≡ 0
bit_and_zero_below n zero h = refl
bit_and_zero_below zero (suc a) h = absurd (omega arith)
bit_and_zero_below (suc n) (suc a) h =
    omega (arith, bit_and_halves (suc a) 0, bit_and_zero_below n (suc a / 2) (omega arith))

bit_and_zero : (a : ℕ) → bit_and a 0 ≡ 0
bit_and_zero a = bit_and_zero_below a a (omega arith)

-- `a | (b << k)` is a sum when `a` fits `k` bits.
pub bit_or_shifted : (k a b : ℕ) → a < 2 ^ k → bit_or a (b * 2 ^ k) ≡ a + b * 2 ^ k
bit_or_shifted zero zero b h = rw zero-bit_or (omega arith)
bit_or_shifted zero (suc a) b h = absurd (omega arith)
bit_or_shifted (suc k) a b h = ground (
  arith,
  bit_or_halves a (b * 2 ^ suc k),
  ap (λ (t : ℕ). b * t) (pow-suc 2 k),
  pow-suc 2 k,
  bit_or_shifted k (a / 2) b (omega (arith, pow-suc 2 k)),
)

bit_and_odd : (a m : ℕ) → bit_and a (m * 2 + 1) ≡ bit_and (a / 2) m * 2 + a % 2
bit_and_odd a m =
    let e : (m * 2 + 1) / 2 ≡ m = omega arith in bit_and_halves a (m * 2 + 1) ∙ rw e (omega arith)

bit_and_even : (a m : ℕ) → bit_and a (m * 2) ≡ bit_and (a / 2) m * 2
bit_and_even a m =
    let e : m * 2 / 2 ≡ m = omega arith in bit_and_halves a (m * 2) ∙ rw e (omega arith)

-- Masks with one bit, and with all low bits.
pub bit_and_01 : (a : ℕ) → bit_and a 0x1 ≡ a % 2
bit_and_01 a = omega (arith, bit_and_odd a 0, bit_and_zero (a / 2))

pub bit_and_80 : (a : ℕ) → bit_and a 0x80 ≡ a / 128 % 2 * 128
bit_and_80 a = omega (
  arith,
  bit_and_even a 64,
  bit_and_even (a / 2) 32,
  bit_and_even (a / 2 / 2) 16,
  bit_and_even (a / 2 / 2 / 2) 8,
  bit_and_even (a / 2 / 2 / 2 / 2) 4,
  bit_and_even (a / 2 / 2 / 2 / 2 / 2) 2,
  bit_and_even (a / 2 / 2 / 2 / 2 / 2 / 2) 1,
  bit_and_odd (a / 2 / 2 / 2 / 2 / 2 / 2 / 2) 0,
  bit_and_zero (a / 2 / 2 / 2 / 2 / 2 / 2 / 2 / 2),
)

pub bit_and_7f : (a : ℕ) → bit_and a 0x7f ≡ a % 128
bit_and_7f a = omega (
  arith,
  bit_and_odd a 63,
  bit_and_odd (a / 2) 31,
  bit_and_odd (a / 2 / 2) 15,
  bit_and_odd (a / 2 / 2 / 2) 7,
  bit_and_odd (a / 2 / 2 / 2 / 2) 3,
  bit_and_odd (a / 2 / 2 / 2 / 2 / 2) 1,
  bit_and_odd (a / 2 / 2 / 2 / 2 / 2 / 2) 0,
  bit_and_zero (a / 2 / 2 / 2 / 2 / 2 / 2 / 2),
)

pub bit_and_ff : (a : ℕ) → bit_and a 0xff ≡ a % 256
bit_and_ff a = omega (
  arith,
  bit_and_odd a 127,
  bit_and_odd (a / 2) 63,
  bit_and_odd (a / 2 / 2) 31,
  bit_and_odd (a / 2 / 2 / 2) 15,
  bit_and_odd (a / 2 / 2 / 2 / 2) 7,
  bit_and_odd (a / 2 / 2 / 2 / 2 / 2) 3,
  bit_and_odd (a / 2 / 2 / 2 / 2 / 2 / 2) 1,
  bit_and_odd (a / 2 / 2 / 2 / 2 / 2 / 2 / 2) 0,
  bit_and_zero (a / 2 / 2 / 2 / 2 / 2 / 2 / 2 / 2),
)

pub bit_or_80 : (a : ℕ) → a < 128 → bit_or a 0x80 ≡ a + 128
bit_or_80 a h = bit_or_shifted 7 a 1 h

-- A union of bits fits where both sides fit.
pub bit_or-lt : (k a b : ℕ) → a < 2 ^ k → b < 2 ^ k → bit_or a b < 2 ^ k
bit_or-lt zero zero b ha hb = rw zero-bit_or hb
bit_or-lt zero (suc a) b ha hb = absurd (omega arith)
bit_or-lt (suc k) a b ha hb = omega (
  arith,
  pow-suc 2 k,
  bit_or_halves a b,
  bit_or-lt k (a / 2) (b / 2) (omega (arith, pow-suc 2 k)) (omega (arith, pow-suc 2 k)),
)
