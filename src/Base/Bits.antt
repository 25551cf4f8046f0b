-- ===== src/Base/Bits.antt =====
-- The bit operations of the source, `|`, `&` and `^`, as arithmetic.
use Prim.Native.Nat.{
  ℕ, zero, suc, ◌+◌, ◌*◌, ◌/◌, ◌%◌, ◌^◌, ◌≤◌, ◌<◌, min, max, digits, bitwise, bit_and, bit_or,
  bit_and-bitwise, bit_or-bitwise,
}
use mathlib.Core.Path.{◌≡◌, refl, ap, ◌∙◌}
use native.Mathlib.Nat.{pow-suc}
use native.Mathlib.Omega.{arith}

-- The fuel of `digits` does not matter once it covers the first number.
digits_enough :
    (z : ℕ → ℕ) (f : ℕ → ℕ → ℕ) (n k a b : ℕ) → a ≤ n → a ≤ k → digits z f n a b ≡ digits z f k a b
digits_enough z f zero zero a b p q = refl
digits_enough z f zero (suc k) zero b p q = refl
digits_enough z f (suc n) zero zero b p q = refl
digits_enough z f (suc n) (suc k) zero b p q = refl
digits_enough z f zero (suc k) (suc a) b p q = absurd (omega arith)
digits_enough z f (suc n) zero (suc a) b p q = absurd (omega arith)
digits_enough z f (suc n) (suc k) (suc a) b p q =
    ap (λ d. d * 2 + f (suc a % 2) (b % 2))
      (digits_enough z f n k (suc a / 2) (b / 2) (omega arith) (omega arith))

bitwise_digit :
    (z : ℕ → ℕ) (f : ℕ → ℕ → ℕ) (a b : ℕ)
    → bitwise z f (suc a) b ≡ bitwise z f (suc a / 2) (b / 2) * 2 + f (suc a % 2) (b % 2)
bitwise_digit z f a b =
    ap (λ d. d * 2 + f (suc a % 2) (b % 2))
      (digits_enough z f a (suc a / 2) (suc a / 2) (b / 2) (omega arith) (omega arith))

-- One step on the lowest digit of each operation.
pub or_step : (a b : ℕ) → bit_or a b ≡ bit_or (a / 2) (b / 2) * 2 + max (a % 2) (b % 2)
or_step zero b = simp bit_or-bitwise (omega arith)
or_step (suc a) b = simp bit_or-bitwise (bitwise_digit (λ y. y) max a b)

pub and_step : (a b : ℕ) → bit_and a b ≡ bit_and (a / 2) (b / 2) * 2 + min (a % 2) (b % 2)
and_step zero b = simp bit_and-bitwise (omega arith)
and_step (suc a) b = simp bit_and-bitwise (bitwise_digit (λ y. 0) min a b)

pub zero-or : (b : ℕ) → bit_or 0 b ≡ b
zero-or b = simp bit_or-bitwise

or_comm_below : (n a b : ℕ) → a ≤ n → b ≤ n → bit_or a b ≡ bit_or b a
or_comm_below zero zero zero p q = refl
or_comm_below zero (suc a) b p q = absurd (omega arith)
or_comm_below zero zero (suc b) p q = absurd (omega arith)
or_comm_below (suc n) a b p q =
    omega
      (arith, or_step a b, or_step b a, or_comm_below n (a / 2) (b / 2) (omega arith) (omega arith))

pub or_comm : (a b : ℕ) → bit_or a b ≡ bit_or b a
or_comm a b = or_comm_below (a + b) a b (omega arith) (omega arith)

-- `low | (high << k)` is a sum when `low` has `k` bits.
pub or_shifted : (k low high : ℕ) → low < 2 ^ k → bit_or low (high * 2 ^ k) ≡ low + high * 2 ^ k
or_shifted zero low high h =
    let e : low ≡ 0 = omega arith in rw e (zero-or (high * 2 ^ 0) ∙ omega arith)
or_shifted (suc k) low high h = ground (
  arith,
  or_step low (high * 2 ^ suc k),
  or_shifted k (low / 2) high (omega (arith, pow-suc 2 k)),
  ap (λ (t : ℕ). high * t) (pow-suc 2 k),
)

-- `(high << 8) | low`
pub shifted_or : (low high : ℕ) → low < 256 → bit_or (high * 256) low ≡ high * 256 + low
shifted_or low high h = omega (arith, or_comm (high * 256) low, or_shifted 8 low high h)

and-zero_below : (n a : ℕ) → a ≤ n → bit_and a 0 ≡ 0
and-zero_below n zero h = simp bit_and-bitwise
and-zero_below zero (suc a) h = absurd (omega arith)
and-zero_below (suc n) (suc a) h =
    omega (arith, and_step (suc a) 0, and-zero_below n (suc a / 2) (omega arith))

pub and-zero : (a : ℕ) → bit_and a 0 ≡ 0
and-zero a = and-zero_below a a (omega arith)

and_one : (a : ℕ) → bit_and a 1 ≡ a % 2
and_one a = omega (arith, and_step a 1, and-zero (a / 2))

and_nibble : (a : ℕ) → bit_and a 15 ≡ a % 16
and_nibble a =
    omega
      (arith, and_step a 15, and_step (a / 2) 7, and_step (a / 2 / 2) 3, and_one (a / 2 / 2 / 2))

-- `value & 0xFF`
pub and_byte : (a : ℕ) → bit_and a 255 ≡ a % 256
and_byte a = omega (
  arith,
  and_step a 255,
  and_step (a / 2) 127,
  and_step (a / 2 / 2) 63,
  and_step (a / 2 / 2 / 2) 31,
  and_nibble (a / 2 / 2 / 2 / 2),
)

-- A mask whose lowest byte is 0.
pub and_shifted : (a m : ℕ) → bit_and a (m * 256) ≡ 256 * bit_and (a / 256) m
and_shifted a m = ground (
  arith,
  and_step a (m * 256),
  and_step (a / 2) (m * 128),
  and_step (a / 2 / 2) (m * 64),
  and_step (a / 2 / 2 / 2) (m * 32),
  and_step (a / 2 / 2 / 2 / 2) (m * 16),
  and_step (a / 2 / 2 / 2 / 2 / 2) (m * 8),
  and_step (a / 2 / 2 / 2 / 2 / 2 / 2) (m * 4),
  and_step (a / 2 / 2 / 2 / 2 / 2 / 2 / 2) (m * 2),
)

-- `high | low`, for a `high` whose `k` low bits are 0 and a `low` that has `k` bits.
pub or_fields : (k h high low : ℕ) → high ≡ h * 2 ^ k → low < 2 ^ k → bit_or high low ≡ high + low
or_fields k h high low e f = rw e (omega (arith, or_comm (h * 2 ^ k) low, or_shifted k low h f))
