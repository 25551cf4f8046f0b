-- ===== src/Scalar/Read.antt =====
-- `read_unsigned_scalar`, against the value of its bytes.
use native.Mathlib.Nat.{pow-suc, pow-le-pow_right, mod-eq_of_lt}
use native.Mathlib.Numerals.{towards_suc}
use mathlib.Core.List.{reverse, reverse-cons}
use universal_protocol_runti.Base.{
  ℕ, zero, suc, ◌+◌, ◌*◌, ◌%◌, ◌^◌, ◌≤◌, ◌<◌, ◌≡◌, refl, ap, ◌∙◌, List, [], ◌∷◌, ◌++◌, some, none,
  arith, length, leb, ◌&&◌, if◌then◌else◌, or_shifted, shifted_or,
}
use universal_protocol_runti.Core.{ByteOrder, little_endian, big_endian, AreBytes}
use universal_protocol_runti.Scalar.{
  read_little, read_big, read_unsigned_scalar_unchecked, read_unsigned_scalar,
}
use universal_protocol_runti.Scalar.Value.{little_value, value, length-reverse}

two_pow_add_eight : (n : ℕ) → 2 ^ (n + 8) ≡ 256 * 2 ^ n
two_pow_add_eight n = simp towards_suc (omega arith)

pub two_pow_bytes : (i : ℕ) → 2 ^ (i * 8) ≡ 256 ^ i
two_pow_bytes zero = refl
two_pow_bytes (suc i) =
    ap (λ k. 2 ^ k) {x = suc i * 8} {y = i * 8 + 8} (omega arith)
    ∙ omega (arith, two_pow_add_eight (i * 8), two_pow_bytes i, pow-suc 256 i)

-- Up to seven bytes and one more fit 64 bits.
pub byte_pow_fits : (i : ℕ) → i ≤ 7 → 256 * 256 ^ i ≤ 2 ^ 64
byte_pow_fits i h = omega (arith, pow-le-pow_right {n = 256} (omega arith) h)

-- A byte shifted behind `i ≤ 7` bytes does not leave the word.
shift_fits : (b i : ℕ) → b < 256 → i ≤ 7 → b * 2 ^ (i * 8) % 2 ^ 64 ≡ b * 2 ^ (i * 8)
shift_fits b i h k = rw (two_pow_bytes i) (mod-eq_of_lt (grind (arith, byte_pow_fits i k)))

pub byte_pow_add_one : (i : ℕ) → 256 ^ (i + 1) ≡ 256 * 256 ^ i
byte_pow_add_one i = simp towards_suc (omega (arith, pow-suc 256 i))

-- One byte more in front of `i` bytes of a number.
grown_fits : (v b i : ℕ) → b < 256 → v < 256 ^ i → v + b * 256 ^ i < 256 ^ (i + 1)
grown_fits v b i h k = rw (byte_pow_add_one i) (grind arith)

read_little-value :
    (v i : ℕ) (bytes : List ℕ)
    → AreBytes bytes
    → v < 256 ^ i
    → i + length bytes ≤ 8
    → read_little v i bytes ≡ v + 256 ^ i * little_value bytes
unfolding read_little little_value
read_little-value v i [] ok h k = omega arith
read_little-value v i (b ∷ bytes) ok h k =
    rw
      (
        shift_fits b i ok.0 (omega arith),
        or_shifted (i * 8) v b (rw (two_pow_bytes i) h),
        two_pow_bytes i,
      )
      (omega (
        arith,
        read_little-value (v + b * 256 ^ i) (i + 1) bytes ok.1 (grown_fits v b i ok.0 h)
            (omega arith),
        ap (λ (t : ℕ). t * little_value bytes) (byte_pow_add_one i),
      ))

little_value-snoc :
    (bs : List ℕ) (b : ℕ) → little_value (bs ++ b ∷ []) ≡ little_value bs + 256 ^ length bs * b
unfolding little_value
little_value-snoc [] b = omega arith
little_value-snoc (c ∷ bs) b =
    omega (arith, little_value-snoc bs b, ap (λ (t : ℕ). t * b) (pow-suc 256 (length bs)))

big_value-cons :
    (b : ℕ) (bs : List ℕ)
    → little_value (reverse (b ∷ bs)) ≡ 256 ^ length bs * b + little_value (reverse bs)
big_value-cons b bs =
    rw (reverse-cons b bs)
      (omega (arith, little_value-snoc (reverse bs) b, ap (λ k. 256 ^ k * b) (length-reverse bs)))

read_big-value :
    (v k : ℕ) (bytes : List ℕ)
    → AreBytes bytes
    → v < 256 ^ k
    → k + length bytes ≤ 8
    → read_big v bytes ≡ v * 256 ^ length bytes + little_value (reverse bytes)
unfolding read_big little_value
read_big-value v k [] ok h q = omega arith
read_big-value v k (b ∷ bytes) ok h q =
    rw
      (
        mod-eq_of_lt {n = v * 256} {m = 2 ^ 64} (omega (arith, byte_pow_fits k (omega arith))),
        shifted_or b v ok.0,
        big_value-cons b bytes,
      )
      (omega (
        arith,
        read_big-value (v * 256 + b) (k + 1) bytes ok.1 (omega (arith, byte_pow_add_one k))
            (omega arith),
        ap (λ (t : ℕ). v * t) (pow-suc 256 (length bytes)),
      ))

-- Both loops compute the value of the bytes, for up to eight of them.
pub read_unchecked-value :
    (order : ByteOrder) (bytes : List ℕ)
    → AreBytes bytes
    → length bytes ≤ 8
    → read_unsigned_scalar_unchecked order bytes ≡ value order bytes
unfolding read_unsigned_scalar_unchecked value
read_unchecked-value little_endian bytes ok h =
    omega (arith, read_little-value 0 0 bytes ok (omega arith) (omega arith))
read_unchecked-value big_endian bytes ok h =
    omega (arith, read_big-value 0 0 bytes ok (omega arith) (omega arith))

-- `read_unsigned_scalar` returns the value of the bytes in the given order for the widths 1 to 8,
-- and nothing for any other width.
pub read-value :
    (order : ByteOrder) (bytes : List ℕ)
    → AreBytes bytes
    → read_unsigned_scalar order bytes
      ≡ (if leb 1 (length bytes) && leb (length bytes) 8 then some (value order bytes) else none)
unfolding read_unsigned_scalar
read-value order bytes ok = ground (arith, read_unchecked-value order bytes ok)
