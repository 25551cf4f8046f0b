-- ===== src/Scalar/Swap.antt =====
-- The byte swaps of direct_encode_support.hpp, against the bytes of an integer.
use mathlib.Core.List.{reverse}
use universal_protocol_runti.Base.{
  ℕ, ◌+◌, ◌*◌, ◌/◌, ◌%◌, ◌^◌, ◌<◌, ◌≡◌, refl, ◌∙◌, sym, arith, bit_or, bit_and, and_byte,
  and_shifted, or_fields,
}
use universal_protocol_runti.Scalar.{host_bytes, byteswap16, byteswap32, byteswap64}
use universal_protocol_runti.Scalar.Value.{little_bytes}

mask1 : (v : ℕ) → bit_and v 0xFF00 ≡ 256 * (v / 256 % 256)
mask1 v = omega (arith, and_shifted v 0xFF, and_byte (v / 256))

mask2 : (v : ℕ) → bit_and v 0xFF0000 ≡ 2 ^ 16 * (v / 2 ^ 16 % 256)
mask2 v = omega (arith, and_shifted v 0xFF00, mask1 (v / 256))

mask3 : (v : ℕ) → bit_and v 0xFF000000 ≡ 2 ^ 24 * (v / 2 ^ 24 % 256)
mask3 v = omega (arith, and_shifted v 0xFF0000, mask2 (v / 256))

mask4 : (v : ℕ) → bit_and v 0xFF00000000 ≡ 2 ^ 32 * (v / 2 ^ 32 % 256)
mask4 v = omega (arith, and_shifted v 0xFF000000, mask3 (v / 256))

mask5 : (v : ℕ) → bit_and v 0xFF0000000000 ≡ 2 ^ 40 * (v / 2 ^ 40 % 256)
mask5 v = omega (arith, and_shifted v 0xFF00000000, mask4 (v / 256))

mask6 : (v : ℕ) → bit_and v 0xFF000000000000 ≡ 2 ^ 48 * (v / 2 ^ 48 % 256)
mask6 v = omega (arith, and_shifted v 0xFF0000000000, mask5 (v / 256))

mask7 : (v : ℕ) → bit_and v 0xFF00000000000000 ≡ 2 ^ 56 * (v / 2 ^ 56 % 256)
mask7 v = omega (arith, and_shifted v 0xFF000000000000, mask6 (v / 256))

byteswap16_lem : (v : ℕ) → v < 2 ^ 16 → byteswap16 v ≡ v / 256 + 256 * (v % 256)
unfolding byteswap16
byteswap16_lem v h = rw (or_fields 8 v (v * 2 ^ 8) (v / 2 ^ 8) refl (omega arith)) (omega arith)

-- Each field as the source leaves it, `x`, is a byte at its place; or-ing them is adding them.
or_field :
    (k h x low high sum : ℕ)
    → x ≡ low
    → high ≡ h * 2 ^ k
    → low < 2 ^ k
    → sum ≡ high + low
    → bit_or high x ≡ sum
or_field k h x low high sum e f p q = rw e (or_fields k h high low f p ∙ sym q)

swap32_fields :
    (b0 b1 b2 b3 : ℕ)
    → b0 < 256
    → b1 < 256
    → b2 < 256
    → b3 < 256
    → bit_or
        (bit_or (bit_or (b0 * 2 ^ 24 % 2 ^ 32) (256 * b1 * 2 ^ 8 % 2 ^ 32)) (2 ^ 16 * b2 / 2 ^ 8))
        (2 ^ 24 * b3 / 2 ^ 24)
      ≡ b3 + 256 * (b2 + 256 * (b1 + 256 * b0))
swap32_fields b0 b1 b2 b3 p0 p1 p2 p3 = rw (
  or_field 24 b0 (256 * b1 * 2 ^ 8 % 2 ^ 32) (b1 * 2 ^ 16) (b0 * 2 ^ 24 % 2 ^ 32)
      ((b1 + 256 * b0) * 2 ^ 16) (omega arith) (omega arith) (omega arith) (omega arith),
  or_field 16 (b1 + 256 * b0) (2 ^ 16 * b2 / 2 ^ 8) (b2 * 2 ^ 8) ((b1 + 256 * b0) * 2 ^ 16)
      ((b2 + 256 * (b1 + 256 * b0)) * 2 ^ 8) (omega arith) refl (omega arith) (omega arith),
  or_field 8 (b2 + 256 * (b1 + 256 * b0)) (2 ^ 24 * b3 / 2 ^ 24) b3
      ((b2 + 256 * (b1 + 256 * b0)) * 2 ^ 8) (b3 + 256 * (b2 + 256 * (b1 + 256 * b0))) (omega arith)
      refl (omega arith) (omega arith),
)

byteswap32_lem :
    (v : ℕ)
    → v < 2 ^ 32
    → byteswap32 v ≡ v / 2 ^ 24 + 256 * (v / 2 ^ 16 % 256 + 256 * (v / 256 % 256 + 256 * (v % 256)))
unfolding byteswap32
byteswap32_lem v h =
    rw (and_byte v, mask1 v, mask2 v, mask3 v)
      (swap32_fields (v % 256) (v / 256 % 256) (v / 2 ^ 16 % 256) (v / 2 ^ 24 % 256) (omega arith)
          (omega arith) (omega arith) (omega arith)
        ∙ omega arith)

swap64_fields :
    (b0 b1 b2 b3 b4 b5 b6 b7 : ℕ)
    → b0 < 256
    → b1 < 256
    → b2 < 256
    → b3 < 256
    → b4 < 256
    → b5 < 256
    → b6 < 256
    → b7 < 256
    → bit_or
        (bit_or
          (bit_or
            (bit_or
              (bit_or
                (bit_or
                  (bit_or (b0 * 2 ^ 56 % 2 ^ 64) (256 * b1 * 2 ^ 40 % 2 ^ 64))
                  (2 ^ 16 * b2 * 2 ^ 24 % 2 ^ 64))
                (2 ^ 24 * b3 * 2 ^ 8 % 2 ^ 64))
              (2 ^ 32 * b4 / 2 ^ 8))
            (2 ^ 40 * b5 / 2 ^ 24))
          (2 ^ 48 * b6 / 2 ^ 40))
        (2 ^ 56 * b7 / 2 ^ 56)
      ≡ b7 + 256 * (b6 + 256 * (b5 + 256 * (b4 + 256 * (b3 + 256 * (b2 + 256 * (b1 + 256 * b0))))))
swap64_fields b0 b1 b2 b3 b4 b5 b6 b7 p0 p1 p2 p3 p4 p5 p6 p7 = rw (
  or_field 56 b0 (256 * b1 * 2 ^ 40 % 2 ^ 64) (b1 * 2 ^ 48) (b0 * 2 ^ 56 % 2 ^ 64)
      ((b1 + 256 * b0) * 2 ^ 48) (omega arith) (omega arith) (omega arith) (omega arith),
  or_field 48 (b1 + 256 * b0) (2 ^ 16 * b2 * 2 ^ 24 % 2 ^ 64) (b2 * 2 ^ 40)
      ((b1 + 256 * b0) * 2 ^ 48) ((b2 + 256 * (b1 + 256 * b0)) * 2 ^ 40) (omega arith) refl
      (omega arith) (omega arith),
  or_field 40 (b2 + 256 * (b1 + 256 * b0)) (2 ^ 24 * b3 * 2 ^ 8 % 2 ^ 64) (b3 * 2 ^ 32)
      ((b2 + 256 * (b1 + 256 * b0)) * 2 ^ 40) ((b3 + 256 * (b2 + 256 * (b1 + 256 * b0))) * 2 ^ 32)
      (omega arith) refl (omega arith) (omega arith),
  or_field 32 (b3 + 256 * (b2 + 256 * (b1 + 256 * b0))) (2 ^ 32 * b4 / 2 ^ 8) (b4 * 2 ^ 24)
      ((b3 + 256 * (b2 + 256 * (b1 + 256 * b0))) * 2 ^ 32)
      ((b4 + 256 * (b3 + 256 * (b2 + 256 * (b1 + 256 * b0)))) * 2 ^ 24) (omega arith) refl
      (omega arith) (omega arith),
  or_field 24 (b4 + 256 * (b3 + 256 * (b2 + 256 * (b1 + 256 * b0)))) (2 ^ 40 * b5 / 2 ^ 24)
      (b5 * 2 ^ 16) ((b4 + 256 * (b3 + 256 * (b2 + 256 * (b1 + 256 * b0)))) * 2 ^ 24)
      ((b5 + 256 * (b4 + 256 * (b3 + 256 * (b2 + 256 * (b1 + 256 * b0))))) * 2 ^ 16) (omega arith)
      refl (omega arith) (omega arith),
  or_field 16 (b5 + 256 * (b4 + 256 * (b3 + 256 * (b2 + 256 * (b1 + 256 * b0)))))
      (2 ^ 48 * b6 / 2 ^ 40) (b6 * 2 ^ 8)
      ((b5 + 256 * (b4 + 256 * (b3 + 256 * (b2 + 256 * (b1 + 256 * b0))))) * 2 ^ 16)
      ((b6 + 256 * (b5 + 256 * (b4 + 256 * (b3 + 256 * (b2 + 256 * (b1 + 256 * b0)))))) * 2 ^ 8)
      (omega arith) refl (omega arith) (omega arith),
  or_field 8 (b6 + 256 * (b5 + 256 * (b4 + 256 * (b3 + 256 * (b2 + 256 * (b1 + 256 * b0))))))
      (2 ^ 56 * b7 / 2 ^ 56) (b7)
      ((b6 + 256 * (b5 + 256 * (b4 + 256 * (b3 + 256 * (b2 + 256 * (b1 + 256 * b0)))))) * 2 ^ 8)
      (b7 + 256 * (b6 + 256 * (b5 + 256 * (b4 + 256 * (b3 + 256 * (b2 + 256 * (b1 + 256 * b0)))))))
      (omega arith) refl (omega arith) (omega arith),
)

byteswap64_lem :
    (v : ℕ)
    → v < 2 ^ 64
    → byteswap64 v
      ≡ v / 2 ^ 56
        + 256
          * (v / 2 ^ 48 % 256
              + 256
                * (v / 2 ^ 40 % 256
                    + 256
                      * (v / 2 ^ 32 % 256
                          + 256
                            * (v / 2 ^ 24 % 256
                                + 256
                                  * (v / 2 ^ 16 % 256
                                      + 256 * (v / 2 ^ 8 % 256 + 256 * (v % 256)))))))
unfolding byteswap64
byteswap64_lem v h =
    rw (and_byte v, mask1 v, mask2 v, mask3 v, mask4 v, mask5 v, mask6 v, mask7 v)
      (swap64_fields (v % 256) (v / 256 % 256) (v / 2 ^ 16 % 256) (v / 2 ^ 24 % 256)
          (v / 2 ^ 32 % 256) (v / 2 ^ 40 % 256) (v / 2 ^ 48 % 256) (v / 2 ^ 56 % 256) (omega arith)
          (omega arith) (omega arith) (omega arith) (omega arith) (omega arith) (omega arith)
          (omega arith)
        ∙ omega arith)

-- The bytes of a swapped integer are those of the integer in the other order.
pub host_bytes-byteswap16 :
    (v : ℕ) → v < 2 ^ 16 → host_bytes 2 (byteswap16 v) ≡ reverse (little_bytes 2 v)
unfolding host_bytes little_bytes
host_bytes-byteswap16 v h = rw (byteswap16_lem v h) (ground arith)

pub host_bytes-byteswap32 :
    (v : ℕ) → v < 2 ^ 32 → host_bytes 4 (byteswap32 v) ≡ reverse (little_bytes 4 v)
unfolding host_bytes little_bytes
host_bytes-byteswap32 v h = rw (byteswap32_lem v h) (ground arith)

pub host_bytes-byteswap64 :
    (v : ℕ) → v < 2 ^ 64 → host_bytes 8 (byteswap64 v) ≡ reverse (little_bytes 8 v)
unfolding host_bytes little_bytes
host_bytes-byteswap64 v h = rw (byteswap64_lem v h) (ground arith)
