-- ===== src/Scalar/Write.antt =====
-- `write_unsigned_scalar`, against the bytes of its value.
use mathlib.Core.List.{reverse, reverse-cons, append-nil, append_assoc}
use native.Mathlib.Nat.{pow-le-pow_right}
use native.Mathlib.Decide.{ℕ_discrete}
use universal_protocol_runti.Base.{
  ℕ, zero, suc, ◌/◌, ◌%◌, ◌^◌, ◌≤◌, ◌<◌, ◌≡◌, ◌≢◌, true, refl, ap, ◌∙◌, List, [], ◌∷◌, ◌++◌, some,
  arith, length, and_byte,
}
use universal_protocol_runti.Core.{ByteOrder, little_endian, big_endian}
use universal_protocol_runti.Scalar.{
  host_bytes, write_little, write_big, write_unsigned_scalar_unchecked, write_unsigned_scalar,
  read_unsigned_scalar,
}
use universal_protocol_runti.Scalar.Value.{
  value-bytes_of, length-bytes_of, AreBytes-bytes_of, little_bytes, bytes_of,
}
use universal_protocol_runti.Scalar.Read.{read-value}
use universal_protocol_runti.Scalar.Swap.{
  host_bytes-byteswap16, host_bytes-byteswap32, host_bytes-byteswap64,
}

host_bytes_lem : (width v : ℕ) → host_bytes width v ≡ little_bytes width v
unfolding host_bytes little_bytes
host_bytes_lem zero v = refl
host_bytes_lem (suc width) v = rw (host_bytes_lem width (v / 256))

write_little_lem : (width v : ℕ) → write_little width v ≡ little_bytes width v
unfolding write_little little_bytes
write_little_lem zero v = refl
write_little_lem (suc width) v = rw (and_byte v, write_little_lem width (v / 256))

write_big_lem :
    (width v : ℕ) (written : List ℕ)
    → write_big width v written ≡ reverse (little_bytes width v) ++ written
unfolding write_big little_bytes
write_big_lem zero v written = refl
write_big_lem (suc width) v written =
    rw
      (
        and_byte v,
        write_big_lem width (v / 256) ((v % 256) ∷ written),
        reverse-cons (v % 256) (little_bytes width (v / 256)),
        append_assoc (reverse (little_bytes width (v / 256))) ((v % 256) ∷ []) written,
      )
      refl

-- Narrowing to the width loses no byte.
low_two : (v : ℕ) → little_bytes 2 (v % 2 ^ 16) ≡ little_bytes 2 v
unfolding little_bytes
low_two v = ground arith

low_four : (v : ℕ) → little_bytes 4 (v % 2 ^ 32) ≡ little_bytes 4 v
unfolding little_bytes
low_four v = ground arith

-- The widths that the source stores by `memcpy`, and the others.
data Width (width : ℕ) : Type 0 where
  one : width ≡ 1 → Width width
  two : width ≡ 2 → Width width
  four : width ≡ 4 → Width width
  eight : width ≡ 8 → Width width
  other : width ≢ 1 → width ≢ 2 → width ≢ 4 → width ≢ 8 → Width width

width_cases : (width : ℕ) → Width width
width_cases width = elim (ℕ_discrete width 1) [
  | yes e ↦ one e
  | no a ↦ elim (ℕ_discrete width 2) [
    | yes e ↦ two e
    | no b ↦ elim (ℕ_discrete width 4) [
      | yes e ↦ four e
      | no c ↦ elim (ℕ_discrete width 8) [ yes e ↦ eight e | no d ↦ other a b c d ]
    ]
  ]
]

write_little_endian :
    (width v : ℕ)
    → Width width
    → write_unsigned_scalar_unchecked little_endian width v ≡ little_bytes width v
unfolding write_unsigned_scalar_unchecked
write_little_endian width v (one e) = rw e (unfold little_bytes in refl)
write_little_endian width v (two e) = rw e (host_bytes_lem 2 (v % 2 ^ 16) ∙ low_two v)
write_little_endian width v (four e) = rw e (host_bytes_lem 4 (v % 2 ^ 32) ∙ low_four v)
write_little_endian width v (eight e) = rw e (host_bytes_lem 8 v)
write_little_endian width v (other a b c d) = ground (arith, write_little_lem width v)

write_big_endian :
    (width v : ℕ)
    → v < 2 ^ 64
    → Width width
    → write_unsigned_scalar_unchecked big_endian width v ≡ reverse (little_bytes width v)
unfolding write_unsigned_scalar_unchecked
write_big_endian width v h (one e) = rw e (unfold little_bytes in refl)
write_big_endian width v h (two e) =
    rw e (host_bytes-byteswap16 (v % 2 ^ 16) (omega arith) ∙ ap reverse (low_two v))
write_big_endian width v h (four e) =
    rw e (host_bytes-byteswap32 (v % 2 ^ 32) (omega arith) ∙ ap reverse (low_four v))
write_big_endian width v h (eight e) = rw e (host_bytes-byteswap64 v h)
write_big_endian width v h (other a b c d) =
    ground (arith, write_big_lem width v [], append-nil (reverse (little_bytes width v)))

-- For every width and either byte order, whichever of `memcpy`, byte swap and loop the source takes,
-- the span gets the bytes of the value in that order.
pub write_unchecked-bytes_of :
    (order : ByteOrder) (width v : ℕ)
    → v < 2 ^ 64
    → write_unsigned_scalar_unchecked order width v ≡ bytes_of order width v
unfolding bytes_of
write_unchecked-bytes_of little_endian width v h = write_little_endian width v (width_cases width)
write_unchecked-bytes_of big_endian width v h = write_big_endian width v h (width_cases width)

write_fits :
    (order : ByteOrder) (span : List ℕ) (v : ℕ)
    → 0 < length span
    → length span ≤ 8
    → v < 2 ^ 64
    → write_unsigned_scalar order span v ≡ (true, bytes_of order (length span) v)
unfolding write_unsigned_scalar
write_fits order span v p q h = ground (arith, write_unchecked-bytes_of order (length span) v h)

read-bytes_of :
    (order : ByteOrder) (width v : ℕ)
    → 0 < width
    → width ≤ 8
    → v < 256 ^ width
    → read_unsigned_scalar order (bytes_of order width v) ≡ some v
read-bytes_of order width v p q h = ground (
  arith,
  read-value order (bytes_of order width v) (AreBytes-bytes_of order width v),
  length-bytes_of order width v,
  value-bytes_of order width v h,
)

-- A value that fits a width of 1 to 8 bytes is written to a span of that width and read back from
-- it, in either byte order.
pub read-write :
    (order : ByteOrder) (span : List ℕ) (v : ℕ)
    → 0 < length span
    → length span ≤ 8
    → v < 256 ^ length span
    → let (written, bytes) = write_unsigned_scalar order span v in
      (written ≡ true) × (length bytes ≡ length span) × (read_unsigned_scalar order bytes ≡ some v)
read-write order span v p q h =
    rw (write_fits order span v p q (omega (arith, pow-le-pow_right {n = 256} (omega arith) q)))
      (refl, length-bytes_of order (length span) v, read-bytes_of order (length span) v p q h)
