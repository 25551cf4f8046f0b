-- ===== src/Channel/Prefix.antt =====
-- The prefix of a frame (adapters/frame_channel.cpp), against the bytes and the value of a number.
use native.Mathlib.Nat.{div-div-eq-div-mul}
use universal_protocol_runti.Base.{
  ℕ, zero, suc, ◌+◌, ◌*◌, ◌/◌, ◌^◌, ◌≤◌, ◌<◌, ◌≡◌, refl, sym, ap, ◌∙◌, ◌∷◌, arith, length, and_byte,
}
use mathlib.Core.Path.{ap₂}
use universal_protocol_runti.Core.{little_endian}
use universal_protocol_runti.Scalar.{read_unsigned_scalar_unchecked}
use universal_protocol_runti.Scalar.Value.{
  value, bytes_of, little_bytes, length-little_bytes, AreBytes-bytes_of, value-bytes_of,
}
use universal_protocol_runti.Scalar.Read.{read_unchecked-value, two_pow_bytes, byte_pow_add_one}
use universal_protocol_runti.Channel.{encode_from, encode_little_endian, decode_little_endian}

pub shifted_byte : (n i : ℕ) → n / 2 ^ (i * 8) / 256 ≡ n / 2 ^ ((i + 1) * 8)
shifted_byte n i =
    rw (two_pow_bytes i, two_pow_bytes (i + 1), byte_pow_add_one i)
      (div-div-eq-div-mul n (256 ^ i) 256
        ∙ ap (λ k. n / k) {x = 256 ^ i * 256} {y = 256 * 256 ^ i} (omega arith))

encode_from-little_bytes :
    (n i width : ℕ) → encode_from n i width ≡ little_bytes width (n / 2 ^ (i * 8))
unfolding encode_from little_bytes
encode_from-little_bytes n i zero = refl
encode_from-little_bytes n i (suc width) =
    ap₂ ◌∷◌ (and_byte (n / 2 ^ (i * 8)))
      (encode_from-little_bytes n (i + 1) width ∙ ap (little_bytes width) (sym (shifted_byte n i)))

pub encode_little_endian-little_bytes :
    (n width : ℕ) → encode_little_endian n width ≡ little_bytes width n
unfolding encode_little_endian
encode_little_endian-little_bytes n width =
    encode_from-little_bytes n 0 width ∙ ap (little_bytes width) (omega arith)

pub length-encode_little_endian : (n width : ℕ) → length (encode_little_endian n width) ≡ width
length-encode_little_endian n width =
    ap length (encode_little_endian-little_bytes n width) ∙ length-little_bytes width n

pub decode-little_bytes :
    (n width : ℕ) → width ≤ 8 → n < 256 ^ width → decode_little_endian (little_bytes width n) ≡ n
unfolding decode_little_endian read_unsigned_scalar_unchecked bytes_of value
decode-little_bytes n width h k =
    read_unchecked-value little_endian (little_bytes width n)
      (AreBytes-bytes_of little_endian width n) (omega (arith, length-little_bytes width n))
    ∙ value-bytes_of little_endian width n k

-- The prefix of a size that it can carry is read back as the size.
pub decode-encode_little_endian :
    (n width : ℕ)
    → width ≤ 8
    → n < 256 ^ width
    → decode_little_endian (encode_little_endian n width) ≡ n
decode-encode_little_endian n width h k =
    ap decode_little_endian (encode_little_endian-little_bytes n width)
    ∙ decode-little_bytes n width h k
