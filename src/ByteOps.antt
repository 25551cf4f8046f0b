-- ===== src/ByteOps.antt =====
-- packages/upr_runtime/include/universal_protocol_runtime/decoder/direct_decode_support.hpp: the
-- checksums, the validation of text and the sign extension; packages/upr_compiler's
-- checksum_registry.cpp has the same checksums. The routines of
-- detail/runtime_byte_ops.hpp, which use vector instructions, are an interface; the header's build for
-- scalar code alone is an implementation of it.
use universal_protocol_runti.Base.{
  ℕ, zero, suc, ◌+◌, ◌-◌, ◌*◌, ◌/◌, ◌%◌, ◌^◌, Bool, true, false, not, ◌&&◌, ◌||◌, List, [], ◌∷◌,
  Option, none, some, ltb, leb, ◌==◌, if◌then◌else◌, length, drop, bit_and, bit_or, bit_xor,
}

unfoldable pub is_valid_ascii_scalar : List ℕ → Bool
is_valid_ascii_scalar [] = true
is_valid_ascii_scalar (byte ∷ bytes) =
    let rest = is_valid_ascii_scalar bytes in if bit_and byte 0x80 == 0 then rest else false

unfoldable pub checksum_xor8_scalar : ℕ → List ℕ → ℕ
checksum_xor8_scalar value [] = value
checksum_xor8_scalar value (byte ∷ bytes) = checksum_xor8_scalar (bit_xor value byte) bytes

unfoldable pub checksum_sum16_scalar : ℕ → List ℕ → ℕ
checksum_sum16_scalar sum [] = bit_and sum 0xFFFF
checksum_sum16_scalar sum (byte ∷ bytes) = checksum_sum16_scalar ((sum + byte) % 2 ^ 32) bytes

-- The first `bits` rounds of an entry of the table.
unfoldable pub crc_bits : ℕ → ℕ → ℕ → ℕ
crc_bits polynomial zero value = value
crc_bits polynomial (suc bits) value =
    crc_bits polynomial bits
      (if bit_and value 1 == 0 then value / 2 else bit_xor (value / 2) polynomial)

-- make_crc_table(polynomial)[index]
unfoldable pub make_crc_table : ℕ → ℕ → ℕ
unfolding crc_bits
make_crc_table polynomial index = crc_bits polynomial 8 index

-- crc = (crc >> kBitsPerByte) ^ table[static_cast<uint8_t>(crc ^ byte)];
unfoldable pub crc_over : (ℕ → ℕ) → ℕ → List ℕ → ℕ
crc_over table crc [] = crc
crc_over table crc (byte ∷ bytes) =
    crc_over table (bit_xor (crc / 256) (table (bit_xor crc byte % 256))) bytes

abbrev pub crc16_ccitt_polynomial : ℕ
crc16_ccitt_polynomial = 0x8408

abbrev pub crc32_polynomial : ℕ
crc32_polynomial = 0xEDB88320

abbrev pub crc32c_polynomial : ℕ
crc32c_polynomial = 0x82F63B78

-- ~crc, in the width of the checksum
unfoldable pub checksum_crc16_ccitt : List ℕ → ℕ
checksum_crc16_ccitt bytes =
    2 ^ 16 - 1 - crc_over (make_crc_table crc16_ccitt_polynomial) 0xFFFF bytes

unfoldable pub checksum_crc32 : List ℕ → ℕ
checksum_crc32 bytes = 2 ^ 32 - 1 - crc_over (make_crc_table crc32_polynomial) 0xFFFFFFFF bytes

unfoldable pub checksum_crc32c : List ℕ → ℕ
checksum_crc32c bytes = 2 ^ 32 - 1 - crc_over (make_crc_table crc32c_polynomial) 0xFFFFFFFF bytes

-- The number of continuation bytes that the lead byte asks for, and its payload.
unfoldable pub utf8_lead : ℕ → Option (ℕ × ℕ)
utf8_lead lead =
    if bit_and lead 0x80 == 0
    then some (0, lead)
    else if bit_and lead 0xE0 == 0xC0
    then (if bit_and lead 0x1F == 0 then none else some (1, bit_and lead 0x1F))
    else if bit_and lead 0xF0 == 0xE0
    then some (2, bit_and lead 0x0F)
    else if bit_and lead 0xF8 == 0xF0
    then some (3, bit_and lead 0x07)
    else none

-- for (continuation ...) code_point = (code_point << 6U) | (next & kUtf8ContinuationPayloadMask);
unfoldable pub utf8_continue : ℕ → ℕ → List ℕ → Option ℕ
utf8_continue zero code_point bytes = some code_point
utf8_continue (suc n) code_point [] = none
utf8_continue (suc n) code_point (next ∷ bytes) =
    let rest = utf8_continue n (bit_or (code_point * 64 % 2 ^ 32) (bit_and next 0x3F)) bytes in
    if bit_and next 0xC0 == 0x80 then rest else none

unfoldable pub utf8_accepts : ℕ → ℕ → Bool
utf8_accepts continuation_count code_point = not (
    continuation_count == 1 && ltb code_point 0x80
    || continuation_count == 2 && ltb code_point 0x800
    || continuation_count == 3 && ltb code_point 0x10000
    || ltb 0x10FFFF code_point
    || leb 0xD800 code_point && leb code_point 0xDFFF)

-- The loop on the bytes from the index on; each round goes past one byte or more.
unfoldable pub utf8_from : ℕ → List ℕ → Bool
utf8_from fuel [] = true
utf8_from zero (lead ∷ bytes) = false
utf8_from (suc fuel) (lead ∷ bytes) = elim (utf8_lead lead) [
  | none ↦ false
  | some (n, payload) ↦ elim (utf8_continue n payload bytes) [
    | none ↦ false
    | some code_point ↦
        let rest = utf8_from fuel (drop n bytes) in
        if utf8_accepts n code_point then rest else false
  ]
]

unfoldable pub is_valid_utf8 : List ℕ → Bool
is_valid_utf8 bytes = utf8_from (length bytes) bytes

-- `int64_t` values stand for themselves in two's complement, below 2 ^ 64.
unfoldable pub sign_extend : ℕ → ℕ → Option ℕ
sign_extend value width_bits =
    let full_mask = 2 ^ width_bits - 1 in
    let kept = bit_and value full_mask in
    if width_bits == 0 || ltb 64 width_bits
    then none
    else if width_bits == 64
    then some value
    else if bit_and kept (2 ^ (width_bits - 1)) == 0
    then some kept
    else some (bit_or kept (2 ^ 64 - 1 - full_mask))

-- detail/runtime_byte_ops.hpp
pub record ByteOps : Type 0 where
  pub runtime_is_valid_ascii : List ℕ → Bool
  pub runtime_is_valid_utf8 : List ℕ → Bool
  pub runtime_checksum_xor8 : List ℕ → ℕ
  pub runtime_checksum_sum16 : List ℕ → ℕ
  pub runtime_checksum_crc32c : List ℕ → ℕ

-- With `UPR_RUNTIME_SCALAR_ONLY`.
abbrev pub scalar_only : ByteOps
scalar_only = record {
  runtime_is_valid_ascii = is_valid_ascii_scalar;
  runtime_is_valid_utf8 = is_valid_utf8;
  runtime_checksum_xor8 = λ bytes. checksum_xor8_scalar 0 bytes;
  runtime_checksum_sum16 = λ bytes. checksum_sum16_scalar 0 bytes;
  runtime_checksum_crc32c = checksum_crc32c;
}
