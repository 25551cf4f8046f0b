-- ===== src/Scalar.antt =====
-- The scalar parts of packages/upr_runtime/include/universal_protocol_runtime:
-- decoder/direct_decode_support.hpp (`read_unsigned_scalar`) and encoder/direct_encode_support.hpp
-- (`write_unsigned_scalar`). A span of `w` bytes is a list of that length; a `uint64_t` is a number
-- below 2 ^ 64, and each shift to the left wraps there. `memcpy` of an integer stores its bytes as a
-- little-endian host has them, which is the host that the source's byte swaps assume.
pub mod Value
pub mod Read
mod Swap
pub mod Write
use universal_protocol_runti.Base.{
  ℕ, zero, suc, ◌+◌, ◌*◌, ◌/◌, ◌%◌, ◌^◌, Bool, true, false, ◌||◌, List, [], ◌∷◌, Option, none, some,
  ◌==◌, leb, ltb, if◌then◌else◌, length, bit_and, bit_or,
}
use universal_protocol_runti.Core.{ByteOrder, little_endian, big_endian}

-- for (index ...) value |= byte_to_u64(bytes[index]) << (index * kBitsPerByte);
unfoldable pub read_little : ℕ → ℕ → List ℕ → ℕ
read_little value index [] = value
read_little value index (byte ∷ bytes) =
    read_little (bit_or value (byte * 2 ^ (index * 8) % 2 ^ 64)) (index + 1) bytes

-- for (index ...) value = (value << kBitsPerByte) | byte_to_u64(bytes[index]);
unfoldable pub read_big : ℕ → List ℕ → ℕ
read_big value [] = value
read_big value (byte ∷ bytes) = read_big (bit_or (value * 256 % 2 ^ 64) byte) bytes

unfoldable pub read_unsigned_scalar_unchecked : ByteOrder → List ℕ → ℕ
unfolding read_little read_big
read_unsigned_scalar_unchecked little_endian bytes = read_little 0 0 bytes
read_unsigned_scalar_unchecked big_endian bytes = read_big 0 bytes

-- The widths 1 to 8 are the cases of the `switch`.
unfoldable pub read_unsigned_scalar : ByteOrder → List ℕ → Option ℕ
read_unsigned_scalar order bytes =
    if length bytes == 0 || ltb 8 (length bytes)
    then none
    else some (read_unsigned_scalar_unchecked order bytes)

-- The bytes that `memcpy` stores for an integer of `width` bytes.
unfoldable pub host_bytes : ℕ → ℕ → List ℕ
host_bytes zero value = []
host_bytes (suc width) value = (value % 256) ∷ host_bytes width (value / 256)

-- { bytes[i] = value & 0xFF; value >>= 8; }, upwards
unfoldable pub write_little : ℕ → ℕ → List ℕ
write_little zero value = []
write_little (suc width) value = bit_and value 255 ∷ write_little width (value / 256)

-- { bytes[i - 1] = value & 0xFF; value >>= 8; }, downwards; the list is what is written already.
unfoldable pub write_big : ℕ → ℕ → List ℕ → List ℕ
write_big zero value written = written
write_big (suc width) value written = write_big width (value / 256) (bit_and value 255 ∷ written)

unfoldable pub byteswap16 : ℕ → ℕ
byteswap16 value = bit_or (value * 2 ^ 8) (value / 2 ^ 8) % 2 ^ 16

unfoldable pub byteswap32 : ℕ → ℕ
byteswap32 value =
    bit_or
      (bit_or
        (bit_or (bit_and value 0x000000FF * 2 ^ 24 % 2 ^ 32)
          (bit_and value 0x0000FF00 * 2 ^ 8 % 2 ^ 32))
        (bit_and value 0x00FF0000 / 2 ^ 8))
      (bit_and value 0xFF000000 / 2 ^ 24)

unfoldable pub byteswap64 : ℕ → ℕ
byteswap64 value =
    bit_or
      (bit_or
        (bit_or
          (bit_or
            (bit_or
              (bit_or
                (bit_or (bit_and value 0x00000000000000FF * 2 ^ 56 % 2 ^ 64)
                  (bit_and value 0x000000000000FF00 * 2 ^ 40 % 2 ^ 64))
                (bit_and value 0x0000000000FF0000 * 2 ^ 24 % 2 ^ 64))
              (bit_and value 0x00000000FF000000 * 2 ^ 8 % 2 ^ 64))
            (bit_and value 0x000000FF00000000 / 2 ^ 8))
          (bit_and value 0x0000FF0000000000 / 2 ^ 24))
        (bit_and value 0x00FF000000000000 / 2 ^ 40))
      (bit_and value 0xFF00000000000000 / 2 ^ 56)

-- The bytes written to a span of this width.
unfoldable pub write_unsigned_scalar_unchecked : ByteOrder → ℕ → ℕ → List ℕ
write_unsigned_scalar_unchecked little_endian width value =
    if width == 1
    then (value % 256) ∷ []
    else if width == 2
    then host_bytes 2 (value % 2 ^ 16)
    else if width == 4
    then host_bytes 4 (value % 2 ^ 32)
    else if width == 8
    then host_bytes 8 value
    else write_little width value
write_unsigned_scalar_unchecked big_endian width value =
    if width == 1
    then (value % 256) ∷ []
    else if width == 2
    then host_bytes 2 (byteswap16 (value % 2 ^ 16))
    else if width == 4
    then host_bytes 4 (byteswap32 (value % 2 ^ 32))
    else if width == 8
    then host_bytes 8 (byteswap64 value)
    else write_big width value []

-- Whether the span was written, and the span afterwards.
unfoldable pub write_unsigned_scalar : ByteOrder → List ℕ → ℕ → Bool × List ℕ
write_unsigned_scalar order bytes value =
    if length bytes == 0 || ltb 8 (length bytes)
    then (false, bytes)
    else (true, write_unsigned_scalar_unchecked order (length bytes) value)
