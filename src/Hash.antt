-- ===== src/Hash.antt =====
-- packages/utils/include/utils/xxhash64.hpp: the incremental XXH64 that fingerprints schemas. A
-- `uint64_t` is a number below 2 ^ 64, and each operation wraps there. The loop over stripes takes
-- as many rounds at most as there are bytes.
pub mod Absorb
pub mod Incremental
use universal_protocol_runti.Base.{
  ℕ, zero, suc, ◌+◌, ◌-◌, ◌*◌, ◌/◌, ◌%◌, ◌^◌, List, [], ◌∷◌, leb, ltb, ◌==◌, if◌then◌else◌, length,
  take, drop, replicate, copy_at, bit_or, bit_xor, bit_and, Bool,
}
use universal_protocol_runti.Scalar.{read_little}

abbrev prime1 : ℕ
prime1 = 11400714785074694791

abbrev prime2 : ℕ
prime2 = 14029467366897019727

abbrev prime3 : ℕ
prime3 = 1609587929392839161

abbrev prime4 : ℕ
prime4 = 9650029242287828579

abbrev prime5 : ℕ
prime5 = 2870177450012600261

abbrev stripe_bytes : ℕ
stripe_bytes = 32

-- The accumulators `v1_` to `v4_`.
pub record Lanes : Type 0 where
  pub v1 : ℕ
  pub v2 : ℕ
  pub v3 : ℕ
  pub v4 : ℕ

-- `XxHash64State`
pub record XxHash64State : Type 0 where
  pub seed : ℕ
  pub total_length : ℕ
  pub lanes : Lanes
  pub buffer : List ℕ
  pub buffer_size : ℕ

-- `std::rotl` on 64 bits, for 0 < r < 64
unfoldable pub rotl : ℕ → ℕ → ℕ
rotl x r = bit_or (x * 2 ^ r % 2 ^ 64) (x / 2 ^ (64 - r))

unfoldable pub initial_lanes : ℕ → Lanes
initial_lanes seed = record {
  v1 = (seed + prime1 + prime2) % 2 ^ 64;
  v2 = (seed + prime2) % 2 ^ 64;
  v3 = seed;
  v4 = (seed + 2 ^ 64 - prime1) % 2 ^ 64;
}

unfoldable pub init : ℕ → XxHash64State
init seed = record {
  seed = seed;
  total_length = 0;
  lanes = initial_lanes seed;
  buffer = replicate 32 0;
  buffer_size = 0;
}

unfoldable pub round : ℕ → ℕ → ℕ
round accumulator lane = rotl ((accumulator + lane * prime2) % 2 ^ 64) 31 * prime1 % 2 ^ 64

unfoldable pub merge_round : ℕ → ℕ → ℕ
merge_round accumulator value = (bit_xor accumulator (round 0 value) * prime1 + prime4) % 2 ^ 64

unfoldable pub avalanche : ℕ → ℕ
avalanche hash =
    let a = bit_xor hash (hash / 2 ^ 33) * prime2 % 2 ^ 64 in
    let b = bit_xor a (a / 2 ^ 29) * prime3 % 2 ^ 64 in bit_xor b (b / 2 ^ 32)

unfoldable pub read_u32_le : List ℕ → ℕ
read_u32_le input = read_little 0 0 (take 4 input)

unfoldable pub read_u64_le : List ℕ → ℕ
read_u64_le input = read_little 0 0 (take 8 input)

unfoldable pub consume_stripe : Lanes → List ℕ → Lanes
consume_stripe lanes stripe = record {
  v1 = round lanes.v1 (read_u64_le stripe);
  v2 = round lanes.v2 (read_u64_le (drop 8 stripe));
  v3 = round lanes.v3 (read_u64_le (drop 16 stripe));
  v4 = round lanes.v4 (read_u64_le (drop 24 stripe));
}

-- while (remaining >= kStripeBytes): the accumulators and the bytes that remain
unfoldable pub consume_stripes : ℕ → Lanes → List ℕ → Lanes × List ℕ
consume_stripes zero lanes input = (lanes, input)
consume_stripes (suc rounds) lanes input =
    let rest = consume_stripes rounds (consume_stripe lanes (take 32 input)) (drop 32 input) in
    if leb 32 (length input) then rest else (lanes, input)

-- The end of `update`, with what is left of the bytes once the buffer has been emptied.
unfoldable pub absorb : XxHash64State → Lanes → List ℕ → XxHash64State
absorb s lanes input =
    let (lanes', rest) = consume_stripes (length input) lanes input in
    record s {
      lanes = lanes';
      buffer = if length rest == 0 then s.buffer else copy_at s.buffer 0 rest;
      buffer_size = if length rest == 0 then 0 else length rest;
    }

unfoldable pub update : XxHash64State → List ℕ → XxHash64State
update s bytes =
    let counted = record s { total_length = (s.total_length + length bytes) % 2 ^ 64 } in
    let fill_size = 32 - s.buffer_size in
    let filled = copy_at s.buffer s.buffer_size (take fill_size bytes) in
    if length bytes == 0
    then s
    else if ltb (s.buffer_size + length bytes) 32
    then record counted {
      buffer = copy_at s.buffer s.buffer_size bytes;
      buffer_size = s.buffer_size + length bytes;
    }
    else if s.buffer_size == 0
    then absorb counted s.lanes bytes
    else absorb (record counted { buffer = filled }) (consume_stripe s.lanes (take 32 filled))
        (drop fill_size bytes)

-- while (remaining >= kUInt64Bytes)
unfoldable pub digest_words : ℕ → ℕ → List ℕ → ℕ × List ℕ
digest_words zero hash input = (hash, input)
digest_words (suc rounds) hash input =
    let mixed = rotl (bit_xor hash (round 0 (read_u64_le input))) 27 in
    let rest = digest_words rounds ((mixed * prime1 + prime4) % 2 ^ 64) (drop 8 input) in
    if leb 8 (length input) then rest else (hash, input)

-- if (remaining >= kUInt32Bytes)
unfoldable pub digest_half : ℕ → List ℕ → ℕ × List ℕ
digest_half hash input =
    let mixed = rotl (bit_xor hash (read_u32_le input * prime1 % 2 ^ 64)) 23 in
    if leb 4 (length input)
    then ((mixed * prime2 + prime3) % 2 ^ 64, drop 4 input)
    else (hash, input)

-- while (remaining != 0)
unfoldable pub digest_bytes : ℕ → List ℕ → ℕ
digest_bytes hash [] = hash
digest_bytes hash (byte ∷ input) =
    digest_bytes (rotl (bit_xor hash (byte * prime5 % 2 ^ 64)) 11 * prime1 % 2 ^ 64) input

unfoldable pub merge_lanes : Lanes → ℕ
merge_lanes l =
    let sum = (rotl l.v1 1 + rotl l.v2 7 + rotl l.v3 12 + rotl l.v4 18) % 2 ^ 64 in
    merge_round (merge_round (merge_round (merge_round sum l.v1) l.v2) l.v3) l.v4

-- `digest`, with the bytes that remain in the buffer.
unfoldable pub digest_of : ℕ → ℕ → Lanes → List ℕ → ℕ
digest_of seed total_length lanes input =
    let start = if leb 32 total_length then merge_lanes lanes else (seed + prime5) % 2 ^ 64 in
    let (hash, words_left) = digest_words (length input) ((start + total_length) % 2 ^ 64) input in
    let (hash', half_left) = digest_half hash words_left in avalanche (digest_bytes hash' half_left)

unfoldable pub digest : XxHash64State → ℕ
digest s = digest_of s.seed s.total_length s.lanes (take s.buffer_size s.buffer)

unfoldable pub xxhash64 : List ℕ → ℕ → ℕ
xxhash64 bytes seed = digest (update (init seed) bytes)

-- bytes[index] = (normalized >> (index * kBitsPerByte)) & 0xFFU, from this index on
unfoldable pub integral_bytes : ℕ → ℕ → ℕ → List ℕ
integral_bytes normalized index zero = []
integral_bytes normalized index (suc width) =
    bit_and (normalized / 2 ^ (index * 8)) 255 ∷ integral_bytes normalized (index + 1) width

-- `update_integral`, for a value that is converted to `uint64_t`
unfoldable pub update_integral : XxHash64State → ℕ → XxHash64State
update_integral s normalized = update s (integral_bytes normalized 0 8)

unfoldable pub update_bool : XxHash64State → Bool → XxHash64State
update_bool s b = update s ((if b then 1 else 0) ∷ [])

unfoldable pub xxhash64_integral : ℕ → ℕ → ℕ
xxhash64_integral normalized seed = digest (update_integral (init seed) normalized)

unfoldable pub xxhash64_bool : Bool → ℕ → ℕ
xxhash64_bool b seed = digest (update_bool (init seed) b)
