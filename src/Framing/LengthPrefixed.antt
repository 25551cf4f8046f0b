-- ===== src/Framing/LengthPrefixed.antt =====
-- packages/upr_runtime/src/framing/length_prefixed_framer.cpp and the options of its header. The
-- loops of `read_prefix` are those of `read_unsigned_scalar_unchecked`, over the bytes of the prefix.
use universal_protocol_runti.Base.{
  ℕ, ◌+◌, ◌%◌, ◌^◌, ◌≤◌, ◌<◌, ◌≡◌, Bool, ◌||◌, not, List, ◌++◌, Option, some, none, arith, ltb,
  ◌==◌, if◌then◌else◌, length, take, length-append, take-append_le,
}
use universal_protocol_runti.Core.{ByteOrder}
use universal_protocol_runti.Scalar.{read_unsigned_scalar_unchecked}
use universal_protocol_runti.Framing.{Framer, FrameSlice, FrameStatus}
use universal_protocol_runti.Framing.Laws.{IsLawful}

pub record LengthPrefixedFramerOptions : Type 0 where
  pub prefix_width_bytes : ℕ
  pub byte_order : ByteOrder
  pub include_prefix_in_payload : Bool
  pub max_payload_size : ℕ

unfoldable pub read_prefix : List ℕ → ByteOrder → Option ℕ
read_prefix bytes byte_order =
    if ltb 8 (length bytes) then none else some (read_unsigned_scalar_unchecked byte_order bytes)

-- The prefix widths that the framer supports.
unfoldable pub supported_width : ℕ → Bool
supported_width width = width == 1 || (width == 2 || width == 4)

module _ (options : LengthPrefixedFramerOptions) where
  -- The slice of a frame with this payload size and total size.
  unfoldable pub slice : ℕ → ℕ → FrameSlice
  slice payload_size total_size = record {
    offset = if options.include_prefix_in_payload then 0 else options.prefix_width_bytes;
    size = if options.include_prefix_in_payload then total_size else payload_size;
    bytes_consumed = total_size;
  }

  -- What follows once the payload size is known.
  unfoldable pub frame_of_size : List ℕ → ℕ → FrameStatus
  frame_of_size readable_bytes payload_size =
      if ltb options.max_payload_size payload_size
      then FrameStatus.invalid_frame
      else if ltb (length readable_bytes) ((options.prefix_width_bytes + payload_size) % 2 ^ 64)
      then FrameStatus.need_more_data
      else FrameStatus.ready
          (slice payload_size ((options.prefix_width_bytes + payload_size) % 2 ^ 64))

  unfoldable pub frame_of_prefix : List ℕ → Option ℕ → FrameStatus
  unfolding frame_of_size
  frame_of_prefix readable_bytes none = FrameStatus.invalid_frame
  frame_of_prefix readable_bytes (some payload_size) = frame_of_size readable_bytes payload_size

  -- `LengthPrefixedFramer::try_frame`
  unfoldable pub try_frame : List ℕ → FrameStatus
  unfolding supported_width
  try_frame readable_bytes =
      if not (supported_width options.prefix_width_bytes)
      then FrameStatus.invalid_frame
      else if ltb (length readable_bytes) options.prefix_width_bytes
      then FrameStatus.need_more_data
      else frame_of_prefix readable_bytes
          (read_prefix (take options.prefix_width_bytes readable_bytes) options.byte_order)

  abbrev pub framer : Framer
  framer = record { try_frame = try_frame }

  -- A maximum that keeps the total size inside a `size_t`.
  abbrev pub IsSmall : Type 0
  IsSmall = options.max_payload_size < 2 ^ 63

  -- More bytes behind the prefix do not change the prefix.
  take_prefix :
      (bytes more : List ℕ)
      → options.prefix_width_bytes ≤ length bytes
      → take options.prefix_width_bytes (bytes ++ more) ≡ take options.prefix_width_bytes bytes
  take_prefix bytes more h = take-append_le options.prefix_width_bytes bytes more h

  -- The framer is lawful, if its maximum keeps the total size inside a `size_t`.
  pub length_prefixed-IsLawful : IsSmall → IsLawful framer
  unfolding try_frame frame_of_prefix slice
  length_prefixed-IsLawful small = record {
    ready-append =
        λ bytes more s h. ground (arith, length-append bytes more, take_prefix bytes more);
    invalid-append =
        λ bytes more h. ground (arith, length-append bytes more, take_prefix bytes more);
    ready_front =
        λ bytes more s h k. ground (arith, length-append bytes more, take_prefix bytes more);
    inside = λ bytes s h. ground arith;
    progress = λ bytes s h. ground arith;
  }
