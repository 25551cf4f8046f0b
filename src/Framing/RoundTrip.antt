-- ===== src/Framing/RoundTrip.antt =====
-- `LengthPrefixedFramer::try_frame` on the frames that a sender writes: the payload size in the
-- prefix, and the payload behind it.
use universal_protocol_runti.Base.{
  ℕ, ◌+◌, ◌^◌, ◌≤◌, ◌<◌, ◌≡◌, ◌⊎◌, refl, ◌∙◌, ap, sym, true, List, [], ◌++◌, some, arith,
  if◌then◌else◌, length, take, subspan, length-append, take-append_le, take-append_ge,
  drop-append_ge, take_all, Bool-cases, inl, inr,
}
use mathlib.Core.List.{append_assoc, append-nil}
use universal_protocol_runti.Scalar.Value.{
  bytes_of, length-bytes_of, AreBytes-bytes_of, value-bytes_of,
}
use universal_protocol_runti.Scalar.Read.{read_unchecked-value}
use universal_protocol_runti.Framing.{FrameSlice, FrameStatus}
use universal_protocol_runti.Framing.LengthPrefixed.{
  LengthPrefixedFramerOptions, read_prefix, supported_width, slice, frame_of_prefix, try_frame,
  IsSmall, length_prefixed-IsLawful,
}

-- The bytes of one frame on the wire.
abbrev pub wire : LengthPrefixedFramerOptions → List ℕ → List ℕ
wire options payload =
    bytes_of options.byte_order options.prefix_width_bytes (length payload) ++ payload

-- A payload whose size the prefix can carry and the framer accepts.
pub record IsSendable (options : LengthPrefixedFramerOptions) (payload : List ℕ) : Type 0 where
  pub supported : supported_width options.prefix_width_bytes ≡ true
  pub carried : length payload < 256 ^ options.prefix_width_bytes
  pub accepted : length payload ≤ options.max_payload_size

pub supported_le : (width : ℕ) → supported_width width ≡ true → (1 ≤ width) × (width ≤ 4)
unfolding supported_width
supported_le width h = ground arith

status_cases :
    (st : FrameStatus)
    → (st ≡ FrameStatus.need_more_data)
      ⊎ (st ≡ FrameStatus.invalid_frame)
      ⊎ ((s : FrameSlice) × (st ≡ FrameStatus.ready s))
status_cases FrameStatus.need_more_data = inl refl
status_cases FrameStatus.invalid_frame = inr (inl refl)
status_cases (FrameStatus.ready s) = inr (inr (s, refl))

module _ (options : LengthPrefixedFramerOptions) (small : IsSmall options) where
  length-wire :
      (payload : List ℕ)
      → length (wire options payload) ≡ options.prefix_width_bytes + length payload
  length-wire payload = omega (
    arith,
    length-append (bytes_of options.byte_order options.prefix_width_bytes (length payload)) payload,
    length-bytes_of options.byte_order options.prefix_width_bytes (length payload),
  )

  -- `read_prefix` reads the size back.
  read_prefix-bytes_of :
      (n : ℕ)
      → options.prefix_width_bytes ≤ 4
      → n < 256 ^ options.prefix_width_bytes
      → read_prefix (bytes_of options.byte_order options.prefix_width_bytes n) options.byte_order
        ≡ some n
  unfolding read_prefix
  read_prefix-bytes_of n w h = ground (
    arith,
    length-bytes_of options.byte_order options.prefix_width_bytes n,
    read_unchecked-value options.byte_order
        (bytes_of options.byte_order options.prefix_width_bytes n)
        (AreBytes-bytes_of options.byte_order options.prefix_width_bytes n),
    value-bytes_of options.byte_order options.prefix_width_bytes n h,
  )

  take-wire :
      (payload rest : List ℕ)
      → take options.prefix_width_bytes (wire options payload ++ rest)
        ≡ bytes_of options.byte_order options.prefix_width_bytes (length payload)
  take-wire payload rest =
      rw
        (append_assoc (bytes_of options.byte_order options.prefix_width_bytes (length payload))
          payload rest)
        (take-append_ge options.prefix_width_bytes 0
            (bytes_of options.byte_order options.prefix_width_bytes (length payload))
            (payload ++ rest)
            (omega (
              arith,
              length-bytes_of options.byte_order options.prefix_width_bytes (length payload),
            ))
          ∙ append-nil _)

  -- A sent frame is found, whatever follows it.
  pub try_frame-wire :
      (payload rest : List ℕ)
      → IsSendable options payload
      → try_frame options (wire options payload ++ rest)
        ≡ FrameStatus.ready
            (slice options (length payload) (options.prefix_width_bytes + length payload))
  unfolding try_frame frame_of_prefix
  try_frame-wire payload rest s = ground (
    arith,
    supported_le options.prefix_width_bytes s.supported,
    length-append (wire options payload) rest,
    length-wire payload,
    take-wire payload rest,
    read_prefix-bytes_of (length payload),
    s.carried,
  )

  -- The slice covers the payload, or the payload with its prefix, as the options say.
  subspan-slice :
      (payload rest : List ℕ)
      → let s = slice options (length payload) (options.prefix_width_bytes + length payload) in
        subspan (wire options payload ++ rest) s.offset s.size
        ≡ (if options.include_prefix_in_payload then wire options payload else payload)
  unfolding slice
  subspan-slice payload rest = elim (Bool-cases options.include_prefix_in_payload) [
    | inl e ↦ rw e (
        take-append_ge _ 0 (wire options payload) rest (omega (arith, length-wire payload))
        ∙ append-nil _)
    | inr e ↦
        rw
          (
            e,
            append_assoc (bytes_of options.byte_order options.prefix_width_bytes (length payload))
                payload rest,
            drop-append_ge options.prefix_width_bytes 0
                (bytes_of options.byte_order options.prefix_width_bytes (length payload))
                (payload ++ rest)
                (omega (
                  arith,
                  length-bytes_of options.byte_order options.prefix_width_bytes (length payload),
                )),
          )
          (take-append_le (length payload) payload rest (omega arith)
            ∙ take_all _ payload (omega arith))
  ]

  -- For every payload whose size the prefix can carry and the framer accepts: with the whole frame
  -- readable, and any bytes behind it, the framer reports exactly the frame's bytes as consumed,
  -- and the slice shows the payload, or the prefix and the payload where the options ask for both.
  -- The maximum of the framer keeps the total size inside a `size_t`.
  pub try_frame-round_trip :
      (payload rest : List ℕ)
      → IsSendable options payload
      → (s : FrameSlice) × (try_frame options (wire options payload ++ rest) ≡ FrameStatus.ready s)
        × (s.bytes_consumed ≡ length (wire options payload))
        × (subspan (wire options payload ++ rest) s.offset s.size
            ≡ (if options.include_prefix_in_payload then wire options payload else payload))
  try_frame-round_trip payload rest s = (
    slice options (length payload) (options.prefix_width_bytes + length payload),
    try_frame-wire payload rest s,
    unfold slice in omega (arith, length-wire payload),
    subspan-slice payload rest,
  )

  -- The same for a frame with nothing behind it, cut in two.
  try_frame-cut :
      (payload front back : List ℕ)
      → IsSendable options payload
      → wire options payload ≡ front ++ back
      → try_frame options (front ++ back)
        ≡ FrameStatus.ready
            (slice options (length payload) (options.prefix_width_bytes + length payload))
  try_frame-cut payload front back s e =
      ap (try_frame options) (sym e ∙ sym (append-nil (wire options payload)))
      ∙ try_frame-wire payload [] s

  -- With fewer bytes of a sent frame readable than it has, the framer asks for more. The size of
  -- its payload is one that the prefix can carry and the framer accepts, and the maximum of the
  -- framer keeps the total size inside a `size_t`.
  pub try_frame_incomplete :
      (payload front back : List ℕ)
      → IsSendable options payload
      → wire options payload ≡ front ++ back
      → 0 < length back
      → try_frame options front ≡ FrameStatus.need_more_data
  unfolding slice
  try_frame_incomplete payload front back s e h = elim (status_cases (try_frame options front)) [
    | inl q ↦ q
    | inr (inl q) ↦ absurd (
        cc (
          (length_prefixed-IsLawful options small).invalid-append front back q,
          try_frame-cut payload front back s e,
        ))
    | inr (inr (t, q)) ↦ absurd (
        ground (
          arith,
          (length_prefixed-IsLawful options small).ready-append front back t q,
          (length_prefixed-IsLawful options small).inside front t q,
          try_frame-cut payload front back s e,
          length-append front back,
          length-wire payload,
          ap length e,
        ))
  ]
