-- ===== src/Examples/Streams.antt =====
-- A length-prefixed frame that a span transport serves byte by byte.
use universal_protocol_runti.Stream.Ended.{Ended, poll-Ended}
use universal_protocol_runti.Base.{
  ℕ, ◌<◌, ◌≡◌, refl, false, List, [], ◌∷◌, ◌++◌, arith, if◌then◌else◌, length, subspan,
}
use universal_protocol_runti.Core.{little_endian, DecodeStatus}
use universal_protocol_runti.Ring.Invariant.{IsCapacity, empty_ring-IsValid}
use universal_protocol_runti.Ring
use universal_protocol_runti.Framing.{Framer, FrameSlice, FrameStatus}
use universal_protocol_runti.Framing.Laws.{IsLawful}
use universal_protocol_runti.Framing.FixedSize
use universal_protocol_runti.Framing.FixedSize.{fixed_size-IsLawful}
use universal_protocol_runti.Framing.LengthPrefixed
use universal_protocol_runti.Framing.LengthPrefixed.{
  LengthPrefixedFramerOptions, IsSmall, try_frame, read_prefix, supported_width, slice,
  frame_of_prefix, frame_of_size, length_prefixed-IsLawful,
}
use universal_protocol_runti.Framing.RoundTrip.{
  wire, IsSendable, try_frame-round_trip, try_frame_incomplete,
}
use universal_protocol_runti.Scalar.{read_little, read_unsigned_scalar_unchecked}
use universal_protocol_runti.Scalar.Value.{bytes_of, little_bytes}
use universal_protocol_runti.Transport.SpanTransport
use universal_protocol_runti.Transport.SpanTransport.{SpanState, remaining, transport-IsReliable}
use universal_protocol_runti.Stream
use universal_protocol_runti.Stream.{
  Runtime, StreamRuntimeOptions, DecodeFailurePolicy, PollResult, poll, fill_buffer,
  try_extract_frame,
}
use universal_protocol_runti.Stream.Extract.{Extracts, try_extract_frame-Extracts}
use universal_protocol_runti.Stream.Fill.{pending, IsSound, Fills, fill_buffer-Fills}
use universal_protocol_runti.Stream.Loop.{Returns, measure}
use universal_protocol_runti.Stream.Poll.{Kept, poll_total}
use universal_protocol_runti.Stream.Delivery.{Delivered, poll-Delivered}

abbrev sixteen : IsCapacity 16
sixteen = record { two = omega arith; small = omega arith }

abbrev framer_options : LengthPrefixedFramerOptions
framer_options = record {
  prefix_width_bytes = 1;
  byte_order = little_endian;
  include_prefix_in_payload = false;
  max_payload_size = 200;
}

framer_options-IsSmall : IsSmall framer_options
framer_options-IsSmall = omega arith

length_prefixed-IsLawful_example : IsLawful (LengthPrefixed.framer framer_options)
length_prefixed-IsLawful_example = length_prefixed-IsLawful framer_options framer_options-IsSmall

fixed_size-IsLawful_example : IsLawful (FixedSize.framer 4)
fixed_size-IsLawful_example = fixed_size-IsLawful 4

-- A frame of two bytes, and a byte behind it.
abbrev source : List ℕ
source = 2 ∷ 65 ∷ 66 ∷ 9 ∷ []

abbrev State : Type 0
State = SpanState

abbrev runtime : Runtime SpanState
runtime = Stream.init 16 SpanTransport.transport (SpanTransport.init source 1)

runtime-IsSound :
    IsSound 16 sixteen SpanTransport.transport remaining transport-IsReliable.stream runtime
unfolding Stream.init
runtime-IsSound = record {
  valid = record { ring = empty_ring-IsValid 16 sixteen; scratch = refl };
  ended = λ q. cc;
}

abbrev framer : Framer
framer = LengthPrefixed.framer framer_options

-- The decoder keeps the frame as the message.
abbrev keep : List ℕ → List ℕ → DecodeStatus × List ℕ
keep frame message = (DecodeStatus.ok, frame)

abbrev policies : StreamRuntimeOptions
policies = record {
  message_not_found_policy = DecodeFailurePolicy.stop;
  schema_mismatch_policy = DecodeFailurePolicy.stop;
  invalid_data_policy = DecodeFailurePolicy.drop_and_continue;
  checksum_mismatch_policy = DecodeFailurePolicy.quarantine;
  field_limit_policy = DecodeFailurePolicy.stop;
}

abbrev frame_slice : FrameSlice
frame_slice = record { offset = 1; size = 2; bytes_consumed = 3 }

found :
    framer.try_frame
      (pending 16 sixteen SpanTransport.transport remaining transport-IsReliable.stream runtime)
    ≡ FrameStatus.ready frame_slice
unfolding LengthPrefixed.try_frame frame_of_prefix frame_of_size slice read_prefix supported_width
    Stream.init SpanTransport.init Ring.empty_ring read_little read_unsigned_scalar_unchecked
found = refl

measured : measure 16 runtime < 17
unfolding Stream.init Ring.empty_ring Ring.free_space Ring.size
measured = omega arith

poll-Delivered_example :
    Returns 16 sixteen SpanTransport.transport remaining transport-IsReliable.stream framer keep
      policies
      (Delivered 16 sixteen SpanTransport.transport remaining transport-IsReliable framer
        (length_prefixed-IsLawful framer_options framer_options-IsSmall)
        keep
        policies
        frame_slice
        (pending 16 sixteen SpanTransport.transport remaining transport-IsReliable.stream runtime)
        [])
      (poll 16 SpanTransport.transport framer keep policies 17 runtime [])
unfolding Stream.init
poll-Delivered_example =
    poll-Delivered 16 sixteen SpanTransport.transport remaining transport-IsReliable framer
      (length_prefixed-IsLawful framer_options framer_options-IsSmall) keep policies 17 frame_slice
      runtime [] runtime-IsSound found (omega arith) measured

poll_total_example :
    Returns 16 sixteen SpanTransport.transport remaining transport-IsReliable.stream framer keep
      policies
      (Kept 16 sixteen SpanTransport.transport remaining transport-IsReliable.stream framer
        (length_prefixed-IsLawful framer_options framer_options-IsSmall)
        keep
        policies
        (pending 16 sixteen SpanTransport.transport remaining transport-IsReliable.stream runtime))
      (poll 16 SpanTransport.transport framer keep policies 17 runtime [])
poll_total_example =
    poll_total 16 sixteen SpanTransport.transport remaining transport-IsReliable.stream framer
      (length_prefixed-IsLawful framer_options framer_options-IsSmall) keep policies 17 runtime []
      runtime-IsSound measured

fill_buffer_example :
    Fills 16 sixteen SpanTransport.transport remaining transport-IsReliable.stream runtime
      (fill_buffer 16 SpanTransport.transport runtime).0
      (fill_buffer 16 SpanTransport.transport runtime).1
fill_buffer_example =
    fill_buffer-Fills 16 sixteen SpanTransport.transport remaining transport-IsReliable.stream
      runtime runtime-IsSound

-- A runtime whose ring holds the frame across the end of its storage.
abbrev split_runtime : Runtime SpanState
split_runtime = record runtime {
  buffer = record {
    head = 15;
    tail = 2;
    storage = 65 ∷ 66 ∷ 0 ∷ 0 ∷ 0 ∷ 0 ∷ 0 ∷ 0 ∷ 0 ∷ 0 ∷ 0 ∷ 0 ∷ 0 ∷ 0 ∷ 0 ∷ 2 ∷ [];
  };
  linearized_frame = 0 ∷ 0 ∷ 0 ∷ 0 ∷ 0 ∷ 0 ∷ 0 ∷ 0 ∷ 0 ∷ 0 ∷ 0 ∷ 0 ∷ 0 ∷ 0 ∷ 0 ∷ 0 ∷ [];
}

try_extract_frame_example :
    Extracts 16 sixteen SpanTransport.transport framer
      (length_prefixed-IsLawful framer_options framer_options-IsSmall)
      split_runtime
      (try_extract_frame 16 SpanTransport.transport framer split_runtime)
try_extract_frame_example =
    try_extract_frame-Extracts 16 sixteen SpanTransport.transport framer
      (length_prefixed-IsLawful framer_options framer_options-IsSmall) split_runtime
      (record {
        ring = record { head_in = omega arith; tail_in = omega arith; storage_size = refl };
        scratch = refl;
      })

payload-IsSendable : IsSendable framer_options (65 ∷ 66 ∷ [])
unfolding supported_width
payload-IsSendable = record { supported = refl; carried = omega arith; accepted = omega arith }

try_frame_example :
    (s : FrameSlice) × (LengthPrefixed.try_frame framer_options
        (wire framer_options (65 ∷ 66 ∷ []) ++ (9 ∷ []))
      ≡ FrameStatus.ready s)
    × (s.bytes_consumed ≡ length (wire framer_options (65 ∷ 66 ∷ [])))
    × (subspan (wire framer_options (65 ∷ 66 ∷ []) ++ (9 ∷ [])) s.offset s.size ≡ (
        if framer_options.include_prefix_in_payload
        then wire framer_options (65 ∷ 66 ∷ [])
        else 65 ∷ 66 ∷ []))
try_frame_example =
    try_frame-round_trip framer_options framer_options-IsSmall (65 ∷ 66 ∷ []) (9 ∷ [])
      payload-IsSendable

try_frame_incomplete_example :
    LengthPrefixed.try_frame framer_options (2 ∷ 65 ∷ []) ≡ FrameStatus.need_more_data
unfolding bytes_of little_bytes
try_frame_incomplete_example =
    try_frame_incomplete framer_options framer_options-IsSmall (65 ∷ 66 ∷ []) (2 ∷ 65 ∷ [])
      (66 ∷ []) payload-IsSendable refl (omega arith)

-- A stream that ends inside a frame.
abbrev cut_runtime : Runtime SpanState
cut_runtime = Stream.init 16 SpanTransport.transport (SpanTransport.init (2 ∷ 65 ∷ []) 1)

cut_runtime-IsSound :
    IsSound 16 sixteen SpanTransport.transport remaining transport-IsReliable.stream cut_runtime
unfolding Stream.init
cut_runtime-IsSound = record {
  valid = record { ring = empty_ring-IsValid 16 sixteen; scratch = refl };
  ended = λ q. cc;
}

poll-Ended_example :
    Returns 16 sixteen SpanTransport.transport remaining transport-IsReliable.stream framer keep
      policies
      (Ended 16 sixteen SpanTransport.transport remaining transport-IsReliable framer
        (length_prefixed-IsLawful framer_options framer_options-IsSmall)
        keep
        policies
        (pending 16 sixteen SpanTransport.transport remaining transport-IsReliable.stream
          cut_runtime)
        [])
      (poll 16 SpanTransport.transport framer keep policies 17 cut_runtime [])
unfolding LengthPrefixed.try_frame frame_of_prefix frame_of_size slice read_prefix supported_width
    Stream.init SpanTransport.init Ring.empty_ring read_little read_unsigned_scalar_unchecked
    Ring.free_space Ring.size
poll-Ended_example =
    poll-Ended 16 sixteen SpanTransport.transport remaining transport-IsReliable framer
      (length_prefixed-IsLawful framer_options framer_options-IsSmall) keep policies 17 cut_runtime
      [] cut_runtime-IsSound refl (omega arith) (omega arith)
