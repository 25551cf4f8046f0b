-- ===== src/Channel.antt =====
-- packages/upr_adapters: adapters/byte_stream_transport.hpp and adapters/frame_channel.{hpp,cpp},
-- frames with a length prefix over a transport of bytes. The two scratch arrays of the channel are
-- written anew before each use, so they are no part of the state. The rounds of a loop that waits
-- for the transport are counted; `none` means that they did not suffice.
pub mod Prefix
pub mod Receive
pub mod Send
use Prim.Native.String.{String}
use universal_protocol_runti.Base.{
  ℕ, zero, suc, ◌+◌, ◌-◌, ◌/◌, ◌^◌, min, Bool, true, false, not, ◌&&◌, ◌||◌, List, [], ◌∷◌, ◌++◌,
  Option, none, some, ltb, leb, ◌==◌, if◌then◌else◌, length, take, drop, subspan, bit_and, ◌*◌,
}
use universal_protocol_runti.Status.{
  Status, StatusCode, StatusOr, value, failure, is_ok, ok_status, not_found, io_error, exhausted,
  invalid_argument,
}
use universal_protocol_runti.Ring.{add_size}
use universal_protocol_runti.Scalar.{read_little}
use universal_protocol_runti.Transport.{Transport, ReadResult}

pub record WriteResult : Type 0 where
  pub bytes_written : ℕ
  pub would_block : Bool
  pub status : Status

pub record TransportBufferLease : Type 0 where
  pub bytes : List ℕ
  pub token : ℕ
  pub valid : Bool

-- `IByteStreamTransport`, as far as a channel uses it.
pub record ByteStreamTransport : Type 1 where
  pub base : Transport
  pub write : base.State → List ℕ → WriteResult × base.State
  pub writev : base.State → List (List ℕ) → WriteResult × base.State
  pub wait_until_writable : base.State → ℕ → StatusOr Bool × base.State
  -- has_capability(capabilities(), TransportCapability::kPreservesFrameBoundaries)
  pub preserves_frame_boundaries : base.State → Bool
  pub try_acquire_receive_buffer : base.State → StatusOr TransportBufferLease × base.State
  pub release_receive_buffer : base.State → TransportBufferLease → Status × base.State

pub record FrameChannelOptions : Type 0 where
  pub prefix_width_bytes : ℕ
  pub max_frame_size : ℕ

pub data FrameChannelPollStatus : Type 0 where
  frame_ready need_more_data would_block end_of_stream frame_too_large transport_error :
      FrameChannelPollStatus

pub record FrameChannelPollResult : Type 0 where
  pub status : FrameChannelPollStatus
  pub bytes_transferred : ℕ
  pub transport_status : Status

abbrev pub polled : FrameChannelPollStatus → FrameChannelPollResult
polled status = record { status = status; bytes_transferred = 0; transport_status = ok_status }

-- `FrameChannel`
pub record FrameChannel (State : Type 0) : Type 0 where
  pub transport : State
  pub stream_buffer : List ℕ
  pub stream_buffer_offset : ℕ

abbrev pub is_not_found : StatusCode → Bool
is_not_found StatusCode.not_found = true
is_not_found _ = false

abbrev pub is_exhausted : StatusCode → Bool
is_exhausted StatusCode.exhausted = true
is_exhausted _ = false

-- (*output)[index] = (value >> (index * 8U)) & 0xFFU, from this index on, for so many bytes
unfoldable pub encode_from : ℕ → ℕ → ℕ → List ℕ
encode_from n index zero = []
encode_from n index (suc width) =
    bit_and (n / 2 ^ (index * 8)) 255 ∷ encode_from n (index + 1) width

unfoldable pub encode_little_endian : ℕ → ℕ → List ℕ
unfolding encode_from
encode_little_endian n width = encode_from n 0 width

-- for (index ...) value |= bytes[index] << (index * 8U);
unfoldable pub decode_little_endian : List ℕ → ℕ
decode_little_endian bytes = read_little 0 0 bytes

unfoldable pub compact_stream_buffer : {State : Type 0} → FrameChannel State → FrameChannel State
compact_stream_buffer ch =
    if ch.stream_buffer_offset == 0
    then ch
    else if leb (length ch.stream_buffer) ch.stream_buffer_offset
    then record ch { stream_buffer = []; stream_buffer_offset = 0 }
    else record ch {
      stream_buffer = drop ch.stream_buffer_offset ch.stream_buffer;
      stream_buffer_offset = 0;
    }

-- The number of bytes that are received and in no frame yet. The offset does not pass the end of
-- the buffer, so the difference does not wrap.
abbrev pub unread_bytes : {State : Type 0} → FrameChannel State → ℕ
unread_bytes ch = length ch.stream_buffer - ch.stream_buffer_offset
