-- ===== src/Channel/Receive.antt =====
-- adapters/frame_channel.cpp: the operations that receive.
pub mod Unread
pub mod Delivery
use universal_protocol_runti.Base.{
  ℕ, zero, suc, ◌+◌, ◌-◌, ◌/◌, min, Bool, true, false, not, ◌&&◌, ◌||◌, List, [], ◌∷◌, ◌++◌, Option,
  none, some, ltb, leb, ◌==◌, if◌then◌else◌, length, take, drop, subspan,
}
use universal_protocol_runti.Status.{
  Status, StatusOr, value, failure, is_ok, ok_status, not_found, exhausted, invalid_argument,
}
use universal_protocol_runti.Ring.{add_size}
use universal_protocol_runti.Transport.{ReadResult}
use universal_protocol_runti.Channel.{
  ByteStreamTransport, TransportBufferLease, FrameChannel, FrameChannelOptions,
  FrameChannelPollStatus, FrameChannelPollResult, polled, is_not_found, is_exhausted,
  decode_little_endian, compact_stream_buffer, unread_bytes,
}

-- How one round of the loop of `try_acquire_frame` ends: with its result, or with another round.
pub data Round (State : Type 0) : Type 0 where
  acquired : StatusOr TransportBufferLease → FrameChannel State → Round State
  again : FrameChannel State → Round State

unfoldable pub try_parse_frame_length :
    {State : Type 0} → FrameChannelOptions → FrameChannel State → StatusOr ℕ
try_parse_frame_length options ch =
    let frame_length =
      decode_little_endian
        (subspan ch.stream_buffer ch.stream_buffer_offset options.prefix_width_bytes) in
    if ltb (unread_bytes ch) options.prefix_width_bytes
    then failure (not_found "Frame prefix is incomplete.")
    else if ltb options.max_frame_size frame_length
    then failure (exhausted "Frame exceeds configured max frame size.")
    else value frame_length

module _ (t : ByteStreamTransport) (options : FrameChannelOptions) where
  abbrev State : Type 0
  State = t.base.State

  abbrev pub target_read_size : ℕ
  target_read_size =
      if ltb 4096 options.max_frame_size then min options.max_frame_size 65536 else 4096

  -- What `fill_stream_buffer` makes of a read.
  unfoldable pub filled :
      FrameChannel State → ReadResult → List ℕ → FrameChannelPollResult × FrameChannel State
  filled ch result bytes =
      if not (is_ok result.status.code)
      then (
        record (polled FrameChannelPollStatus.transport_error) { transport_status = result.status },
        ch,
      )
      else if ltb 0 result.bytes_read
      then (
        record (polled FrameChannelPollStatus.need_more_data) {
          bytes_transferred = result.bytes_read;
        },
        record ch { stream_buffer = ch.stream_buffer ++ take result.bytes_read bytes },
      )
      else if result.would_block
      then (polled FrameChannelPollStatus.would_block, ch)
      else if result.end_of_stream
      then (polled FrameChannelPollStatus.end_of_stream, ch)
      else (polled FrameChannelPollStatus.need_more_data, ch)

  -- The channel that `fill_stream_buffer` reads into.
  unfoldable pub compacted : FrameChannel State → FrameChannel State
  compacted ch =
      if ltb 0 ch.stream_buffer_offset
        && (unread_bytes ch == 0 || leb (length ch.stream_buffer / 2) ch.stream_buffer_offset)
      then compact_stream_buffer ch
      else ch

  unfoldable pub fill_stream_buffer :
      FrameChannel State → FrameChannelPollResult × FrameChannel State
  fill_stream_buffer ch =
      let (result, bytes, st) = t.base.read (compacted ch).transport target_read_size in
      filled (record (compacted ch) { transport = st }) result bytes

  -- After a fill for the rest of a frame whose prefix is there.
  unfoldable pub after_frame_fill : FrameChannelPollStatus → FrameChannel State → Round State
  after_frame_fill FrameChannelPollStatus.need_more_data ch = again ch
  after_frame_fill _ ch = acquired (failure (not_found "Frame is not ready.")) ch

  -- After a fill for the rest of a prefix.
  unfoldable pub after_prefix_fill :
      FrameChannelPollStatus → Status → FrameChannel State → Round State
  after_prefix_fill FrameChannelPollStatus.transport_error status ch = acquired (failure status) ch
  after_prefix_fill FrameChannelPollStatus.end_of_stream status ch =
      acquired (failure (not_found "End of stream.")) ch
  after_prefix_fill FrameChannelPollStatus.would_block status ch =
      acquired (failure (not_found "Frame is not ready.")) ch
  after_prefix_fill _ status ch = again ch

  abbrev lease_at : FrameChannel State → ℕ → TransportBufferLease
  lease_at ch n =
      let frame_offset = add_size ch.stream_buffer_offset options.prefix_width_bytes in
      record { bytes = subspan ch.stream_buffer frame_offset n; token = frame_offset; valid = true }

  unfoldable pub with_length : FrameChannel State → StatusOr ℕ → Round State
  with_length ch (value n) =
      let (fill, ch') = fill_stream_buffer ch in
      if ltb (unread_bytes ch) (add_size options.prefix_width_bytes n)
      then after_frame_fill fill.status ch'
      else acquired (value (lease_at ch n)) ch
  with_length ch (failure status) =
      let (fill, ch') = fill_stream_buffer ch in
      if is_exhausted status.code
      then acquired (failure status) ch
      else after_prefix_fill fill.status fill.transport_status ch'

  unfoldable pub acquire_round : FrameChannel State → Round State
  acquire_round ch = with_length ch (try_parse_frame_length options ch)

  unfoldable pub acquire_rounds :
      ℕ → FrameChannel State → Option (StatusOr TransportBufferLease × FrameChannel State)
  acquire_rounds zero ch = none
  acquire_rounds (suc rounds) ch = elim (acquire_round ch) [
    | acquired lease ch' ↦ some (lease, ch')
    | again ch' ↦ acquire_rounds rounds ch'
  ]

  unfoldable pub try_acquire_frame :
      ℕ → FrameChannel State → Option (StatusOr TransportBufferLease × FrameChannel State)
  try_acquire_frame rounds ch =
      let (lease, st) = t.try_acquire_receive_buffer ch.transport in
      if t.preserves_frame_boundaries ch.transport
      then some (lease, record ch { transport = st })
      else acquire_rounds rounds ch

  unfoldable pub release_frame :
      FrameChannel State → TransportBufferLease → Status × FrameChannel State
  release_frame ch lease =
      let (status, st) = t.release_receive_buffer ch.transport lease in
      if t.preserves_frame_boundaries ch.transport
      then (status, record ch { transport = st })
      else if not lease.valid
      then (invalid_argument "Cannot release an invalid frame lease.", ch)
      else (
        ok_status,
        compact_stream_buffer (record ch {
          stream_buffer_offset =
              add_size ch.stream_buffer_offset
                (add_size options.prefix_width_bytes (length lease.bytes));
        }),
      )

  -- `receive_frame`, once a lease was asked for. The list is the frame of the caller.
  unfoldable pub received :
      StatusOr TransportBufferLease
      → FrameChannel State
      → List ℕ
      → FrameChannelPollResult × List ℕ × FrameChannel State
  received (failure status) ch frame =
      if is_not_found status.code
      then (polled FrameChannelPollStatus.need_more_data, frame, ch)
      else (
        record (polled FrameChannelPollStatus.transport_error) { transport_status = status },
        frame,
        ch,
      )
  received (value lease) ch frame =
      let (status, released) = release_frame ch lease in
      if not lease.valid then (polled FrameChannelPollStatus.need_more_data, frame, ch) else (
        record (polled FrameChannelPollStatus.frame_ready) {
          bytes_transferred = length lease.bytes;
        },
        lease.bytes,
        released,
      )

  unfoldable pub receive_frame :
      ℕ
      → FrameChannel State
      → List ℕ
      → Option (FrameChannelPollResult × List ℕ × FrameChannel State)
  receive_frame rounds ch frame = elim (try_acquire_frame rounds ch) [
    | some (lease, ch') ↦ some (received lease ch' frame)
    | none ↦ none
  ]
