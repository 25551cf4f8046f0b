-- ===== src/Stream.antt =====
-- packages/upr_runtime/include/universal_protocol_runtime/runtime/stream_runtime.hpp: the polling
-- loop that couples a transport, a framer and a decoder. The transport, the framer and the decoder
-- are the references that the runtime is constructed with; the message is the object that `poll`
-- is handed, and the decoder returns it as it leaves it.
pub mod Extract
pub mod Fill
pub mod Decode
pub mod Loop
pub mod Reliable
pub mod Delivery
pub mod Ended
pub mod Poll
use Prim.Native.String.{String}
use universal_protocol_runti.Base.{
  ℕ, zero, suc, Bool, false, not, List, [], Option, some, none, ltb, ◌==◌, if◌then◌else◌, take,
  replicate, subspan,
}
use universal_protocol_runti.Core.{DecodeStatus}
use universal_protocol_runti.Status.{is_ok}
use universal_protocol_runti.Ring
use universal_protocol_runti.Ring.{Ring, add_size}
use universal_protocol_runti.Framing.{Framer, FrameSlice, FrameStatus}
use universal_protocol_runti.Transport.{Transport, ReadResult}

pub data PollStatus : Type 0 where
  message_ready need_more_data end_of_stream frame_invalid decode_error buffer_exhausted
        transport_error :
      PollStatus

unfoldable pub poll_status_name : PollStatus → String
poll_status_name PollStatus.message_ready = "message_ready"
poll_status_name PollStatus.need_more_data = "need_more_data"
poll_status_name PollStatus.end_of_stream = "end_of_stream"
poll_status_name PollStatus.frame_invalid = "frame_invalid"
poll_status_name PollStatus.decode_error = "decode_error"
poll_status_name PollStatus.buffer_exhausted = "buffer_exhausted"
poll_status_name PollStatus.transport_error = "transport_error"

pub data DecodeFailurePolicy : Type 0 where
  stop drop_and_continue quarantine : DecodeFailurePolicy

unfoldable pub policy_name : DecodeFailurePolicy → String
policy_name DecodeFailurePolicy.stop = "stop"
policy_name DecodeFailurePolicy.drop_and_continue = "drop_and_continue"
policy_name DecodeFailurePolicy.quarantine = "quarantine"

pub record StreamRuntimeOptions : Type 0 where
  pub message_not_found_policy : DecodeFailurePolicy
  pub schema_mismatch_policy : DecodeFailurePolicy
  pub invalid_data_policy : DecodeFailurePolicy
  pub checksum_mismatch_policy : DecodeFailurePolicy
  pub field_limit_policy : DecodeFailurePolicy

pub record PollResult : Type 0 where
  pub status : PollStatus
  pub decode_status : DecodeStatus
  pub policy : DecodeFailurePolicy
  pub bytes_consumed : ℕ

pub record RuntimeStats : Type 0 where
  pub bytes_read : ℕ
  pub transport_reads : ℕ
  pub frames_seen : ℕ
  pub frames_decoded : ℕ
  pub frame_errors : ℕ
  pub decode_errors : ℕ

pub data FillResult : Type 0 where
  read_some would_block end_of_stream no_space transport_error : FillResult

-- A result with this status and the defaults of the other fields.
abbrev pub with_status : PollStatus → PollResult
with_status status = record {
  status = status;
  decode_status = DecodeStatus.ok;
  policy = DecodeFailurePolicy.stop;
  bytes_consumed = 0;
}

abbrev pub no_stats : RuntimeStats
no_stats = record {
  bytes_read = 0;
  transport_reads = 0;
  frames_seen = 0;
  frames_decoded = 0;
  frame_errors = 0;
  decode_errors = 0;
}

unfoldable pub policy_for : StreamRuntimeOptions → DecodeStatus → DecodeFailurePolicy
policy_for options DecodeStatus.ok = DecodeFailurePolicy.stop
policy_for options DecodeStatus.message_not_found = options.message_not_found_policy
policy_for options DecodeStatus.schema_mismatch = options.schema_mismatch_policy
policy_for options DecodeStatus.invalid_data = options.invalid_data_policy
policy_for options DecodeStatus.checksum_mismatch = options.checksum_mismatch_policy
policy_for options DecodeStatus.field_limit_exceeded = options.field_limit_policy

-- `StreamRuntime`, over the state of its transport.
pub record Runtime (State : Type 0) : Type 0 where
  pub transport : State
  pub buffer : Ring
  pub linearized_frame : List ℕ
  pub end_of_stream : Bool
  pub stats : RuntimeStats

-- The bytes of the frame that a slice shows.
abbrev pub frame_of : List ℕ → FrameStatus → List ℕ
frame_of bytes (FrameStatus.ready s) = subspan bytes s.offset s.size
frame_of bytes FrameStatus.need_more_data = []
frame_of bytes FrameStatus.invalid_frame = []

-- How one round of the loop ends: with the result of `poll`, or with `continue`.
pub data Round (State Message : Type 0) : Type 0 where
  done : PollResult → Runtime State → Message → Round State Message
  continue : Runtime State → Round State Message

module _ (cap : ℕ) (t : Transport) where
  unfoldable pub init : t.State → Runtime t.State
  init st = record {
    transport = st;
    buffer = Ring.empty_ring cap;
    linearized_frame = replicate cap 0;
    end_of_stream = false;
    stats = no_stats;
  }

  -- `fill_buffer`, once the transport has been read.
  unfoldable pub filled :
      Runtime t.State → ReadResult → List ℕ → t.State → FillResult × Runtime t.State
  filled rt result bytes st =
      let stats = record rt.stats { transport_reads = add_size rt.stats.transport_reads 1 } in
      let written = Ring.write_span cap rt.buffer bytes in
      if not (is_ok result.status.code)
      then (
        FillResult.transport_error,
        record rt { transport = st; buffer = written; stats = stats },
      )
      else (
        (if ltb 0 result.bytes_read
            then FillResult.read_some
            else if result.would_block
            then FillResult.would_block
            else if result.end_of_stream
            then FillResult.end_of_stream
            else FillResult.would_block),
        record rt {
          transport = st;
          buffer = Ring.commit_write cap written result.bytes_read;
          end_of_stream = result.end_of_stream;
          stats = record stats { bytes_read = add_size stats.bytes_read result.bytes_read };
        },
      )

  unfoldable pub fill_buffer : Runtime t.State → FillResult × Runtime t.State
  fill_buffer rt =
      let n = (Ring.writable_span cap rt.buffer).size in
      let (result, bytes, st) = t.read rt.transport n in
      if n == 0 then (FillResult.no_space, rt) else filled rt result bytes st

module _ (cap : ℕ) (t : Transport) (framer : Framer) where
  -- The second attempt, over the linearized contents, of the status `first` where it is not made.
  unfoldable pub extract_linearized :
      Runtime t.State → FrameStatus → FrameStatus × List ℕ × Runtime t.State
  extract_linearized rt first =
      let (n, copied) = Ring.linearize cap rt.buffer rt.linearized_frame in
      if Ring.has_wrapped_readable_data cap rt.buffer
      then (
        framer.try_frame (take n copied),
        frame_of (take n copied) (framer.try_frame (take n copied)),
        record rt { linearized_frame = copied },
      )
      else (first, [], rt)

  unfoldable pub extract_contiguous :
      Runtime t.State → List ℕ → FrameStatus → FrameStatus × List ℕ × Runtime t.State
  extract_contiguous rt contiguous (FrameStatus.ready s) =
      (FrameStatus.ready s, subspan contiguous s.offset s.size, rt)
  extract_contiguous rt contiguous first = extract_linearized rt first

  -- The status, the bytes of the frame where there is one, and the runtime afterwards.
  unfoldable pub try_extract_frame : Runtime t.State → FrameStatus × List ℕ × Runtime t.State
  try_extract_frame rt =
      extract_contiguous rt (Ring.readable_bytes cap rt.buffer)
        (framer.try_frame (Ring.readable_bytes cap rt.buffer))

  module _ {Message : Type 0} (decode_any : List ℕ → Message → DecodeStatus × Message)
      (options : StreamRuntimeOptions) where
    -- The branch of `poll` for a frame that is ready, once it has been decoded.
    unfoldable pub frame_decoded :
        Runtime t.State → FrameSlice → DecodeStatus → Message → Round t.State Message
    frame_decoded rt s DecodeStatus.ok message =
        let seen = record rt.stats { frames_seen = add_size rt.stats.frames_seen 1 } in
        done (record (with_status PollStatus.message_ready) { bytes_consumed = s.bytes_consumed })
          (record rt {
            buffer = Ring.consume cap rt.buffer s.bytes_consumed;
            stats = record seen { frames_decoded = add_size seen.frames_decoded 1 };
          })
          message
    frame_decoded rt s failed message =
        let seen = record rt.stats { frames_seen = add_size rt.stats.frames_seen 1 } in
        done
          (record {
            status = PollStatus.decode_error;
            decode_status = failed;
            policy = policy_for options failed;
            bytes_consumed = s.bytes_consumed;
          })
          (record rt {
            buffer = Ring.consume cap rt.buffer s.bytes_consumed;
            stats = record seen { decode_errors = add_size seen.decode_errors 1 };
          })
          message

    unfoldable pub decode_frame :
        Runtime t.State → FrameSlice → List ℕ → Message → Round t.State Message
    decode_frame rt s frame message =
        let (status, message') = decode_any frame message in frame_decoded rt s status message'

    abbrev frame_error : Runtime t.State → Runtime t.State
    frame_error rt = record rt {
      stats = record rt.stats { frame_errors = add_size rt.stats.frame_errors 1 };
    }

    -- What a fill leads to.
    unfoldable pub after_fill : FillResult → Runtime t.State → Message → Round t.State Message
    after_fill FillResult.read_some rt message = continue rt
    after_fill FillResult.would_block rt message =
        done (with_status PollStatus.need_more_data) rt message
    after_fill FillResult.end_of_stream rt message = continue rt
    after_fill FillResult.no_space rt message =
        done (with_status PollStatus.buffer_exhausted) rt message
    after_fill FillResult.transport_error rt message =
        done (with_status PollStatus.transport_error) rt message

    -- The branch for a frame that is not there yet.
    unfoldable pub read_more : Runtime t.State → Message → Round t.State Message
    read_more rt message =
        let (fill, rt') = fill_buffer cap t rt in
        if rt.end_of_stream
        then if Ring.empty cap rt.buffer
          then done (with_status PollStatus.end_of_stream) rt message
          else done (with_status PollStatus.frame_invalid) (frame_error rt) message
        else after_fill fill rt' message

    unfoldable pub act_on : FrameStatus → List ℕ → Runtime t.State → Message → Round t.State Message
    act_on (FrameStatus.ready s) frame rt message = decode_frame rt s frame message
    act_on FrameStatus.invalid_frame frame rt message =
        done (with_status PollStatus.frame_invalid) (frame_error rt) message
    act_on FrameStatus.need_more_data frame rt message = read_more rt message

    -- One round of the loop of `poll`.
    unfoldable pub round : Runtime t.State → Message → Round t.State Message
    round rt message =
        let (status, frame, rt') = try_extract_frame rt in act_on status frame rt' message

    -- `poll`, for at most so many rounds; `none` means that they did not suffice.
    unfoldable pub poll :
        ℕ → Runtime t.State → Message → Option (PollResult × Runtime t.State × Message)
    poll zero rt message = none
    poll (suc rounds) rt message = elim (round rt message) [
      | done result rt' message' ↦ some (result, rt', message')
      | continue rt' ↦ poll rounds rt' message
    ]
