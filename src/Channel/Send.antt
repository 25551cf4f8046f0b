-- ===== src/Channel/Send.antt =====
-- adapters/frame_channel.cpp: the operations that send.
pub mod Spans
pub mod Written
use universal_protocol_runti.Base.{
  ℕ, zero, suc, ◌+◌, ◌-◌, Bool, true, false, not, ◌&&◌, List, [], ◌∷◌, ◌++◌, Option, none, some,
  ltb, leb, ◌==◌, if◌then◌else◌, length, drop,
}
use universal_protocol_runti.Status.{
  Status, StatusOr, value, failure, is_ok, ok_status, io_error, exhausted,
}
use universal_protocol_runti.Channel.{
  ByteStreamTransport, FrameChannel, FrameChannelOptions, WriteResult, encode_little_endian,
}

-- The spans from `span_index` on, without those that are written already, and the `span_offset`.
unfoldable pub skip_written : List (List ℕ) → ℕ → List (List ℕ) × ℕ
skip_written [] span_offset = ([], span_offset)
skip_written (span ∷ spans) span_offset =
    let skipped = skip_written spans 0 in
    if leb (length span) span_offset then skipped else (span ∷ spans, span_offset)

-- The spans that one vectored write offers: the first one's rest, and the next one.
unfoldable pub pending_spans : List (List ℕ) → ℕ → List (List ℕ)
pending_spans [] span_offset = []
pending_spans (span ∷ []) span_offset = drop span_offset span ∷ []
pending_spans (span ∷ next ∷ spans) span_offset =
    drop span_offset span ∷ (if length next == 0 then [] else next ∷ [])

-- while (consumed > 0 && span_index < spans.size())
unfoldable pub advance : List (List ℕ) → ℕ → ℕ → List (List ℕ) × ℕ
advance [] span_offset consumed = ([], span_offset)
advance (span ∷ spans) span_offset consumed =
    let remaining = length span - span_offset in
    let later = advance spans 0 (consumed - remaining) in
    if consumed == 0
    then (span ∷ spans, span_offset)
    else if ltb consumed remaining
    then (span ∷ spans, span_offset + consumed)
    else later

module _ (t : ByteStreamTransport) where
  abbrev State : Type 0
  State = t.base.State

  -- What follows a write that left something: the wait for room, and the rest of the loop.
  unfoldable pub after_wait :
      StatusOr Bool → State → Option (Status × State) → Option (Status × State)
  after_wait (failure status) st rest = some (status, st)
  after_wait (value false) st rest =
      some (exhausted "Timed out waiting for transport writability.", st)
  after_wait (value true) st rest = rest

  unfoldable pub write_fully : ℕ → State → List ℕ → ℕ → Option (Status × State)
  write_fully zero st bytes offset = none
  write_fully (suc rounds) st bytes offset =
      let (result, written) = t.write st (drop offset bytes) in
      let (writable, waited) = t.wait_until_writable written 1000 in
      let rest = write_fully rounds waited bytes (offset + result.bytes_written) in
      if leb (length bytes) offset
      then some (ok_status, st)
      else if not (is_ok result.status.code)
      then some (result.status, written)
      else if offset + result.bytes_written == length bytes
      then some (ok_status, written)
      else if not result.would_block && (result.bytes_written == 0)
      then some (io_error "Transport write made no progress.", written)
      else after_wait writable waited rest

  -- The rest of a round, once the spans that are written already are skipped.
  unfoldable pub write_pending :
      State
      → WriteResult
      → List (List ℕ) × ℕ
      → StatusOr Bool × State
      → Option (Status × State)
      → Option (Status × State)
  write_pending written result ([], span_offset) (writable, waited) rest =
      if not (is_ok result.status.code)
      then some (result.status, written)
      else some (ok_status, written)
  write_pending written result (span ∷ spans, span_offset) (writable, waited) rest =
      if not (is_ok result.status.code)
      then some (result.status, written)
      else if not result.would_block && (result.bytes_written == 0)
      then some (io_error "Transport vectored write made no progress.", written)
      else after_wait writable waited rest

  unfoldable pub write_spans_fully : ℕ → State → List (List ℕ) → ℕ → Option (Status × State)
  write_spans_fully zero st spans span_offset = none
  write_spans_fully (suc rounds) st spans span_offset =
      let (pending, offset) = skip_written spans span_offset in
      let (result, written) = t.writev st (pending_spans pending offset) in
      let left = advance pending offset result.bytes_written in
      let waited = t.wait_until_writable written 1000 in
      let rest = write_spans_fully rounds waited.1 left.0 left.1 in
      elim pending [
        | [] ↦ some (ok_status, st)
        | _ ∷ _ ↦ write_pending written result left waited rest
      ]

  unfoldable pub send_frame :
      ℕ → FrameChannelOptions → FrameChannel State → List ℕ → Option (Status × State)
  send_frame rounds options ch frame =
      if ltb options.max_frame_size (length frame)
      then some (exhausted "Frame exceeds configured max frame size.", ch.transport)
      else if t.preserves_frame_boundaries ch.transport
      then write_fully rounds ch.transport frame 0
      else write_spans_fully rounds ch.transport
          (encode_little_endian (length frame) options.prefix_width_bytes ∷ frame ∷ []) 0

  -- `send_frames`; the bound is that of each frame.
  unfoldable pub send_frames :
      ℕ → FrameChannelOptions → FrameChannel State → List (List ℕ) → Option (Status × State)
  send_frames rounds options ch [] = some (ok_status, ch.transport)
  send_frames rounds options ch (frame ∷ frames) = elim (send_frame rounds options ch frame) [
    | none ↦ none
    | some (status, st) ↦
        let rest = send_frames rounds options (record ch { transport = st }) frames in
        if not (is_ok status.code) then some (status, st) else rest
  ]
