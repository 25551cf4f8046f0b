-- ===== src/Channel/Receive/Unread.antt =====
-- The bytes that a channel has received and has not given out, through `fill_stream_buffer` and
-- `compact_stream_buffer` (adapters/frame_channel.cpp).
use mathlib.Core.Path.{ap₂}
use mathlib.Core.List.{append_assoc}
use universal_protocol_runti.Base.{
  ℕ, ◌+◌, ◌≤◌, ◌<◌, ◌≡◌, inl, inr, refl, sym, ap, ◌∙◌, true, not, List, ◌++◌, arith, ltb, length,
  take, drop, length-append, length-drop, drop-append_le, take_all, drop_all, if_true_elim,
  if_false_elim, if_elim, ◌^◌, Bool-cases,
}
use universal_protocol_runti.Status.{is_ok}
use universal_protocol_runti.Transport.{ReadResult}
use universal_protocol_runti.Transport.Laws.{IsRead, IsReliable}
use universal_protocol_runti.Channel.{
  ByteStreamTransport, FrameChannel, FrameChannelOptions, FrameChannelPollStatus,
  compact_stream_buffer, unread_bytes, FrameChannelPollResult,
}
use universal_protocol_runti.Channel.Receive.{
  filled, compacted, fill_stream_buffer, target_read_size,
}

-- The unread bytes.
abbrev pub unread : {State : Type 0} → FrameChannel State → List ℕ
unread ch = drop ch.stream_buffer_offset ch.stream_buffer

-- The offset lies in the buffer.
pub record IsValid {State : Type 0} (ch : FrameChannel State) : Type 0 where
  pub within : ch.stream_buffer_offset ≤ length ch.stream_buffer

pub length-unread :
    {State : Type 0} (ch : FrameChannel State) → length (unread ch) ≡ unread_bytes ch
length-unread ch = length-drop ch.stream_buffer_offset ch.stream_buffer

-- Two channels with the same transport and the same unread bytes.
pub record SameUnread {State : Type 0} (a b : FrameChannel State) : Type 0 where
  pub transport : b.transport ≡ a.transport
  pub unread_same : unread b ≡ unread a
  pub valid : IsValid b
  pub shorter : length b.stream_buffer ≤ length a.stream_buffer

-- Compacting keeps the unread bytes, also where the offset has run past the buffer.
pub compact_stream_buffer-SameUnread :
    {State : Type 0} (ch : FrameChannel State) → SameUnread ch (compact_stream_buffer ch)
unfolding compact_stream_buffer
compact_stream_buffer-SameUnread ch = record {
  transport = ground arith;
  unread_same = ground (arith, drop_all ch.stream_buffer_offset ch.stream_buffer);
  valid = record { within = ground arith };
  shorter = ground (arith, length-drop ch.stream_buffer_offset ch.stream_buffer);
}

compacted-SameUnread :
    (t : ByteStreamTransport) (options : FrameChannelOptions) (ch : FrameChannel t.base.State)
    → IsValid ch
    → SameUnread ch (compacted t options ch)
unfolding compacted
compacted-SameUnread t options ch v =
    if_elim (SameUnread ch) _ _ _ (compact_stream_buffer-SameUnread ch)
      (record { transport = refl; unread_same = refl; valid = v; shorter = omega arith })

module _ (t : ByteStreamTransport) (options : FrameChannelOptions)
    (remaining : t.base.State → List ℕ) where
  -- The bytes that no frame has taken: those in the buffer, and those still in the transport.
  abbrev pub pending : FrameChannel t.base.State → List ℕ
  pending ch = unread ch ++ remaining ch.transport

  -- Besides, all that is received and is still to come has a size.
  pub record IsSound (ch : FrameChannel t.base.State) : Type 0 where
    pub valid : IsValid ch
    pub bounded : length ch.stream_buffer + length (remaining ch.transport) < 2 ^ 64

  -- What a fill leaves, where there is something to read.
  pub record Fills (ch : FrameChannel t.base.State) (status : FrameChannelPollStatus)
      (next : FrameChannel t.base.State) : Type 0 where
    pub more : status ≡ FrameChannelPollStatus.need_more_data
    pub sound : IsSound next
    pub kept : pending next ≡ pending ch
    pub less : length (remaining next.transport) < length (remaining ch.transport)

  filled-Fills :
      (ch : FrameChannel t.base.State) (n : ℕ) (result : ReadResult) (bytes : List ℕ)
      (st : t.base.State)
      → IsSound ch
      → IsRead remaining ch.transport n result bytes st
      → is_ok result.status.code ≡ true
      → 0 < result.bytes_read
      → Fills ch
          (filled t options (record ch { transport = st }) result bytes).0.status
          (filled t options (record ch { transport = st }) result bytes).1
  unfolding filled
  filled-Fills ch n result bytes st sound read ok pos =
      let C = λ (p : FrameChannelPollResult × FrameChannel t.base.State). Fills ch p.0.status p.1 in
      let whole = take_all result.bytes_read bytes (omega (arith, read.counted)) in
      let lengths : length (ch.stream_buffer ++ take result.bytes_read bytes)
            + length (remaining st)
          < 2 ^ 64 =
        omega (
          arith,
          ap length whole,
          ap length read.taken,
          length-append bytes (remaining st),
          length-append ch.stream_buffer (take result.bytes_read bytes),
          sound.bounded,
          read.counted,
        ) in
      if_false_elim C (not (is_ok result.status.code)) _ _ (ap not ok) (
        if_true_elim C (ltb 0 result.bytes_read) _ _ (ground arith) (record {
          more = refl;
          sound = record {
            valid = record {
              within = omega (
                arith,
                sound.valid.within,
                length-append ch.stream_buffer (take result.bytes_read bytes),
              );
            };
            bounded = lengths;
          };
          kept = rw whole (
              ap (λ s. s ++ remaining st)
                (drop-append_le ch.stream_buffer_offset ch.stream_buffer bytes sound.valid.within)
              ∙ append_assoc (unread ch) bytes (remaining st)
              ∙ ap (◌++◌ (unread ch)) (sym read.taken));
          less =
              omega (
                arith,
                ap length read.taken,
                length-append bytes (remaining st),
                read.counted,
                pos,
              );
        }))

  -- A reliable transport that has bytes left serves some of them.
  served :
      (reliable : IsReliable t.base remaining) (st : t.base.State) (n : ℕ)
      → 0 < n
      → 0 < length (remaining st)
      → 0 < (t.base.read st n).0.bytes_read
  served reliable st n h k = elim (Bool-cases (t.base.read st n).0.end_of_stream) [
    | inr e ↦ reliable.advances st n h e
    | inl e ↦
        let read = reliable.stream.read_lem st n in
        omega (
          arith,
          read.counted,
          ap length read.taken,
          length-append (t.base.read st n).1 (remaining (t.base.read st n).2),
          ap length (read.ended e),
        )
  ]

  target_pos : 0 < target_read_size t options
  target_pos = ground arith

  -- While the transport has bytes left, a fill reads some of them behind the unread ones.
  pub fill_stream_buffer-Fills :
      (reliable : IsReliable t.base remaining) (ch : FrameChannel t.base.State)
      → IsSound ch
      → 0 < length (remaining ch.transport)
      → Fills ch (fill_stream_buffer t options ch).0.status (fill_stream_buffer t options ch).1
  unfolding fill_stream_buffer
  fill_stream_buffer-Fills reliable ch sound some_left =
      let same = compacted-SameUnread t options ch sound.valid in
      let left = ap (λ st. length (remaining st)) same.transport in
      let n = target_read_size t options in
      let st = (compacted t options ch).transport in
      let f =
        filled-Fills (compacted t options ch) n _ _ _
          (record {
            valid = same.valid;
            bounded = omega (arith, same.shorter, left, sound.bounded);
          })
          (reliable.stream.read_lem st n) (reliable.succeeds st n)
          (served reliable st n target_pos (omega (arith, left, some_left))) in
      record {
        more = f.more;
        sound = f.sound;
        kept = f.kept ∙ ap₂ ◌++◌ same.unread_same (ap remaining same.transport);
        less = omega (arith, f.less, left);
      }
