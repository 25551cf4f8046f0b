-- ===== src/Channel/Receive/Delivery.antt =====
-- `receive_frame` (adapters/frame_channel.cpp) over a reliable transport, against the bytes that are
-- in the buffer and still in the transport.
use mathlib.Core.Path.{ap₂}
use native.Mathlib.Nat.{mod-eq_of_lt}
use universal_protocol_runti.Base.{
  ℕ, zero, suc, ◌+◌, ◌^◌, ◌≤◌, ◌<◌, ◌≡◌, refl, sym, ap, ◌∙◌, false, List, ◌++◌, Option, some, arith,
  ltb, length, take, drop, length-append, length-drop, drop-append_le, drop-append_ge,
  take-append_le, take_all, drop-drop, subspan, if_true_elim, if_false_elim, subspan-append,
}
use native.Mathlib.Decide.{dec_lt, dec_le}
use universal_protocol_runti.Ring.{add_size}
use universal_protocol_runti.Status.{StatusOr, value, failure, not_found}
use universal_protocol_runti.Transport.Laws.{IsReliable}
use universal_protocol_runti.Channel.{
  ByteStreamTransport, FrameChannel, FrameChannelOptions, FrameChannelPollStatus,
  TransportBufferLease, polled, compact_stream_buffer, unread_bytes, encode_little_endian,
  decode_little_endian,
}
use universal_protocol_runti.Channel.Prefix.{
  length-encode_little_endian, decode-encode_little_endian,
}
use universal_protocol_runti.Channel.Receive.{
  Round, acquired, again, try_parse_frame_length, with_length, acquire_round, acquire_rounds,
  try_acquire_frame, release_frame, received, receive_frame, lease_at, after_frame_fill,
  after_prefix_fill, fill_stream_buffer,
}
use universal_protocol_runti.Channel.Receive.Unread.{
  unread, length-unread, compact_stream_buffer-SameUnread, pending, IsSound, Fills,
  fill_stream_buffer-Fills,
}

-- A frame that a channel with these options can carry: its size fits the prefix, and is accepted.
pub record IsCarried (options : FrameChannelOptions) (frame : List ℕ) : Type 0 where
  pub narrow : options.prefix_width_bytes ≤ 8
  pub fits : length frame < 256 ^ options.prefix_width_bytes
  pub accepted : length frame ≤ options.max_frame_size

module _ (t : ByteStreamTransport) (options : FrameChannelOptions)
    (remaining : t.base.State → List ℕ) (reliable : IsReliable t.base remaining)
    (frame rest : List ℕ) (carried : IsCarried options frame) where
  abbrev w : ℕ
  w = options.prefix_width_bytes

  abbrev prefix : List ℕ
  prefix = encode_little_endian (length frame) w

  abbrev Sound : FrameChannel t.base.State → Type 0
  Sound = IsSound t options remaining

  abbrev unconsumed : FrameChannel t.base.State → List ℕ
  unconsumed = pending t options remaining

  -- How a round ends that has the frame in front of the pending bytes.
  data Ending (ch : FrameChannel t.base.State) : Round t.base.State → Type 0 where
    leased :
        w + length frame ≤ length (unread ch)
        → Ending ch (acquired (value (lease_at t options ch (length frame))) ch)
    goes_on :
        {next : FrameChannel t.base.State}
        → Sound next
        → unconsumed next ≡ unconsumed ch
        → length (remaining next.transport) < length (remaining ch.transport)
        → Ending ch (again next)

  module _ (ch : FrameChannel t.base.State) (sound : Sound ch)
      (front : unconsumed ch ≡ prefix ++ (frame ++ rest)) where
    -- The unread bytes show what is in front of the pending ones.
    unread_front :
        (n : ℕ) → n ≤ length (unread ch) → take n (unread ch) ≡ take n (prefix ++ (frame ++ rest))
    unread_front n h =
        sym (take-append_le n (unread ch) (remaining ch.transport) h) ∙ ap (take n) front

    length-prefix : length prefix ≡ w
    length-prefix = length-encode_little_endian (length frame) w

    total : length (unread ch) + length (remaining ch.transport) ≡ w + length frame + length rest
    total = omega (
      arith,
      ap length front,
      length-append (unread ch) (remaining ch.transport),
      length-append prefix (frame ++ rest),
      length-append frame rest,
      length-prefix,
    )

    prefix_read :
        w ≤ length (unread ch)
        → decode_little_endian (subspan ch.stream_buffer ch.stream_buffer_offset w) ≡ length frame
    prefix_read h =
        ap decode_little_endian (
          unread_front w h
          ∙ take-append_le w prefix (frame ++ rest) (omega (arith, length-prefix))
          ∙ take_all w prefix (omega (arith, length-prefix)))
        ∙ decode-encode_little_endian (length frame) w carried.narrow carried.fits

    parsed : w ≤ length (unread ch) → try_parse_frame_length options ch ≡ value (length frame)
    unfolding try_parse_frame_length
    parsed h = ground (arith, prefix_read h, length-unread ch, carried.accepted)

    filled_lem :
        length (unread ch) < w + length frame
        → Fills t options remaining ch
            (fill_stream_buffer t options ch).0.status
            (fill_stream_buffer t options ch).1
    filled_lem h =
        fill_stream_buffer-Fills t options remaining reliable ch sound (omega (arith, total))

    needs_no_wrap : add_size w (length frame) ≡ w + length frame
    needs_no_wrap =
        mod-eq_of_lt (
          omega (arith, total, length-drop ch.stream_buffer_offset ch.stream_buffer, sound.bounded))

    with_length-Ending :
        w ≤ length (unread ch) → Ending ch (with_length t options ch (value (length frame)))
    unfolding with_length after_frame_fill
    with_length-Ending h = elim (dec_lt (length (unread ch)) (w + length frame)) [
      | yes k ↦
          let f = filled_lem k in
          if_true_elim (Ending ch) (ltb (unread_bytes ch) (add_size w (length frame))) _ _
            (ground (arith, needs_no_wrap, length-unread ch))
            (rw f.more (goes_on f.sound f.kept f.less))
      | no k ↦
          if_false_elim (Ending ch) (ltb (unread_bytes ch) (add_size w (length frame))) _ _
            (ground (arith, needs_no_wrap, length-unread ch)) (leased (omega arith))
    ]

    unparsed :
        length (unread ch) < w
        → try_parse_frame_length options ch ≡ failure (not_found "Frame prefix is incomplete.")
    unfolding try_parse_frame_length
    unparsed h = ground (arith, length-unread ch)

    without_length-Ending :
        length (unread ch) < w
        → Ending ch (with_length t options ch (failure (not_found "Frame prefix is incomplete.")))
    unfolding with_length after_prefix_fill
    without_length-Ending h =
        let f = filled_lem (omega arith) in rw f.more (goes_on f.sound f.kept f.less)

    round-Ending : Ending ch (acquire_round t options ch)
    unfolding acquire_round
    round-Ending = elim (dec_le w (length (unread ch))) [
      | yes h ↦ rw (parsed h) (with_length-Ending h)
      | no h ↦ rw (unparsed (omega arith)) (without_length-Ending (omega arith))
    ]

  -- A lease of the frame, with the prefix and the frame still in front of the pending bytes.
  abbrev Leases : Option (StatusOr TransportBufferLease × FrameChannel t.base.State) → Type 0
  Leases answer =
      (ch : FrameChannel t.base.State) × (answer
        ≡ some (value (lease_at t options ch (length frame)), ch))
      × Sound ch
      × (unconsumed ch ≡ prefix ++ (frame ++ rest))
      × (w + length frame ≤ length (unread ch))

  after_round :
      (rounds : ℕ) (ch : FrameChannel t.base.State) (r : Round t.base.State)
      → Sound ch
      → unconsumed ch ≡ prefix ++ (frame ++ rest)
      → length (remaining ch.transport) ≤ rounds
      → ((next : FrameChannel t.base.State)
          → Sound next
          → unconsumed next ≡ prefix ++ (frame ++ rest)
          → length (remaining next.transport) < rounds
          → Leases (acquire_rounds t options rounds next))
      → Ending ch r
      → Leases (elim r [
        | acquired lease ch' ↦ some (lease, ch')
        | again ch' ↦ acquire_rounds t options rounds ch'
      ])
  after_round rounds ch (acquired lease ch') sound front h later (leased k) =
      (ch, refl, sound, front, k)
  after_round rounds ch (again next) sound front h later (goes_on next_sound kept less) =
      later next next_sound (kept ∙ front) (omega arith)

  acquire_rounds-Leases :
      (rounds : ℕ) (ch : FrameChannel t.base.State)
      → Sound ch
      → unconsumed ch ≡ prefix ++ (frame ++ rest)
      → length (remaining ch.transport) < rounds
      → Leases (acquire_rounds t options rounds ch)
  unfolding acquire_rounds
  acquire_rounds-Leases zero ch sound front h = absurd (omega arith)
  acquire_rounds-Leases (suc rounds) ch sound front h =
      after_round rounds ch _ sound front (omega arith)
        (λ next next_sound kept less. acquire_rounds-Leases rounds next next_sound kept less)
        (round-Ending ch sound front)

  module _ (ch : FrameChannel t.base.State) (sound : Sound ch)
      (front : unconsumed ch ≡ prefix ++ (frame ++ rest))
      (room : w + length frame ≤ length (unread ch)) where
    offset_no_wrap : add_size ch.stream_buffer_offset w ≡ ch.stream_buffer_offset + w
    offset_no_wrap = mod-eq_of_lt (
        omega (
          arith,
          length-drop ch.stream_buffer_offset ch.stream_buffer,
          sound.valid.within,
          sound.bounded,
          room,
        ))

    end_no_wrap :
        add_size ch.stream_buffer_offset (add_size w (length frame))
        ≡ ch.stream_buffer_offset + (w + length frame)
    end_no_wrap = rw (needs_no_wrap ch sound front) (
        mod-eq_of_lt (
          omega (
            arith,
            length-drop ch.stream_buffer_offset ch.stream_buffer,
            sound.valid.within,
            sound.bounded,
            room,
          )))

    leased_bytes : (lease_at t options ch (length frame)).bytes ≡ frame
    leased_bytes =
        rw (offset_no_wrap, ← drop-drop w ch.stream_buffer_offset ch.stream_buffer)
          (sym (subspan-append (unread ch) (remaining ch.transport) w (length frame) room)
            ∙ ap (λ bytes. subspan bytes w (length frame)) front
            ∙ ap (take (length frame)) (
                drop-append_ge w 0 prefix (frame ++ rest)
                  (omega (arith, length-prefix ch sound front)))
            ∙ take-append_le (length frame) frame rest (omega arith)
            ∙ take_all (length frame) frame (omega arith))

    -- The channel whose offset has been moved behind the frame.
    abbrev moved : FrameChannel t.base.State
    moved = record ch { stream_buffer_offset = ch.stream_buffer_offset + (w + length frame) }

    unconsumed-moved : unconsumed moved ≡ rest
    unconsumed-moved =
        ap (λ bytes. bytes ++ remaining ch.transport)
          (sym (drop-drop (w + length frame) ch.stream_buffer_offset ch.stream_buffer))
        ∙ sym (drop-append_le (w + length frame) (unread ch) (remaining ch.transport) room)
        ∙ ap (drop (w + length frame)) front
        ∙ drop-append_ge (w + length frame) (length frame) prefix (frame ++ rest)
            (omega (arith, length-prefix ch sound front))
        ∙ drop-append_ge (length frame) 0 frame rest (omega arith)

    released_Sound :
        Sound (compact_stream_buffer moved) × (unconsumed (compact_stream_buffer moved) ≡ rest)
    released_Sound =
        let same = compact_stream_buffer-SameUnread moved in
        (
          record {
            valid = same.valid;
            bounded = omega (
              arith,
              same.shorter,
              ap (λ st. length (remaining st)) same.transport,
              sound.bounded,
            );
          },
          ap₂ ◌++◌ same.unread_same (ap remaining same.transport) ∙ unconsumed-moved,
        )

    received_lem :
        (old : List ℕ)
        → t.preserves_frame_boundaries ch.transport ≡ false
        → received t options (value (lease_at t options ch (length frame))) ch old ≡ (
          record (polled FrameChannelPollStatus.frame_ready) { bytes_transferred = length frame },
          frame,
          compact_stream_buffer moved,
        )
    unfolding received release_frame
    received_lem old p = rw (p, leased_bytes, end_no_wrap) refl

  acquired_lem :
      (rounds : ℕ) (ch : FrameChannel t.base.State)
      (answer : Option (StatusOr TransportBufferLease × FrameChannel t.base.State))
      → t.preserves_frame_boundaries ch.transport ≡ false
      → acquire_rounds t options rounds ch ≡ answer
      → try_acquire_frame t options rounds ch ≡ answer
  unfolding try_acquire_frame
  acquired_lem rounds ch answer p e = if_false_elim (λ x. x ≡ answer) _ _ _ p e

  -- Over a reliable transport that keeps no frame boundaries, when the bytes that are to come begin
  -- with a frame that the channel can carry, `receive_frame` gives out this frame and its size,
  -- within one round more than the transport has bytes left, and leaves the bytes behind the frame,
  -- whatever the caller's buffer held. A frame that the channel can carry is of an accepted size
  -- that its prefix, of at most 8 bytes, can carry; and the channel is sound.
  pub receive_frame-Delivers :
      (rounds : ℕ) (ch : FrameChannel t.base.State) (old : List ℕ)
      → Sound ch
      → unconsumed ch ≡ prefix ++ (frame ++ rest)
      → ((st : t.base.State) → t.preserves_frame_boundaries st ≡ false)
      → length (remaining ch.transport) < rounds
      → (next : FrameChannel t.base.State) × (receive_frame t options rounds ch old
          ≡ some (
            record (polled FrameChannelPollStatus.frame_ready) { bytes_transferred = length frame },
            frame,
            next,
          ))
        × Sound next
        × (unconsumed next ≡ rest)
  unfolding receive_frame
  receive_frame-Delivers rounds ch old sound front p h =
      let (leased_ch, e, leased_sound, leased_front, room) =
        acquire_rounds-Leases rounds ch sound front h in
      (
        compact_stream_buffer (moved leased_ch leased_sound leased_front room),
        rw (receive_frame, acquired_lem rounds ch _ (p ch.transport) e)
            (ap some
              (received_lem leased_ch leased_sound leased_front room old (p leased_ch.transport))),
        (released_Sound leased_ch leased_sound leased_front room).0,
        (released_Sound leased_ch leased_sound leased_front room).1,
      )
