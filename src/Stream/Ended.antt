-- ===== src/Stream/Ended.antt =====
-- `poll` over a reliable transport whose stream ends before a frame is complete.
use mathlib.Core.List.{append-nil}
use universal_protocol_runti.Base.{
  ℕ, ◌+◌, ◌<◌, ◌≡◌, ◌≢◌, refl, sym, ap, ◌∙◌, Bool, true, false, List, ◌++◌, arith, ◌==◌,
  if◌then◌else◌, length, length-append, Bool-cases, inl, inr, if_true_elim,
}
use universal_protocol_runti.Core.{DecodeStatus}
use universal_protocol_runti.Ring.{free_space, empty}
use universal_protocol_runti.Ring.Invariant.{IsCapacity, free_space-add-size}
use universal_protocol_runti.Ring.Contents.{contents, length-contents}
use universal_protocol_runti.Framing.{Framer, FrameSlice, FrameStatus}
use universal_protocol_runti.Framing.Laws.{IsLawful}
use universal_protocol_runti.Transport.{Transport}
use universal_protocol_runti.Transport.Laws.{IsReliable}
use universal_protocol_runti.Stream.{
  Runtime, StreamRuntimeOptions, PollResult, PollStatus, Round, done, with_status, read_more,
  act_on, round, poll, frame_error,
}
use universal_protocol_runti.Stream.Extract.{try_extract_frame-Extracts}
use universal_protocol_runti.Stream.Decode.{SameButScratch-Sound, with_stats-Sound, unconsumed-Same}
use universal_protocol_runti.Stream.Loop.{
  measure, Ending, ends, Ending-SameButScratch, Returns, poll-Returns,
}
use universal_protocol_runti.Stream.Fill.{pending, IsSound}
use universal_protocol_runti.Stream.Reliable.{read_more_goes_on}

ready-ne-need_more : {s : FrameSlice} → FrameStatus.ready s ≢ FrameStatus.need_more_data
ready-ne-need_more e = cc

invalid-ne-need_more : FrameStatus.invalid_frame ≢ FrameStatus.need_more_data
invalid-ne-need_more e = cc

module _ (cap : ℕ) (c : IsCapacity cap) (t : Transport) (remaining : t.State → List ℕ)
    (reliable : IsReliable t remaining) (framer : Framer) (lawful : IsLawful framer)
    {Message : Type 0} (decode_any : List ℕ → Message → DecodeStatus × Message)
    (options : StreamRuntimeOptions) where
  abbrev Sound : Runtime t.State → Type 0
  Sound = IsSound cap c t remaining reliable.stream

  abbrev unconsumed : Runtime t.State → List ℕ
  unconsumed = pending cap c t remaining reliable.stream

  -- What `poll` returns when the stream ends behind these bytes.
  abbrev pub Ended : List ℕ → Message → PollResult → Runtime t.State → Message → Type 0
  Ended bytes message result next message' =
      (result
        ≡ with_status
            (if length bytes == 0 then PollStatus.end_of_stream else PollStatus.frame_invalid))
      × (message' ≡ message)
      × Sound next
      × (unconsumed next ≡ bytes)

  -- The branches at the end of the stream, on any test.
  at_end :
      (rt : Runtime t.State) (message : Message) (bytes : List ℕ) (b : Bool)
      → Sound rt
      → unconsumed rt ≡ bytes
      → (length bytes == 0) ≡ b
      → Ending cap c t remaining reliable.stream framer decode_any options
          (Ended bytes message)
          rt
          (if b
            then done (with_status PollStatus.end_of_stream) rt message
            else done
                (with_status PollStatus.frame_invalid)
                (frame_error cap t framer decode_any options rt)
                message)
  at_end rt message bytes true sound e q = ends (rw q refl, refl, sound, e)
  at_end rt message bytes false sound e q = ends (
    rw q refl,
    refl,
    with_stats-Sound cap c t remaining reliable.stream framer decode_any options rt _ sound,
    e,
  )

  module _ (rt : Runtime t.State) (message : Message) (sound : Sound rt)
      (incomplete : framer.try_frame (unconsumed rt) ≡ FrameStatus.need_more_data)
      (fits : length (unconsumed rt) + 1 < cap) where
    abbrev E : Round t.State Message → Type 0
    E =
        Ending cap c t remaining reliable.stream framer decode_any options
          (Ended (unconsumed rt) message) rt

    room : 0 < free_space cap rt.buffer
    room = omega (
      arith,
      length-append (contents rt.buffer) (remaining rt.transport),
      length-contents cap c rt.buffer sound.valid.ring,
      free_space-add-size cap c rt.buffer sound.valid.ring,
      fits,
    )

    empty_lem : rt.end_of_stream ≡ true → (length (unconsumed rt) == 0) ≡ empty cap rt.buffer
    unfolding empty
    empty_lem ended =
        ap (λ n. n == 0)
          (ap length (ap (◌++◌ (contents rt.buffer)) (sound.ended ended) ∙ append-nil _)
            ∙ length-contents cap c rt.buffer sound.valid.ring)

    read_more-Ended : E (read_more cap t framer decode_any options rt message)
    unfolding read_more
    read_more-Ended = elim (Bool-cases rt.end_of_stream) [
      | inl ended ↦
          if_true_elim E rt.end_of_stream _ _ ended
            (at_end rt message (unconsumed rt) (empty cap rt.buffer) sound refl (empty_lem ended))
      | inr more ↦
          read_more_goes_on cap c t remaining reliable framer decode_any options _ rt message sound
            more room
    ]

    -- A front of bytes that hold no whole frame holds none.
    act_on-Ended :
        (status : FrameStatus) (frame : List ℕ)
        → framer.try_frame (contents rt.buffer) ≡ status
        → E (act_on cap t framer decode_any options status frame rt message)
    unfolding act_on
    act_on-Ended (FrameStatus.ready s) frame e =
        absurd (ready-ne-need_more (sym (lawful.ready-append _ _ s e) ∙ incomplete))
    act_on-Ended FrameStatus.invalid_frame frame e =
        absurd (invalid-ne-need_more (sym (lawful.invalid-append _ _ e) ∙ incomplete))
    act_on-Ended FrameStatus.need_more_data frame e = read_more-Ended

  round-Ended :
      (rt : Runtime t.State) (message : Message)
      → Sound rt
      → framer.try_frame (unconsumed rt) ≡ FrameStatus.need_more_data
      → length (unconsumed rt) + 1 < cap
      → Ending cap c t remaining reliable.stream framer decode_any options
          (Ended (unconsumed rt) message)
          rt
          (round cap t framer decode_any options rt message)
  unfolding round
  round-Ended rt message sound incomplete fits =
      let (decides, shows, same) =
        try_extract_frame-Extracts cap c t framer lawful rt sound.valid in
      let same_bytes =
        unconsumed-Same cap c t remaining reliable.stream framer decode_any options same in
      Ending-SameButScratch cap c t remaining reliable.stream framer decode_any options same (
        rw (← same_bytes) (
          act_on-Ended _ message
            (SameButScratch-Sound cap c t remaining reliable.stream framer decode_any options sound
              same)
            (ap framer.try_frame same_bytes ∙ incomplete)
            (omega (arith, ap length same_bytes, fits)) _ _
            (ap (λ r. framer.try_frame (contents r)) same.buffer ∙ sym decides)))

  -- Over a reliable transport, when the framer would wait for more on all the pending bytes and
  -- they leave room in the ring, `poll` reads to the end of the stream: it returns end_of_stream if
  -- no byte is pending and frame_invalid if some are, leaves the message, and keeps the bytes
  -- pending. The framer is lawful (`Framing.Laws`), the capacity of the storage is 2 to 2^62, the
  -- runtime is sound, and the rounds given are more than the free slots of the ring and one.
  pub poll-Ended :
      (rounds : ℕ) (rt : Runtime t.State) (message : Message)
      → Sound rt
      → framer.try_frame (unconsumed rt) ≡ FrameStatus.need_more_data
      → length (unconsumed rt) + 1 < cap
      → measure cap rt < rounds
      → Returns cap c t remaining reliable.stream framer decode_any options
          (Ended (unconsumed rt) message)
          (poll cap t framer decode_any options rounds rt message)
  poll-Ended rounds rt message sound incomplete fits h =
      poll-Returns cap c t remaining reliable.stream framer decode_any options
        (Ended (unconsumed rt) message) (unconsumed rt) message
        (λ r r_sound e. rw (← e) (
          round-Ended r message r_sound (ap framer.try_frame e ∙ incomplete)
            (omega (arith, ap length e, fits))))
        rounds rt sound refl h
