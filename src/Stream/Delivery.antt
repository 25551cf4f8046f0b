-- ===== src/Stream/Delivery.antt =====
-- `poll` over a reliable transport, for a frame that is among the pending bytes.
use universal_protocol_runti.Base.{
  ℕ, ◌<◌, ◌≡◌, ◌≢◌, inl, inr, refl, sym, ap, ◌∙◌, true, List, arith, length, drop, subspan,
  Bool-cases, subspan-append,
}
use mathlib.Core.List.{append-nil}
use native.Mathlib.Decide.{dec_le}
use universal_protocol_runti.Core.{DecodeStatus}
use universal_protocol_runti.Ring.{free_space}
use universal_protocol_runti.Ring.Invariant.{IsCapacity, free_space-add-size}
use universal_protocol_runti.Ring.Contents.{contents, length-contents}
use universal_protocol_runti.Framing.{Framer, FrameSlice, FrameStatus}
use universal_protocol_runti.Framing.Laws.{IsLawful}
use universal_protocol_runti.Transport.{Transport}
use universal_protocol_runti.Transport.Laws.{IsReliable}
use universal_protocol_runti.Stream.{
  Runtime, StreamRuntimeOptions, PollResult, Round, frame_of, try_extract_frame, decode_frame,
  act_on, round, poll,
}
use universal_protocol_runti.Stream.Extract.{try_extract_frame-Extracts}
use universal_protocol_runti.Stream.Decode.{
  decoded, SameButScratch-Sound, frame_decoded-Decodes, Decodes-Sound, unconsumed-Same,
}
use universal_protocol_runti.Stream.Loop.{
  measure, Ending, ends, Ending-SameButScratch, Returns, poll-Returns,
}
use universal_protocol_runti.Stream.Fill.{pending, IsSound}
use universal_protocol_runti.Stream.Reliable.{read_more_goes_on}

ready_injective : {s s' : FrameSlice} → FrameStatus.ready s ≡ FrameStatus.ready s' → s ≡ s'
ready_injective e = cc

ready-ne-invalid : {s : FrameSlice} → FrameStatus.ready s ≢ FrameStatus.invalid_frame
ready-ne-invalid e = cc

ready-ne-need_more : {s : FrameSlice} → FrameStatus.ready s ≢ FrameStatus.need_more_data
ready-ne-need_more e = cc

module _ (cap : ℕ) (c : IsCapacity cap) (t : Transport) (remaining : t.State → List ℕ)
    (reliable : IsReliable t remaining) (framer : Framer) (lawful : IsLawful framer)
    {Message : Type 0} (decode_any : List ℕ → Message → DecodeStatus × Message)
    (options : StreamRuntimeOptions) where
  abbrev Sound : Runtime t.State → Type 0
  Sound = IsSound cap c t remaining reliable.stream

  abbrev unconsumed : Runtime t.State → List ℕ
  unconsumed = pending cap c t remaining reliable.stream

  -- What `poll` returns for the frame `s` in front of the pending bytes.
  abbrev pub Delivered :
      FrameSlice → List ℕ → Message → PollResult → Runtime t.State → Message → Type 0
  Delivered s bytes message result next message' =
      let (status, left) = decode_any (subspan bytes s.offset s.size) message in
      (result ≡ decoded options s.bytes_consumed status)
      × (message' ≡ left)
      × Sound next
      × (unconsumed next ≡ drop s.bytes_consumed bytes)

  module _ (s : FrameSlice) (rt : Runtime t.State) (message : Message) (sound : Sound rt)
      (found : framer.try_frame (unconsumed rt) ≡ FrameStatus.ready s)
      (fits : s.bytes_consumed < cap) where
    abbrev D : Round t.State Message → Type 0
    D =
        Ending cap c t remaining reliable.stream framer decode_any options
          (Delivered s (unconsumed rt) message) rt

    -- A frame in the contents is the frame of the pending bytes.
    ready-Delivered :
        (found_here : framer.try_frame (contents rt.buffer) ≡ FrameStatus.ready s)
        → D (
            decode_frame cap t framer decode_any options rt s
              (subspan (contents rt.buffer) s.offset s.size)
              message)
    unfolding decode_frame
    ready-Delivered found_here =
        let (status, left) = decode_any (subspan (contents rt.buffer) s.offset s.size) message in
        let d =
          frame_decoded-Decodes cap c t remaining reliable.stream framer decode_any options rt s
            status left in
        let inside = lawful.inside (contents rt.buffer) s found_here in
        let (next_sound, taken) =
          Decodes-Sound cap c t remaining reliable.stream framer decode_any options sound inside.1
            d in
        let shown =
          subspan-append (contents rt.buffer) (remaining rt.transport) s.offset s.size
            (omega (arith, inside)) in
        rw d.outcome (
          ends (
            ap (λ f. decoded options s.bytes_consumed (decode_any f message).0) (sym shown),
            ap (λ f. (decode_any f message).1) (sym shown),
            next_sound,
            taken,
          ))

    room :
        framer.try_frame (contents rt.buffer) ≡ FrameStatus.need_more_data
        → 0 < free_space cap rt.buffer
    room e = elim (dec_le s.bytes_consumed (length (contents rt.buffer))) [
      | yes h ↦ absurd (ready-ne-need_more (sym (lawful.ready_front _ _ s found h) ∙ e))
      | no h ↦ omega (
        arith,
        length-contents cap c rt.buffer sound.valid.ring,
        free_space-add-size cap c rt.buffer sound.valid.ring,
      )
    ]

    all_here : rt.end_of_stream ≡ true → unconsumed rt ≡ contents rt.buffer
    all_here ended = rw (sound.ended ended) (append-nil (contents rt.buffer))

    act_on-Delivered :
        (status : FrameStatus) (frame : List ℕ)
        → framer.try_frame (contents rt.buffer) ≡ status
        → frame ≡ frame_of (contents rt.buffer) status
        → D (act_on cap t framer decode_any options status frame rt message)
    unfolding act_on
    act_on-Delivered (FrameStatus.ready s') frame e q =
        let same_slice = ready_injective (sym (lawful.ready-append _ _ s' e) ∙ found) in
        let here = e ∙ ap FrameStatus.ready same_slice in rw (q, same_slice) (ready-Delivered here)
    act_on-Delivered FrameStatus.invalid_frame frame e q =
        absurd (ready-ne-invalid (sym found ∙ lawful.invalid-append _ _ e))
    act_on-Delivered FrameStatus.need_more_data frame e q = elim (Bool-cases rt.end_of_stream) [
      | inl ended ↦
          absurd (ready-ne-need_more (sym found ∙ ap framer.try_frame (all_here ended) ∙ e))
      | inr more ↦
          read_more_goes_on cap c t remaining reliable framer decode_any options _ rt message sound
            more (omega (arith, room e))
    ]

  round-Delivered :
      (s : FrameSlice) (rt : Runtime t.State) (message : Message)
      → Sound rt
      → framer.try_frame (unconsumed rt) ≡ FrameStatus.ready s
      → s.bytes_consumed < cap
      → Ending cap c t remaining reliable.stream framer decode_any options
          (Delivered s (unconsumed rt) message)
          rt
          (round cap t framer decode_any options rt message)
  unfolding round
  round-Delivered s rt message sound found fits =
      let (decides, shows, same) =
        try_extract_frame-Extracts cap c t framer lawful rt sound.valid in
      let same_pending =
        unconsumed-Same cap c t remaining reliable.stream framer decode_any options same in
      Ending-SameButScratch cap c t remaining reliable.stream framer decode_any options same (
        rw (← same_pending) (
          act_on-Delivered s _ message
            (SameButScratch-Sound cap c t remaining reliable.stream framer decode_any options sound
              same)
            (ap framer.try_frame same_pending ∙ found) fits _ _
            (ap (λ r. framer.try_frame (contents r)) same.buffer ∙ sym decides)
            (shows
              ∙ ap (λ r. frame_of (contents r) (try_extract_frame cap t framer rt).0)
                  (sym same.buffer))))

  -- Over a reliable transport, when the framer finds the frame `s` in front of the pending bytes
  -- and the frame fits in the ring, `poll` returns it: the result and the message are those of the
  -- decoder on the bytes of the frame, the result names the bytes that the frame takes, and these
  -- are gone from the pending bytes. The framer is lawful (`Framing.Laws`), the capacity of the
  -- storage is 2 to 2^62, the runtime is sound, the frame takes fewer bytes than the capacity, and
  -- the rounds given are more than the free slots of the ring and one.
  pub poll-Delivered :
      (rounds : ℕ) (s : FrameSlice) (rt : Runtime t.State) (message : Message)
      → Sound rt
      → framer.try_frame (unconsumed rt) ≡ FrameStatus.ready s
      → s.bytes_consumed < cap
      → measure cap rt < rounds
      → Returns cap c t remaining reliable.stream framer decode_any options
          (Delivered s (unconsumed rt) message)
          (poll cap t framer decode_any options rounds rt message)
  poll-Delivered rounds s rt message sound found fits h =
      poll-Returns cap c t remaining reliable.stream framer decode_any options
        (Delivered s (unconsumed rt) message) (unconsumed rt) message
        (λ r r_sound e.
          rw (← e) (round-Delivered s r message r_sound (ap framer.try_frame e ∙ found) fits))
        rounds rt sound refl h
