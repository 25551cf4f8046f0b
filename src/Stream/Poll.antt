-- ===== src/Stream/Poll.antt =====
-- `poll` over any transport of a stream of bytes.
use universal_protocol_runti.Base.{
  ℕ, ◌<◌, ◌≡◌, refl, sym, ap, ◌∙◌, Bool, true, false, List, arith, if◌then◌else◌, drop,
}
use universal_protocol_runti.Core.{DecodeStatus}
use universal_protocol_runti.Ring
use universal_protocol_runti.Ring.{free_space, consume}
use universal_protocol_runti.Ring.Invariant.{IsCapacity}
use universal_protocol_runti.Ring.Contents.{contents}
use universal_protocol_runti.Framing.{Framer, FrameStatus}
use universal_protocol_runti.Framing.Laws.{IsLawful}
use universal_protocol_runti.Transport.{Transport}
use universal_protocol_runti.Transport.Laws.{IsStream}
use universal_protocol_runti.Stream.{
  Runtime, StreamRuntimeOptions, PollResult, PollStatus, FillResult, Round, done, with_status,
  decode_frame, frame_error, after_fill, read_more, act_on, round, poll,
}
use universal_protocol_runti.Stream.Extract.{try_extract_frame-Extracts}
use universal_protocol_runti.Stream.Decode.{
  decoded_consumed, SameButScratch-Sound, frame_decoded-Decodes, Decodes-Sound, with_stats-Sound,
  unconsumed-Same,
}
use universal_protocol_runti.Stream.Loop.{
  measure, Ending, ends, goes_on, Ending-SameButScratch, Returns, poll-Returns,
}
use universal_protocol_runti.Stream.Fill.{pending, IsSound, Fills, fill_buffer-Fills}

module _ (cap : ℕ) (c : IsCapacity cap) (t : Transport) (remaining : t.State → List ℕ)
    (stream : IsStream t remaining) (framer : Framer) (lawful : IsLawful framer) {Message : Type 0}
    (decode_any : List ℕ → Message → DecodeStatus × Message) (options : StreamRuntimeOptions) where
  abbrev Sound : Runtime t.State → Type 0
  Sound = IsSound cap c t remaining stream

  abbrev unconsumed : Runtime t.State → List ℕ
  unconsumed = pending cap c t remaining stream

  -- What holds when `poll` returns: the bytes that it consumed are gone from those pending.
  abbrev pub Kept : List ℕ → PollResult → Runtime t.State → Message → Type 0
  Kept bytes result next message = Sound next × (unconsumed next ≡ drop result.bytes_consumed bytes)

  abbrev Rounds : Runtime t.State → Round t.State Message → Type 0
  Rounds rt = Ending cap c t remaining stream framer decode_any options (Kept (unconsumed rt)) rt

  after_fill-Rounds :
      (rt next : Runtime t.State) (fill : FillResult) (message : Message)
      → rt.end_of_stream ≡ false
      → Fills cap c t remaining stream rt fill next
      → Rounds rt (after_fill cap t framer decode_any options fill next message)
  unfolding after_fill
  after_fill-Rounds rt next FillResult.read_some message e f =
      goes_on f.sound f.kept (ground (arith, f.grown refl))
  after_fill-Rounds rt next FillResult.end_of_stream message e f =
      goes_on f.sound f.kept (ground (arith, f.at_end refl))
  after_fill-Rounds rt next FillResult.would_block message e f = ends (f.sound, f.kept)
  after_fill-Rounds rt next FillResult.no_space message e f = ends (f.sound, f.kept)
  after_fill-Rounds rt next FillResult.transport_error message e f = ends (f.sound, f.kept)

  -- The branches of `read_more`, on any two tests.
  branches-Rounds :
      (rt : Runtime t.State) (r : Round t.State Message) (message : Message) (ended empty : Bool)
      → Sound rt
      → (ended ≡ false → Rounds rt r)
      → Rounds rt (
          if ended
          then if empty
            then done (with_status PollStatus.end_of_stream) rt message
            else done
                (with_status PollStatus.frame_invalid)
                (frame_error cap t framer decode_any options rt)
                message
          else r)
  branches-Rounds rt r message true true sound f = ends (sound, refl)
  branches-Rounds rt r message true false sound f =
      ends (with_stats-Sound cap c t remaining stream framer decode_any options rt _ sound, refl)
  branches-Rounds rt r message false empty sound f = f refl

  read_more-Rounds :
      (rt : Runtime t.State) (message : Message)
      → Sound rt
      → Rounds rt (read_more cap t framer decode_any options rt message)
  unfolding read_more
  read_more-Rounds rt message sound =
      branches-Rounds rt _ message rt.end_of_stream (Ring.empty cap rt.buffer) sound (λ e.
        after_fill-Rounds rt _ _ message e (fill_buffer-Fills cap c t remaining stream rt sound))

  act_on-Rounds :
      (rt : Runtime t.State) (status : FrameStatus) (frame : List ℕ) (message : Message)
      → Sound rt
      → framer.try_frame (contents rt.buffer) ≡ status
      → Rounds rt (act_on cap t framer decode_any options status frame rt message)
  unfolding act_on decode_frame
  act_on-Rounds rt FrameStatus.need_more_data frame message sound e =
      read_more-Rounds rt message sound
  act_on-Rounds rt FrameStatus.invalid_frame frame message sound e =
      ends (with_stats-Sound cap c t remaining stream framer decode_any options rt _ sound, refl)
  act_on-Rounds rt (FrameStatus.ready s) frame message sound e =
      let (status, message') = decode_any frame message in
      let d =
        frame_decoded-Decodes cap c t remaining stream framer decode_any options rt s status
          message' in
      let (next_sound, taken) =
        Decodes-Sound cap c t remaining stream framer decode_any options sound
          (lawful.inside (contents rt.buffer) s e).1 d in
      rw d.outcome (ends (next_sound, rw (decoded_consumed options s.bytes_consumed status) taken))

  round-Rounds :
      (rt : Runtime t.State) (message : Message)
      → Sound rt
      → Rounds rt (round cap t framer decode_any options rt message)
  unfolding round
  round-Rounds rt message sound =
      let (decides, shows, same) =
        try_extract_frame-Extracts cap c t framer lawful rt sound.valid in
      Ending-SameButScratch cap c t remaining stream framer decode_any options same (
        rw (← unconsumed-Same cap c t remaining stream framer decode_any options same) (
          act_on-Rounds _ _ _ message
            (SameButScratch-Sound cap c t remaining stream framer decode_any options sound same)
            (ap (λ r. framer.try_frame (contents r)) same.buffer ∙ sym decides)))

  -- Every call of `poll` on a sound runtime returns, after at most one round more than the ring has
  -- slots, whatever the transport sends and the decoder answers. The runtime stays sound, and the
  -- bytes still pending are those pending before without the `bytes_consumed` of the result in
  -- front. The framer is lawful (`Framing.Laws`), the transport is a stream, and the capacity of
  -- the storage is 2 to 2^62.
  pub poll_total :
      (rounds : ℕ) (rt : Runtime t.State) (message : Message)
      → Sound rt
      → measure cap rt < rounds
      → Returns cap c t remaining stream framer decode_any options
          (Kept (unconsumed rt))
          (poll cap t framer decode_any options rounds rt message)
  poll_total rounds rt message sound h =
      poll-Returns cap c t remaining stream framer decode_any options (Kept (unconsumed rt))
        (unconsumed rt) message (λ r r_sound e. rw (← e) (round-Rounds r message r_sound)) rounds rt
        sound refl h
