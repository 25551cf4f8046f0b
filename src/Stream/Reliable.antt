-- ===== src/Stream/Reliable.antt =====
-- `fill_buffer` and the branch of `poll` that reads more, over a reliable transport.
use universal_protocol_runti.Base.{ℕ, ◌<◌, ◌≡◌, ◌⊎◌, inl, inr, false, List, arith, if_false_elim}
use universal_protocol_runti.Core.{DecodeStatus}
use universal_protocol_runti.Ring.{free_space, writable_span}
use universal_protocol_runti.Ring.Invariant.{IsCapacity, writable_span_pos}
use universal_protocol_runti.Framing.{Framer}
use universal_protocol_runti.Transport.{Transport}
use universal_protocol_runti.Transport.Laws.{IsReliable}
use universal_protocol_runti.Stream.{
  Runtime, StreamRuntimeOptions, PollResult, FillResult, fill_buffer, filled, after_fill, read_more,
}
use universal_protocol_runti.Stream.Loop.{Ending, goes_on}
use universal_protocol_runti.Stream.Fill.{IsSound, Fills, fill_buffer-Fills, ==_of_ne}

module _ (cap : ℕ) (c : IsCapacity cap) (t : Transport) (remaining : t.State → List ℕ)
    (reliable : IsReliable t remaining) where
  -- What a fill of a ring with room returns.
  abbrev IsMore : FillResult → Type 0
  IsMore fill = (fill ≡ FillResult.read_some) ⊎ (fill ≡ FillResult.end_of_stream)

  filled-IsMore :
      (rt : Runtime t.State) (n : ℕ)
      → 0 < n
      → IsMore
          (filled cap t rt
            (t.read rt.transport n).0
            (t.read rt.transport n).1
            (t.read rt.transport n).2).0
  unfolding filled
  filled-IsMore rt n h = ground (
    arith,
    reliable.succeeds rt.transport n,
    reliable.serves rt.transport n,
    reliable.advances rt.transport n h,
  )

  fill_buffer-IsMore :
      (rt : Runtime t.State)
      → IsSound cap c t remaining reliable.stream rt
      → 0 < free_space cap rt.buffer
      → IsMore (fill_buffer cap t rt).0
  unfolding fill_buffer
  fill_buffer-IsMore rt sound h =
      let pos = writable_span_pos cap c rt.buffer sound.valid.ring h in
      rw (==_of_ne (writable_span cap rt.buffer).size (omega arith))
        (filled-IsMore rt (writable_span cap rt.buffer).size pos)

  module _ (framer : Framer) {Message : Type 0}
      (decode_any : List ℕ → Message → DecodeStatus × Message) (options : StreamRuntimeOptions)
      (P : PollResult → Runtime t.State → Message → Type 0) where
    after_more :
        (rt next : Runtime t.State) (fill : FillResult) (message : Message)
        → rt.end_of_stream ≡ false
        → IsMore fill
        → Fills cap c t remaining reliable.stream rt fill next
        → Ending cap c t remaining reliable.stream framer decode_any options P rt
            (after_fill cap t framer decode_any options fill next message)
    unfolding after_fill
    after_more rt next fill message e (inl q) f =
        rw q (goes_on f.sound f.kept (ground (arith, f.grown q)))
    after_more rt next fill message e (inr q) f =
        rw q (goes_on f.sound f.kept (ground (arith, f.at_end q)))

    -- With room in the ring and no end of the stream yet, the loop goes on.
    pub read_more_goes_on :
        (rt : Runtime t.State) (message : Message)
        → IsSound cap c t remaining reliable.stream rt
        → rt.end_of_stream ≡ false
        → 0 < free_space cap rt.buffer
        → Ending cap c t remaining reliable.stream framer decode_any options P rt
            (read_more cap t framer decode_any options rt message)
    unfolding read_more
    read_more_goes_on rt message sound e h =
        if_false_elim (Ending cap c t remaining reliable.stream framer decode_any options P rt)
          rt.end_of_stream _ _ e
          (after_more rt _ _ message e (fill_buffer-IsMore rt sound h)
            (fill_buffer-Fills cap c t remaining reliable.stream rt sound))
