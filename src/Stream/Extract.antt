-- ===== src/Stream/Extract.antt =====
-- `try_extract_frame`, against one attempt on the whole contents of the ring.
use universal_protocol_runti.Base.{
  ℕ, ◌≡◌, inl, inr, refl, sym, ap, ◌∙◌, false, List, [], ◌++◌, arith, length, drop, subspan,
  take_all, take-append-drop, subspan-append, Bool-cases,
}
use universal_protocol_runti.Ring
use universal_protocol_runti.Ring.{readable_bytes, readable_span, linearize, size}
use universal_protocol_runti.Ring.{has_wrapped_readable_data}
use universal_protocol_runti.Ring.Invariant.{IsCapacity, size-lt}
use universal_protocol_runti.Ring.Contents.{contents, length-contents}
use universal_protocol_runti.Ring.Spans.{readable_bytes-take, readable_size_all, linearize_whole}
use universal_protocol_runti.Framing.{Framer, FrameSlice, FrameStatus}
use universal_protocol_runti.Framing.Laws.{IsLawful}
use universal_protocol_runti.Transport.{Transport}
use universal_protocol_runti.Stream.{
  Runtime, frame_of, extract_linearized, extract_contiguous, try_extract_frame,
}

-- The ring is valid, and the scratch array has room for all of it.
pub record IsValid {State : Type 0} (cap : ℕ) (rt : Runtime State) : Type 0 where
  pub ring : Ring.Invariant.IsValid cap rt.buffer
  pub scratch : length rt.linearized_frame ≡ cap

-- Two runtimes that differ in the scratch array alone.
pub record SameButScratch {State : Type 0} (a b : Runtime State) : Type 0 where
  pub transport : b.transport ≡ a.transport
  pub buffer : b.buffer ≡ a.buffer
  pub end_of_stream : b.end_of_stream ≡ a.end_of_stream
  pub stats : b.stats ≡ a.stats
  pub scratch : length b.linearized_frame ≡ length a.linearized_frame

same : {State : Type 0} (rt : Runtime State) → SameButScratch rt rt
same rt = record {
  transport = refl;
  buffer = refl;
  end_of_stream = refl;
  stats = refl;
  scratch = refl;
}

-- Where nothing wraps, the readable span shows the contents.
all_readable :
    {State : Type 0} (cap : ℕ) (c : IsCapacity cap) (rt : Runtime State)
    → IsValid cap rt
    → has_wrapped_readable_data cap rt.buffer ≡ false
    → readable_bytes cap rt.buffer ≡ contents rt.buffer
all_readable cap c rt v w =
    readable_bytes-take cap c rt.buffer v.ring
    ∙ take_all _ (contents rt.buffer) (
        omega (
          arith,
          readable_size_all cap c rt.buffer v.ring w,
          length-contents cap c rt.buffer v.ring,
        ))

module _ (cap : ℕ) (c : IsCapacity cap) (t : Transport) (framer : Framer)
    (lawful : IsLawful framer) where
  -- What an attempt on the contents of the ring decides, with the scratch array as it may be left.
  abbrev pub Extracts : Runtime t.State → FrameStatus × List ℕ × Runtime t.State → Type 0
  Extracts rt r =
      (r.0 ≡ framer.try_frame (contents rt.buffer))
      × (r.1 ≡ frame_of (contents rt.buffer) r.0)
      × SameButScratch rt r.2

  extract_linearized-Extracts :
      (rt : Runtime t.State) (first : FrameStatus)
      → IsValid cap rt
      → first ≡ framer.try_frame (readable_bytes cap rt.buffer)
      → frame_of (contents rt.buffer) first ≡ []
      → Extracts rt (extract_linearized cap t framer rt first)
  unfolding extract_linearized
  extract_linearized-Extracts rt first v e n =
      elim (Bool-cases (has_wrapped_readable_data cap rt.buffer)) [
        | inl w ↦
            rw (w, (linearize_whole cap c rt.buffer rt.linearized_frame v.ring v.scratch).0)
              (
                refl,
                refl,
                record {
                  transport = refl;
                  buffer = refl;
                  end_of_stream = refl;
                  stats = refl;
                  scratch =
                      (linearize_whole cap c rt.buffer rt.linearized_frame v.ring v.scratch).1
                      ∙ sym v.scratch;
                },
              )
        | inr w ↦ rw w (e ∙ ap framer.try_frame (all_readable cap c rt v w), sym n, same rt)
      ]

  -- A frame found in the readable span is the frame of the whole contents.
  ready_in_span :
      (rt : Runtime t.State) (s : FrameSlice)
      → IsValid cap rt
      → framer.try_frame (readable_bytes cap rt.buffer) ≡ FrameStatus.ready s
      → (FrameStatus.ready s ≡ framer.try_frame (contents rt.buffer))
        × (subspan (readable_bytes cap rt.buffer) s.offset s.size
            ≡ subspan (contents rt.buffer) s.offset s.size)
  ready_in_span rt s v e = rw (← whole) (
    sym (lawful.ready-append shown rest s e),
    sym (subspan-append shown rest s.offset s.size (omega (arith, lawful.inside shown s e))),
  )
    where
      n : ℕ
      n = (readable_span cap rt.buffer).size

      shown : List ℕ
      shown = readable_bytes cap rt.buffer

      rest : List ℕ
      rest = drop n (contents rt.buffer)

      whole : shown ++ rest ≡ contents rt.buffer
      whole =
          ap (λ front. front ++ rest) (readable_bytes-take cap c rt.buffer v.ring)
          ∙ take-append-drop n (contents rt.buffer)

  extract_contiguous-Extracts :
      (rt : Runtime t.State) (first : FrameStatus)
      → IsValid cap rt
      → framer.try_frame (readable_bytes cap rt.buffer) ≡ first
      → Extracts rt (extract_contiguous cap t framer rt (readable_bytes cap rt.buffer) first)
  unfolding extract_contiguous
  extract_contiguous-Extracts rt (FrameStatus.ready s) v e =
      let (a, b) = ready_in_span rt s v e in (a, b, same rt)
  extract_contiguous-Extracts rt FrameStatus.need_more_data v e =
      extract_linearized-Extracts rt FrameStatus.need_more_data v (sym e) refl
  extract_contiguous-Extracts rt FrameStatus.invalid_frame v e =
      extract_linearized-Extracts rt FrameStatus.invalid_frame v (sym e) refl

  -- Wherever the readable bytes lie in the ring, also where they go round the end of its storage,
  -- `try_extract_frame` decides as one attempt of the framer on all of them, shows the frame's
  -- bytes, and changes nothing but the scratch array. The framer is lawful (`Framing.Laws`), the
  -- capacity of the storage is 2 to 2^62, and the ring is valid.
  pub try_extract_frame-Extracts :
      (rt : Runtime t.State) → IsValid cap rt → Extracts rt (try_extract_frame cap t framer rt)
  unfolding try_extract_frame
  try_extract_frame-Extracts rt v =
      extract_contiguous-Extracts rt (framer.try_frame (readable_bytes cap rt.buffer)) v refl
