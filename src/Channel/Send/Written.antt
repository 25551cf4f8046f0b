-- ===== src/Channel/Send/Written.antt =====
-- `send_frame` (adapters/frame_channel.cpp) over a transport that takes some of what it is offered at
-- each write.
use mathlib.Core.List.{append-nil, append_assoc}
use universal_protocol_runti.Base.{
  ◌^◌, ℕ, zero, suc, ◌+◌, ◌≤◌, ◌<◌, ◌≡◌, refl, sym, ap, ◌∙◌, Bool, true, false, List, [], ◌∷◌, ◌++◌,
  Option, some, arith, length, take, drop, length-append, length-drop, take-append_le,
  take-append-drop,
}
use mathlib.Core.Path.{subst}
use universal_protocol_runti.Core.{little_endian, AreBytes}
use universal_protocol_runti.Scalar.Value
use universal_protocol_runti.Scalar.Value.{
  bytes_of, length-bytes_of, AreBytes-bytes_of, value-bytes_of,
}
use universal_protocol_runti.Channel.Prefix.{
  encode_little_endian-little_bytes, length-encode_little_endian,
}
use universal_protocol_runti.Status.{Status, StatusOr, value, is_ok, ok_status}
use universal_protocol_runti.Channel.{
  ByteStreamTransport, FrameChannel, FrameChannelOptions, WriteResult, encode_little_endian,
}
use universal_protocol_runti.Channel.Send.{
  skip_written, pending_spans, advance, after_wait, write_pending, write_spans_fully, send_frame,
}
use universal_protocol_runti.Channel.Send.Spans.{
  concat, unwritten, unwritten-skip_written, pending_front, unwritten-advance, skip_written_head,
  pending_some,
}

-- One write of these bytes: it succeeds, and takes a front of them, which is not empty if they are
-- not.
pub record IsWrite {State : Type 0} (sent : State → List ℕ) (before : State) (bytes : List ℕ)
    (r : WriteResult) (after : State) : Type 0 where
  pub succeeds : is_ok r.status.code ≡ true
  pub fits : r.bytes_written ≤ length bytes
  pub progress : 0 < length bytes → 0 < r.bytes_written
  pub taken : sent after ≡ sent before ++ take r.bytes_written bytes

-- A transport whose peer reads. `sent` is what it has taken so far.
pub record IsWriter (t : ByteStreamTransport) (sent : t.base.State → List ℕ) : Type 0 where
  pub writev_lem :
      (st : t.base.State) (spans : List (List ℕ))
      → IsWrite sent st (concat spans) (t.writev st spans).0 (t.writev st spans).1
  pub waits : (st : t.base.State) (n : ℕ) → (t.wait_until_writable st n).0 ≡ value true
  pub keeps : (st : t.base.State) (n : ℕ) → sent (t.wait_until_writable st n).1 ≡ sent st

module _ (t : ByteStreamTransport) (sent : t.base.State → List ℕ) (writer : IsWriter t sent) where
  -- A call that has returned with success after sending these bytes.
  abbrev pub Sends : t.base.State → List ℕ → Option (Status × t.base.State) → Type 0
  Sends st bytes answer =
      (next : t.base.State) × (answer ≡ some (ok_status, next)) × (sent next ≡ sent st ++ bytes)

  -- One write of the pending spans takes a front of what is unwritten.
  write_front :
      (st : t.base.State) (spans : List (List ℕ)) (offset n : ℕ)
      → n ≤ length (concat (pending_spans spans offset))
      → take n (concat (pending_spans spans offset)) ≡ take n (unwritten spans offset)
  write_front st spans offset n h =
      let (rest, e) = pending_front spans offset in sym (ap (take n) e ∙ take-append_le n _ rest h)

  all_taken : (n : ℕ) (bytes : List ℕ) → drop n bytes ≡ [] → take n bytes ≡ bytes
  all_taken n bytes e =
      sym (append-nil (take n bytes)) ∙ ap (◌++◌ (take n bytes)) (sym e) ∙ take-append-drop n bytes

  -- The spans that are left, and the rest of the loop.
  after_write :
      (before written waited : t.base.State) (result : WriteResult) (writable : StatusOr Bool)
      (spans : List (List ℕ)) (offset : ℕ) (left : List (List ℕ) × ℕ)
      (rest : Option (Status × t.base.State))
      → is_ok result.status.code ≡ true
      → 0 < result.bytes_written
      → writable ≡ value true
      → unwritten left.0 left.1 ≡ drop result.bytes_written (unwritten spans offset)
      → sent written ≡ sent before ++ take result.bytes_written (unwritten spans offset)
      → sent waited ≡ sent written
      → Sends waited (unwritten left.0 left.1) rest
      → Sends before
          (unwritten spans offset)
          (write_pending t written result left (writable, waited) rest)
  unfolding write_pending after_wait unwritten
  after_write before written waited result writable spans offset ([], o) rest ok pos w e f g h =
      rw ok (written, refl, f ∙ ap (◌++◌ (sent before)) (all_taken result.bytes_written _ (sym e)))
  after_write before written waited result writable spans offset (s ∷ ss, o) rest ok pos w e f g h =
      let (next, returned, all) = h in
      (
        next,
        ground (arith, returned),
        all
            ∙ ap (λ front. front ++ unwritten (s ∷ ss) o) (g ∙ f)
            ∙ ap
                (λ back.
                  (sent before ++ take result.bytes_written (unwritten spans offset)) ++ back)
                e
            ∙ append_assoc (sent before) _ _
            ∙ ap (◌++◌ (sent before))
                (take-append-drop result.bytes_written (unwritten spans offset)),
      )

  -- A round, once the spans that are written already are skipped.
  after_skip :
      (rounds : ℕ) (st : t.base.State) (pending : List (List ℕ)) (offset : ℕ)
      → ((span : List ℕ) (rest : List (List ℕ)) → pending ≡ span ∷ rest → offset < length span)
      → ((next : t.base.State) (spans : List (List ℕ)) (o : ℕ)
          → length (unwritten spans o) < length (unwritten pending offset)
          → Sends next (unwritten spans o) (write_spans_fully t rounds next spans o))
      → Sends st (unwritten pending offset) (
          let (result, written) = t.writev st (pending_spans pending offset) in
          let left = advance pending offset result.bytes_written in
          let waited = t.wait_until_writable written 1000 in
          let rest = write_spans_fully t rounds waited.1 left.0 left.1 in
          elim pending [
            | [] ↦ some (ok_status, st)
            | _ ∷ _ ↦ write_pending t written result left waited rest
          ])
  unfolding unwritten
  after_skip rounds st [] offset head later = (st, refl, sym (append-nil (sent st)))
  after_skip rounds st (span ∷ spans) offset head later =
      let pending = span ∷ spans in
      let offered = pending_spans pending offset in
      let result = (t.writev st offered).0 in
      let w = writer.writev_lem st offered in
      let pos = w.progress (pending_some spans span offset (head span spans refl)) in
      let shown = write_front st pending offset result.bytes_written w.fits in
      let (rest, front) = pending_front pending offset in
      let left = unwritten-advance pending offset result.bytes_written in
      after_write st _ _ result _ pending offset _ _ w.succeeds pos (writer.waits _ 1000) left
        (w.taken ∙ ap (◌++◌ (sent st)) shown) (writer.keeps _ 1000)
        (later _ _ _ (
          omega (
            arith,
            ap length left,
            ap length front,
            length-append (concat offered) rest,
            length-drop result.bytes_written (unwritten pending offset),
            w.fits,
            pos,
          )))

  -- The loop sends all that is unwritten, within one round more than there are bytes.
  write_spans_fully-Sends :
      (rounds : ℕ) (st : t.base.State) (spans : List (List ℕ)) (offset : ℕ)
      → length (unwritten spans offset) < rounds
      → Sends st (unwritten spans offset) (write_spans_fully t rounds st spans offset)
  unfolding write_spans_fully
  write_spans_fully-Sends zero st spans offset h = absurd (omega arith)
  write_spans_fully-Sends (suc rounds) st spans offset h =
      rw (← unwritten-skip_written spans offset) (
        after_skip rounds st (skip_written spans offset).0 (skip_written spans offset).1
          (λ span rest e. skip_written_head spans rest span offset e)
          (λ next left o less.
            write_spans_fully-Sends rounds next left o
              (omega (arith, ap length (unwritten-skip_written spans offset)))))

  -- What the code sends before the frame.
  send_frame_prefixed :
      (rounds : ℕ) (options : FrameChannelOptions) (ch : FrameChannel t.base.State) (frame : List ℕ)
      → t.preserves_frame_boundaries ch.transport ≡ false
      → length frame ≤ options.max_frame_size
      → length (encode_little_endian (length frame) options.prefix_width_bytes) + length frame
        < rounds
      → Sends ch.transport
          (encode_little_endian (length frame) options.prefix_width_bytes ++ frame)
          (send_frame t rounds options ch frame)
  unfolding send_frame unwritten
  send_frame_prefixed rounds options ch frame p h k =
      let prefix = encode_little_endian (length frame) options.prefix_width_bytes in
      let whole = ap (◌++◌ prefix) (append-nil frame) in
      let (next, e, s) =
        write_spans_fully-Sends rounds ch.transport (prefix ∷ frame ∷ []) 0
          (omega (arith, ap length whole, length-append prefix frame)) in
      (next, ground (arith, p, e), s ∙ ap (◌++◌ (sent ch.transport)) whole)

  -- `send_frame`, over a transport that keeps no frame boundaries, takes some of what it is offered at
  -- every write and is always writable again when it is waited for: for a frame of an accepted size
  -- that the prefix can carry, in a prefix of at most 8 bytes, it returns success, within one round
  -- more than the frame and its prefix have bytes. What was sent is a prefix of the set width,
  -- bytes of which the first counts least and which have the size of the frame as their value, and
  -- then the bytes of the frame.
  pub send_frame-Sends :
      (rounds : ℕ) (options : FrameChannelOptions) (ch : FrameChannel t.base.State) (frame : List ℕ)
      → t.preserves_frame_boundaries ch.transport ≡ false
      → length frame ≤ options.max_frame_size
      → options.prefix_width_bytes ≤ 8
      → length frame < 256 ^ options.prefix_width_bytes
      → options.prefix_width_bytes + length frame < rounds
      → (prefix : List ℕ) × AreBytes prefix
        × (length prefix ≡ options.prefix_width_bytes)
        × (Value.value little_endian prefix ≡ length frame)
        × Sends ch.transport (prefix ++ frame) (send_frame t rounds options ch frame)
  send_frame-Sends rounds options ch frame p h w fits k =
      let width = options.prefix_width_bytes in
      let prefix = bytes_of little_endian width (length frame) in
      let same : encode_little_endian (length frame) width ≡ prefix =
        unfold bytes_of in encode_little_endian-little_bytes (length frame) width in
      (
        prefix,
        AreBytes-bytes_of little_endian width (length frame),
        length-bytes_of little_endian width (length frame),
        value-bytes_of little_endian width (length frame) fits,
        subst (λ bytes. Sends ch.transport (bytes ++ frame) (send_frame t rounds options ch frame))
            same
            (send_frame_prefixed rounds options ch frame p h
              (omega (arith, k, length-encode_little_endian (length frame) width))),
      )
