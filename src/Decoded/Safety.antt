-- ===== src/Decoded/Safety.antt =====
-- What `DecodedMessage::assign_from_layout` promises of the message that it assigns.
use universal_protocol_runti.Base.{
  ℕ, zero, suc, ◌^◌, ◌≤◌, ◌<◌, ◌≡◌, refl, sym, ap, ◌∙◌, Bool, true, false, List, Option, none,
  length, get_elem?, take, arith, ◌==◌, ◌&&◌, ltb, if◌then◌else◌, not, ltb→le,
}
use universal_protocol_runti.ByteOps.{ByteOps}
use universal_protocol_runti.Outcome.{
  Outcome, Ensures, holds, Ensures->>=, Ensures-fail_if, Ensures-mono,
}
use universal_protocol_runti.Layout.{CompiledMessage, CompiledProtocol}
use universal_protocol_runti.Decoded.{DecodedMessage}
use universal_protocol_runti.Decoded.Assign.{candidate, finish, assign_with, assign_from_layout}
use universal_protocol_runti.Decoded.Compiled.{FieldsOk, IsCompiled}
use universal_protocol_runti.Decoded.Checks.{
  ChecksumsHold, ValidationsHold, check_checksums-Hold, check_validations-Hold,
}
use universal_protocol_runti.Decoded.Invariant.{Running}
use universal_protocol_runti.Decoded.Fields.{decode_fields-Running}

-- The message and the number of bytes that a decoding of the frame by the layout leaves. The message
-- with the whole frame in place of its own is as the loop over the fields leaves it.
pub record IsDecoded (ops : ByteOps) (protocol : CompiledProtocol) (layout : CompiledMessage)
    (frame : List ℕ) (prefix : Bool) (r : DecodedMessage × ℕ) : Type 0 where
  pub running :
      Running ops protocol layout frame (length layout.fields) (record (r.0) { frame = frame }) r.1
  pub few : length layout.fields ≤ 64
  pub frame_is : (r.0).frame ≡ (if layout.allow_trailing_bytes then frame else take r.1 frame)
  pub whole : prefix ≡ false → layout.allow_trailing_bytes ≡ false → r.1 ≡ length frame
  pub checksums_hold : ChecksumsHold ops (record (r.0) { frame = frame }) layout.checksums
  pub validations_hold : ValidationsHold (record (r.0) { frame = frame }) layout.validations

ends_whole :
    (prefix allow : Bool) (offset n : ℕ)
    → (not prefix && not allow && not (offset == n)) ≡ false
    → prefix ≡ false
    → allow ≡ false
    → offset ≡ n
ends_whole prefix allow offset n e p a = ground (arith, e, p, a)

module _ (ops : ByteOps) (protocol : CompiledProtocol) (layout : CompiledMessage) (frame : List ℕ)
    (prefix : Bool) (few : length layout.fields ≤ 64) where
  -- Either of the frames that the message may be left with.
  with_frame :
      (b : Bool) (m : DecodedMessage) (offset : ℕ)
      → Running ops protocol layout frame (length layout.fields) m offset
      → b ≡ layout.allow_trailing_bytes
      → (prefix ≡ false → layout.allow_trailing_bytes ≡ false → offset ≡ length frame)
      → ChecksumsHold ops m layout.checksums
      → ValidationsHold m layout.validations
      → IsDecoded ops protocol layout frame prefix
          ((if b then m else record m { frame = take offset m.frame }), offset)
  with_frame b m offset r e w c v =
      let same : record m { frame = frame } ≡ m =
        ap (λ (f : List ℕ). record m { frame = f }) (sym r.frame_is) in
      let run : Running ops protocol layout frame (length layout.fields)
          (record m { frame = frame }) offset =
        rw same r in
      let sums : ChecksumsHold ops (record m { frame = frame }) layout.checksums = rw same c in
      let rules : ValidationsHold (record m { frame = frame }) layout.validations = rw same v in
      elim b
          as (λ b'.
            b' ≡ layout.allow_trailing_bytes
            → IsDecoded ops protocol layout frame prefix
                ((if b' then m else record m { frame = take offset m.frame }), offset)) [
                  | true ↦ λ e'. record {
                    running = run;
                    few = few;
                    frame_is = r.frame_is ∙ ap (λ b'. if b' then frame else take offset frame) e';
                    whole = w;
                    checksums_hold = sums;
                    validations_hold = rules;
                  }
                  | false ↦ λ e'. record {
                    running = run;
                    few = few;
                    frame_is =
                        ap (take offset) r.frame_is
                        ∙ ap (λ b'. if b' then frame else take offset frame) e';
                    whole = w;
                    checksums_hold = sums;
                    validations_hold = rules;
                  }
                ]
        e

  finish-IsDecoded :
      (r : DecodedMessage × ℕ)
      → Running ops protocol layout frame (length layout.fields) r.0 r.1
      → Ensures (IsDecoded ops protocol layout frame prefix) (finish ops layout prefix r)
  unfolding finish
  finish-IsDecoded (m, offset) r =
      Ensures-fail_if
        (not prefix && not layout.allow_trailing_bytes && not (offset == length m.frame)) _
        (λ e. Ensures->>= (check_checksums-Hold ops m layout.checksums) (λ _ c.
          Ensures->>= (check_validations-Hold m layout.validations) (λ _ v. holds (
            with_frame layout.allow_trailing_bytes m offset r refl
              (λ p a.
                ends_whole prefix layout.allow_trailing_bytes offset (length m.frame) e p a
                ∙ ap length r.frame_is)
              c v))))

assign_with-IsDecoded :
    (ops : ByteOps) (protocol : CompiledProtocol)
    (nested : CompiledMessage → List ℕ → Outcome (DecodedMessage × ℕ))
    (P : CompiledMessage → Type 0)
    → ((layout : CompiledMessage) (bytes : List ℕ)
        → P layout
        → length bytes < 2 ^ 63
        → Ensures (λ (r : DecodedMessage × ℕ). r.1 ≤ length bytes) (nested layout bytes))
    → (layout : CompiledMessage) (frame : List ℕ) (selected : Option (ℕ → Bool)) (prefix : Bool)
    → FieldsOk protocol P 0 layout.fields
    → length frame < 2 ^ 63
    → Ensures
        (IsDecoded ops protocol layout frame prefix)
        (assign_with ops protocol nested layout frame selected prefix)
unfolding assign_with
assign_with-IsDecoded ops protocol nested P decodes layout frame selected prefix ok short =
    Ensures-fail_if (ltb 64 (length layout.fields)) _ (λ e.
      Ensures-fail_if (ltb (length frame) layout.minimum_size) _ (λ e'.
        Ensures->>=
          (decode_fields-Running ops protocol nested P decodes layout frame
            (ltb→le 64 (length layout.fields) e) short layout.fields 0
            (candidate protocol layout frame selected) 0
            (record {
              message_is = refl;
              protocol_is = refl;
              frame_is = refl;
              count_is = refl;
              offset_le = omega arith;
              untouched = λ i h. (refl, refl);
              settled = λ i field h. absurd (omega arith);
              before = λ i h. absurd (omega arith);
              ordered = λ i j h h'. absurd (omega arith);
            })
            ok (λ j. ap (get_elem? layout.fields) (omega arith)) (omega arith))
          (λ r run.
            finish-IsDecoded ops protocol layout frame prefix (ltb→le 64 (length layout.fields) e) r
              run)))

-- Where the layout is compiled as the schema compiler does it, nests less than `depth` deep, and the
-- frame is shorter than half of the address space: decoding needs no more fuel than `depth` and makes no
-- access out of bounds, and if it ends with `kOk`, then: every present field lies inside of the bytes
-- consumed, these inside of the frame, and the present fields follow each other without overlap; a
-- cached scalar is what the bytes of its field say; expected values, text encodings, reserved bytes,
-- checksums and validation rules are all as the layout asks; and the whole frame is consumed unless
-- trailing bytes are allowed.
pub assign_from_layout-IsDecoded :
    (ops : ByteOps) (protocol : CompiledProtocol) (depth : ℕ) (layout : CompiledMessage)
    (frame : List ℕ) (selected : Option (ℕ → Bool)) (prefix : Bool)
    → IsCompiled protocol depth layout
    → length frame < 2 ^ 63
    → Ensures
        (IsDecoded ops protocol layout frame prefix)
        (assign_from_layout ops protocol depth layout frame selected prefix)
unfolding assign_from_layout
assign_from_layout-IsDecoded ops protocol zero layout frame selected prefix ok short = absurd ok
assign_from_layout-IsDecoded ops protocol (suc depth) layout frame selected prefix ok short =
    assign_with-IsDecoded ops protocol
      (λ nested_layout bytes. assign_from_layout ops protocol depth nested_layout bytes none true)
      (IsCompiled protocol depth)
      (λ nested_layout bytes ok' short'.
        Ensures-mono
          (assign_from_layout-IsDecoded ops protocol depth nested_layout bytes none true ok' short')
          (λ r d. (d.running).offset_le))
      layout frame selected prefix ok short
