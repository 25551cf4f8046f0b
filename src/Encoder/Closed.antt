-- ===== src/Encoder/Closed.antt =====
-- A finalized `MessageBuilder` (packages/upr_runtime/src/encoder/message_encoder.cpp) takes no further
-- field.
use mathlib.Core.Path.{subst}
use universal_protocol_runti.Base.{
  ℕ, ◌+◌, ◌-◌, ◌≡◌, refl, sym, ap, ◌∙◌, Bool, true, false, not, ◌||◌, ◌&&◌, List, [], ◌∷◌, Option,
  some, none, length, leb, ltb, ◌==◌, if◌then◌else◌, arith, subspan, copy_at,
}
use universal_protocol_runti.ByteOps.{ByteOps}
use universal_protocol_runti.Layout.{ChecksumAnchorKind}
use universal_protocol_runti.Decoded.{is_unsigned_or_enum}
use universal_protocol_runti.Layout.{
  CompiledField, CompiledMessage, CompiledChecksum, CompiledValidationRule, FieldKind,
}
use universal_protocol_runti.Encoder.{
  entry, scalar_bytes, EncodeStatus, MessageBuilder, Built, Building, built, refused, fault, ◌>>=◌,
  gets, refuse_if, fail_if, field_at, write_until, advance_to, out_of_order, set_scalar,
  set_payload,
}
use universal_protocol_runti.Encoder.Finalize.{
  noted_offset, checksum_range, or_fail, overwrite, span_of, write_checksum, write_checksums,
  read_scalar, rule_applies, right_side, compare_with, validation_passes, validations_pass, close,
  finalize, resolve_anchor, is_frame_start, is_before_self, equals, sides_match,
  compute_builtin_checksum,
}
use universal_protocol_runti.Encoder.Steady.{
  Keeps-entry, Keeps-scalar_bytes, IsSteady, Ends, ended, stopped, faulted, Ends->>=, Keeps,
  Keeps->>=, Keeps-gets, Keeps-fail_if, Keeps-field_at, Keeps-if, Keeps-inside, Keeps-note,
  Keeps-write_until,
}

Keeps-or_fail {ℓ} : {A : Type ℓ} (o : Option A) → Keeps (or_fail o)
Keeps-or_fail none b = stopped
Keeps-or_fail (some a) b =
    ended (record { layout_same = refl; failed_same = refl; next_same = refl })

Keeps-overwrite : (start : ℕ) (bytes : List ℕ) → Keeps (overwrite start bytes)
Keeps-overwrite start bytes =
    Keeps-inside (λ b. leb (start + length bytes) (length b.buffer)) (λ b. tt)
      (λ b. record b { buffer = copy_at b.buffer start bytes })
      (λ b. record { layout_same = refl; failed_same = refl; next_same = refl })

Keeps-span_of : (from to : ℕ) → Keeps (span_of from to)
Keeps-span_of from to =
    Keeps-inside (λ b. leb to (length b.buffer)) (λ b. subspan b.buffer from (to - from)) (λ b. b)
      (λ b. record { layout_same = refl; failed_same = refl; next_same = refl })

Keeps-noted_offset : (id : ℕ) (offsets : MessageBuilder → ℕ → ℕ) → Keeps (noted_offset id offsets)
Keeps-noted_offset id offsets b = go (leb (length b.layout.fields) id)
  where
    go :
        (x : Bool)
        → Ends
            (λ (o : Option ℕ) (c : MessageBuilder). IsSteady b c)
            (if x then built none b else entry id (λ b. some (offsets b id)) b)
    go true = ended (record { layout_same = refl; failed_same = refl; next_same = refl })
    go false = Keeps-entry id (λ b. some (offsets b id)) b

Keeps-resolve_anchor :
    (kind : ChecksumAnchorKind) (field_id : ℕ) → Keeps (resolve_anchor kind field_id)
unfolding resolve_anchor
Keeps-resolve_anchor ChecksumAnchorKind.frame_start field_id = Keeps-gets (λ b. some 0)
Keeps-resolve_anchor ChecksumAnchorKind.frame_end field_id = Keeps-gets (λ b. some b.offset)
Keeps-resolve_anchor ChecksumAnchorKind.field_start field_id =
    Keeps-noted_offset field_id (λ b. b.field_starts)
Keeps-resolve_anchor ChecksumAnchorKind.before_self field_id =
    Keeps-noted_offset field_id (λ b. b.field_starts)
Keeps-resolve_anchor ChecksumAnchorKind.field_end field_id =
    Keeps-noted_offset field_id (λ b. b.field_ends)
Keeps-resolve_anchor ChecksumAnchorKind.after_self field_id =
    Keeps-noted_offset field_id (λ b. b.field_ends)

Keeps-checksum_range : (checksum : CompiledChecksum) → Keeps (checksum_range checksum)
unfolding checksum_range
Keeps-checksum_range checksum =
    Keeps-if
      (is_frame_start checksum.from.kind
        && (is_before_self checksum.to.kind && checksum.to.field_id == checksum.field_id))
      (Keeps-entry checksum.field_id (λ b. (0, b.field_starts checksum.field_id)))
      (Keeps->>= (resolve_anchor checksum.from.kind checksum.from.field_id) _
        (Keeps-resolve_anchor checksum.from.kind checksum.from.field_id)
        (λ from. Keeps->>= (or_fail from) _ (Keeps-or_fail from) (λ from_offset.
          Keeps->>= (resolve_anchor checksum.to.kind checksum.to.field_id) _
            (Keeps-resolve_anchor checksum.to.kind checksum.to.field_id)
            (λ to.
              Keeps->>= (or_fail to) _ (Keeps-or_fail to)
                (λ to_offset. Keeps-gets (λ b. (from_offset, to_offset)))))))

Keeps-write_checksum :
    (ops : ByteOps) (checksum : CompiledChecksum) → Keeps (write_checksum ops checksum)
unfolding write_checksum
Keeps-write_checksum ops checksum =
    Keeps->>= (checksum_range checksum) _ (Keeps-checksum_range checksum) (λ range.
      Keeps->>=
        (fail_if (λ b. ltb range.1 range.0 || ltb b.offset range.1) EncodeStatus.invalid_data) _
        (Keeps-fail_if _ _)
        (λ _. Keeps->>= (span_of range.0 range.1) _ (Keeps-span_of range.0 range.1) (λ bytes.
          Keeps->>= (field_at checksum.field_id) _ (Keeps-field_at checksum.field_id) (λ field.
            Keeps->>= (entry checksum.field_id (λ b. b.field_starts checksum.field_id)) _
              (Keeps-entry checksum.field_id _)
              (λ start.
                let value = compute_builtin_checksum ops checksum bytes in
                Keeps->>= (scalar_bytes field.byte_order checksum.result_width_bytes value) _
                  (Keeps-scalar_bytes field.byte_order checksum.result_width_bytes value)
                  (λ written.
                    Keeps->>= (overwrite start written) _ (Keeps-overwrite start written)
                      (λ _. Keeps-note checksum.field_id value)))))))

Keeps-write_checksums :
    (ops : ByteOps) (checksums : List CompiledChecksum) → Keeps (write_checksums ops checksums)
unfolding write_checksums
Keeps-write_checksums ops [] = Keeps-gets (λ b. tt)
Keeps-write_checksums ops (checksum ∷ checksums) =
    Keeps->>= (write_checksum ops checksum) _ (Keeps-write_checksum ops checksum)
      (λ _. Keeps-write_checksums ops checksums)

Keeps-read_scalar : (id : ℕ) → Keeps (read_scalar id)
unfolding read_scalar
Keeps-read_scalar id = Keeps->>= (field_at id) _ (Keeps-field_at id) (λ f.
    Keeps-if (is_unsigned_or_enum f.kind) (Keeps-entry id (λ b. some (b.written_scalars id)))
      (Keeps-gets (λ b. none)))

Keeps-rule_applies : (rule : CompiledValidationRule) → Keeps (rule_applies rule)
unfolding rule_applies
Keeps-rule_applies rule =
    Keeps-if rule.has_when
      (Keeps->>= (read_scalar rule.when_field_id) _ (Keeps-read_scalar rule.when_field_id)
        (λ when_value. Keeps-gets (λ b. equals rule.when_equals when_value)))
      (Keeps-gets (λ b. true))

Keeps-right_side : (rule : CompiledValidationRule) → Keeps (right_side rule)
unfolding right_side
Keeps-right_side rule =
    Keeps-if rule.compare_to_field (Keeps-read_scalar rule.other_field_id)
      (Keeps-gets (λ b. some rule.value))

Keeps-compare_with :
    (rule : CompiledValidationRule) (lhs : Option ℕ) → Keeps (compare_with rule lhs)
unfolding compare_with
Keeps-compare_with rule none = Keeps-gets (λ b. false)
Keeps-compare_with rule (some lhs) =
    Keeps->>= (right_side rule) _ (Keeps-right_side rule)
      (λ rhs. Keeps-gets (λ b. sides_match rule lhs rhs))

Keeps-validations_pass : (rules : List CompiledValidationRule) → Keeps (validations_pass rules)
unfolding validations_pass validation_passes
Keeps-validations_pass [] = Keeps-gets (λ b. true)
Keeps-validations_pass (rule ∷ rules) =
    Keeps->>= (validation_passes rule) _
      (Keeps->>= (rule_applies rule) _ (Keeps-rule_applies rule) (λ applies.
        Keeps-if (not applies) (Keeps-gets (λ b. true)) (
          Keeps->>= (read_scalar rule.field_id) _ (Keeps-read_scalar rule.field_id)
            (λ lhs. Keeps-compare_with rule lhs))))
      (λ passes. Keeps-if passes (Keeps-validations_pass rules) (Keeps-gets (λ b. false)))

-- The next field is `id`.
record IsPast (id : ℕ) (b c : MessageBuilder) : Type 0 where
  layout_same : c.layout ≡ b.layout
  failed_same : c.failed ≡ b.failed
  next_is : c.next_field_id ≡ id

abbrev Moves : ℕ → Building (Unit {0}) → Type 0
Moves id o = (b : MessageBuilder) → Ends (λ a (c : MessageBuilder). IsPast id b c) (o b)

Moves-after {ℓ} :
    {A : Type ℓ} (id : ℕ) (o : Building A) (f : A → Building (Unit {0}))
    → Keeps o
    → ((a : A) → Moves id (f a))
    → Moves id (o >>= f)
Moves-after id o f s k b = Ends->>= o f b (s b) (λ a c x. later b c (f a c) x (k a c))
  where
    later :
        (b c : MessageBuilder) (r : Built (Unit {0}))
        → IsSteady b c
        → Ends (λ a (d : MessageBuilder). IsPast id c d) r
        → Ends (λ a (d : MessageBuilder). IsPast id b d) r
    later b c (built a d) x (ended y) = ended (record {
      layout_same = y.layout_same ∙ x.layout_same;
      failed_same = y.failed_same ∙ x.failed_same;
      next_is = y.next_is;
    })
    later b c (refused s d) x h = stopped
    later b c fault x h = faulted

-- refuse_if passes a builder of which the test is false, as it is.
Ends-refuse_if :
    (test : MessageBuilder → Bool) (status : EncodeStatus) (b : MessageBuilder)
    → Ends
        (λ (a : Unit {0}) (c : MessageBuilder). (c ≡ b) × (test b ≡ false))
        (refuse_if test status b)
Ends-refuse_if test status b = go (test b) (λ e. e)
  where
    go :
        (t : Bool)
        → (t ≡ false → test b ≡ false)
        → Ends
            (λ (a : Unit {0}) (c : MessageBuilder). (c ≡ b) × (test b ≡ false))
            (if t then refused status b else built tt b)
    go true k = stopped
    go false k = ended (refl, k refl)

Keeps-refuse_if :
    (test : MessageBuilder → Bool) (status : EncodeStatus) → Keeps (refuse_if test status)
Keeps-refuse_if test status b = go (test b)
  where
    go :
        (t : Bool)
        → Ends
            (λ (a : Unit {0}) (c : MessageBuilder). IsSteady b c)
            (if t then refused status b else built tt b)
    go true = stopped
    go false = ended (record { layout_same = refl; failed_same = refl; next_same = refl })

Moves-advance_to : (id : ℕ) → Moves id (advance_to id)
unfolding advance_to
Moves-advance_to id =
    Moves-after id (refuse_if (λ b. b.failed) EncodeStatus.invalid_data) _ (Keeps-refuse_if _ _)
      (λ _.
        Moves-after id (fail_if (λ b. ltb (length b.layout.fields) id) EncodeStatus.invalid_data) _
          (Keeps-fail_if _ _)
          (λ _. Moves-after id (gets (λ b. b.next_field_id)) _ (Keeps-gets _) (λ next.
            Moves-after id (write_until (id - next) next) _ (Keeps-write_until (id - next) next)
              (λ _ b. ended (record { layout_same = refl; failed_same = refl; next_is = refl })))))

-- What `finalize` leaves, with the size that it gives.
record IsClosed (n : ℕ) (b : MessageBuilder) : Type 0 where
  size_is : b.offset ≡ n
  not_failed : b.failed ≡ false
  is_finalized : b.finalized ≡ true
  all_written : b.next_field_id ≡ length b.layout.fields

close-IsClosed :
    (ops : ByteOps) (b : MessageBuilder) → b.failed ≡ false → Ends IsClosed (close ops b)
unfolding close
close-IsClosed ops b h =
    Ends->>= (advance_to (length b.layout.fields)) _ b (Moves-advance_to (length b.layout.fields) b)
      (λ _ c past.
        Ends->>= (write_checksums ops b.layout.checksums) _ c
          (Keeps-write_checksums ops b.layout.checksums c)
          (λ _ d x.
            Ends->>= (validations_pass b.layout.validations) _ d
              (Keeps-validations_pass b.layout.validations d)
              (λ passes e y.
                Ends->>= (fail_if (λ b. not passes) EncodeStatus.invalid_data) _ e
                  (Keeps-fail_if (λ b. not passes) EncodeStatus.invalid_data e)
                  (λ _ g z. ended {c = record g { finalized = true }} (record {
                    size_is = refl;
                    not_failed =
                        z.failed_same ∙ (y.failed_same ∙ (x.failed_same ∙ (past.failed_same ∙ h)));
                    is_finalized = refl;
                    all_written =
                        z.next_same
                        ∙ (y.next_same
                            ∙ (x.next_same
                                ∙ (past.next_is
                                    ∙ ap (λ (l : CompiledMessage). length l.fields)
                                        (sym (
                                          z.layout_same
                                          ∙ (y.layout_same
                                              ∙ (x.layout_same ∙ past.layout_same)))))));
                  })))))

finalize-IsClosed :
    (ops : ByteOps) (b : MessageBuilder) → b.finalized ≡ false → Ends IsClosed (finalize ops b)
unfolding finalize
finalize-IsClosed ops b h =
    Ends->>= (refuse_if (λ b. b.failed) EncodeStatus.invalid_data)
      (λ _ c. (if c.finalized then gets (λ b. b.offset) else close ops) c) b
      (Ends-refuse_if (λ b. b.failed) EncodeStatus.invalid_data b)
      (λ _ c (e, f).
        subst
          (λ (c : MessageBuilder).
            Ends IsClosed ((if c.finalized then gets (λ b. b.offset) else close ops) c))
          (sym e) (go b.finalized h (close-IsClosed ops b f)))
  where
    go :
        (t : Bool)
        → t ≡ false
        → Ends IsClosed (close ops b)
        → Ends IsClosed ((if t then gets (λ b. b.offset) else close ops) b)
    go true e k = cc
    go false e k = k

abbrev Given {ℓ} : {A : Type ℓ} → (A → MessageBuilder → Type 0) → Built A → Type 0
Given P (built a c) = P a c
Given P (refused s c) = Unit {0}
Given P fault = Unit {0}

Ends-Given {ℓ} : {A : Type ℓ} (P : A → MessageBuilder → Type 0) (r : Built A) → Ends P r → Given P r
Ends-Given P (built a c) (ended p) = p
Ends-Given P (refused s c) h = tt
Ends-Given P fault h = tt

closed_out_of_order : (n id : ℕ) (b : MessageBuilder) → IsClosed n b → out_of_order id b ≡ true
closed_out_of_order n id b h = past b.failed (length b.layout.fields) b.next_field_id h.all_written
  where
    past : (f : Bool) (m next : ℕ) → next ≡ m → (f || leb m id || ltb id next) ≡ true
    past f m next e = ground (arith, e)

refuse_if-true :
    (test : MessageBuilder → Bool) (status : EncodeStatus) (b : MessageBuilder)
    → test b ≡ true
    → refuse_if test status b ≡ refused status b
refuse_if-true test status b e = rw e refl

refuse_if-false :
    (test : MessageBuilder → Bool) (status : EncodeStatus) (b : MessageBuilder)
    → test b ≡ false
    → refuse_if test status b ≡ built tt b
refuse_if-false test status b e = rw e refl

bind_refused {ℓ κ} :
    {A : Type ℓ} {B : Type κ} (o : Building A) (f : A → Building B) (b c : MessageBuilder)
    (status : EncodeStatus)
    → o b ≡ refused status c
    → (o >>= f) b ≡ refused status c
bind_refused o f b c status e =
    ap (λ r. elim r [ built a c ↦ f a c | refused s c ↦ refused s c | fault ↦ fault ]) e

bind_built {ℓ κ} :
    {A : Type ℓ} {B : Type κ} (o : Building A) (f : A → Building B) (b c : MessageBuilder) (a : A)
    → o b ≡ built a c
    → (o >>= f) b ≡ f a c
bind_built o f b c a e =
    ap (λ r. elim r [ built a c ↦ f a c | refused s c ↦ refused s c | fault ↦ fault ]) e

finalize_again :
    (ops : ByteOps) (n : ℕ) (b : MessageBuilder) → IsClosed n b → finalize ops b ≡ built n b
unfolding finalize
finalize_again ops n b h =
    bind_built (refuse_if (λ b. b.failed) EncodeStatus.invalid_data)
      (λ _ c. (if c.finalized then gets (λ b. b.offset) else close ops) c) b b tt
      (refuse_if-false (λ b. b.failed) EncodeStatus.invalid_data b h.not_failed)
    ∙ go b.finalized h.is_finalized
  where
    go : (d : Bool) → d ≡ true → (if d then gets (λ b. b.offset) else close ops) b ≡ built n b
    go true e = ap (λ m. built m b) h.size_is
    go false e = cc

-- A builder that was not finalized and of which `finalize` gives a size is finalized for good: a second
-- `finalize` gives the same size and changes nothing, and every setter refuses, with
-- `kInvalidData`, and changes nothing.
pub finalize-Closed :
    (ops : ByteOps) (b c : MessageBuilder) (n : ℕ)
    → b.finalized ≡ false
    → finalize ops b ≡ built n c
    → (finalize ops c ≡ built n c)
      × (((takes : FieldKind → Bool) (id value : ℕ)
            → set_scalar takes id value c ≡ refused EncodeStatus.invalid_data c)
          × ((takes : CompiledField → Bool) (id : ℕ) (bytes : List ℕ)
              → set_payload takes id bytes c ≡ refused EncodeStatus.invalid_data c))
finalize-Closed ops b c n h e =
    let k : IsClosed n c =
      subst (Given IsClosed) e (Ends-Given IsClosed (finalize ops b) (finalize-IsClosed ops b h)) in
    let closed : (id : ℕ)
        → refuse_if (out_of_order id) EncodeStatus.invalid_data c
          ≡ refused EncodeStatus.invalid_data c =
      λ id.
        refuse_if-true (out_of_order id) EncodeStatus.invalid_data c
          (closed_out_of_order n id c k) in
    (
      finalize_again ops n c k,
      (
        λ takes id value.
            unfold set_scalar in
            bind_refused (refuse_if (out_of_order id) EncodeStatus.invalid_data) _ c c
              EncodeStatus.invalid_data (closed id),
        λ takes id bytes.
            unfold set_payload in
            bind_refused (refuse_if (out_of_order id) EncodeStatus.invalid_data) _ c c
              EncodeStatus.invalid_data (closed id),
      ),
    )
