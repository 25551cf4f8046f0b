-- ===== src/Encoder/Setters.antt =====
-- The setters of `MessageBuilder` (packages/upr_runtime/src/encoder/message_encoder.cpp): each stays in
-- its buffer and keeps what is written.
use mathlib.Core.Path.{subst}
use universal_protocol_runti.Base.{
  none, ap, ◌∙◌, ℕ, ◌||◌, zero, suc, ◌+◌, ◌-◌, ◌^◌, ◌≤◌, ◌<◌, ◌≡◌, refl, sym, Bool, true, false,
  not, List, some, length, get_elem?, replicate, take, arith, leb, ltb, ◌==◌, if◌then◌else◌, ltb→le,
  length-replicate, length-take,
}
use universal_protocol_runti.Layout.{CompiledField, CompiledMessage, FieldKind, is_scalar_kind}
use universal_protocol_runti.Decoded.{align_up}
use universal_protocol_runti.Decoded.Alignment.{align_up_ge}
use universal_protocol_runti.Encoder.{
  entry, max_fields_per_message, EncodeStatus, MessageBuilder, Building, ◌>>=◌, gets, modify,
  refuse_if, fail_if, field_at, emit, emit_field, write_scalar_field, write_placeholder,
  write_reserved, pad_to, write_automatic, write_until, advance_to, out_of_order, set_scalar,
  first_bytes, set_payload,
}
use universal_protocol_runti.Encoder.Growth.{
  Continues-same, Grows, grown, Grows->>=, Grows-refuse_if, Grows-fail_if, Grows-emit, Anything,
}
use universal_protocol_runti.Encoder.Safety.{
  IsReady, IsSafe, writes_scalar, IsSafe-refuse_unless, IsSafe-entry, Always, IsSafe->>=,
  IsSafe-field_at, IsSafe-gets, IsSafe-modify, IsSafe-guarded, IsSafe-room, Grows-emit_field,
  Grows-emit_field->>=, IsSafe-fail_if, IsSafe-refuse_if, note_scalar, IsSafe-write_scalar_field,
}

IsSafe-write_placeholder :
    (layout : CompiledMessage) (id : ℕ) (field : CompiledField)
    → id < max_fields_per_message
    → IsSafe layout Always (write_placeholder id field)
unfolding write_placeholder
IsSafe-write_placeholder layout id field few =
    IsSafe-guarded layout id field.width_bytes (replicate field.width_bytes 0) _
      (length-replicate field.width_bytes 0) few (note_scalar layout id 0)

IsSafe-next :
    (layout : CompiledMessage) (id : ℕ)
    → IsSafe layout Always (modify (λ b. record b { next_field_id = id }))
IsSafe-next layout id =
    IsSafe-modify layout (λ b. record b { next_field_id = id })
      (λ b x. Continues-same b _ x.offset_inside refl refl refl refl)

IsSafe-if :
    {layout : CompiledMessage} (test : Bool) {o p : Building (Unit {0})}
    → (test ≡ true → IsSafe layout Always o)
    → IsSafe layout Always p
    → IsSafe layout Always (if test then o else p)
IsSafe-if true s t = s refl
IsSafe-if false s t = t

IsSafe-write_reserved :
    (layout : CompiledMessage) (id : ℕ) (field : CompiledField)
    → id < max_fields_per_message
    → IsSafe layout Always (write_reserved id field)
unfolding write_reserved
IsSafe-write_reserved layout id field few = IsSafe-room layout field.fixed_size _ (λ b r l h.
    Grows-emit_field id (replicate field.fixed_size field.reserved_fill_byte) b few
      (omega (arith, h, length-replicate field.fixed_size field.reserved_fill_byte)))

Grows-pad :
    (aligned : ℕ) (b : MessageBuilder)
    → IsReady b
    → b.offset ≤ aligned
    → aligned ≤ length b.buffer
    → Grows Anything b (
        (if aligned == b.offset then gets (λ b. tt) else emit (replicate (aligned - b.offset) 0)) b)
Grows-pad aligned b r g h = go (aligned == b.offset)
  where
    go :
        (t : Bool)
        → Grows Anything b
            ((if t then gets (λ b. tt) else emit (replicate (aligned - b.offset) 0)) b)
    go true = grown (Continues-same b b r.offset_inside refl refl refl refl) tt
    go false =
        Grows-emit (replicate (aligned - b.offset) 0) b
          (omega (arith, g, h, length-replicate {A = ℕ} (aligned - b.offset) 0)) tt

IsSafe-pad_to :
    (layout : CompiledMessage) (alignment : ℕ)
    → alignment ≤ 2 ^ 63
    → IsSafe layout Always (pad_to alignment)
unfolding pad_to
IsSafe-pad_to layout alignment h b r l =
    let g = align_up_ge b.offset alignment (omega (arith, r.offset_inside, r.buffer_short)) in
    let aligned = align_up b.offset alignment in
    Grows->>= {P = λ (u : Unit {0}) (c : MessageBuilder). (c ≡ b) × (aligned ≤ length b.buffer)}
      (fail_if (λ b. ltb (length b.buffer) aligned) EncodeStatus.buffer_too_small)
      (λ _ c.
        (if aligned == c.offset then gets (λ b. tt) else emit (replicate (aligned - c.offset) 0)) c)
      b
      (Grows-fail_if b r.offset_inside (λ b. ltb (length b.buffer) aligned)
        EncodeStatus.buffer_too_small (λ t. (refl, ltb→le (length b.buffer) aligned t)))
      (λ u c x (d, t).
        subst
          (λ (y : MessageBuilder). Grows Anything y (
            (if aligned == y.offset
                then gets (λ b. tt)
                else emit (replicate (aligned - y.offset) 0))
              y))
          (sym d) (Grows-pad aligned b r g t))

-- A field with an expected value is written as a scalar.
expected_writes :
    (f g : CompiledField)
    → f.has_expected_unsigned ≡ true
    → some f ≡ some g
    → writes_scalar g ≡ true
expected_writes f g h e = let t : g.has_expected_unsigned ≡ true = ground (arith, h, e) in rw t refl

IsSafe-write_automatic :
    (layout : CompiledMessage) (id : ℕ)
    → id < length layout.fields
    → IsSafe layout Always (write_automatic id)
unfolding write_automatic
IsSafe-write_automatic layout id h =
    IsSafe->>= (field_at id) _ (IsSafe-field_at layout id h) (λ f ((a, x, w), e, few).
      IsSafe->>= (pad_to f.alignment) _ (IsSafe-pad_to layout f.alignment a) (λ _ _.
        IsSafe->>= (entry id (λ b. b.checksum_field_mask id)) _
          (IsSafe-entry layout id (λ b. b.checksum_field_mask id) few)
          (λ is_checksum _.
            IsSafe-if is_checksum (λ _. IsSafe-write_placeholder layout id f few)
              (IsSafe-if f.has_expected_unsigned
                (λ expected.
                  IsSafe-write_scalar_field layout id f.expected_unsigned h
                    (λ g e'. expected_writes f g expected (sym e ∙ e')) x)
                (IsSafe-if f.is_reserved (λ _. IsSafe-write_reserved layout id f few)
                  (IsSafe-fail_if layout (λ b. true) EncodeStatus.invalid_data))))))

IsSafe-write_until :
    (layout : CompiledMessage) (left id : ℕ)
    → ((k : ℕ) → k < left → id + k < length layout.fields)
    → IsSafe layout Always (write_until left id)
unfolding write_until
IsSafe-write_until layout zero id h = IsSafe-gets layout (λ b. tt)
IsSafe-write_until layout (suc left) id h =
    IsSafe->>= (write_automatic id) _
      (IsSafe-write_automatic layout id (omega (arith, h 0 (omega arith))))
      (λ _ _.
        IsSafe-write_until layout left (suc id)
          (λ k l. omega (arith, h (suc k) (omega (arith, l)))))

IsSafe-fits :
    (layout : CompiledMessage) (id : ℕ)
    → IsSafe layout
        (λ _. id ≤ length layout.fields)
        (fail_if (λ b. ltb (length b.layout.fields) id) EncodeStatus.invalid_data)
IsSafe-fits layout id b r l =
    Grows-fail_if b r.offset_inside (λ b. ltb (length b.layout.fields) id) EncodeStatus.invalid_data
      (λ e.
        subst (λ (m : CompiledMessage). id ≤ length m.fields) l
          (ltb→le (length b.layout.fields) id e))

IsSafe-advance_to : (layout : CompiledMessage) (id : ℕ) → IsSafe layout Always (advance_to id)
unfolding advance_to
IsSafe-advance_to layout id =
    IsSafe->>= (refuse_if (λ b. b.failed) EncodeStatus.invalid_data) _
      (IsSafe-refuse_if layout (λ b. b.failed) EncodeStatus.invalid_data)
      (λ _ _.
        IsSafe->>= (fail_if (λ b. ltb (length b.layout.fields) id) EncodeStatus.invalid_data) _
          (IsSafe-fits layout id)
          (λ _ fits.
            IsSafe->>= (gets (λ b. b.next_field_id)) _ (IsSafe-gets layout (λ b. b.next_field_id))
              (λ next _.
                IsSafe->>= (write_until (id - next) next) _
                  (IsSafe-write_until layout (id - next) next (λ k l. omega (arith, l, fits)))
                  (λ _ _. IsSafe-next layout id))))

in_order :
    (layout : CompiledMessage) (id : ℕ)
    → IsSafe layout
        (λ _. id < length layout.fields)
        (refuse_if (out_of_order id) EncodeStatus.invalid_data)
in_order layout id b r l =
    Grows-refuse_if b r.offset_inside (out_of_order id) EncodeStatus.invalid_data (λ e.
      subst (λ (m : CompiledMessage). id < length m.fields) l
        (in_order_lt b.failed (length b.layout.fields) id (ltb id b.next_field_id) e))
  where
    in_order_lt : (f : Bool) (n id : ℕ) (t : Bool) → (f || leb n id || t) ≡ false → id < n
    in_order_lt f n id t e = ground (arith, e)

-- A field of a scalar kind is written as a scalar.
scalar_writes :
    (f g : CompiledField) → is_scalar_kind f.kind ≡ true → some f ≡ some g → writes_scalar g ≡ true
scalar_writes f g h e =
    let t : is_scalar_kind g.kind ≡ true =
      ap (λ o. elim o [ none ↦ true | some x ↦ is_scalar_kind x.kind ]) (sym e) ∙ h in
    or_true g.has_expected_unsigned (is_scalar_kind g.kind) t
  where
    or_true : (a b : Bool) → b ≡ true → (a || b) ≡ true
    or_true a b t = ground (arith, t)

IsSafe-set_scalar :
    (layout : CompiledMessage) (takes : FieldKind → Bool) (id value : ℕ)
    → ((kind : FieldKind) → takes kind ≡ true → is_scalar_kind kind ≡ true)
    → value < 2 ^ 64
    → IsSafe layout Always (set_scalar takes id value)
unfolding set_scalar
IsSafe-set_scalar layout takes id value scalars v =
    IsSafe->>= (refuse_if (out_of_order id) EncodeStatus.invalid_data) _ (in_order layout id)
      (λ _ h. IsSafe->>= (field_at id) _ (IsSafe-field_at layout id h) (λ f (_, e, _).
        IsSafe->>= (refuse_if (λ b. not (takes f.kind)) EncodeStatus.invalid_data) _
          (IsSafe-refuse_unless layout (takes f.kind) EncodeStatus.invalid_data)
          (λ _ taken. IsSafe->>= (advance_to id) _ (IsSafe-advance_to layout id) (λ _ _.
            IsSafe->>= (write_scalar_field id value) _
              (IsSafe-write_scalar_field layout id value h
                (λ g e'. scalar_writes f g (scalars f.kind taken) (sym e ∙ e')) v)
              (λ _ _. IsSafe-next layout (id + 1))))))

Grows-payload :
    (layout : CompiledMessage) (id size : ℕ) (bytes : List ℕ)
    → id < max_fields_per_message
    → size ≤ length bytes
    → (b : MessageBuilder) → IsReady b
    → b.layout ≡ layout
    → b.offset + size ≤ length b.buffer
    → Grows Anything b (
        (first_bytes size bytes >>= λ payload.
        (emit_field id payload >>= λ _. modify (λ b. record b { next_field_id = id + 1 })))
          b)
Grows-payload layout id size bytes few h b r l m =
    let e : leb size (length bytes) ≡ true = ground (arith, h) in
    rw (◌>>=◌, first_bytes, e)
      (Grows-emit_field->>= layout id (take size bytes) _ few (IsSafe-next layout (id + 1)) b r l
        (omega (arith, m, length-take size bytes)))

enough :
    (d : Bool) (size : ℕ) (bytes : List ℕ)
    → (d ≡ false → size ≤ length bytes)
    → (if d then length bytes else size) ≤ length bytes
enough true size bytes h = omega arith
enough false size bytes h = h refl

IsSafe-set_payload :
    (layout : CompiledMessage) (takes : CompiledField → Bool) (id : ℕ) (bytes : List ℕ)
    → ((field : CompiledField)
        → get_elem? layout.fields id ≡ some field
        → field.dynamic_size ≡ false
        → field.fixed_size ≤ length bytes)
    → IsSafe layout Always (set_payload takes id bytes)
unfolding set_payload
IsSafe-set_payload layout takes id bytes k =
    IsSafe->>= (refuse_if (out_of_order id) EncodeStatus.invalid_data) _ (in_order layout id)
      (λ _ h. IsSafe->>= (field_at id) _ (IsSafe-field_at layout id h) (λ f (_, e, few).
        IsSafe->>= (refuse_if (λ b. not (takes f)) EncodeStatus.invalid_data) _
          (IsSafe-refuse_if layout (λ b. not (takes f)) EncodeStatus.invalid_data)
          (λ _ _. IsSafe->>= (advance_to id) _ (IsSafe-advance_to layout id) (λ _ _.
            IsSafe-room layout (if f.dynamic_size then length bytes else f.fixed_size) _ (
              Grows-payload layout id _ bytes few
                (enough f.dynamic_size f.fixed_size bytes (k f e)))))))

-- A setter of a scalar, on a ready builder: the kinds that it takes are scalars.
pub set_scalar-Grows :
    (takes : FieldKind → Bool) (id value : ℕ) (b : MessageBuilder)
    → ((kind : FieldKind) → takes kind ≡ true → is_scalar_kind kind ≡ true)
    → value < 2 ^ 64
    → IsReady b
    → Grows Anything b (set_scalar takes id value b)
set_scalar-Grows takes id value b scalars v r =
    IsSafe-set_scalar b.layout takes id value scalars v b r refl

-- A setter of bytes or of a string: the bytes given are not fewer than a fixed size.
pub set_payload-Grows :
    (takes : CompiledField → Bool) (id : ℕ) (bytes : List ℕ) (b : MessageBuilder)
    → ((field : CompiledField)
        → get_elem? b.layout.fields id ≡ some field
        → field.dynamic_size ≡ false
        → field.fixed_size ≤ length bytes)
    → IsReady b
    → Grows Anything b (set_payload takes id bytes b)
set_payload-Grows takes id bytes b h r = IsSafe-set_payload b.layout takes id bytes h b r refl
