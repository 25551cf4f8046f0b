-- ===== src/Decoded/Fields.antt =====
-- The loop over the fields in `DecodedMessage::assign_from_layout` keeps its invariant.
use mathlib.Core.Path.{subst}
use universal_protocol_runti.Base.{
  ℕ, zero, suc, ◌+◌, ◌^◌, ◌≤◌, ◌<◌, ◌≡◌, ◌≢◌, refl, sym, ap, ◌∙◌, Bool, true, false, List, [], ◌∷◌,
  ◌/◌, ◌%◌, if◌then◌else◌, Option, none, some, length, get_elem?, subspan, arith, inl, inr, ◌==◌,
  ltb, leb, ◌||◌, not, Option-cases, if_elim, ltb→le,
}
use universal_protocol_runti.Core.{DecodeStatus}
use universal_protocol_runti.Scalar.{read_unsigned_scalar}
use universal_protocol_runti.ByteOps.{ByteOps}
use universal_protocol_runti.Outcome.{
  Outcome, done, fault, fail_if, Ensures, holds, rejected, Ensures->>=, Ensures-fail_if,
  Ensures-or_fail, Ensures-if,
}
use universal_protocol_runti.Layout.{
  FieldKind, CompiledField, CompiledMessage, CompiledProtocol, is_scalar,
}
use universal_protocol_runti.Decoded.{
  DecodedMessage, ResolvedField, update, cache, eager_cache_scalar, field_definition,
  cached_scalar_raw, supports_eager_scalar_cache, align_up, checked_add_size, condition_matches,
  presence_matches, raw_unsigned,
}
use universal_protocol_runti.Decoded.Assign.{
  place, subspan_of, check_expected, check_encoding, check_reserved, valid_encoding, is_filled,
  is_string, decode_present, decode_fields,
}
use universal_protocol_runti.Decoded.Compiled.{FieldOk, FieldsOk}
use universal_protocol_runti.Decoded.Sizes.{size_of_kind_lem, checked_add_size-some}
use universal_protocol_runti.Decoded.Alignment.{align_up_ge}
use universal_protocol_runti.Decoded.Invariant.{Settled, Settles, Extends, Running}
use universal_protocol_runti.Decoded.Step.{Running-Extends}

-- The message with the place of one field written.
abbrev placed : DecodedMessage → ℕ → Bool → ℕ → ℕ → DecodedMessage
placed m id present offset size = record m {
  field_present = update m.field_present id present;
  resolved_fields = update m.resolved_fields id (record { offset = offset; size = size });
}

place-placed :
    (id : ℕ) (present : Bool) (offset size : ℕ) (m : DecodedMessage)
    → id < 64
    → place id present offset size m ≡ done (placed m id present offset size)
unfolding place
place-placed id present offset size m h = let e : ltb id 64 ≡ true = ground (arith, h) in rw e refl

pub subspan_of_inside :
    (frame : List ℕ) (offset size : ℕ)
    → offset + size ≤ length frame
    → subspan_of frame offset size ≡ done (subspan frame offset size)
unfolding subspan_of
subspan_of_inside frame offset size h =
    let e : leb (offset + size) (length frame) ≡ true = ground (arith, h) in rw e refl

-- What `eager_cache_scalar` changes.
record Caches (id : ℕ) (field : CompiledField) (bytes : List ℕ) (m m' : DecodedMessage)
    : Type 0 where
  message_kept : m'.message ≡ m.message
  protocol_kept : m'.protocol ≡ m.protocol
  frame_kept : m'.frame ≡ m.frame
  count_kept : m'.field_count ≡ m.field_count
  present_kept : (j : ℕ) → m'.field_present j ≡ m.field_present j
  resolved_kept : (j : ℕ) → m'.resolved_fields j ≡ m.resolved_fields j
  valid_kept : (j : ℕ) → j ≢ id → m'.scalar_cache_valid j ≡ m.scalar_cache_valid j
  values_kept : (j : ℕ) → j ≢ id → m'.scalar_cache_values j ≡ m.scalar_cache_values j
  own :
      m.scalar_cache_valid id ≡ false
      → m'.scalar_cache_valid id ≡ true
      → read_unsigned_scalar field.byte_order bytes ≡ some (m'.scalar_cache_values id)

Caches-none :
    (id : ℕ) (field : CompiledField) (bytes : List ℕ) (m : DecodedMessage)
    → Caches id field bytes m m
Caches-none id field bytes m = record {
  message_kept = refl;
  protocol_kept = refl;
  frame_kept = refl;
  count_kept = refl;
  present_kept = λ j. refl;
  resolved_kept = λ j. refl;
  valid_kept = λ j ne. refl;
  values_kept = λ j ne. refl;
  own = λ e e'. cc;
}

update_other {ℓ} : {A : Type ℓ} (f : ℕ → A) (i j : ℕ) (a : A) → j ≢ i → update f i a j ≡ f j
update_other f i j a h = let e : (j == i) ≡ false = ground (arith, h) in rw e refl

update_same {ℓ} : {A : Type ℓ} (f : ℕ → A) (i : ℕ) (a : A) → update f i a i ≡ a
update_same f i a = let e : (i == i) ≡ true = ground arith in rw e refl

cache-Caches :
    (id : ℕ) (field : CompiledField) (bytes : List ℕ) (m : DecodedMessage)
    → Caches id field bytes m (cache id (read_unsigned_scalar field.byte_order bytes) m)
cache-Caches id field bytes m = elim (Option-cases (read_unsigned_scalar field.byte_order bytes)) [
  | inl n ↦ rw n (Caches-none id field bytes m)
  | inr (v, g) ↦ rw g (record {
    message_kept = refl;
    protocol_kept = refl;
    frame_kept = refl;
    count_kept = refl;
    present_kept = λ j. refl;
    resolved_kept = λ j. refl;
    valid_kept = λ j ne. update_other m.scalar_cache_valid id j true ne;
    values_kept = λ j ne. update_other m.scalar_cache_values id j v ne;
    own = λ e1 e2. g ∙ ap some (sym (update_same m.scalar_cache_values id v));
  })
]

eager_cache_scalar-Caches :
    (id : ℕ) (field : CompiledField) (bytes : List ℕ) (m : DecodedMessage)
    → field_definition m id ≡ some field
    → Caches id field bytes m (eager_cache_scalar id bytes m)
unfolding eager_cache_scalar
eager_cache_scalar-Caches id field bytes m e =
    rw (e, eager_cache_scalar)
      (if_elim (λ (m' : DecodedMessage). Caches id field bytes m m')
        (not (supports_eager_scalar_cache field) || not (length bytes == field.width_bytes)) m
        (cache id (read_unsigned_scalar field.byte_order bytes) m) (Caches-none id field bytes m)
        (cache-Caches id field bytes m))

-- A check on its own: after it the test is true.
pub fail_if-not {ℓ} :
    {P : Unit {0} → Type ℓ} (b : Bool) (status : DecodeStatus)
    → (b ≡ true → P tt)
    → Ensures P (fail_if (not b) status)
fail_if-not true status h = holds (h refl)
fail_if-not false status h = rejected

pub cached_scalar_raw-cached :
    (m : DecodedMessage) (id a : ℕ)
    → cached_scalar_raw m id ≡ some a
    → (m.scalar_cache_valid id ≡ true) × (m.scalar_cache_values id ≡ a)
unfolding cached_scalar_raw
cached_scalar_raw-cached m id a e = elim (Option-cases (field_definition m id)) [
  | inl n ↦ ground (arith, e, n)
  | inr (field, f) ↦ (ground (arith, e, f), ground (arith, e, f))
]

check_expected_lem :
    (field : CompiledField) (m : DecodedMessage)
    → Ensures
        (λ _.
          field.has_expected_unsigned ≡ true
          → (m.scalar_cache_valid field.id ≡ true)
            × (m.scalar_cache_values field.id ≡ field.expected_unsigned))
        (check_expected field m)
unfolding check_expected
check_expected_lem field m =
    Ensures-if field.has_expected_unsigned
      (λ e. elim (Option-cases (cached_scalar_raw m field.id)) [
        | inl n ↦ rw n rejected
        | inr (a, c) ↦
            let (v, x) = cached_scalar_raw-cached m field.id a c in
            rw c (fail_if-not (a == field.expected_unsigned) _ (λ t e'. (v, ground (arith, x, t))))
      ])
      (λ e. holds (λ e'. cc))

check_encoding_lem :
    (ops : ByteOps) (field : CompiledField) (bytes : List ℕ)
    → Ensures
        (λ _. field.kind ≡ FieldKind.string → valid_encoding ops field.string_encoding bytes ≡ true)
        (check_encoding ops field bytes)
unfolding check_encoding
check_encoding_lem ops field bytes =
    Ensures-if (is_string field.kind)
      (λ e. fail_if-not (valid_encoding ops field.string_encoding bytes) _ (λ t e'. t))
      (λ e. holds (λ e'. let y : is_string field.kind ≡ true = ap is_string e' in cc))

check_reserved_lem :
    (field : CompiledField) (bytes : List ℕ)
    → Ensures
        (λ _. field.is_reserved ≡ true → is_filled field.reserved_fill_byte bytes ≡ true)
        (check_reserved field bytes)
unfolding check_reserved
check_reserved_lem field bytes =
    Ensures-if field.is_reserved
      (λ e. fail_if-not (is_filled field.reserved_fill_byte bytes) _ (λ e' e''. e'))
      (λ e. holds (λ e'. cc))

-- Nothing is asked of an absent field.
Settled-absent :
    (ops : ByteOps) (frame : List ℕ) (bound : ℕ) (field : CompiledField) (present : Bool)
    (r : ResolvedField) (valid : Bool) (value : ℕ)
    → present ≡ false
    → valid ≡ false
    → Settled ops frame bound field present r valid value
Settled-absent ops frame bound field present r valid value h v = record {
  inside = λ e. cc;
  width = λ e. cc;
  cached = λ e. cc;
  expected = λ e. cc;
  encoded = λ e. cc;
  reserved = λ e. cc;
}

pub field_definition-get :
    (m : DecodedMessage) (layout : CompiledMessage) (i : ℕ)
    → m.message ≡ some layout
    → field_definition m i ≡ get_elem? layout.fields i
unfolding field_definition
field_definition-get m layout i e = rw (e, field_definition) refl

pub get-length :
    (fields : List CompiledField) (i : ℕ) (f : CompiledField)
    → get_elem? fields i ≡ some f
    → i < length fields
get-length [] i f e = cc
get-length (g ∷ fields) zero f e = omega arith
get-length (g ∷ fields) (suc i) f e = omega (arith, get-length fields i f e)

-- A present field whose checks passed is settled, and nothing else has changed.
module _ (ops : ByteOps) (protocol : CompiledProtocol) (layout : CompiledMessage) (frame : List ℕ)
    (k : ℕ) (m m' : DecodedMessage) (before offset size : ℕ) (field : CompiledField)
    (r : Running ops protocol layout frame k m before) (id_is : field.id ≡ k)
    (c : Caches field.id field
      (subspan m.frame offset size)
      (placed m field.id true offset size)
      m') where
  present-Extends : Extends k m m'
  present-Extends = record {
    same_message = c.message_kept;
    same_protocol = c.protocol_kept;
    same_frame = c.frame_kept;
    same_count = c.count_kept;
    same_present = λ j ne.
        c.present_kept j ∙ update_other m.field_present field.id j true (λ e. ne (e ∙ id_is));
    same_resolved = λ j ne.
        c.resolved_kept j
        ∙ update_other m.resolved_fields field.id j (record { offset = offset; size = size })
            (λ e. ne (e ∙ id_is));
    same_valid = λ j ne. c.valid_kept j (λ e. ne (e ∙ id_is));
    same_values = λ j ne. c.values_kept j (λ e. ne (e ∙ id_is));
  }

  own_place : m'.resolved_fields field.id ≡ record { offset = offset; size = size }
  own_place =
      c.resolved_kept field.id
      ∙ update_same m.resolved_fields field.id (record { offset = offset; size = size })

  own_present : m'.field_present field.id ≡ true
  own_present = c.present_kept field.id ∙ update_same m.field_present field.id true

  present-Running :
      before ≤ offset
      → offset + size ≤ length frame
      → get_elem? layout.fields k ≡ some field
      → (is_scalar field ≡ true → size ≡ field.width_bytes)
      → (field.has_expected_unsigned ≡ true
          → (m'.scalar_cache_valid field.id ≡ true)
            × (m'.scalar_cache_values field.id ≡ field.expected_unsigned))
      → (field.kind ≡ FieldKind.string
          → valid_encoding ops field.string_encoding (subspan m.frame offset size) ≡ true)
      → (field.is_reserved ≡ true
          → is_filled field.reserved_fill_byte (subspan m.frame offset size) ≡ true)
      → Running ops protocol layout frame (suc k) m' (offset + size)
  present-Running l b g w x y z =
      let same : (subspan m.frame offset size) ≡ subspan frame offset size =
        ap (λ (f : List ℕ). subspan f offset size) r.frame_is in
      let s : Settles ops frame (offset + size) field m' field.id = rw own_place (record {
        inside = λ e. omega arith;
        width = λ e. w;
        cached = λ e. (
          own_present,
          sym (ap (read_unsigned_scalar field.byte_order) same)
              ∙ c.own (ap m.scalar_cache_valid id_is ∙ (r.untouched k (omega arith)).1) e,
        );
        expected = λ e. x;
        encoded = λ e e'. sym (ap (valid_encoding ops field.string_encoding) same) ∙ y e';
        reserved = λ e e'. sym (ap (is_filled field.reserved_fill_byte) same) ∙ z e';
      }) in
      Running-Extends ops protocol layout frame k m m' before (offset + size) field r
        present-Extends (omega arith) b g
        (subst (λ (i : ℕ). Settles ops frame (offset + size) field m' i) id_is s)
        (λ e. subst (λ (i : ℕ). before ≤ (m'.resolved_fields i).offset) id_is (rw own_place l))

-- The test of presence makes no shift that is undefined.
presence-Ensures :
    (m : DecodedMessage) (field : CompiledField)
    → field.presence_bit < 64
    → Ensures
        (λ (b : Bool). Unit {0})
        (if condition_matches m field then presence_matches m field else done false)
unfolding presence_matches
presence-Ensures m field h =
    let t : ltb field.presence_bit 64 ≡ true = ground (arith, h) in
    Ensures-if (condition_matches m field)
      (λ e.
        Ensures-if (not field.has_presence) (λ e'. holds tt)
          (λ e'. shifted t (raw_unsigned m field.presence_field)))
      (λ e. holds tt)
  where
    shifted :
        (t : ltb field.presence_bit 64 ≡ true) (o : Option ℕ)
        → Ensures
            (λ (b : Bool). Unit {0})
            (elim o [
              | none ↦ done false
              | some value ↦
                  if ltb field.presence_bit 64
                  then done (value / 2 ^ field.presence_bit % 2 == 1)
                  else fault
            ])
    shifted t none = holds tt
    shifted t (some value) = rw t (holds tt)

module _ (ops : ByteOps) (protocol : CompiledProtocol)
    (nested : CompiledMessage → List ℕ → Outcome (DecodedMessage × ℕ))
    (P : CompiledMessage → Type 0)
    (decodes : (layout : CompiledMessage) (bytes : List ℕ)
      → P layout
      → length bytes < 2 ^ 63
      → Ensures (λ (r : DecodedMessage × ℕ). r.1 ≤ length bytes) (nested layout bytes))
    (layout : CompiledMessage) (frame : List ℕ) (few : length layout.fields ≤ 64)
    (short : length frame < 2 ^ 63) where
  -- A field that is present, from its aligned offset on.
  decode_present-Running :
      (k : ℕ) (m : DecodedMessage) (before offset : ℕ) (field : CompiledField)
      → Running ops protocol layout frame k m before
      → before ≤ offset
      → FieldOk protocol P k field
      → get_elem? layout.fields k ≡ some field
      → Ensures
          (λ (r : DecodedMessage × ℕ). Running ops protocol layout frame (suc k) r.0 r.1)
          (decode_present ops protocol nested field offset m)
  unfolding decode_present field_definition
  decode_present-Running k m before offset field r l ok g =
      let len : length m.frame ≡ length frame = ap length r.frame_is in
      let id_lt : field.id < 64 = omega (arith, get-length layout.fields k field g, ok.id_is) in
      Ensures-fail_if (ltb (length m.frame) offset) _ (λ e.
        let in_frame : offset ≤ length m.frame = ltb→le (length m.frame) offset e in
        Ensures->>=
          (size_of_kind_lem protocol nested P decodes field.kind field offset m ok.refs ok.width_lt
            ok.size_lt in_frame (omega arith))
          (λ size h.
            Ensures->>= {P = λ (end : ℕ). end ≡ offset + size}
              (Ensures-or_fail (checked_add_size offset size) _
                (λ end e'. checked_add_size-some offset size end h.0 e'))
              (λ end e'. Ensures-fail_if (ltb (length m.frame) end) _ (λ e''.
                let fits : offset + size ≤ length m.frame =
                  omega (arith, ltb→le (length m.frame) end e'') in
                let bytes : List ℕ = subspan m.frame offset size in
                rw
                  (
                    place-placed field.id true offset size m id_lt,
                    subspan_of_inside m.frame offset size fits,
                  )
                  (let m' : DecodedMessage =
                      eager_cache_scalar field.id bytes (placed m field.id true offset size) in
                    let c : Caches field.id field bytes (placed m field.id true offset size) m' =
                      eager_cache_scalar-Caches field.id field bytes
                        (placed m field.id true offset size)
                        (field_definition-get m layout field.id r.message_is
                          ∙ (ap (get_elem? layout.fields) ok.id_is ∙ g)) in
                    Ensures->>= (check_expected_lem field m') (λ _ x.
                      Ensures->>= (check_encoding_lem ops field bytes) (λ _ y.
                        Ensures->>= (check_reserved_lem field bytes) (λ _ z. holds (
                          subst (λ (n : ℕ). Running ops protocol layout frame (suc k) m' n) (sym e')
                            (present-Running ops protocol layout frame k m m' before offset size
                              field r ok.id_is c l (omega arith) g h.1 x y z))))))))))

  absent-Running :
      (k : ℕ) (m : DecodedMessage) (offset : ℕ) (field : CompiledField)
      → Running ops protocol layout frame k m offset
      → field.id ≡ k
      → get_elem? layout.fields k ≡ some field
      → Running ops protocol layout frame (suc k) (placed m field.id false offset 0) offset
  absent-Running k m offset field r id_is g =
      let absent : (update m.field_present field.id false) k ≡ false =
        ap (update m.field_present field.id false) (sym id_is)
        ∙ update_same m.field_present field.id false in
      let x : Extends k m (placed m field.id false offset 0) = record {
        same_message = refl;
        same_protocol = refl;
        same_frame = refl;
        same_count = refl;
        same_present = λ j ne. update_other m.field_present field.id j false (λ e. ne (e ∙ id_is));
        same_resolved = λ j ne.
            update_other m.resolved_fields field.id j (record { offset = offset; size = 0 })
              (λ e. ne (e ∙ id_is));
        same_valid = λ j ne. refl;
        same_values = λ j ne. refl;
      } in
      Running-Extends ops protocol layout frame k m (placed m field.id false offset 0) offset offset
        field r x (omega arith) r.offset_le g
        (Settled-absent ops frame offset field (update m.field_present field.id false k)
          (update m.resolved_fields field.id (record { offset = offset; size = 0 }) k)
          (m.scalar_cache_valid k) (m.scalar_cache_values k) absent (r.untouched k (omega arith)).1)
        (λ e. let y : update m.field_present field.id false k ≡ true = e in cc)

  -- All the fields from the `k`th on.
  pub decode_fields-Running :
      (fields : List CompiledField) (k : ℕ) (m : DecodedMessage) (offset : ℕ)
      → Running ops protocol layout frame k m offset
      → FieldsOk protocol P k fields
      → ((j : ℕ) → get_elem? layout.fields (k + j) ≡ get_elem? fields j)
      → k + length fields ≡ length layout.fields
      → Ensures
          (λ (r : DecodedMessage × ℕ).
            Running ops protocol layout frame (length layout.fields) r.0 r.1)
          (decode_fields ops protocol nested fields offset m)
  unfolding decode_fields
  decode_fields-Running [] k m offset r ok h n =
      holds (subst (λ (i : ℕ). Running ops protocol layout frame i m offset) (omega arith) r)
  decode_fields-Running (field ∷ fields) k m offset r ok h n =
      let k_is : k ≡ k + 0 = omega arith in
      let g : get_elem? layout.fields k ≡ some field = ap (get_elem? layout.fields) k_is ∙ h 0 in
      let id_lt : field.id < 64 = omega (arith, get-length layout.fields k field g, (ok.0).id_is) in
      let aligned : offset ≤ align_up offset field.alignment =
        align_up_ge offset field.alignment (omega (arith, (ok.0).alignment_le, r.offset_le)) in
      Ensures->>= (presence-Ensures m field (ok.0).presence_lt) (λ present _.
        Ensures->>=
          {P = λ (x : DecodedMessage × ℕ). Running ops protocol layout frame (suc k) x.0 x.1}
          (Ensures-if present
            (λ e.
              decode_present-Running k m offset (align_up offset field.alignment) field r aligned
                ok.0 g)
            (λ e.
              rw (place-placed field.id false offset 0 m id_lt)
                (holds (absent-Running k m offset field r (ok.0).id_is g))))
          (λ x r'.
            decode_fields-Running fields (suc k) x.0 x.1 r' ok.1
              (λ j.
                let s : suc k + j ≡ k + suc j = omega arith in
                ap (get_elem? layout.fields) s ∙ h (suc j))
              (omega arith)))
