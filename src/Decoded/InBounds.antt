-- ===== src/Decoded/InBounds.antt =====
-- The accessors of a decoded message read nothing out of bounds, and those that decode a nested layout
-- need no more fuel than it nests deep.
use mathlib.Core.Path.{subst}
use universal_protocol_runti.Base.{
  ℕ, zero, suc, ◌+◌, ◌^◌, ◌≤◌, ◌<◌, ◌≡◌, ◌⊎◌, refl, sym, ap, ◌∙◌, Bool, true, false, not, ◌&&◌,
  List, [], ◌∷◌, Option, some, none, length, get_elem?, subspan, take, drop, arith, inl, inr, ltb,
  if◌then◌else◌, Bool-cases, ltb→lt, length-drop, length-take,
}
use universal_protocol_runti.ByteOps.{ByteOps}
use universal_protocol_runti.Outcome.{Outcome, Ensures, holds, rejected, Ensures->>=, Ensures-if}
use universal_protocol_runti.Layout.{
  FieldKind, CompiledField, CompiledMessage, CompiledProtocol, struct_by_id,
}
use universal_protocol_runti.Decoded.{DecodedMessage, ResolvedField, field_definition, raw_unsigned}
use universal_protocol_runti.Decoded.Assign.{subspan_of, is_string}
use universal_protocol_runti.Decoded.Access.{
  and_then, guarded, field_selected, resolved_field, get_bytes, get_string_view,
  is_collection_or_variant,
}
use universal_protocol_runti.Decoded.Nested.{
  DecodedCollectionView, or_none, is_struct_kind, is_collection_kind, is_variant_kind,
  count_elements, get_collection, decode_nested, get_struct, get_variant,
}
use universal_protocol_runti.Decoded.Compiled.{
  IsCompiled, FieldsOk, RefsOk, RefOk, CasesOk, LookupOk,
}
use universal_protocol_runti.Decoded.Sizes.{FoundOk, find_variant_case-FoundOk}
use universal_protocol_runti.Decoded.Fields.{subspan_of_inside}
use universal_protocol_runti.Decoded.Safety.{IsDecoded, assign_from_layout-IsDecoded}
use universal_protocol_runti.Decoded.Reads.{own_frame, field_at, resolved_bytes_inside}

-- No fault, and enough fuel.
abbrev pub InBounds {ℓ} : {A : Type ℓ} → Outcome A → Type ℓ
InBounds {A} o = Ensures (λ (_ : A). Unit {0}) o

-- The selection array has an entry for the field, or is not looked at.
abbrev pub Selectable : DecodedMessage → ℕ → Type 0
Selectable m i = (m.selection_active ≡ false) ⊎ (i < 64)

module _ {ℓ ℓ'} {A : Type ℓ} {P : Option A → Type ℓ'} where
  pub Ensures-guarded :
      (test : Bool) {o : Outcome (Option A)}
      → P none
      → (test ≡ true → Ensures P o)
      → Ensures P (guarded test o)
  Ensures-guarded true p h = h refl
  Ensures-guarded false p h = holds p

  pub Ensures-and_then {κ} :
      {B : Type κ} (o : Option B) {f : B → Outcome (Option A)}
      → P none
      → ((b : B) → o ≡ some b → Ensures P (f b))
      → Ensures P (and_then o f)
  Ensures-and_then none p h = holds p
  Ensures-and_then (some b) p h = h b refl

pub field_selected-InBounds :
    (m : DecodedMessage) (i : ℕ) → Selectable m i → InBounds (field_selected m i)
unfolding field_selected
field_selected-InBounds m i (inl h) = rw h (holds tt)
field_selected-InBounds m i (inr h) =
    Ensures-if (not m.selection_active) (λ e. holds tt)
      (λ e. Ensures-if (ltb i 64) (λ e'. holds tt) (λ e'. absurd (ground (arith, e', h))))

pub or_none-InBounds {ℓ} : {A : Type ℓ} {o : Outcome A} → InBounds o → InBounds (or_none o)
or_none-InBounds (holds h) = holds tt
or_none-InBounds rejected = holds tt

-- A field's obligations, found by its number.
get-FieldsOk :
    (protocol : CompiledProtocol) (P : CompiledMessage → Type 0) (k : ℕ)
    (fields : List CompiledField) (i : ℕ) (field : CompiledField)
    → FieldsOk protocol P k fields
    → get_elem? fields i ≡ some field
    → RefsOk protocol P field.kind field
get-FieldsOk protocol P k [] i field ok e = cc
get-FieldsOk protocol P k (f ∷ fields) zero field ok e =
    let x : f ≡ field = ground (arith, e) in
    subst (λ (g : CompiledField). RefsOk protocol P g.kind g) x (ok.0).refs
get-FieldsOk protocol P k (f ∷ fields) (suc i) field ok e =
    get-FieldsOk protocol P (suc k) fields i field ok.1 e

-- What the kind of a field says of the layouts it refers to.
struct-RefsOk :
    (protocol : CompiledProtocol) (P : CompiledMessage → Type 0) (kind : FieldKind)
    (field : CompiledField)
    → is_struct_kind kind ≡ true
    → RefsOk protocol P kind field
    → RefOk P (struct_by_id protocol field.struct_id)
struct-RefsOk protocol P FieldKind.struct field e ok = ok
struct-RefsOk protocol P FieldKind.unsigned field e ok = cc
struct-RefsOk protocol P FieldKind.signed field e ok = cc
struct-RefsOk protocol P FieldKind.float32 field e ok = cc
struct-RefsOk protocol P FieldKind.float64 field e ok = cc
struct-RefsOk protocol P FieldKind.bytes field e ok = cc
struct-RefsOk protocol P FieldKind.string field e ok = cc
struct-RefsOk protocol P FieldKind.enum field e ok = cc
struct-RefsOk protocol P FieldKind.collection field e ok = cc
struct-RefsOk protocol P FieldKind.variant field e ok = cc

collection-RefsOk :
    (protocol : CompiledProtocol) (P : CompiledMessage → Type 0) (kind : FieldKind)
    (field : CompiledField)
    → is_collection_kind kind ≡ true
    → RefsOk protocol P kind field
    → RefOk P (struct_by_id protocol field.struct_id)
collection-RefsOk protocol P FieldKind.collection field e ok = ok
collection-RefsOk protocol P FieldKind.struct field e ok = cc
collection-RefsOk protocol P FieldKind.unsigned field e ok = cc
collection-RefsOk protocol P FieldKind.signed field e ok = cc
collection-RefsOk protocol P FieldKind.float32 field e ok = cc
collection-RefsOk protocol P FieldKind.float64 field e ok = cc
collection-RefsOk protocol P FieldKind.bytes field e ok = cc
collection-RefsOk protocol P FieldKind.string field e ok = cc
collection-RefsOk protocol P FieldKind.enum field e ok = cc
collection-RefsOk protocol P FieldKind.variant field e ok = cc

variant-RefsOk :
    (protocol : CompiledProtocol) (P : CompiledMessage → Type 0) (kind : FieldKind)
    (field : CompiledField)
    → is_variant_kind kind ≡ true
    → RefsOk protocol P kind field
    → CasesOk protocol P field.variant_cases
      × LookupOk (length field.variant_cases) field.variant_lookup_indices
variant-RefsOk protocol P FieldKind.variant field e ok = ok
variant-RefsOk protocol P FieldKind.struct field e ok = cc
variant-RefsOk protocol P FieldKind.unsigned field e ok = cc
variant-RefsOk protocol P FieldKind.signed field e ok = cc
variant-RefsOk protocol P FieldKind.float32 field e ok = cc
variant-RefsOk protocol P FieldKind.float64 field e ok = cc
variant-RefsOk protocol P FieldKind.bytes field e ok = cc
variant-RefsOk protocol P FieldKind.string field e ok = cc
variant-RefsOk protocol P FieldKind.enum field e ok = cc
variant-RefsOk protocol P FieldKind.collection field e ok = cc

both_true : (a b : Bool) → (a && b) ≡ true → (a ≡ true) × (b ≡ true)
both_true true b e = (refl, e)
both_true false b e = cc

some_inj {ℓ} : {A : Type ℓ} (a b : A) → some a ≡ some b → a ≡ b
some_inj a b e = ap (λ o. elim o [ none ↦ a | some x ↦ x ]) e

module _ (ops : ByteOps) (protocol : CompiledProtocol) (layout : CompiledMessage) (frame : List ℕ)
    (prefix : Bool) (m : DecodedMessage) (consumed : ℕ)
    (d : IsDecoded ops protocol layout frame prefix (m, consumed)) where
  -- A field that is resolved lies inside of the message's frame.
  resolved_field-inside :
      (i : ℕ)
      → Ensures
          (λ (o : Option ResolvedField).
            (r : ResolvedField) → o ≡ some r → r.offset + r.size ≤ length m.frame)
          (resolved_field m i)
  unfolding resolved_field
  resolved_field-inside i =
      Ensures-guarded (ltb i m.field_count && m.field_present i) (λ r e. cc)
        (λ e.
          let lt : i < length layout.fields = omega (
            arith,
            ltb→lt i m.field_count (both_true (ltb i m.field_count) (m.field_present i) e).0,
            (d.running).count_is,
          ) in
          let s : (m.resolved_fields i).offset + (m.resolved_fields i).size ≤ consumed =
            (d.running).before i lt (both_true (ltb i m.field_count) (m.field_present i) e).1 in
          let inside =
            (own_frame ops protocol layout frame prefix m consumed d (m.resolved_fields i).offset
              (m.resolved_fields i).size s).0 in
          Ensures->>= (field_selected-InBounds m i (inr (omega (arith, d.few)))) (λ selected _.
            Ensures-guarded selected (λ r e'. cc)
              (λ e'. holds (λ r e''.
                subst (λ (x : ResolvedField). x.offset + x.size ≤ length m.frame)
                  (some_inj (m.resolved_fields i) r e'') inside))))

  short_frame : length frame < 2 ^ 63 → length m.frame < 2 ^ 63
  short_frame h = elim (Bool-cases layout.allow_trailing_bytes) [
    | inl e ↦
        let f : m.frame ≡ frame =
          d.frame_is ∙ ap (λ b. if b then frame else take consumed frame) e in
        rw f h
    | inr e ↦
        let f : m.frame ≡ take consumed frame =
          d.frame_is ∙ ap (λ b. if b then frame else take consumed frame) e in
        rw f (omega (arith, length-take consumed frame))
  ]

  pub get_bytes-InBounds : (i : ℕ) → InBounds (get_bytes m i)
  unfolding get_bytes
  get_bytes-InBounds i = Ensures-and_then (field_definition m i) tt (λ field f.
      Ensures-guarded (not (is_collection_or_variant field.kind)) tt (λ e.
        Ensures->>= (resolved_field-inside i) (λ resolved h.
          Ensures-and_then resolved tt
            (λ r e'. rw (resolved_bytes_inside m r (h r e')) (holds tt)))))

  pub get_string_view-InBounds : (i : ℕ) → InBounds (get_string_view m i)
  unfolding get_string_view
  get_string_view-InBounds i = Ensures-and_then (field_definition m i) tt (λ field f.
      Ensures-guarded (is_string field.kind) tt (λ e.
        Ensures->>= (resolved_field-inside i) (λ resolved h.
          Ensures-and_then resolved tt
            (λ r e'. rw (resolved_bytes_inside m r (h r e')) (holds tt)))))

  module _ (ops' : ByteOps) (depth : ℕ) (compiled : IsCompiled protocol (suc depth) layout)
      (short : length frame < 2 ^ 63) where
    decode_nested-InBounds :
        (nested_layout : CompiledMessage) (r : ResolvedField)
        → IsCompiled protocol depth nested_layout
        → r.offset + r.size ≤ length m.frame
        → InBounds
            (decode_nested ops' depth protocol nested_layout (subspan_of m.frame r.offset r.size))
    unfolding decode_nested
    decode_nested-InBounds nested_layout r ok h =
        let l = length-take r.size (drop r.offset m.frame) in
        let l' = length-drop r.offset m.frame in
        let b : length (subspan m.frame r.offset r.size) < 2 ^ 63 =
          omega (arith, l, l', short_frame short) in
        rw (subspan_of_inside m.frame r.offset r.size h) (
          or_none-InBounds (
            Ensures->>=
              (assign_from_layout-IsDecoded ops' protocol depth nested_layout
                (subspan m.frame r.offset r.size) none false ok b)
              (λ x y. holds tt)))

    refs_at :
        (i : ℕ) (field : CompiledField)
        → field_definition m i ≡ some field
        → RefsOk protocol (IsCompiled protocol depth) field.kind field
    refs_at i field f =
        get-FieldsOk protocol (IsCompiled protocol depth) 0 layout.fields i field compiled
          (sym (field_at ops protocol layout frame prefix m consumed d i) ∙ f)

    same_protocol : (p : CompiledProtocol) → m.protocol ≡ some p → protocol ≡ p
    same_protocol p e = some_inj protocol p (sym (d.running).protocol_is ∙ e)

    nested_at :
        (p : CompiledProtocol)
        → protocol ≡ p
        → (nested_layout : CompiledMessage) → IsCompiled protocol depth nested_layout
        → (r : ResolvedField) → r.offset + r.size ≤ length m.frame
        → InBounds (decode_nested ops' depth p nested_layout (subspan_of m.frame r.offset r.size))
    nested_at p e nested_layout ok r h =
        subst
          (λ (q : CompiledProtocol).
            InBounds
              (decode_nested ops' depth q nested_layout (subspan_of m.frame r.offset r.size)))
          e (decode_nested-InBounds nested_layout r ok h)

    pub get_struct-InBounds : (i : ℕ) → InBounds (get_struct ops' depth m i)
    unfolding get_struct
    get_struct-InBounds i = Ensures-and_then (field_definition m i) tt (λ field f.
        Ensures-guarded (is_struct_kind field.kind) tt (λ e. Ensures-and_then m.protocol tt (λ p e'.
          Ensures->>= (resolved_field-inside i) (λ resolved h.
            Ensures-and_then resolved tt (λ r e''.
              Ensures-and_then (struct_by_id p field.struct_id) tt (λ nested_layout n.
                nested_at p (same_protocol p e') nested_layout
                  (subst (RefOk (IsCompiled protocol depth))
                    (ap (λ (q : CompiledProtocol). struct_by_id q field.struct_id)
                        (same_protocol p e')
                      ∙ n)
                    (struct-RefsOk protocol (IsCompiled protocol depth) field.kind field e
                      (refs_at i field f)))
                  r (h r e'')))))))

    pub get_variant-InBounds : (i : ℕ) → InBounds (get_variant ops' depth m i)
    unfolding get_variant
    get_variant-InBounds i = Ensures-and_then (field_definition m i) tt (λ field f.
        Ensures-guarded (is_variant_kind field.kind) tt (λ e.
          let (cases, lookup) =
            variant-RefsOk protocol (IsCompiled protocol depth) field.kind field e
              (refs_at i field f) in
          Ensures-and_then m.protocol tt (λ p e'.
            Ensures->>= (resolved_field-inside i) (λ resolved h.
              Ensures-and_then resolved tt (λ r e''.
                Ensures-and_then (raw_unsigned m field.tag_from_field) tt (λ tag t.
                  Ensures->>=
                    (find_variant_case-FoundOk protocol (IsCompiled protocol depth) field tag cases
                      lookup)
                    (λ found ok. Ensures-and_then found tt (λ c g.
                      Ensures-and_then (struct_by_id p c.struct_id) tt (λ nested_layout n.
                        nested_at p (same_protocol p e') nested_layout
                          (subst (RefOk (IsCompiled protocol depth))
                            (ap (λ (q : CompiledProtocol). struct_by_id q c.struct_id)
                                (same_protocol p e')
                              ∙ n)
                            (subst (FoundOk protocol (IsCompiled protocol depth)) g ok))
                          r (h r e''))))))))))

    -- A view that `get_collection` returns has a compiled layout of elements and a short frame.
    pub get_collection-View :
        (i : ℕ)
        → Ensures
            (λ (o : Option DecodedCollectionView).
              (v : DecodedCollectionView)
              → o ≡ some v
              → IsCompiled v.protocol depth v.element_layout × (length v.frame < 2 ^ 63))
            (get_collection m i)
    unfolding get_collection
    get_collection-View i =
        Ensures-and_then (field_definition m i) (λ v e. cc)
          (λ field f.
            Ensures-guarded (is_collection_kind field.kind) (λ v e. cc)
              (λ e.
                Ensures-and_then m.protocol (λ v x. cc)
                  (λ p e'. Ensures->>= (resolved_field-inside i) (λ resolved h.
                    Ensures-and_then resolved (λ v x. cc)
                      (λ r e''.
                        Ensures-and_then (struct_by_id p field.struct_id) (λ v x. cc)
                          (λ element_layout n.
                            Ensures-and_then (count_elements m field) (λ v x. cc)
                              (λ count c. rw (subspan_of_inside m.frame r.offset r.size (h r e'')) (
                                holds (λ v x.
                                  subst
                                    (λ (w : DecodedCollectionView).
                                      IsCompiled w.protocol depth w.element_layout
                                      × (length w.frame < 2 ^ 63))
                                    (some_inj _ v x)
                                    (
                                      subst
                                          (λ (q : CompiledProtocol).
                                            IsCompiled q depth element_layout)
                                          (same_protocol p e')
                                          (subst (RefOk (IsCompiled protocol depth))
                                            (ap
                                                (λ (q : CompiledProtocol).
                                                  struct_by_id q field.struct_id)
                                                (same_protocol p e')
                                              ∙ n)
                                            (collection-RefsOk protocol (IsCompiled protocol depth)
                                              field.kind field e (refs_at i field f))),
                                      omega (
                                        arith,
                                        length-take r.size (drop r.offset m.frame),
                                        length-drop r.offset m.frame,
                                        short_frame short,
                                      ),
                                    ))))))))))
