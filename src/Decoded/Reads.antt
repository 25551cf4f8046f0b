-- ===== src/Decoded/Reads.antt =====
-- What the accessors of a decoded message return, and that they read nothing out of bounds.
use universal_protocol_runti.Base.{
  ℕ, ◌+◌, ◌≤◌, ◌<◌, ◌≡◌, refl, sym, ap, ◌∙◌, Bool, true, false, not, List, Option, some, none,
  length, get_elem?, subspan, take, drop, arith, inl, inr, ltb, if◌then◌else◌, Bool-cases,
  Option-cases, lt→ltb, if_true_elim, take-drop, take-take, length-take,
}
use universal_protocol_runti.ByteOps.{ByteOps}
use universal_protocol_runti.Scalar.{read_unsigned_scalar}
use universal_protocol_runti.Outcome.{Outcome, done, failed, fault, out_of_fuel, ◌>>=◌}
use universal_protocol_runti.Layout.{
  FieldKind, CompiledField, CompiledMessage, CompiledProtocol, is_scalar_kind,
}
use universal_protocol_runti.Decoded.{
  DecodedMessage, ResolvedField, field_definition, raw_unsigned, cached_scalar_raw,
  is_unsigned_or_enum,
}
use universal_protocol_runti.Decoded.Access.{
  guarded, field_selected, resolved_field, get_unsigned, resolved_bytes, get_bytes,
  is_collection_or_variant,
}
use universal_protocol_runti.Decoded.Invariant.{Settles}
use universal_protocol_runti.Decoded.Fields.{
  field_definition-get, subspan_of_inside, cached_scalar_raw-cached, get-length,
}
use universal_protocol_runti.Decoded.Safety.{IsDecoded}

-- A part of the front of a list is that part of the list.
subspan-take :
    (xs : List ℕ) (c offset size : ℕ)
    → offset + size ≤ c
    → subspan (take c xs) offset size ≡ subspan xs offset size
subspan-take xs c offset size h =
    take-drop size offset (take c xs)
    ∙ (ap (drop offset) (take-take (offset + size) c xs h) ∙ sym (take-drop size offset xs))

-- What is behind a value that `get_unsigned` returns.
selected_some :
    (o : Outcome Bool) (raw : Option ℕ) (v : ℕ)
    → (o >>= λ selected. guarded selected (done raw)) ≡ done (some v)
    → (o ≡ done true) × (raw ≡ some v)
selected_some (done true) raw v e = (refl, ground (arith, e))
selected_some (done false) raw v e = cc
selected_some (failed s) raw v e = cc
selected_some fault raw v e = cc
selected_some out_of_fuel raw v e = cc

raw_unsigned-cached :
    (m : DecodedMessage) (i v : ℕ) (field : CompiledField)
    → field_definition m i ≡ some field
    → raw_unsigned m i ≡ some v
    → (is_unsigned_or_enum field.kind ≡ true) × (cached_scalar_raw m i ≡ some v)
unfolding raw_unsigned
raw_unsigned-cached m i v field f e = (ground (arith, e, f), ground (arith, e, f))

raw_unsigned-defined :
    (m : DecodedMessage) (i v : ℕ)
    → raw_unsigned m i ≡ some v
    → (field : CompiledField) × (field_definition m i ≡ some field)
unfolding raw_unsigned
raw_unsigned-defined m i v e = elim (Option-cases (field_definition m i)) [
  | inl n ↦ ground (arith, e, n)
  | inr (field, f) ↦ (field, f)
]

unsigned_or_enum-scalar :
    (kind : FieldKind)
    → is_unsigned_or_enum kind ≡ true
    → (is_scalar_kind kind ≡ true) × (is_collection_or_variant kind ≡ false)
unsigned_or_enum-scalar FieldKind.unsigned e = (refl, refl)
unsigned_or_enum-scalar FieldKind.signed e = cc
unsigned_or_enum-scalar FieldKind.float32 e = cc
unsigned_or_enum-scalar FieldKind.float64 e = cc
unsigned_or_enum-scalar FieldKind.bytes e = cc
unsigned_or_enum-scalar FieldKind.string e = cc
unsigned_or_enum-scalar FieldKind.struct e = cc
unsigned_or_enum-scalar FieldKind.enum e = (refl, refl)
unsigned_or_enum-scalar FieldKind.collection e = cc
unsigned_or_enum-scalar FieldKind.variant e = cc

resolved_field_present :
    (m : DecodedMessage) (i : ℕ)
    → ltb i m.field_count ≡ true
    → m.field_present i ≡ true
    → field_selected m i ≡ done true
    → resolved_field m i ≡ done (some (m.resolved_fields i))
unfolding resolved_field
resolved_field_present m i c p s = rw (c, p, s) refl

pub resolved_bytes_inside :
    (m : DecodedMessage) (r : ResolvedField)
    → r.offset + r.size ≤ length m.frame
    → resolved_bytes m r ≡ done (some (subspan m.frame r.offset r.size))
unfolding resolved_bytes
resolved_bytes_inside m r h = rw (subspan_of_inside m.frame r.offset r.size h) refl

-- The bytes of a present field that is selected.
get_bytes_present :
    (m : DecodedMessage) (i : ℕ) (field : CompiledField)
    → field_definition m i ≡ some field
    → is_collection_or_variant field.kind ≡ false
    → ltb i m.field_count ≡ true
    → m.field_present i ≡ true
    → field_selected m i ≡ done true
    → (m.resolved_fields i).offset + (m.resolved_fields i).size ≤ length m.frame
    → get_bytes m i
      ≡ done (some (subspan m.frame (m.resolved_fields i).offset (m.resolved_fields i).size))
unfolding get_bytes
get_bytes_present m i field f k c p s h = rw f (
    if_true_elim
      (λ (x : Outcome (Option (List ℕ))).
        x ≡ done (some (subspan m.frame (m.resolved_fields i).offset (m.resolved_fields i).size)))
      (not (is_collection_or_variant field.kind)) _ (done none) (ap not k)
      (rw (resolved_field_present m i c p s) (resolved_bytes_inside m (m.resolved_fields i) h)))

module _ (ops : ByteOps) (protocol : CompiledProtocol) (layout : CompiledMessage) (frame : List ℕ)
    (prefix : Bool) (m : DecodedMessage) (consumed : ℕ)
    (d : IsDecoded ops protocol layout frame prefix (m, consumed)) where
  -- The bytes of a present field are the same in the message's own frame.
  pub own_frame :
      (offset size : ℕ)
      → offset + size ≤ consumed
      → (offset + size ≤ length m.frame) × (subspan m.frame offset size ≡ subspan frame offset size)
  own_frame offset size h = elim (Bool-cases layout.allow_trailing_bytes) [
    | inl e ↦
        let f : m.frame ≡ frame =
          d.frame_is ∙ ap (λ b. if b then frame else take consumed frame) e in
        rw f (omega (arith, (d.running).offset_le), refl)
    | inr e ↦
        let f : m.frame ≡ take consumed frame =
          d.frame_is ∙ ap (λ b. if b then frame else take consumed frame) e in
        rw f (
          omega (arith, (d.running).offset_le, length-take consumed frame),
          subspan-take frame consumed offset size h,
        )
  ]

  pub field_at : (i : ℕ) → field_definition m i ≡ get_elem? layout.fields i
  field_at i = field_definition-get m layout i (d.running).message_is

  -- A scalar that `get_unsigned` returns is the number that the bytes of its field, which `get_bytes`
  -- returns, stand for in the field's byte order and width.
  pub get_unsigned-Reads :
      (i v : ℕ)
      → get_unsigned m i ≡ done (some v)
      → (field : CompiledField) × (bytes : List ℕ) × (get_elem? layout.fields i ≡ some field)
        × (get_bytes m i ≡ done (some bytes))
        × (bytes ≡ subspan frame (m.resolved_fields i).offset (m.resolved_fields i).size)
        × ((m.resolved_fields i).size ≡ field.width_bytes)
        × (read_unsigned_scalar field.byte_order bytes ≡ some v)
  unfolding get_unsigned
  get_unsigned-Reads i v e =
      let (sel, raw) = selected_some (field_selected m i) (raw_unsigned m i) v e in
      let (field, f) = raw_unsigned-defined m i v raw in
      let (kind, c) = raw_unsigned-cached m i v field f raw in
      let (valid, val) = cached_scalar_raw-cached m i v c in
      let g : get_elem? layout.fields i ≡ some field = sym (field_at i) ∙ f in
      let lt : i < length layout.fields = get-length layout.fields i field g in
      let s : Settles ops frame consumed field m i = (d.running).settled i field lt g in
      let (present, read) = s.cached valid in
      let (inside, same) =
        own_frame (m.resolved_fields i).offset (m.resolved_fields i).size (s.inside present) in
      let counted : ltb i m.field_count ≡ true =
        lt→ltb i m.field_count (omega (arith, (d.running).count_is)) in
      (
        field,
        subspan m.frame (m.resolved_fields i).offset (m.resolved_fields i).size,
        g,
        get_bytes_present m i field f (unsigned_or_enum-scalar field.kind kind).1 counted present
            sel inside,
        same,
        s.width present (unsigned_or_enum-scalar field.kind kind).0,
        ap (read_unsigned_scalar field.byte_order) same ∙ (read ∙ ap some val),
      )
