-- ===== src/Decoded/Compiled.antt =====
-- What the schema compiler promises of a layout, as far as the decoder relies on it: the fields are
-- numbered by their places, a bit of presence is one of the 64 of its field, an alignment is at most half
-- of the range of `size_t`, sizes are in the range of their types, the dense tables of the variants point
-- to their cases, and the layouts that the fields refer to are so too, down to a depth.
use universal_protocol_runti.Base.{
  ℕ, zero, suc, ◌^◌, ◌≤◌, ◌<◌, ◌≡◌, ◌⊎◌, List, [], ◌∷◌, Option, none, some, length,
}
use universal_protocol_runti.Layout.{
  FieldKind, CompiledField, CompiledMessage, CompiledProtocol, CompiledVariantCase, struct_by_id,
}
use universal_protocol_runti.Layout.Variants.{variant_lookup_missing}

abbrev pub RefOk : (CompiledMessage → Type 0) → Option CompiledMessage → Type 0
RefOk P none = Unit {0}
RefOk P (some layout) = P layout

abbrev pub CasesOk :
    CompiledProtocol → (CompiledMessage → Type 0) → List CompiledVariantCase → Type 0
CasesOk protocol P [] = Unit {0}
CasesOk protocol P (c ∷ cases) =
    RefOk P (struct_by_id protocol c.struct_id) × CasesOk protocol P cases

abbrev pub LookupOk : ℕ → List ℕ → Type 0
LookupOk n [] = Unit {0}
LookupOk n (index ∷ indices) = ((index ≡ variant_lookup_missing) ⊎ (index < n)) × LookupOk n indices

abbrev pub RefsOk :
    CompiledProtocol → (CompiledMessage → Type 0) → FieldKind → CompiledField → Type 0
RefsOk protocol P FieldKind.struct field = RefOk P (struct_by_id protocol field.struct_id)
RefsOk protocol P FieldKind.collection field = RefOk P (struct_by_id protocol field.struct_id)
RefsOk protocol P FieldKind.variant field =
    CasesOk protocol P field.variant_cases
    × LookupOk (length field.variant_cases) field.variant_lookup_indices
RefsOk protocol P FieldKind.unsigned field = Unit {0}
RefsOk protocol P FieldKind.signed field = Unit {0}
RefsOk protocol P FieldKind.float32 field = Unit {0}
RefsOk protocol P FieldKind.float64 field = Unit {0}
RefsOk protocol P FieldKind.bytes field = Unit {0}
RefsOk protocol P FieldKind.string field = Unit {0}
RefsOk protocol P FieldKind.enum field = Unit {0}

pub record FieldOk (protocol : CompiledProtocol) (P : CompiledMessage → Type 0) (index : ℕ)
    (field : CompiledField) : Type 0 where
  pub id_is : field.id ≡ index
  pub alignment_le : field.alignment ≤ 2 ^ 63
  pub width_lt : field.width_bytes < 2 ^ 8
  pub size_lt : field.fixed_size < 2 ^ 64
  pub presence_lt : field.presence_bit < 64
  pub refs : RefsOk protocol P field.kind field

abbrev pub FieldsOk :
    CompiledProtocol → (CompiledMessage → Type 0) → ℕ → List CompiledField → Type 0
FieldsOk protocol P index [] = Unit {0}
FieldsOk protocol P index (field ∷ fields) =
    FieldOk protocol P index field × FieldsOk protocol P (suc index) fields

-- The layout nests less than `depth` deep, and all that it refers to is compiled as above.
abbrev pub IsCompiled : CompiledProtocol → ℕ → CompiledMessage → Type 0
IsCompiled protocol zero layout = ⊥
IsCompiled protocol (suc depth) layout =
    FieldsOk protocol (IsCompiled protocol depth) 0 layout.fields
