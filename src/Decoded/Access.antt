-- ===== src/Decoded/Access.antt =====
-- The accessors of `DecodedMessage` and `DecodedCollectionView` in
-- packages/upr_runtime/src/decoder/decoded_message.cpp. What a call returns is an `Option`; it is a
-- fault if it reads out of the bounds of an array or of the frame. A floating-point number is the bits
-- that `std::bit_cast` is given, and an `int64_t` is in two's complement.
use Prim.Native.String.{String}
use universal_protocol_runti.Base.{
  ℕ, ◌*◌, ◌/◌, ◌%◌, ◌^◌, Bool, true, false, not, ◌&&◌, List, [], ◌∷◌, Option, none, some, ltb, ◌==◌,
  if◌then◌else◌, get_elem?, bit_and,
}
use universal_protocol_runti.Outcome.{Outcome, done, fault, ◌>>=◌}
use universal_protocol_runti.ByteOps.{sign_extend}
use universal_protocol_runti.Layout.{FieldKind, CompiledBitField, EnumValueDefinition}
use universal_protocol_runti.Layout.Names.{find_field, find_bit_field}
use universal_protocol_runti.Decoded.{
  DecodedMessage, ResolvedField, max_fields_per_message, field_definition, cached_scalar_raw,
  raw_unsigned,
}
use universal_protocol_runti.Decoded.Assign.{subspan_of, is_string}

-- An optional value is passed on, or the function returns `std::nullopt`.
abbrev pub and_then {ℓ κ} :
    {A : Type ℓ} {B : Type κ} → Option A → (A → Outcome (Option B)) → Outcome (Option B)
and_then none f = done none
and_then (some a) f = f a

-- if (!test) { return std::nullopt; }
abbrev pub guarded {ℓ} : {A : Type ℓ} → Bool → Outcome (Option A) → Outcome (Option A)
guarded test o = if test then o else done none

-- The selection array is read only while a selection is active, with no test of the index.
unfoldable pub field_selected : DecodedMessage → ℕ → Outcome Bool
field_selected m id =
    if not m.selection_active
    then done true
    else if ltb id max_fields_per_message
    then done (m.selected_fields id)
    else fault

unfoldable pub resolved_field : DecodedMessage → ℕ → Outcome (Option ResolvedField)
unfolding field_selected
resolved_field m id =
    guarded (ltb id m.field_count && m.field_present id)
      (field_selected m id >>= λ selected. guarded selected (done (some (m.resolved_fields id))))

unfoldable pub is_present : DecodedMessage → ℕ → Outcome Bool
unfolding field_selected
is_present m id =
    if ltb id m.field_count && m.field_present id then field_selected m id else done false

unfoldable pub get_unsigned : DecodedMessage → ℕ → Outcome (Option ℕ)
unfolding field_selected
get_unsigned m id = field_selected m id >>= λ selected. guarded selected (done (raw_unsigned m id))

abbrev pub is_signed_kind : FieldKind → Bool
is_signed_kind FieldKind.signed = true
is_signed_kind _ = false

unfoldable pub get_signed : DecodedMessage → ℕ → Outcome (Option ℕ)
unfolding field_selected
get_signed m id = and_then (field_definition m id) (λ field. guarded (is_signed_kind field.kind) (
    field_selected m id >>= λ selected. guarded selected (
      and_then (cached_scalar_raw m id)
        (λ raw. done (sign_extend raw (field.width_bytes * 8 % 256))))))

abbrev pub is_float32_kind : FieldKind → Bool
is_float32_kind FieldKind.float32 = true
is_float32_kind _ = false

abbrev pub is_float64_kind : FieldKind → Bool
is_float64_kind FieldKind.float64 = true
is_float64_kind _ = false

unfoldable pub get_float32 : DecodedMessage → ℕ → Outcome (Option ℕ)
unfolding field_selected
get_float32 m id = and_then (field_definition m id) (λ field.
    guarded (is_float32_kind field.kind && field.width_bytes == 4) (
      field_selected m id >>= λ selected.
      guarded selected (and_then (cached_scalar_raw m id) (λ value. done (some (value % 2 ^ 32))))))

unfoldable pub get_float64 : DecodedMessage → ℕ → Outcome (Option ℕ)
unfolding field_selected
get_float64 m id = and_then (field_definition m id) (λ field.
    guarded (is_float64_kind field.kind && field.width_bytes == 8)
      (field_selected m id >>= λ selected. guarded selected (done (cached_scalar_raw m id))))

-- frame_.subspan(resolved->offset, resolved->size)
unfoldable pub resolved_bytes : DecodedMessage → ResolvedField → Outcome (Option (List ℕ))
unfolding subspan_of
resolved_bytes m r = subspan_of m.frame r.offset r.size >>= λ bytes. done (some bytes)

abbrev pub is_collection_or_variant : FieldKind → Bool
is_collection_or_variant FieldKind.collection = true
is_collection_or_variant FieldKind.variant = true
is_collection_or_variant _ = false

unfoldable pub get_bytes : DecodedMessage → ℕ → Outcome (Option (List ℕ))
unfolding resolved_field resolved_bytes
get_bytes m id = and_then (field_definition m id) (λ field.
    guarded (not (is_collection_or_variant field.kind))
      (resolved_field m id >>= λ resolved. and_then resolved (resolved_bytes m)))

unfoldable pub get_string_view : DecodedMessage → ℕ → Outcome (Option (List ℕ))
unfolding resolved_field resolved_bytes
get_string_view m id = and_then (field_definition m id) (λ field.
    guarded (is_string field.kind)
      (resolved_field m id >>= λ resolved. and_then resolved (resolved_bytes m)))

-- std::find_if(enum_values.begin(), enum_values.end(), ...)
unfoldable pub find_enum_name : List EnumValueDefinition → ℕ → Option String
find_enum_name [] value = none
find_enum_name (e ∷ enum_values) value =
    let rest = find_enum_name enum_values value in if e.value == value then some e.name else rest

abbrev pub is_enum_kind : FieldKind → Bool
is_enum_kind FieldKind.enum = true
is_enum_kind _ = false

unfoldable pub get_enum_name : DecodedMessage → ℕ → Outcome (Option String)
unfolding get_unsigned find_enum_name
get_enum_name m id = and_then (field_definition m id) (λ field. guarded (is_enum_kind field.kind) (
    get_unsigned m id >>= λ value. and_then value (λ v. done (find_enum_name field.enum_values v))))

unfoldable pub bit_field_definition : DecodedMessage → ℕ → Option CompiledBitField
bit_field_definition m id = elim m.message [
  | none ↦ none
  | some layout ↦ get_elem? layout.bit_fields id
]

abbrev pub is_integer_kind : FieldKind → Bool
is_integer_kind FieldKind.unsigned = true
is_integer_kind FieldKind.signed = true
is_integer_kind FieldKind.enum = true
is_integer_kind _ = false

-- A shift of 64 bits by 64 or more is undefined.
unfoldable pub get_bit_unsigned : DecodedMessage → ℕ → Outcome (Option ℕ)
unfolding field_selected bit_field_definition
get_bit_unsigned m bit_field_id = and_then (bit_field_definition m bit_field_id) (λ bit_field.
    field_selected m bit_field.container_field_id >>= λ selected. guarded selected (
      and_then (field_definition m bit_field.container_field_id) (λ container.
        guarded (is_integer_kind container.kind) (
          and_then (cached_scalar_raw m bit_field.container_field_id) (λ value.
            if ltb bit_field.shift_bits 64
            then done (some (bit_and (value / 2 ^ bit_field.shift_bits) bit_field.mask))
            else fault)))))

unfoldable pub get_bit_signed : DecodedMessage → ℕ → Outcome (Option ℕ)
unfolding get_bit_unsigned bit_field_definition
get_bit_signed m bit_field_id = and_then (bit_field_definition m bit_field_id) (λ bit_field.
    guarded bit_field.is_signed (
      get_bit_unsigned m bit_field_id >>= λ value.
      and_then value (λ v. done (sign_extend v bit_field.width_bits))))

unfoldable pub get_bit_enum_name : DecodedMessage → ℕ → Outcome (Option String)
unfolding get_bit_unsigned bit_field_definition find_enum_name
get_bit_enum_name m bit_field_id = and_then (bit_field_definition m bit_field_id) (λ bit_field.
    get_bit_unsigned m bit_field_id >>= λ value.
    and_then value (λ v. done (find_enum_name bit_field.enum_values v)))

-- field_id(name), and the overloads by name: each resolves the name and calls the one by number.
unfoldable pub is_present_by_name : DecodedMessage → String → Outcome Bool
unfolding is_present
is_present_by_name m name = elim m.message [
  | none ↦ done false
  | some layout ↦ elim (find_field layout name) [ none ↦ done false | some id ↦ is_present m id ]
]

unfoldable pub by_field_name {ℓ} :
    {A : Type ℓ}
    → (DecodedMessage → ℕ → Outcome (Option A))
    → DecodedMessage
    → String
    → Outcome (Option A)
by_field_name get m name = elim m.message [
  | none ↦ done none
  | some layout ↦ and_then (find_field layout name) (get m)
]

unfoldable pub by_bit_field_name {ℓ} :
    {A : Type ℓ}
    → (DecodedMessage → ℕ → Outcome (Option A))
    → DecodedMessage
    → String
    → Outcome (Option A)
by_bit_field_name get m name = elim m.message [
  | none ↦ done none
  | some layout ↦ and_then (find_bit_field layout name) (get m)
]
