-- ===== src/Decoded/Assign.antt =====
-- `DecodedMessage::assign_from_layout` of
-- packages/upr_runtime/src/decoder/decoded_message.cpp. The decoding of a nested layout is a parameter
-- of the body of the function; `assign_from_layout` closes the recursion on fuel, one for each level of
-- nesting. `frame.subspan(...)` out of range is a fault, and so is a write past the arrays.
use universal_protocol_runti.Base.{
  ℕ, zero, suc, ◌+◌, ◌-◌, ◌*◌, ◌/◌, ◌%◌, ◌^◌, Bool, true, false, not, ◌&&◌, List, [], ◌∷◌, Option,
  none, some, ltb, leb, ◌==◌, if◌then◌else◌, length, take, drop,
}
use universal_protocol_runti.Core.{DecodeStatus}
use universal_protocol_runti.Outcome.{
  Outcome, done, failed, fault, out_of_fuel, ◌>>=◌, ◌>>◌, fail_if, or_fail,
}
use universal_protocol_runti.ByteOps.{ByteOps, checksum_crc16_ccitt, checksum_crc32}
use universal_protocol_runti.Layout.{
  FieldKind, StringEncoding, BuiltinKind, CompiledField, CompiledMessage, CompiledProtocol,
  CompiledChecksum, CompiledValidationRule, struct_by_id,
}
use universal_protocol_runti.Layout.Variants.{find_variant_case}
use universal_protocol_runti.Decoded.{
  DecodedMessage, default_message, max_fields_per_message, align_up, checked_add_size,
  condition_matches, presence_matches, raw_unsigned, cached_scalar_raw, eager_cache_scalar,
  checksum_anchor_offset, validation_operator_matches, update,
}

-- frame.subspan(offset)
unfoldable pub subspan_from : List ℕ → ℕ → Outcome (List ℕ)
subspan_from frame offset = if leb offset (length frame) then done (drop offset frame) else fault

-- frame.subspan(offset, size)
unfoldable pub subspan_of : List ℕ → ℕ → ℕ → Outcome (List ℕ)
subspan_of frame offset size =
    if leb (offset + size) (length frame) then done (take size (drop offset frame)) else fault

-- The writes of `field_present_` and `resolved_fields_`.
unfoldable pub place : ℕ → Bool → ℕ → ℕ → DecodedMessage → Outcome DecodedMessage
place id present offset size m =
    if ltb id max_fields_per_message
    then done (record m {
      field_present = update m.field_present id present;
      resolved_fields = update m.resolved_fields id (record { offset = offset; size = size });
    })
    else fault

-- The size that another field gives.
unfoldable pub dynamic_bytes_size : CompiledField → DecodedMessage → Outcome ℕ
dynamic_bytes_size field m = do
  value ← or_fail (raw_unsigned m field.size_from_field) DecodeStatus.invalid_data
  fail_if (ltb (length m.frame) value) DecodeStatus.invalid_data
  done value

-- The size of a `kBytes` or `kString` field.
unfoldable pub bytes_size : CompiledField → DecodedMessage → Outcome ℕ
unfolding dynamic_bytes_size
bytes_size field m =
    if field.dynamic_size then dynamic_bytes_size field m else done field.fixed_size

unfoldable pub fixed_elements_size : ℕ → List ℕ → ℕ → ℕ → Outcome ℕ
fixed_elements_size element_size frame offset count = do
  fail_if (element_size == 0) DecodeStatus.schema_mismatch
  fail_if (ltb ((length frame - offset) / element_size) count) DecodeStatus.schema_mismatch
  done (count * element_size % 2 ^ 64)

-- The number of elements of a collection.
unfoldable pub element_count : CompiledField → DecodedMessage → Outcome ℕ
element_count field m =
    if field.dynamic_count
    then or_fail (raw_unsigned m field.count_from_field) DecodeStatus.invalid_data
    else done field.fixed_count

module _ (protocol : CompiledProtocol)
    (nested : CompiledMessage → List ℕ → Outcome (DecodedMessage × ℕ)) where
  -- The bytes that a layout takes from this offset on.
  unfoldable pub nested_size : Option CompiledMessage → ℕ → List ℕ → Outcome ℕ
  unfolding subspan_from
  nested_size layout offset frame = do
    nested_layout ← or_fail layout DecodeStatus.invalid_data
    bytes ← subspan_from frame offset
    decoded ← nested nested_layout bytes
    done decoded.1

  -- for (index ...) { ... total_size += bytes_consumed; }
  unfoldable pub elements_size : CompiledMessage → List ℕ → ℕ → ℕ → ℕ → Outcome ℕ
  unfolding subspan_from
  elements_size layout frame offset zero total_size = done total_size
  elements_size layout frame offset (suc count) total_size = do
    bytes ← subspan_from frame ((offset + total_size) % 2 ^ 64)
    decoded ← nested layout bytes
    fail_if (decoded.1 == 0) DecodeStatus.schema_mismatch
    total ← or_fail (checked_add_size total_size decoded.1) DecodeStatus.schema_mismatch
    fail_if (ltb (length frame - offset) total) DecodeStatus.schema_mismatch
    elements_size layout frame offset count total

  unfoldable pub collection_size : CompiledField → ℕ → DecodedMessage → Outcome ℕ
  unfolding elements_size fixed_elements_size element_count
  collection_size field offset m = do
    count ← element_count field m
    layout ← or_fail (struct_by_id protocol field.struct_id) DecodeStatus.invalid_data
    if count == 0
        then done 0
        else if layout.has_fixed_size
        then fixed_elements_size layout.minimum_size m.frame offset count
        else elements_size layout m.frame offset count 0

  unfoldable pub variant_size : CompiledField → ℕ → DecodedMessage → Outcome ℕ
  unfolding nested_size
  variant_size field offset m = do
    tag_value ← or_fail (raw_unsigned m field.tag_from_field) DecodeStatus.invalid_data
    found ← find_variant_case field tag_value
    variant_case ← or_fail found DecodeStatus.invalid_data
    nested_size (struct_by_id protocol variant_case.struct_id) offset m.frame

  -- What `field_size` is once the kind of the field is dealt with.
  unfoldable pub size_of_kind : FieldKind → CompiledField → ℕ → DecodedMessage → Outcome ℕ
  unfolding nested_size collection_size variant_size bytes_size
  size_of_kind FieldKind.bytes field offset m = bytes_size field m
  size_of_kind FieldKind.string field offset m = bytes_size field m
  size_of_kind FieldKind.struct field offset m =
      nested_size (struct_by_id protocol field.struct_id) offset m.frame
  size_of_kind FieldKind.collection field offset m = collection_size field offset m
  size_of_kind FieldKind.variant field offset m = variant_size field offset m
  size_of_kind FieldKind.unsigned field offset m = done field.width_bytes
  size_of_kind FieldKind.signed field offset m = done field.width_bytes
  size_of_kind FieldKind.float32 field offset m = done field.width_bytes
  size_of_kind FieldKind.float64 field offset m = done field.width_bytes
  size_of_kind FieldKind.enum field offset m = done field.width_bytes

-- !actual.has_value() || *actual != expected
abbrev pub expect : Option ℕ → ℕ → Outcome (Unit {0})
expect none expected = failed DecodeStatus.schema_mismatch
expect (some actual) expected = fail_if (not (actual == expected)) DecodeStatus.schema_mismatch

-- if (field.has_expected_unsigned) { ... }
unfoldable pub check_expected : CompiledField → DecodedMessage → Outcome (Unit {0})
check_expected field m =
    if field.has_expected_unsigned
    then expect (cached_scalar_raw m field.id) field.expected_unsigned
    else done tt

unfoldable pub valid_encoding : ByteOps → StringEncoding → List ℕ → Bool
valid_encoding ops StringEncoding.ascii bytes = ops.runtime_is_valid_ascii bytes
valid_encoding ops StringEncoding.utf8 bytes = ops.runtime_is_valid_utf8 bytes

abbrev pub is_string : FieldKind → Bool
is_string FieldKind.string = true
is_string _ = false

-- if (field.kind == FieldKind::kString) { ... }
unfoldable pub check_encoding : ByteOps → CompiledField → List ℕ → Outcome (Unit {0})
unfolding valid_encoding
check_encoding ops field bytes =
    if is_string field.kind
    then fail_if (not (valid_encoding ops field.string_encoding bytes)) DecodeStatus.invalid_data
    else done tt

unfoldable pub is_filled : ℕ → List ℕ → Bool
is_filled fill [] = true
is_filled fill (byte ∷ bytes) =
    let rest = is_filled fill bytes in if byte == fill then rest else false

-- if (field.is_reserved) { ... }
unfoldable pub check_reserved : CompiledField → List ℕ → Outcome (Unit {0})
unfolding is_filled
check_reserved field bytes =
    if field.is_reserved
    then fail_if (not (is_filled field.reserved_fill_byte bytes)) DecodeStatus.schema_mismatch
    else done tt

unfoldable pub actual_checksum : ByteOps → CompiledChecksum → (List ℕ → ℕ) → List ℕ → ℕ
actual_checksum ops checksum function bytes = elim checksum.builtin_kind [
  | BuiltinKind.xor8 ↦ ops.runtime_checksum_xor8 bytes
  | BuiltinKind.sum16 ↦ ops.runtime_checksum_sum16 bytes
  | BuiltinKind.crc16_ccitt ↦ checksum_crc16_ccitt bytes
  | BuiltinKind.crc32 ↦ checksum_crc32 bytes
  | BuiltinKind.crc32c ↦ ops.runtime_checksum_crc32c bytes
  | BuiltinKind.custom ↦ function bytes
]

unfoldable pub check_checksum : ByteOps → DecodedMessage → CompiledChecksum → Outcome (Unit {0})
unfolding actual_checksum subspan_of
check_checksum ops m checksum = do
  function ← or_fail checksum.function DecodeStatus.invalid_data
  from_offset ← or_fail (checksum_anchor_offset checksum.from m) DecodeStatus.schema_mismatch
  to_offset ← or_fail (checksum_anchor_offset checksum.to m) DecodeStatus.schema_mismatch
  fail_if (ltb to_offset from_offset) DecodeStatus.schema_mismatch
  fail_if (ltb (length m.frame) to_offset) DecodeStatus.schema_mismatch
  bytes ← subspan_of m.frame from_offset (to_offset - from_offset)
  expected ← or_fail (raw_unsigned m checksum.field_id) DecodeStatus.checksum_mismatch
  fail_if (not (expected == actual_checksum ops checksum function bytes))
      DecodeStatus.checksum_mismatch

unfoldable pub check_checksums :
    ByteOps → DecodedMessage → List CompiledChecksum → Outcome (Unit {0})
unfolding check_checksum
check_checksums ops m [] = done tt
check_checksums ops m (checksum ∷ checksums) = do
  check_checksum ops m checksum
  check_checksums ops m checksums

-- if (validation.has_when) { ... continue; }
unfoldable pub applies : DecodedMessage → CompiledValidationRule → Bool
applies m validation =
    if validation.has_when
    then elim (raw_unsigned m validation.when_field_id) [
      | none ↦ false
      | some when_value ↦ when_value == validation.when_equals
    ]
    else true

-- The right-hand side before the multiplier.
unfoldable pub rhs_value : DecodedMessage → CompiledValidationRule → Option ℕ
rhs_value m validation =
    if validation.compare_to_field
    then raw_unsigned m validation.other_field_id
    else some validation.value

unfoldable pub compare_sides : DecodedMessage → CompiledValidationRule → Outcome (Unit {0})
unfolding rhs_value
compare_sides m validation = do
  lhs ← or_fail (raw_unsigned m validation.field_id) DecodeStatus.invalid_data
  rhs ← or_fail (rhs_value m validation) DecodeStatus.invalid_data
  fail_if
      (not (
        validation_operator_matches validation.op lhs
          (if validation.multiplier == 1 then rhs else rhs * validation.multiplier % 2 ^ 64)))
      DecodeStatus.schema_mismatch

unfoldable pub check_validation : DecodedMessage → CompiledValidationRule → Outcome (Unit {0})
unfolding applies compare_sides
check_validation m validation = if applies m validation then compare_sides m validation else done tt

unfoldable pub check_validations : DecodedMessage → List CompiledValidationRule → Outcome (Unit {0})
unfolding check_validation
check_validations m [] = done tt
check_validations m (validation ∷ validations) = do
  check_validation m validation
  check_validations m validations

-- The candidate before its fields are decoded.
abbrev pub candidate :
    CompiledProtocol → CompiledMessage → List ℕ → Option (ℕ → Bool) → DecodedMessage
candidate protocol layout frame selected = record default_message {
  protocol = some protocol;
  message = some layout;
  frame = frame;
  field_count = length layout.fields;
  selection_active = elim selected [ none ↦ false | some _ ↦ true ];
  selected_fields = elim selected [ none ↦ λ i. true | some fields ↦ fields ];
}

-- The checks after the loop, and what the message is assigned.
unfoldable pub finish :
    ByteOps → CompiledMessage → Bool → DecodedMessage × ℕ → Outcome (DecodedMessage × ℕ)
unfolding check_checksums check_validations
finish ops layout allow_prefix_trailing (m, offset) = do
  fail_if
      (not allow_prefix_trailing
        && not layout.allow_trailing_bytes
        && not (offset == length m.frame))
      DecodeStatus.schema_mismatch
  check_checksums ops m layout.checksums
  check_validations m layout.validations
  done (
    (if layout.allow_trailing_bytes then m else record m { frame = take offset m.frame }),
    offset,
  )

module _ (ops : ByteOps) (protocol : CompiledProtocol)
    (nested : CompiledMessage → List ℕ → Outcome (DecodedMessage × ℕ)) where
  -- A field that is there: the body of the loop from `align_up` on.
  unfoldable pub decode_present : CompiledField → ℕ → DecodedMessage → Outcome (DecodedMessage × ℕ)
  unfolding size_of_kind place subspan_of check_expected check_encoding check_reserved
  decode_present field offset m = do
    fail_if (ltb (length m.frame) offset) DecodeStatus.schema_mismatch
    field_size ← size_of_kind protocol nested field.kind field offset m
    field_end ← or_fail (checked_add_size offset field_size) DecodeStatus.schema_mismatch
    fail_if (ltb (length m.frame) field_end) DecodeStatus.schema_mismatch
    placed ← place field.id true offset field_size m
    field_bytes ← subspan_of m.frame offset field_size
    let cached = eager_cache_scalar field.id field_bytes placed
    check_expected field cached
    check_encoding ops field field_bytes
    check_reserved field field_bytes
    done (cached, field_end)

  -- for (const CompiledField& field : layout.fields()) { ... }
  unfoldable pub decode_fields :
      List CompiledField → ℕ → DecodedMessage → Outcome (DecodedMessage × ℕ)
  unfolding decode_present place
  decode_fields [] offset m = done (m, offset)
  decode_fields (field ∷ fields) offset m = do
    present ← if condition_matches m field then presence_matches m field else done false
    next ←
        if present
        then decode_present field (align_up offset field.alignment) m
        else (place field.id false offset 0 m >>= λ absent. done (absent, offset))
    decode_fields fields next.1 next.0

  -- The body of the function, with the message and `bytes_consumed` that it leaves.
  unfoldable pub assign_with :
      CompiledMessage → List ℕ → Option (ℕ → Bool) → Bool → Outcome (DecodedMessage × ℕ)
  unfolding decode_fields finish
  assign_with layout frame selected_fields allow_prefix_trailing = do
    fail_if (ltb max_fields_per_message (length layout.fields)) DecodeStatus.field_limit_exceeded
    fail_if (ltb (length frame) layout.minimum_size) DecodeStatus.schema_mismatch
    decoded ← decode_fields layout.fields 0 (candidate protocol layout frame selected_fields)
    finish ops layout allow_prefix_trailing decoded

-- The message that `assign_from_layout` assigns and the bytes that it consumes.
unfoldable pub assign_from_layout :
    ByteOps
    → CompiledProtocol
    → ℕ
    → CompiledMessage
    → List ℕ
    → Option (ℕ → Bool)
    → Bool
    → Outcome (DecodedMessage × ℕ)
unfolding assign_with
assign_from_layout ops protocol zero layout frame selected_fields allow_prefix_trailing =
    out_of_fuel
assign_from_layout ops protocol (suc fuel) layout frame selected_fields allow_prefix_trailing =
    assign_with ops protocol
      (λ nested_layout bytes. assign_from_layout ops protocol fuel nested_layout bytes none true)
      layout frame selected_fields allow_prefix_trailing
