-- ===== src/Examples/Decoding.antt =====
-- A small compiled protocol: a tag, a variant that it selects, a text of the length that another field
-- gives, and a checksum.
use package.text.Mathlib.Text
use universal_protocol_runti.Base.{
  length, ℕ, ◌+◌, ◌≡◌, ◌<◌, ◌↔◌, ◌≤◌, ◌%◌, refl, true, false, List, [], ◌∷◌, some, none, arith, inl,
  inr, ◌==◌, subspan, get_elem?,
}
use universal_protocol_runti.Core.{DecodeStatus}
use universal_protocol_runti.Outcome.{Outcome, done, fault, ◌>>=◌, Ensures, Ensures-done}
use universal_protocol_runti.ByteOps.{
  scalar_only, checksum_crc16_ccitt, checksum_crc32, crc_bits, crc_over, make_crc_table,
  is_valid_ascii_scalar, checksum_xor8_scalar,
}
use universal_protocol_runti.Scalar.{
  read_big, read_little, read_unsigned_scalar, read_unsigned_scalar_unchecked,
}
use universal_protocol_runti.Layout.{
  FieldKind, CompiledField, CompiledMessage, CompiledProtocol, CompiledChecksum, BuiltinKind,
  ChecksumAnchorKind, CompiledVariantCase, CompiledValidationRule, CompiledValidationOperator,
  default_field, struct_by_id,
}
use universal_protocol_runti.Layout.Variants.{
  find_variant_case, find_by_search, lower_bound, case_at, dense_lookup, last_tag,
  variant_lookup_missing,
}
use universal_protocol_runti.Decoded.{
  DecodedMessage, default_message, condition_matches, presence_matches, align_up, checked_add_size,
  eager_cache_scalar, field_definition, supports_eager_scalar_cache, supports_width, raw_unsigned,
  cached_scalar_raw, checksum_anchor_offset, validation_operator_matches,
}
use universal_protocol_runti.Decoded.Assign.{
  actual_checksum, applies, assign_with, bytes_size, check_checksum, check_checksums,
  check_encoding, check_expected, check_reserved, check_validation, check_validations,
  collection_size, compare_sides, decode_fields, decode_present, dynamic_bytes_size, element_count,
  elements_size, finish, fixed_elements_size, is_filled, nested_size, place, rhs_value,
  size_of_kind, subspan_from, subspan_of, valid_encoding, variant_size, assign_from_layout,
}
use universal_protocol_runti.Layout.Table.{
  HasSpan, find_linear, with_lookup, find_variant_case-linear,
}
use universal_protocol_runti.Decoded.Access.{get_unsigned, get_bytes, field_selected}
use universal_protocol_runti.Decoded.Alignment.{align_up-IsNext}
use universal_protocol_runti.Decoded.Reads.{get_unsigned-Reads}
use universal_protocol_runti.Decoded.ByName.{BitFieldsOk}
use universal_protocol_runti.Decoded.Accessors.{
  accessors-InBounds, AreFieldAccessorsInBounds, AreBitAccessorsInBounds, AreNamedAccessorsInBounds,
}
use universal_protocol_runti.Dispatch.Decoder.{
  ProtocolDecoder, DecodePlan, decode_with_plan, decode_as_masked, make_plan_masked,
}
use universal_protocol_runti.Dispatch.Plans.{decode_with_plan-make_plan}
use universal_protocol_runti.Decoded.Compiled.{IsCompiled}
use universal_protocol_runti.Decoded.Safety.{IsDecoded, assign_from_layout-IsDecoded}

abbrev u8 : ℕ → CompiledField
u8 id = record default_field { id = id; width_bytes = 1 }

-- Two cases, 5 and 7, and the table over 5, 6 and 7.
abbrev cases : List CompiledVariantCase
cases = record { tag_value = 5; struct_id = 0 } ∷ record { tag_value = 7; struct_id = 1 } ∷ []

abbrev choice : CompiledField
choice = record default_field {
  id = 2;
  kind = FieldKind.variant;
  tag_from_field = 0;
  variant_cases = cases;
  variant_lookup_base = 5;
  variant_lookup_indices = 0 ∷ variant_lookup_missing ∷ 1 ∷ [];
}

abbrev text : CompiledField
text = record default_field {
  id = 3;
  name = "text";
  kind = FieldKind.string;
  dynamic_size = true;
  size_from_field = 1;
}

abbrev plain : List CompiledField → CompiledMessage
plain fields = record {
  name = "plain";
  fields = fields;
  bit_fields = [];
  checksums = [];
  validations = [];
  minimum_size = 1;
  has_fixed_size = true;
  allow_trailing_bytes = false;
  dispatch_prefix = [];
}

abbrev checksum : CompiledChecksum
checksum = record {
  field_id = 4;
  result_width_bytes = 1;
  function = some (λ bytes. 0);
  algorithm_name = "xor8";
  builtin_kind = BuiltinKind.xor8;
  from = record { kind = ChecksumAnchorKind.frame_start; field_id = 0 };
  to = record { kind = ChecksumAnchorKind.before_self; field_id = 4 };
}

-- The length of the text is at most its tag.
abbrev rule : CompiledValidationRule
rule = record {
  field_id = 1;
  op = CompiledValidationOperator.le;
  other_field_id = 0;
  compare_to_field = true;
  value = 0;
  multiplier = 1;
  has_when = false;
  when_field_id = 0;
  when_equals = 0;
}

abbrev message : CompiledMessage
message = record (plain (u8 0 ∷ u8 1 ∷ choice ∷ text ∷ u8 4 ∷ [])) {
  bit_fields =
      record {
        id = 0;
        name = "flag";
        container_field_id = 1;
        shift_bits = 3;
        width_bits = 1;
        mask = 1;
        is_signed = false;
        enum_values = [];
      }
      ∷ [];
  checksums = checksum ∷ [];
  validations = rule ∷ [];
}

abbrev protocol : CompiledProtocol
protocol = record {
  name = "small";
  fingerprint = 1;
  structs = plain (u8 0 ∷ []) ∷ plain (u8 0 ∷ u8 1 ∷ []) ∷ [];
  messages = message ∷ [];
}

-- Tag 7, two characters, the second case, "hi", and the exclusive or of all before.
abbrev frame : List ℕ
frame = 7 ∷ 2 ∷ 9 ∷ 8 ∷ 104 ∷ 105 ∷ 5 ∷ []

message-IsCompiled : IsCompiled protocol 2 message
unfolding struct_by_id
message-IsCompiled = (
  record {
    id_is = refl;
    alignment_le = omega arith;
    width_lt = omega arith;
    size_lt = omega arith;
    presence_lt = omega arith;
    refs = tt;
  },
  (
    record {
      id_is = refl;
      alignment_le = omega arith;
      width_lt = omega arith;
      size_lt = omega arith;
      presence_lt = omega arith;
      refs = tt;
    },
    (
      record {
        id_is = refl;
        alignment_le = omega arith;
        width_lt = omega arith;
        size_lt = omega arith;
        presence_lt = omega arith;
        refs = (
          (
            (
              record {
                id_is = refl;
                alignment_le = omega arith;
                width_lt = omega arith;
                size_lt = omega arith;
                presence_lt = omega arith;
                refs = tt;
              },
              tt,
            ),
            (
              (
                record {
                  id_is = refl;
                  alignment_le = omega arith;
                  width_lt = omega arith;
                  size_lt = omega arith;
                  presence_lt = omega arith;
                  refs = tt;
                },
                (
                  record {
                    id_is = refl;
                    alignment_le = omega arith;
                    width_lt = omega arith;
                    size_lt = omega arith;
                    presence_lt = omega arith;
                    refs = tt;
                  },
                  tt,
                ),
              ),
              tt,
            ),
          ),
          (inr (omega arith), (inl refl, (inr (omega arith), tt))),
        );
      },
      (
        record {
          id_is = refl;
          alignment_le = omega arith;
          width_lt = omega arith;
          size_lt = omega arith;
          presence_lt = omega arith;
          refs = tt;
        },
        (
          record {
            id_is = refl;
            alignment_le = omega arith;
            width_lt = omega arith;
            size_lt = omega arith;
            presence_lt = omega arith;
            refs = tt;
          },
          tt,
        ),
      ),
    ),
  ),
)

assign_from_layout-IsDecoded_example :
    Ensures
      (IsDecoded scalar_only protocol message frame false)
      (assign_from_layout scalar_only protocol 2 message frame none false)
assign_from_layout-IsDecoded_example =
    assign_from_layout-IsDecoded scalar_only protocol 2 message frame none false message-IsCompiled
      (omega arith)

-- What a decoding leaves, where it succeeds.
abbrev result : Outcome (DecodedMessage × ℕ) → DecodedMessage × ℕ
result (done r) = r
result _ = (default_message, 0)

abbrev decoded : DecodedMessage
decoded = (result (assign_from_layout scalar_only protocol 2 message frame none false)).0

decoding_succeeds :
    assign_from_layout scalar_only protocol 2 message frame none false ≡ done (decoded, 7)
unfolding actual_checksum applies assign_with bytes_size check_checksum check_checksums
    check_encoding check_expected check_reserved check_validation check_validations collection_size
    compare_sides decode_fields decode_present dynamic_bytes_size element_count elements_size finish
    fixed_elements_size is_filled nested_size place rhs_value size_of_kind subspan_from subspan_of
    valid_encoding variant_size assign_from_layout condition_matches presence_matches align_up
    checked_add_size eager_cache_scalar field_definition supports_eager_scalar_cache supports_width
    raw_unsigned cached_scalar_raw checksum_anchor_offset validation_operator_matches
    checksum_crc16_ccitt checksum_crc32 crc_bits crc_over make_crc_table is_valid_ascii_scalar
    checksum_xor8_scalar find_by_search lower_bound case_at find_variant_case read_big read_little
    read_unsigned_scalar read_unsigned_scalar_unchecked struct_by_id
decoding_succeeds = refl

decoded-IsDecoded : IsDecoded scalar_only protocol message frame false (decoded, 7)
decoded-IsDecoded =
    Ensures-done
      (assign_from_layout-IsDecoded scalar_only protocol 2 message frame none false
        message-IsCompiled (omega arith))
      decoding_succeeds

length_field : get_unsigned decoded 1 ≡ done (some 2)
unfolding actual_checksum applies assign_with bytes_size check_checksum check_checksums
    check_encoding check_expected check_reserved check_validation check_validations collection_size
    compare_sides decode_fields decode_present dynamic_bytes_size element_count elements_size finish
    fixed_elements_size is_filled nested_size place rhs_value size_of_kind subspan_from subspan_of
    valid_encoding variant_size assign_from_layout condition_matches presence_matches align_up
    checked_add_size eager_cache_scalar field_definition supports_eager_scalar_cache supports_width
    raw_unsigned cached_scalar_raw checksum_anchor_offset validation_operator_matches
    checksum_crc16_ccitt checksum_crc32 crc_bits crc_over make_crc_table is_valid_ascii_scalar
    checksum_xor8_scalar find_by_search lower_bound case_at find_variant_case read_big read_little
    read_unsigned_scalar read_unsigned_scalar_unchecked struct_by_id get_unsigned field_selected
length_field = refl

get_unsigned-Reads_example :
    (field : CompiledField) × (bytes : List ℕ) × (get_elem? message.fields 1 ≡ some field)
    × (get_bytes decoded 1 ≡ done (some bytes))
    × (bytes ≡ subspan frame (decoded.resolved_fields 1).offset (decoded.resolved_fields 1).size)
    × ((decoded.resolved_fields 1).size ≡ field.width_bytes)
    × (read_unsigned_scalar field.byte_order bytes ≡ some 2)
get_unsigned-Reads_example =
    get_unsigned-Reads scalar_only protocol message frame false decoded 7 decoded-IsDecoded 1 2
      length_field

spans : HasSpan cases
unfolding last_tag
spans = omega arith

find_variant_case-linear_example :
    (dense_lookup cases >>= λ lookup. find_variant_case (with_lookup default_field cases lookup) 7)
    ≡ done (find_linear cases 7)
find_variant_case-linear_example =
    find_variant_case-linear default_field cases 7 (omega arith, (omega arith, tt)) (spans)

align_up-IsNext_example : (13 ≤ align_up 13 8) × (align_up 13 8 < 13 + 8) × (align_up 13 8 % 8 ≡ 0)
align_up-IsNext_example = align_up-IsNext 13 8 (omega arith) (omega arith)

-- With a selection, the number of a field that is not there is looked up past the end of the array.
get_unsigned_fault : get_unsigned (record decoded { selection_active = true }) 64 ≡ fault
unfolding get_unsigned field_selected
get_unsigned_fault = refl

abbrev decoder : ProtocolDecoder
decoder = record { address = 4096; protocol = protocol }

decode_with_plan-make_plan_example :
    ((plan : DecodePlan)
      → make_plan_masked decoder "plain" (λ i. i == 1) ≡ some plan
      → decode_with_plan scalar_only 2 decoder plan frame default_message
        ≡ decode_as_masked scalar_only 2 decoder "plain" frame default_message (λ i. i == 1))
    × (make_plan_masked decoder "plain" (λ i. i == 1) ≡ none
        → decode_as_masked scalar_only 2 decoder "plain" frame default_message (λ i. i == 1)
          ≡ done (DecodeStatus.message_not_found, default_message))
    × ((make_plan_masked decoder "plain" (λ i. i == 1) ≡ none) ↔ (
        (index : ℕ) (layout : CompiledMessage)
        → get_elem? decoder.protocol.messages index ≡ some layout
        → Text.◌==◌ layout.name "plain" ≡ false))
decode_with_plan-make_plan_example =
    decode_with_plan-make_plan scalar_only 2 decoder "plain" (λ i. i == 1) frame default_message

message-BitFieldsOk : BitFieldsOk (length message.fields) message.bit_fields
message-BitFieldsOk = (omega arith, omega arith, tt)

-- Every accessor at the text field, at the first bit of a flag, and by the name of the text.
accessors-InBounds_example :
    AreFieldAccessorsInBounds scalar_only 1 decoded 3
    × AreBitAccessorsInBounds decoded 0
    × AreNamedAccessorsInBounds scalar_only 1 decoded "text"
accessors-InBounds_example =
    accessors-InBounds scalar_only protocol message frame false decoded 7 1 decoded-IsDecoded
      message-IsCompiled message-BitFieldsOk (omega arith) 3 (inr (omega arith)) 0 "text"
