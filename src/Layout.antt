-- ===== src/Layout.antt =====
-- packages/upr_compiler/include/universal_protocol_runtime/compiler/compiled_protocol.hpp: the
-- compiled layouts, and the enums of packages/upr_core that they use. A field or a layout refers to
-- another by its number; a `std::vector` is a list, an unordered map from names the list it is built
-- from, and a null pointer or function `none`.
pub mod Names
pub mod Variants
pub mod Table
use Prim.Native.String.{String}
use universal_protocol_runti.Base.{ℕ, Bool, true, false, List, [], Option, get_elem?}
use universal_protocol_runti.Core.{ByteOrder, little_endian}

pub data FieldKind : Type 0 where
  unsigned signed float32 float64 bytes string struct enum collection variant : FieldKind

pub data StringEncoding : Type 0 where
  ascii utf8 : StringEncoding

pub record EnumValueDefinition : Type 0 where
  pub value : ℕ
  pub name : String

pub data ChecksumAnchorKind : Type 0 where
  frame_start frame_end field_start field_end before_self after_self : ChecksumAnchorKind

pub record CompiledChecksumAnchor : Type 0 where
  pub kind : ChecksumAnchorKind
  pub field_id : ℕ

pub record CompiledBitField : Type 0 where
  pub id : ℕ
  pub name : String
  pub container_field_id : ℕ
  pub shift_bits : ℕ
  pub width_bits : ℕ
  pub mask : ℕ
  pub is_signed : Bool
  pub enum_values : List EnumValueDefinition

pub data BuiltinKind : Type 0 where
  custom xor8 sum16 crc16_ccitt crc32 crc32c : BuiltinKind

pub record CompiledChecksum : Type 0 where
  pub field_id : ℕ
  pub result_width_bytes : ℕ
  pub function : Option (List ℕ → ℕ)
  pub algorithm_name : String
  pub builtin_kind : BuiltinKind
  pub from : CompiledChecksumAnchor
  pub to : CompiledChecksumAnchor

pub record CompiledVariantCase : Type 0 where
  pub tag_value : ℕ
  pub struct_id : ℕ

pub data CompiledValidationOperator : Type 0 where
  eq ne lt le gt ge : CompiledValidationOperator

pub record CompiledValidationRule : Type 0 where
  pub field_id : ℕ
  pub op : CompiledValidationOperator
  pub other_field_id : ℕ
  pub compare_to_field : Bool
  pub value : ℕ
  pub multiplier : ℕ
  pub has_when : Bool
  pub when_field_id : ℕ
  pub when_equals : ℕ

pub record CompiledField : Type 0 where
  pub id : ℕ
  pub name : String
  pub kind : FieldKind
  pub width_bytes : ℕ
  pub byte_order : ByteOrder
  pub string_encoding : StringEncoding
  pub fixed_size : ℕ
  pub dynamic_size : Bool
  pub size_from_field : ℕ
  pub struct_id : ℕ
  pub alignment : ℕ
  pub is_reserved : Bool
  pub reserved_fill_byte : ℕ
  pub element_minimum_size : ℕ
  pub fixed_count : ℕ
  pub dynamic_count : Bool
  pub count_from_field : ℕ
  pub has_condition : Bool
  pub condition_field : ℕ
  pub condition_equals : ℕ
  pub has_presence : Bool
  pub presence_field : ℕ
  pub presence_bit : ℕ
  pub tag_from_field : ℕ
  pub variant_cases : List CompiledVariantCase
  pub variant_lookup_base : ℕ
  pub variant_lookup_indices : List ℕ
  pub has_expected_unsigned : Bool
  pub expected_unsigned : ℕ
  pub enum_values : List EnumValueDefinition

-- The members' initial values.
abbrev pub default_field : CompiledField
default_field = record {
  id = 0;
  name = "";
  kind = FieldKind.unsigned;
  width_bytes = 0;
  byte_order = little_endian;
  string_encoding = StringEncoding.ascii;
  fixed_size = 0;
  dynamic_size = false;
  size_from_field = 0;
  struct_id = 0;
  alignment = 1;
  is_reserved = false;
  reserved_fill_byte = 0;
  element_minimum_size = 0;
  fixed_count = 0;
  dynamic_count = false;
  count_from_field = 0;
  has_condition = false;
  condition_field = 0;
  condition_equals = 0;
  has_presence = false;
  presence_field = 0;
  presence_bit = 0;
  tag_from_field = 0;
  variant_cases = [];
  variant_lookup_base = 0;
  variant_lookup_indices = [];
  has_expected_unsigned = false;
  expected_unsigned = 0;
  enum_values = [];
}

abbrev pub is_scalar_kind : FieldKind → Bool
is_scalar_kind FieldKind.unsigned = true
is_scalar_kind FieldKind.signed = true
is_scalar_kind FieldKind.float32 = true
is_scalar_kind FieldKind.float64 = true
is_scalar_kind FieldKind.bytes = false
is_scalar_kind FieldKind.string = false
is_scalar_kind FieldKind.struct = false
is_scalar_kind FieldKind.enum = true
is_scalar_kind FieldKind.collection = false
is_scalar_kind FieldKind.variant = false

abbrev pub is_scalar : CompiledField → Bool
is_scalar field = is_scalar_kind field.kind

pub record CompiledMessage : Type 0 where
  pub name : String
  pub fields : List CompiledField
  pub bit_fields : List CompiledBitField
  pub checksums : List CompiledChecksum
  pub validations : List CompiledValidationRule
  pub minimum_size : ℕ
  pub has_fixed_size : Bool
  pub allow_trailing_bytes : Bool
  pub dispatch_prefix : List ℕ

pub record CompiledProtocol : Type 0 where
  pub name : String
  pub fingerprint : ℕ
  pub structs : List CompiledMessage
  pub messages : List CompiledMessage

unfoldable pub struct_by_id : CompiledProtocol → ℕ → Option CompiledMessage
struct_by_id protocol id = get_elem? protocol.structs id
