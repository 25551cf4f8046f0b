-- ===== src/Decoded.antt =====
-- packages/upr_runtime/include/universal_protocol_runtime/decoder/decoded_message.hpp and
-- packages/upr_runtime/src/decoder/decoded_message.cpp: the state of a decoded message, what reads it
-- while it is decoded, and the arithmetic of sizes. An array of `kMaxFieldsPerMessage` entries is a
-- function from the index; an access that is not guarded in the source is tested against that bound.
-- A `size_t` or `uint64_t` is a number below 2 ^ 64.
pub mod Assign
pub mod Access
pub mod Nested
pub mod Compiled
mod Sizes
pub mod Alignment
mod Invariant
mod Step
mod Fields
pub mod Checks
pub mod Safety
pub mod Reads
pub mod InBounds
pub mod ByName
pub mod Accessors
use universal_protocol_runti.Base.{
  ℕ, zero, suc, ◌+◌, ◌-◌, ◌*◌, ◌/◌, ◌%◌, ◌^◌, Bool, true, false, not, ◌&&◌, ◌||◌, List, [], ◌∷◌,
  Option, none, some, ltb, leb, ◌==◌, if◌then◌else◌, length, get_elem?,
}
use universal_protocol_runti.Core.{ByteOrder}
use universal_protocol_runti.Outcome.{Outcome, done, fault}
use universal_protocol_runti.Scalar.{read_unsigned_scalar}
use universal_protocol_runti.Layout.{
  FieldKind, CompiledField, CompiledMessage, CompiledProtocol, CompiledValidationOperator,
  CompiledChecksumAnchor, ChecksumAnchorKind, is_scalar,
}

abbrev pub max_fields_per_message : ℕ
max_fields_per_message = 64

abbrev pub max_scalar_width_bytes : ℕ
max_scalar_width_bytes = 8

pub record ResolvedField : Type 0 where
  pub offset : ℕ
  pub size : ℕ

pub record DecodedMessage : Type 0 where
  pub protocol : Option CompiledProtocol
  pub message : Option CompiledMessage
  pub frame : List ℕ
  pub resolved_fields : ℕ → ResolvedField
  pub field_present : ℕ → Bool
  pub scalar_cache_values : ℕ → ℕ
  pub scalar_cache_valid : ℕ → Bool
  pub selected_fields : ℕ → Bool
  pub selection_active : Bool
  pub field_count : ℕ

-- A message that nothing was decoded into.
abbrev pub default_message : DecodedMessage
default_message = record {
  protocol = none;
  message = none;
  frame = [];
  resolved_fields = λ i. record { offset = 0; size = 0 };
  field_present = λ i. false;
  scalar_cache_values = λ i. 0;
  scalar_cache_valid = λ i. false;
  selected_fields = λ i. false;
  selection_active = false;
  field_count = 0;
}

-- array[index] = value;
abbrev pub update {ℓ} : {A : Type ℓ} → (ℕ → A) → ℕ → A → ℕ → A
update array index value i = if i == index then value else array i

unfoldable pub supports_width : FieldKind → ℕ → Bool
supports_width FieldKind.unsigned width = ltb 0 width && leb width max_scalar_width_bytes
supports_width FieldKind.signed width = ltb 0 width && leb width max_scalar_width_bytes
supports_width FieldKind.enum width = ltb 0 width && leb width max_scalar_width_bytes
supports_width FieldKind.float32 width = width == 4
supports_width FieldKind.float64 width = width == 8
supports_width FieldKind.bytes width = false
supports_width FieldKind.string width = false
supports_width FieldKind.struct width = false
supports_width FieldKind.collection width = false
supports_width FieldKind.variant width = false

unfoldable pub supports_eager_scalar_cache : CompiledField → Bool
supports_eager_scalar_cache field =
    if not (is_scalar field) then false else supports_width field.kind field.width_bytes

unfoldable pub align_up : ℕ → ℕ → ℕ
align_up offset alignment =
    if leb alignment 1
    then offset
    else if offset % alignment == 0
    then offset
    else (offset + (alignment - offset % alignment)) % 2 ^ 64

unfoldable pub validation_operator_matches : CompiledValidationOperator → ℕ → ℕ → Bool
validation_operator_matches CompiledValidationOperator.eq lhs rhs = lhs == rhs
validation_operator_matches CompiledValidationOperator.ne lhs rhs = not (lhs == rhs)
validation_operator_matches CompiledValidationOperator.lt lhs rhs = ltb lhs rhs
validation_operator_matches CompiledValidationOperator.le lhs rhs = leb lhs rhs
validation_operator_matches CompiledValidationOperator.gt lhs rhs = ltb rhs lhs
validation_operator_matches CompiledValidationOperator.ge lhs rhs = leb rhs lhs

-- `none` is the result `false`.
unfoldable pub checked_add_size : ℕ → ℕ → Option ℕ
checked_add_size lhs rhs = if ltb (2 ^ 64 - 1 - rhs) lhs then none else some ((lhs + rhs) % 2 ^ 64)

unfoldable pub checked_mul_size : ℕ → ℕ → Option ℕ
checked_mul_size lhs rhs =
    if lhs == 0 || rhs == 0
    then some 0
    else if ltb ((2 ^ 64 - 1) / rhs) lhs
    then none
    else some (lhs * rhs % 2 ^ 64)

unfoldable pub field_definition : DecodedMessage → ℕ → Option CompiledField
field_definition m field_id = elim m.message [
  | none ↦ none
  | some layout ↦ get_elem? layout.fields field_id
]

unfoldable pub cached_scalar_raw : DecodedMessage → ℕ → Option ℕ
cached_scalar_raw m field_id = elim (field_definition m field_id) [
  | none ↦ none
  | some field ↦
      if not (is_scalar field)
      then none
      else if m.scalar_cache_valid field_id
      then some (m.scalar_cache_values field_id)
      else none
]

abbrev pub is_unsigned_or_enum : FieldKind → Bool
is_unsigned_or_enum FieldKind.unsigned = true
is_unsigned_or_enum FieldKind.enum = true
is_unsigned_or_enum _ = false

unfoldable pub raw_unsigned : DecodedMessage → ℕ → Option ℕ
raw_unsigned m field_id = elim (field_definition m field_id) [
  | none ↦ none
  | some field ↦ if is_unsigned_or_enum field.kind then cached_scalar_raw m field_id else none
]

unfoldable pub condition_matches : DecodedMessage → CompiledField → Bool
condition_matches m field =
    if not field.has_condition then true else elim (raw_unsigned m field.condition_field) [
      | none ↦ false
      | some value ↦ value == field.condition_equals
    ]

-- A shift of 64 bits by 64 or more is undefined.
unfoldable pub presence_matches : DecodedMessage → CompiledField → Outcome Bool
presence_matches m field =
    if not field.has_presence then done true else elim (raw_unsigned m field.presence_field) [
      | none ↦ done false
      | some value ↦
          if ltb field.presence_bit 64
          then done (value / 2 ^ field.presence_bit % 2 == 1)
          else fault
    ]

-- scalar_cache_values_[field_id] = *value; scalar_cache_valid_[field_id] = true;
abbrev pub cache : ℕ → Option ℕ → DecodedMessage → DecodedMessage
cache field_id none m = m
cache field_id (some value) m = record m {
  scalar_cache_values = update m.scalar_cache_values field_id value;
  scalar_cache_valid = update m.scalar_cache_valid field_id true;
}

unfoldable pub eager_cache_scalar : ℕ → List ℕ → DecodedMessage → DecodedMessage
eager_cache_scalar field_id field_bytes m = elim (field_definition m field_id) [
  | none ↦ m
  | some field ↦
      if not (supports_eager_scalar_cache field) || not (length field_bytes == field.width_bytes)
      then m
      else cache field_id (read_unsigned_scalar field.byte_order field_bytes) m
]

-- The place of a present field of the message.
abbrev pub present_field : DecodedMessage → ℕ → Option ResolvedField
present_field m field_id =
    if leb m.field_count field_id || not (m.field_present field_id)
    then none
    else some (m.resolved_fields field_id)

unfoldable pub checksum_anchor_offset : CompiledChecksumAnchor → DecodedMessage → Option ℕ
checksum_anchor_offset anchor m = elim anchor.kind [
  | ChecksumAnchorKind.frame_start ↦ some 0
  | ChecksumAnchorKind.frame_end ↦ some (length m.frame)
  | ChecksumAnchorKind.field_start ↦ elim (present_field m anchor.field_id) [
    | none ↦ none
    | some r ↦ some r.offset
  ]
  | ChecksumAnchorKind.before_self ↦ elim (present_field m anchor.field_id) [
    | none ↦ none
    | some r ↦ some r.offset
  ]
  | ChecksumAnchorKind.field_end ↦ elim (present_field m anchor.field_id) [
    | none ↦ none
    | some r ↦ some ((r.offset + r.size) % 2 ^ 64)
  ]
  | ChecksumAnchorKind.after_self ↦ elim (present_field m anchor.field_id) [
    | none ↦ none
    | some r ↦ some ((r.offset + r.size) % 2 ^ 64)
  ]
]
