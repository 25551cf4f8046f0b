-- ===== src/Encoder.antt =====
-- `MessageBuilder` of packages/upr_runtime/src/encoder/message_encoder.cpp and its header
-- encoder/message_encoder.hpp. A call changes the builder whether it succeeds or is refused; `fault` is
-- undefined behaviour: an access out of the bounds of the buffer, of the fields, of the bytes given or of
-- the arrays of `kMaxFieldsPerMessage` entries, which are functions here, or a scalar write of a width
-- that is `unreachable()`. The mask of checksum fields is the function from the number of its bit, and
-- a floating-point number its bits.
pub mod Growth
pub mod Safety
pub mod Finalize
pub mod Calls
pub mod Closed
mod Steady
pub mod Setters
use Prim.Native.String.{String}
use universal_protocol_runti.Base.{
  ℕ, zero, suc, ◌+◌, ◌-◌, ◌*◌, ◌%◌, ◌^◌, Bool, true, false, not, ◌&&◌, ◌||◌, List, [], ◌∷◌, Option,
  none, some, ltb, leb, ◌==◌, if◌then◌else◌, length, take, drop, get_elem?, subspan, copy_at,
  replicate,
}
use universal_protocol_runti.Core.{ByteOrder}
use universal_protocol_runti.Scalar.{write_unsigned_scalar_unchecked}
use universal_protocol_runti.ByteOps.{ByteOps, checksum_crc16_ccitt, checksum_crc32}
use universal_protocol_runti.Layout.{
  FieldKind, BuiltinKind, ChecksumAnchorKind, CompiledField, CompiledMessage, CompiledChecksum,
  CompiledChecksumAnchor, CompiledValidationRule,
}
use universal_protocol_runti.Decoded.{
  align_up, update, validation_operator_matches, is_unsigned_or_enum,
}

-- encode_status.hpp
pub data EncodeStatus : Type 0 where
  ok buffer_too_small invalid_data schema_mismatch field_limit_exceeded : EncodeStatus

unfoldable pub encode_status_name : EncodeStatus → String
encode_status_name EncodeStatus.ok = "ok"
encode_status_name EncodeStatus.buffer_too_small = "buffer_too_small"
encode_status_name EncodeStatus.invalid_data = "invalid_data"
encode_status_name EncodeStatus.schema_mismatch = "schema_mismatch"
encode_status_name EncodeStatus.field_limit_exceeded = "field_limit_exceeded"

pub record MessageBuilder : Type 0 where
  pub layout : CompiledMessage
  pub buffer : List ℕ
  pub field_starts : ℕ → ℕ
  pub field_ends : ℕ → ℕ
  pub written_scalars : ℕ → ℕ
  pub offset : ℕ
  pub next_field_id : ℕ
  pub finalized : Bool
  pub failed : Bool
  pub checksum_field_mask : ℕ → Bool

-- How a call ends: `kOk` with a value, another status, or undefined behaviour.
pub data Built {ℓ} (A : Type ℓ) : Type ℓ where
  built : A → MessageBuilder → Built A
  refused : EncodeStatus → MessageBuilder → Built A
  fault : Built A

abbrev pub Building {ℓ} : Type ℓ → Type ℓ
Building A = MessageBuilder → Built A

infixl 5 ◌>>=◌ ◌>>◌
abbrev pub ◌>>=◌ {ℓ κ} : {A : Type ℓ} {B : Type κ} → Building A → (A → Building B) → Building B
(o >>= f) b = elim (o b) [
  | built a b' ↦ f a b'
  | refused status b' ↦ refused status b'
  | fault ↦ fault
]

abbrev pub ◌>>◌ {ℓ κ} : {A : Type ℓ} {B : Type κ} → Building A → Building B → Building B
o >> p = o >>= λ _. p

abbrev pub gets {ℓ} : {A : Type ℓ} → (MessageBuilder → A) → Building A
gets f b = built (f b) b

abbrev pub modify : (MessageBuilder → MessageBuilder) → Building (Unit {0})
modify f b = built tt (f b)

-- if (test) { return status; }
abbrev pub refuse_if : (MessageBuilder → Bool) → EncodeStatus → Building (Unit {0})
refuse_if test status b = if test b then refused status b else built tt b

-- if (test) { failed_ = true; return status; }
abbrev pub fail_if : (MessageBuilder → Bool) → EncodeStatus → Building (Unit {0})
fail_if test status b = if test b then refused status (record b { failed = true }) else built tt b

-- layout_->fields()[id]
abbrev pub field_at : ℕ → Building CompiledField
field_at id b = elim (get_elem? b.layout.fields id) [ some field ↦ built field b | none ↦ fault ]

-- buffer_.size() - offset_, in `size_t`
abbrev pub room : MessageBuilder → ℕ
room b = (length b.buffer + 2 ^ 64 - b.offset) % 2 ^ 64

-- The bytes written to the buffer at the offset, which then goes past them.
unfoldable pub emit : List ℕ → Building (Unit {0})
emit bytes b =
    if leb (b.offset + length bytes) (length b.buffer)
    then built tt
        (record b { buffer = copy_at b.buffer b.offset bytes; offset = b.offset + length bytes })
    else fault

-- kMaxFieldsPerMessage
abbrev pub max_fields_per_message : ℕ
max_fields_per_message = 64

-- The arrays of the builder have an entry for the field.
abbrev pub has_entry : ℕ → Building (Unit {0})
has_entry id b = if ltb id max_fields_per_message then built tt b else fault

-- What is read of the entry of a field, or of its bit in the mask.
abbrev pub entry {ℓ} : {A : Type ℓ} → ℕ → (MessageBuilder → A) → Building A
entry id read b = if ltb id max_fields_per_message then built (read b) b else fault

-- field_starts_[id] = offset_; ... field_ends_[id] = offset_;
unfoldable pub emit_field : ℕ → List ℕ → Building (Unit {0})
unfolding emit
emit_field id bytes = do
  has_entry id
  modify (λ b. record b { field_starts = update b.field_starts id b.offset })
  emit bytes
  modify (λ b. record b { field_ends = update b.field_ends id b.offset })

-- write_unsigned_scalar_unchecked(bytes, value, byte_order): a width that it has no case for is
-- `unreachable()`.
abbrev pub scalar_bytes : ByteOrder → ℕ → ℕ → Building (List ℕ)
scalar_bytes order width value b =
    if ltb 0 width && leb width 8
    then built (write_unsigned_scalar_unchecked order width value) b
    else fault

unfoldable pub write_scalar_field : ℕ → ℕ → Building (Unit {0})
unfolding emit_field
write_scalar_field id raw_value = do
  field ← field_at id
  fail_if (λ b. ltb (room b) field.width_bytes) EncodeStatus.buffer_too_small
  bytes ← scalar_bytes field.byte_order field.width_bytes raw_value
  emit_field id bytes
  modify (λ b. record b { written_scalars = update b.written_scalars id raw_value })

-- A checksum field gets zeros until `finalize`.
unfoldable pub write_placeholder : ℕ → CompiledField → Building (Unit {0})
unfolding emit_field
write_placeholder id field = do
  fail_if (λ b. ltb (room b) field.width_bytes) EncodeStatus.buffer_too_small
  emit_field id (replicate field.width_bytes 0)
  modify (λ b. record b { written_scalars = update b.written_scalars id 0 })

unfoldable pub write_reserved : ℕ → CompiledField → Building (Unit {0})
unfolding emit_field
write_reserved id field = do
  fail_if (λ b. ltb (room b) field.fixed_size) EncodeStatus.buffer_too_small
  emit_field id (replicate field.fixed_size field.reserved_fill_byte)

-- Zeros up to the aligned offset.
unfoldable pub pad_to : ℕ → Building (Unit {0})
unfolding emit
pad_to alignment = do
  aligned ← gets (λ b. align_up b.offset alignment)
  fail_if (λ b. ltb (length b.buffer) aligned) EncodeStatus.buffer_too_small
  offset ← gets (λ b. b.offset)
  if aligned == offset then gets (λ b. tt) else emit (replicate (aligned - offset) 0)

-- One field that the builder writes by itself.
unfoldable pub write_automatic : ℕ → Building (Unit {0})
unfolding pad_to write_placeholder write_scalar_field write_reserved
write_automatic id = do
  field ← field_at id
  pad_to field.alignment
  is_checksum ← entry id (λ b. b.checksum_field_mask id)
  if is_checksum
      then write_placeholder id field
      else if field.has_expected_unsigned
      then write_scalar_field id field.expected_unsigned
      else if field.is_reserved
      then write_reserved id field
      else fail_if (λ b. true) EncodeStatus.invalid_data

-- for (FieldId fid = next_field_id_; fid < target_id; ++fid) { ... }, with `left` rounds left
unfoldable pub write_until : ℕ → ℕ → Building (Unit {0})
unfolding write_automatic
write_until zero id = gets (λ b. tt)
write_until (suc left) id = do write_automatic id; write_until left (suc id)

unfoldable pub advance_to : ℕ → Building (Unit {0})
unfolding write_until
advance_to target_id = do
  refuse_if (λ b. b.failed) EncodeStatus.invalid_data
  fail_if (λ b. ltb (length b.layout.fields) target_id) EncodeStatus.invalid_data
  next ← gets (λ b. b.next_field_id)
  write_until (target_id - next) next
  modify (λ b. record b { next_field_id = target_id })

-- failed_ || id >= layout_->fields().size() || id < next_field_id_
abbrev pub out_of_order : ℕ → MessageBuilder → Bool
out_of_order id b = b.failed || leb (length b.layout.fields) id || ltb id b.next_field_id

-- The setters of scalars, which differ in the kinds that they take.
unfoldable pub set_scalar : (FieldKind → Bool) → ℕ → ℕ → Building (Unit {0})
unfolding advance_to write_scalar_field
set_scalar takes id value = do
  refuse_if (out_of_order id) EncodeStatus.invalid_data
  field ← field_at id
  refuse_if (λ b. not (takes field.kind)) EncodeStatus.invalid_data
  advance_to id
  write_scalar_field id value
  modify (λ b. record b { next_field_id = id + 1 })

unfoldable pub set_unsigned : ℕ → ℕ → Building (Unit {0})
unfolding set_scalar
set_unsigned = set_scalar is_unsigned_or_enum

abbrev pub takes_signed : FieldKind → Bool
takes_signed FieldKind.signed = true
takes_signed _ = false

abbrev pub takes_float32 : FieldKind → Bool
takes_float32 FieldKind.float32 = true
takes_float32 _ = false

abbrev pub takes_float64 : FieldKind → Bool
takes_float64 FieldKind.float64 = true
takes_float64 _ = false

-- static_cast<uint64_t>(value), of a number in two's complement
unfoldable pub set_signed : ℕ → ℕ → Building (Unit {0})
unfolding set_scalar
set_signed = set_scalar takes_signed

unfoldable pub set_float32 : ℕ → ℕ → Building (Unit {0})
unfolding set_scalar
set_float32 = set_scalar takes_float32

unfoldable pub set_float64 : ℕ → ℕ → Building (Unit {0})
unfolding set_scalar
set_float64 = set_scalar takes_float64

-- std::memcpy(..., bytes.data(), size): a fault if there are fewer bytes.
abbrev pub first_bytes : ℕ → List ℕ → Building (List ℕ)
first_bytes size bytes b = if leb size (length bytes) then built (take size bytes) b else fault

unfoldable pub set_payload : (CompiledField → Bool) → ℕ → List ℕ → Building (Unit {0})
unfolding advance_to emit_field
set_payload takes id bytes = do
  refuse_if (out_of_order id) EncodeStatus.invalid_data
  field ← field_at id
  refuse_if (λ b. not (takes field)) EncodeStatus.invalid_data
  advance_to id
  let size = if field.dynamic_size then length bytes else field.fixed_size
  fail_if (λ b. ltb (room b) size) EncodeStatus.buffer_too_small
  payload ← first_bytes size bytes
  emit_field id payload
  modify (λ b. record b { next_field_id = id + 1 })

abbrev pub is_bytes_or_struct : FieldKind → Bool
is_bytes_or_struct FieldKind.bytes = true
is_bytes_or_struct FieldKind.struct = true
is_bytes_or_struct _ = false

unfoldable pub set_bytes : ℕ → List ℕ → Building (Unit {0})
unfolding set_payload
set_bytes = set_payload (λ field. is_bytes_or_struct field.kind && not field.is_reserved)

abbrev pub is_text : FieldKind → Bool
is_text FieldKind.string = true
is_text _ = false

unfoldable pub set_string : ℕ → List ℕ → Building (Unit {0})
unfolding set_payload
set_string = set_payload (λ field. is_text field.kind)
