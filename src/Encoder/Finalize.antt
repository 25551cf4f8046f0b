-- ===== src/Encoder/Finalize.antt =====
-- The construction of a `MessageBuilder`, and its `finalize`, which fills in the checksums and checks
-- the rules (packages/upr_runtime/src/encoder/message_encoder.cpp).
use universal_protocol_runti.Base.{
  ℕ, ◌+◌, ◌-◌, ◌*◌, ◌%◌, ◌^◌, Bool, true, false, not, ◌&&◌, ◌||◌, List, [], ◌∷◌, Option, none, some,
  ltb, leb, ◌==◌, if◌then◌else◌, length, subspan, copy_at,
}
use universal_protocol_runti.ByteOps.{ByteOps, checksum_crc16_ccitt, checksum_crc32}
use universal_protocol_runti.Layout.{
  BuiltinKind, ChecksumAnchorKind, CompiledMessage, CompiledChecksum, CompiledValidationRule,
}
use universal_protocol_runti.Decoded.{update, validation_operator_matches, is_unsigned_or_enum}
use universal_protocol_runti.Encoder.{
  EncodeStatus, MessageBuilder, Building, built, refused, fault, ◌>>=◌, ◌>>◌, gets, modify,
  refuse_if, fail_if, field_at, advance_to, scalar_bytes, entry, max_fields_per_message,
}

-- Whether the bit of a field is set by one of the checksums.
abbrev checksum_mask : List CompiledChecksum → ℕ → Bool
checksum_mask [] id = false
checksum_mask (checksum ∷ checksums) id =
    (ltb checksum.field_id max_fields_per_message && checksum.field_id == id)
    || checksum_mask checksums id

unfoldable pub new_builder : CompiledMessage → List ℕ → MessageBuilder
new_builder layout buffer =
    let too_many = ltb max_fields_per_message (length layout.fields) in
    record {
      layout = layout;
      buffer = buffer;
      field_starts = λ id. 0;
      field_ends = λ id. 0;
      written_scalars = λ id. 0;
      offset = 0;
      next_field_id = 0;
      finalized = false;
      failed = too_many;
      checksum_field_mask = λ id. if too_many then false else checksum_mask layout.checksums id;
    }

unfoldable pub view : MessageBuilder → List ℕ
view b = subspan b.buffer 0 b.offset

unfoldable pub compute_builtin_checksum : ByteOps → CompiledChecksum → List ℕ → ℕ
compute_builtin_checksum ops checksum bytes = elim checksum.builtin_kind [
  | BuiltinKind.xor8 ↦ ops.runtime_checksum_xor8 bytes
  | BuiltinKind.sum16 ↦ ops.runtime_checksum_sum16 bytes
  | BuiltinKind.crc16_ccitt ↦ checksum_crc16_ccitt bytes
  | BuiltinKind.crc32 ↦ checksum_crc32 bytes
  | BuiltinKind.crc32c ↦ ops.runtime_checksum_crc32c bytes
  | BuiltinKind.custom ↦ elim checksum.function [ some function ↦ function bytes | none ↦ 0 ]
]

-- An offset that is noted of a field, if the layout has the field.
abbrev pub noted_offset : ℕ → (MessageBuilder → ℕ → ℕ) → Building (Option ℕ)
noted_offset id offsets b =
    if leb (length b.layout.fields) id then built none b else entry id (λ b. some (offsets b id)) b

-- An anchor, by its kind and its field.
unfoldable pub resolve_anchor : ChecksumAnchorKind → ℕ → Building (Option ℕ)
resolve_anchor ChecksumAnchorKind.frame_start field_id = gets (λ b. some 0)
resolve_anchor ChecksumAnchorKind.frame_end field_id = gets (λ b. some b.offset)
resolve_anchor ChecksumAnchorKind.field_start field_id = noted_offset field_id (λ b. b.field_starts)
resolve_anchor ChecksumAnchorKind.before_self field_id = noted_offset field_id (λ b. b.field_starts)
resolve_anchor ChecksumAnchorKind.field_end field_id = noted_offset field_id (λ b. b.field_ends)
resolve_anchor ChecksumAnchorKind.after_self field_id = noted_offset field_id (λ b. b.field_ends)

abbrev pub is_frame_start : ChecksumAnchorKind → Bool
is_frame_start ChecksumAnchorKind.frame_start = true
is_frame_start _ = false

abbrev pub is_before_self : ChecksumAnchorKind → Bool
is_before_self ChecksumAnchorKind.before_self = true
is_before_self _ = false

-- !resolve_anchor(...): failed_ = true; return kInvalidData;
abbrev pub or_fail {ℓ} : {A : Type ℓ} → Option A → Building A
or_fail (some a) b = built a b
or_fail none b = refused EncodeStatus.invalid_data (record b { failed = true })

-- The bytes that a checksum is over.
unfoldable pub checksum_range : CompiledChecksum → Building (ℕ × ℕ)
unfolding resolve_anchor
checksum_range checksum = do
  let before_itself =
      is_frame_start checksum.from.kind
      && (is_before_self checksum.to.kind && checksum.to.field_id == checksum.field_id)
  if before_itself then entry checksum.field_id (λ b. (0, b.field_starts checksum.field_id)) else do
    from ← resolve_anchor checksum.from.kind checksum.from.field_id
    from_offset ← or_fail from
    to ← resolve_anchor checksum.to.kind checksum.to.field_id
    to_offset ← or_fail to
    gets (λ b. (from_offset, to_offset))

abbrev pub overwrite : ℕ → List ℕ → Building (Unit {0})
overwrite start bytes b =
    if leb (start + length bytes) (length b.buffer)
    then built tt (record b { buffer = copy_at b.buffer start bytes })
    else fault

abbrev pub span_of : ℕ → ℕ → Building (List ℕ)
span_of from to b =
    if leb to (length b.buffer) then built (subspan b.buffer from (to - from)) b else fault

unfoldable pub write_checksum : ByteOps → CompiledChecksum → Building (Unit {0})
unfolding checksum_range compute_builtin_checksum
write_checksum ops checksum = do
  range ← checksum_range checksum
  fail_if (λ b. ltb range.1 range.0 || ltb b.offset range.1) EncodeStatus.invalid_data
  bytes ← span_of range.0 range.1
  let checksum_value = compute_builtin_checksum ops checksum bytes
  field ← field_at checksum.field_id
  start ← entry checksum.field_id (λ b. b.field_starts checksum.field_id)
  written ← scalar_bytes field.byte_order checksum.result_width_bytes checksum_value
  overwrite start written
  modify (λ b. record b {
    written_scalars = update b.written_scalars checksum.field_id checksum_value;
  })

unfoldable pub write_checksums : ByteOps → List CompiledChecksum → Building (Unit {0})
unfolding write_checksum
write_checksums ops [] = gets (λ b. tt)
write_checksums ops (checksum ∷ checksums) = do
  write_checksum ops checksum
  write_checksums ops checksums

-- The reader that `finalize` gives to `validations_pass`.
unfoldable pub read_scalar : ℕ → Building (Option ℕ)
read_scalar id = do
  field ← field_at id
  if is_unsigned_or_enum field.kind
      then entry id (λ b. some (b.written_scalars id))
      else gets (λ b. none)

abbrev pub equals : ℕ → Option ℕ → Bool
equals value none = false
equals value (some read) = read == value

unfoldable pub rule_applies : CompiledValidationRule → Building Bool
unfolding read_scalar
rule_applies rule =
    if rule.has_when
    then (do
      when_value ← read_scalar rule.when_field_id
      gets (λ b. equals rule.when_equals when_value))
    else gets (λ b. true)

unfoldable pub right_side : CompiledValidationRule → Building (Option ℕ)
unfolding read_scalar
right_side rule =
    if rule.compare_to_field then read_scalar rule.other_field_id else gets (λ b. some rule.value)

abbrev pub sides_match : CompiledValidationRule → ℕ → Option ℕ → Bool
sides_match rule lhs none = false
sides_match rule lhs (some rhs) =
    validation_operator_matches rule.op lhs
      (if rule.multiplier == 1 then rhs else rhs * rule.multiplier % 2 ^ 64)

unfoldable pub compare_with : CompiledValidationRule → Option ℕ → Building Bool
unfolding right_side
compare_with rule none = gets (λ b. false)
compare_with rule (some lhs) = do rhs ← right_side rule; gets (λ b. sides_match rule lhs rhs)

unfoldable pub validation_passes : CompiledValidationRule → Building Bool
unfolding rule_applies compare_with read_scalar
validation_passes rule = do
  applies ← rule_applies rule
  if not applies
      then gets (λ b. true)
      else do lhs ← read_scalar rule.field_id; compare_with rule lhs

unfoldable pub validations_pass : List CompiledValidationRule → Building Bool
unfolding validation_passes
validations_pass [] = gets (λ b. true)
validations_pass (rule ∷ rules) = do
  let rest = validations_pass rules
  passes ← validation_passes rule
  if passes then rest else gets (λ b. false)

-- The rest of `finalize`, of a builder that is not finalized.
unfoldable pub close : ByteOps → Building ℕ
unfolding write_checksums validations_pass
close ops = do
  layout ← gets (λ b. b.layout)
  advance_to (length layout.fields)
  write_checksums ops layout.checksums
  passes ← validations_pass layout.validations
  fail_if (λ b. not passes) EncodeStatus.invalid_data
  modify (λ b. record b { finalized = true })
  gets (λ b. b.offset)

unfoldable pub finalize : ByteOps → Building ℕ
unfolding close
finalize ops = do
  refuse_if (λ b. b.failed) EncodeStatus.invalid_data
  finalized ← gets (λ b. b.finalized)
  if finalized then gets (λ b. b.offset) else close ops
