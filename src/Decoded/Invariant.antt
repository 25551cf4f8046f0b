-- ===== src/Decoded/Invariant.antt =====
-- What holds of the candidate and the offset after each round of the loop over the fields in
-- `DecodedMessage::assign_from_layout`.
use universal_protocol_runti.Base.{
  ℕ, ◌+◌, ◌≤◌, ◌<◌, ◌≡◌, ◌≢◌, Bool, true, false, List, some, length, get_elem?, subspan,
}
use universal_protocol_runti.Scalar.{read_unsigned_scalar}
use universal_protocol_runti.ByteOps.{ByteOps}
use universal_protocol_runti.Layout.{
  FieldKind, CompiledField, CompiledMessage, CompiledProtocol, is_scalar,
}
use universal_protocol_runti.Decoded.{DecodedMessage, ResolvedField}
use universal_protocol_runti.Decoded.Assign.{valid_encoding, is_filled}

-- A field that the decoder went past, with its entries in the arrays; `bound` is where the decoder is.
pub record Settled (ops : ByteOps) (frame : List ℕ) (bound : ℕ) (field : CompiledField)
    (present : Bool) (r : ResolvedField) (valid : Bool) (value : ℕ) : Type 0 where
  pub inside : present ≡ true → r.offset + r.size ≤ bound
  pub width : present ≡ true → is_scalar field ≡ true → r.size ≡ field.width_bytes
  pub cached :
      valid ≡ true
      → (present ≡ true)
        × (read_unsigned_scalar field.byte_order (subspan frame r.offset r.size) ≡ some value)
  pub expected :
      present ≡ true
      → field.has_expected_unsigned ≡ true
      → (valid ≡ true) × (value ≡ field.expected_unsigned)
  pub encoded :
      present ≡ true
      → field.kind ≡ FieldKind.string
      → valid_encoding ops field.string_encoding (subspan frame r.offset r.size) ≡ true
  pub reserved :
      present ≡ true
      → field.is_reserved ≡ true
      → is_filled field.reserved_fill_byte (subspan frame r.offset r.size) ≡ true

abbrev pub Settles : ByteOps → List ℕ → ℕ → CompiledField → DecodedMessage → ℕ → Type 0
Settles ops frame bound field m i =
    Settled ops frame bound field (m.field_present i) (m.resolved_fields i) (m.scalar_cache_valid i)
      (m.scalar_cache_values i)

-- The message `m'` is `m` but for the entries at `k`.
pub record Extends (k : ℕ) (m m' : DecodedMessage) : Type 0 where
  pub same_message : m'.message ≡ m.message
  pub same_protocol : m'.protocol ≡ m.protocol
  pub same_frame : m'.frame ≡ m.frame
  pub same_count : m'.field_count ≡ m.field_count
  pub same_present : (j : ℕ) → j ≢ k → m'.field_present j ≡ m.field_present j
  pub same_resolved : (j : ℕ) → j ≢ k → m'.resolved_fields j ≡ m.resolved_fields j
  pub same_valid : (j : ℕ) → j ≢ k → m'.scalar_cache_valid j ≡ m.scalar_cache_valid j
  pub same_values : (j : ℕ) → j ≢ k → m'.scalar_cache_values j ≡ m.scalar_cache_values j

module _ (ops : ByteOps) (protocol : CompiledProtocol) (layout : CompiledMessage)
    (frame : List ℕ) where
  -- After the first `k` fields.
  pub record Running (k : ℕ) (m : DecodedMessage) (offset : ℕ) : Type 0 where
    pub message_is : m.message ≡ some layout
    pub protocol_is : m.protocol ≡ some protocol
    pub frame_is : m.frame ≡ frame
    pub count_is : m.field_count ≡ length layout.fields
    pub offset_le : offset ≤ length frame
    pub untouched : (i : ℕ) → k ≤ i → (m.field_present i ≡ false) × (m.scalar_cache_valid i ≡ false)
    pub settled :
        (i : ℕ) (field : CompiledField)
        → i < k
        → get_elem? layout.fields i ≡ some field
        → Settles ops frame offset field m i
    pub before :
        (i : ℕ)
        → i < k
        → m.field_present i ≡ true
        → (m.resolved_fields i).offset + (m.resolved_fields i).size ≤ offset
    pub ordered :
        (i j : ℕ)
        → i < j
        → j < k
        → m.field_present i ≡ true
        → m.field_present j ≡ true
        → (m.resolved_fields i).offset + (m.resolved_fields i).size ≤ (m.resolved_fields j).offset
