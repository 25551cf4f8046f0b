-- ===== src/Layout/Names.antt =====
-- packages/upr_compiler/src/compiler/schema_compiler.cpp: the lookups by name of `CompiledMessage` and
-- `CompiledProtocol`. An unordered map from names is filled by `emplace`, which keeps the first
-- entry of a name.
use Prim.Native.String.{String}
use text.Mathlib.Text.{◌==◌}
use universal_protocol_runti.Base.{List, [], ◌∷◌, Option, none, some, ℕ, if◌then◌else◌}
use universal_protocol_runti.Layout.{
  CompiledField, CompiledBitField, CompiledMessage, CompiledProtocol,
}

-- The first element of this name.
unfoldable pub find_named {ℓ} : {A : Type ℓ} → (A → String) → String → List A → Option A
find_named name_of name [] = none
find_named name_of name (a ∷ others) =
    let rest = find_named name_of name others in if name_of a == name then some a else rest

unfoldable pub find_field : CompiledMessage → String → Option ℕ
find_field message field_name =
    elim (find_named (λ (f : CompiledField). f.name) field_name message.fields) [
      | none ↦ none
      | some f ↦ some f.id
    ]

unfoldable pub find_bit_field : CompiledMessage → String → Option ℕ
find_bit_field message bit_field_name =
    elim (find_named (λ (b : CompiledBitField). b.name) bit_field_name message.bit_fields) [
      | none ↦ none
      | some b ↦ some b.id
    ]

unfoldable pub find_message : CompiledProtocol → String → Option CompiledMessage
find_message protocol message_name =
    find_named (λ (m : CompiledMessage). m.name) message_name protocol.messages

unfoldable pub find_struct : CompiledProtocol → String → Option CompiledMessage
find_struct protocol struct_name =
    find_named (λ (m : CompiledMessage). m.name) struct_name protocol.structs
