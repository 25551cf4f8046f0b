-- ===== src/Decoded/Nested.antt =====
-- The accessors of `DecodedMessage` and `DecodedCollectionView` in
-- packages/upr_runtime/src/decoder/decoded_message.cpp that decode nested layouts. `fuel` is the depth
-- that `assign_from_layout` may go down to.
use universal_protocol_runti.Base.{
  ℕ, zero, suc, Bool, true, false, not, List, Option, none, some, ltb, leb, ◌==◌, if◌then◌else◌,
  length,
}
use universal_protocol_runti.Outcome.{Outcome, done, failed, fault, out_of_fuel, ◌>>=◌}
use universal_protocol_runti.ByteOps.{ByteOps}
use universal_protocol_runti.Layout.{
  FieldKind, CompiledField, CompiledMessage, CompiledProtocol, struct_by_id,
}
use universal_protocol_runti.Layout.Variants.{find_variant_case}
use universal_protocol_runti.Decoded.{
  DecodedMessage, field_definition, raw_unsigned, checked_add_size, checked_mul_size,
}
use universal_protocol_runti.Decoded.Assign.{subspan_of, subspan_from, assign_from_layout}
use universal_protocol_runti.Decoded.Access.{and_then, guarded, resolved_field}

-- `DecodedCollectionView`, where it is valid.
pub record DecodedCollectionView : Type 0 where
  pub protocol : CompiledProtocol
  pub element_layout : CompiledMessage
  pub frame : List ℕ
  pub count : ℕ

-- != DecodeStatus::kOk) { return std::nullopt; }
abbrev pub or_none {ℓ} : {A : Type ℓ} → Outcome A → Outcome (Option A)
or_none (done a) = done (some a)
or_none (failed status) = done none
or_none fault = fault
or_none out_of_fuel = out_of_fuel

abbrev pub is_struct_kind : FieldKind → Bool
is_struct_kind FieldKind.struct = true
is_struct_kind _ = false

abbrev pub is_collection_kind : FieldKind → Bool
is_collection_kind FieldKind.collection = true
is_collection_kind _ = false

abbrev pub is_variant_kind : FieldKind → Bool
is_variant_kind FieldKind.variant = true
is_variant_kind _ = false

-- The elements of a collection that is there.
unfoldable pub count_elements : DecodedMessage → CompiledField → Option ℕ
count_elements m field =
    if field.dynamic_count then raw_unsigned m field.count_from_field else some field.fixed_count

unfoldable pub get_collection : DecodedMessage → ℕ → Outcome (Option DecodedCollectionView)
unfolding resolved_field count_elements subspan_of
get_collection m id = and_then (field_definition m id) (λ field.
    guarded (is_collection_kind field.kind) (
      and_then m.protocol (λ protocol. resolved_field m id >>= λ resolved. and_then resolved (λ r.
        and_then (struct_by_id protocol field.struct_id) (λ layout.
          and_then (count_elements m field) (λ count.
            subspan_of m.frame r.offset r.size >>= λ bytes. done (
              some (record {
                protocol = protocol;
                element_layout = layout;
                frame = bytes;
                count = count;
              }))))))))

module _ (ops : ByteOps) (fuel : ℕ) where
  -- The message that a nested layout is decoded to, over all of these bytes.
  unfoldable pub decode_nested :
      CompiledProtocol → CompiledMessage → Outcome (List ℕ) → Outcome (Option DecodedMessage)
  decode_nested protocol layout bytes = bytes >>= λ b.
      or_none (assign_from_layout ops protocol fuel layout b none false >>= λ r. done r.0)

  unfoldable pub get_struct : DecodedMessage → ℕ → Outcome (Option DecodedMessage)
  unfolding decode_nested resolved_field subspan_of
  get_struct m id = and_then (field_definition m id) (λ field. guarded (is_struct_kind field.kind) (
      and_then m.protocol (λ protocol. resolved_field m id >>= λ resolved. and_then resolved (λ r.
        and_then (struct_by_id protocol field.struct_id) (λ nested_layout.
          decode_nested protocol nested_layout (subspan_of m.frame r.offset r.size))))))

  unfoldable pub get_variant : DecodedMessage → ℕ → Outcome (Option DecodedMessage)
  unfolding decode_nested resolved_field subspan_of
  get_variant m id = and_then (field_definition m id) (λ field.
      guarded (is_variant_kind field.kind) (
        and_then m.protocol (λ protocol. resolved_field m id >>= λ resolved. and_then resolved (λ r.
          and_then (raw_unsigned m field.tag_from_field) (λ tag_value.
            find_variant_case field tag_value >>= λ found. and_then found (λ variant_case.
              and_then (struct_by_id protocol variant_case.struct_id) (λ nested_layout.
                decode_nested protocol nested_layout (subspan_of m.frame r.offset r.size))))))))

  -- The element at this offset of the view, and the bytes that it consumes.
  unfoldable pub decode_element : DecodedCollectionView → ℕ → Outcome (Option (DecodedMessage × ℕ))
  unfolding subspan_from
  decode_element view offset = subspan_from view.frame offset >>= λ bytes.
      or_none (assign_from_layout ops view.protocol fuel view.element_layout bytes none true)

  -- The rounds of the loop that are left, and the offset of the next element.
  unfoldable pub walk_to : DecodedCollectionView → ℕ → ℕ → Outcome (Option DecodedMessage)
  unfolding decode_element
  walk_to view zero offset =
      decode_element view offset >>= λ element. and_then element (λ e. done (some e.0))
  walk_to view (suc left) offset = decode_element view offset >>= λ element. and_then element (λ e.
      guarded (not (e.1 == 0)) (
        and_then (checked_add_size offset e.1)
          (λ next. guarded (leb next (length view.frame)) (walk_to view left next))))

  unfoldable pub at : DecodedCollectionView → ℕ → Outcome (Option DecodedMessage)
  unfolding decode_element walk_to
  at view index = guarded (ltb index view.count) (
      if view.element_layout.has_fixed_size
      then guarded (not (view.element_layout.minimum_size == 0)) (
          and_then (checked_mul_size index view.element_layout.minimum_size) (λ offset.
            guarded (leb offset (length view.frame))
              (decode_element view offset >>= λ element. and_then element (λ e. done (some e.0)))))
      else walk_to view index 0)
