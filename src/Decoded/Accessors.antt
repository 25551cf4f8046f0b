-- ===== src/Decoded/Accessors.antt =====
-- All the accessors of a decoded message, and the elements of a collection.
use Prim.Native.String.{String}
use universal_protocol_runti.Base.{
  ℕ, zero, suc, ◌^◌, ◌≤◌, ◌<◌, ◌≡◌, Bool, true, not, ◌&&◌, List, Option, some, none, length, arith,
  ltb, leb, ◌==◌, leb→le, length-drop,
}
use universal_protocol_runti.ByteOps.{ByteOps}
use universal_protocol_runti.Outcome.{Ensures, holds, Ensures->>=, Ensures-if, Ensures-mono}
use universal_protocol_runti.Layout.{CompiledMessage, CompiledProtocol}
use universal_protocol_runti.Decoded.{
  DecodedMessage, field_definition, cached_scalar_raw, checked_add_size, checked_mul_size,
}
use universal_protocol_runti.Decoded.Access.{
  is_present, get_unsigned, get_signed, get_float32, get_float64, get_bytes, get_string_view,
  get_bit_unsigned, get_bit_signed, get_bit_enum_name, by_field_name, by_bit_field_name,
  is_present_by_name, get_enum_name, is_signed_kind, is_float32_kind, is_float64_kind, is_enum_kind,
}
use universal_protocol_runti.Decoded.Nested.{
  DecodedCollectionView, get_collection, get_struct, get_variant, decode_element, walk_to, at,
}
use universal_protocol_runti.Decoded.Compiled.{IsCompiled}
use universal_protocol_runti.Decoded.Sizes.{subspan_from_lem}
use universal_protocol_runti.Decoded.Safety.{IsDecoded, assign_from_layout-IsDecoded}
use universal_protocol_runti.Decoded.ByName.{
  BitFieldsOk, by_field_name-Ensures, by_bit_field_name-InBounds, is_present_by_name-InBounds,
  get_bit_unsigned-InBounds, get_bit_signed-InBounds, get_bit_enum_name-InBounds,
}
use universal_protocol_runti.Decoded.InBounds.{
  InBounds, Selectable, Ensures-guarded, Ensures-and_then, or_none-InBounds,
  field_selected-InBounds, get_bytes-InBounds, get_string_view-InBounds, get_struct-InBounds,
  get_variant-InBounds, get_collection-View,
}

is_present-InBounds : (m : DecodedMessage) (i : ℕ) → Selectable m i → InBounds (is_present m i)
unfolding is_present
is_present-InBounds m i h =
    Ensures-if (ltb i m.field_count && m.field_present i) (λ e. field_selected-InBounds m i h)
      (λ e. holds tt)

get_unsigned-InBounds : (m : DecodedMessage) (i : ℕ) → Selectable m i → InBounds (get_unsigned m i)
unfolding get_unsigned
get_unsigned-InBounds m i h =
    Ensures->>= (field_selected-InBounds m i h)
      (λ selected _. Ensures-guarded selected tt (λ e. holds tt))

get_signed-InBounds : (m : DecodedMessage) (i : ℕ) → Selectable m i → InBounds (get_signed m i)
unfolding get_signed
get_signed-InBounds m i h = Ensures-and_then (field_definition m i) tt (λ field f.
    Ensures-guarded (is_signed_kind field.kind) tt (λ e.
      Ensures->>= (field_selected-InBounds m i h) (λ selected _.
        Ensures-guarded selected tt
          (λ e'. Ensures-and_then (cached_scalar_raw m i) tt (λ raw r. holds tt)))))

get_float32-InBounds : (m : DecodedMessage) (i : ℕ) → Selectable m i → InBounds (get_float32 m i)
unfolding get_float32
get_float32-InBounds m i h = Ensures-and_then (field_definition m i) tt (λ field f.
    Ensures-guarded (is_float32_kind field.kind && field.width_bytes == 4) tt (λ e.
      Ensures->>= (field_selected-InBounds m i h) (λ selected _.
        Ensures-guarded selected tt
          (λ e'. Ensures-and_then (cached_scalar_raw m i) tt (λ raw r. holds tt)))))

get_float64-InBounds : (m : DecodedMessage) (i : ℕ) → Selectable m i → InBounds (get_float64 m i)
unfolding get_float64
get_float64-InBounds m i h = Ensures-and_then (field_definition m i) tt (λ field f.
    Ensures-guarded (is_float64_kind field.kind && field.width_bytes == 8) tt (λ e.
      Ensures->>= (field_selected-InBounds m i h)
        (λ selected _. Ensures-guarded selected tt (λ e'. holds tt))))

get_enum_name-InBounds :
    (m : DecodedMessage) (i : ℕ) → Selectable m i → InBounds (get_enum_name m i)
unfolding get_enum_name
get_enum_name-InBounds m i h = Ensures-and_then (field_definition m i) tt (λ field f.
    Ensures-guarded (is_enum_kind field.kind) tt (λ e.
      Ensures->>= (get_unsigned-InBounds m i h)
        (λ value _. Ensures-and_then value tt (λ v e'. holds tt))))

module _ (ops : ByteOps) (depth : ℕ) (view : DecodedCollectionView)
    (compiled : IsCompiled view.protocol depth view.element_layout)
    (short : length view.frame < 2 ^ 63) where
  -- The element ends inside of the view.
  decode_element-InBounds :
      (offset : ℕ) → offset ≤ length view.frame → InBounds (decode_element ops depth view offset)
  unfolding decode_element
  decode_element-InBounds offset h =
      Ensures->>=
        (subspan_from_lem {P = λ (bytes : List ℕ). length bytes < 2 ^ 63} view.frame offset h
          (omega (arith, length-drop offset view.frame)))
        (λ bytes b. or_none-InBounds (
          Ensures-mono
            (assign_from_layout-IsDecoded ops view.protocol depth view.element_layout bytes none
              true compiled b)
            (λ x y. tt)))

  walk_to-InBounds :
      (left offset : ℕ) → offset ≤ length view.frame → InBounds (walk_to ops depth view left offset)
  unfolding walk_to
  walk_to-InBounds zero offset h =
      Ensures->>= (decode_element-InBounds offset h)
        (λ element _. Ensures-and_then element tt (λ e g. holds tt))
  walk_to-InBounds (suc left) offset h =
      Ensures->>= (decode_element-InBounds offset h) (λ element _.
        Ensures-and_then element tt (λ e g. Ensures-guarded (not (e.1 == 0)) tt (λ t.
          Ensures-and_then (checked_add_size offset e.1) tt (λ next n.
            Ensures-guarded (leb next (length view.frame)) tt
              (λ l. walk_to-InBounds left next (leb→le next (length view.frame) l))))))

  at-InBounds : (index : ℕ) → InBounds (at ops depth view index)
  unfolding at
  at-InBounds index = Ensures-guarded (ltb index view.count) tt (λ e.
      Ensures-if (view.element_layout).has_fixed_size
        (λ e'. Ensures-guarded (not ((view.element_layout).minimum_size == 0)) tt (λ t.
          Ensures-and_then (checked_mul_size index (view.element_layout).minimum_size) tt
            (λ offset o. Ensures-guarded (leb offset (length view.frame)) tt (λ l.
              Ensures->>= (decode_element-InBounds offset (leb→le offset (length view.frame) l))
                (λ element _. Ensures-and_then element tt (λ x g. holds tt))))))
        (λ e'. walk_to-InBounds index 0 (omega arith)))

-- The view that `get_collection` gives, if any, has elements that are read inside of it.
abbrev pub ElementsInBounds : ByteOps → ℕ → Option DecodedCollectionView → Type 0
ElementsInBounds ops depth o =
    (v : DecodedCollectionView) → o ≡ some v → (index : ℕ) → InBounds (at ops depth v index)

-- The accessors by the number of a field.
abbrev pub AreFieldAccessorsInBounds : ByteOps → ℕ → DecodedMessage → ℕ → Type 0
AreFieldAccessorsInBounds ops depth m i =
    InBounds (is_present m i)
    × InBounds (get_unsigned m i)
    × InBounds (get_signed m i)
    × InBounds (get_float32 m i)
    × InBounds (get_float64 m i)
    × InBounds (get_bytes m i)
    × InBounds (get_string_view m i)
    × InBounds (get_enum_name m i)
    × InBounds (get_struct ops depth m i)
    × InBounds (get_variant ops depth m i)
    × Ensures (ElementsInBounds ops depth) (get_collection m i)

-- The accessors by the number of a bit field.
abbrev pub AreBitAccessorsInBounds : DecodedMessage → ℕ → Type 0
AreBitAccessorsInBounds m j =
    InBounds (get_bit_unsigned m j)
    × InBounds (get_bit_signed m j)
    × InBounds (get_bit_enum_name m j)

-- The accessors by name.
abbrev pub AreNamedAccessorsInBounds : ByteOps → ℕ → DecodedMessage → String → Type 0
AreNamedAccessorsInBounds ops depth m name =
    InBounds (is_present_by_name m name)
    × InBounds (by_field_name get_unsigned m name)
    × InBounds (by_field_name get_signed m name)
    × InBounds (by_field_name get_float32 m name)
    × InBounds (by_field_name get_float64 m name)
    × InBounds (by_field_name get_bytes m name)
    × InBounds (by_field_name get_string_view m name)
    × InBounds (by_field_name get_enum_name m name)
    × InBounds (by_field_name (get_struct ops depth) m name)
    × InBounds (by_field_name (get_variant ops depth) m name)
    × Ensures (ElementsInBounds ops depth) (by_field_name get_collection m name)
    × InBounds (by_bit_field_name get_bit_unsigned m name)
    × InBounds (by_bit_field_name get_bit_signed m name)
    × InBounds (by_bit_field_name get_bit_enum_name m name)

-- The accessors of a message that was decoded by a compiled layout read nothing out of the bounds of an
-- array or of the frame and shift by less than 64, and those that decode nested layouts, the elements
-- of a collection included, end within the depth that the layout nests. They are `is_present`, the
-- getters of values, of bytes, of nested messages and of collections by the number of a field, for any
-- number below 64, or any at all without a selection; the getters of bit fields, for any number; and
-- all of these by any name. The bit fields of the layout are of its fields and start at a bit below
-- 64, and the frame is shorter than 2^63 bytes. The templates `get`, `get_bit`, `get_fixed_bytes` and
-- `get_fixed_string` are not among them.
pub accessors-InBounds :
    (ops : ByteOps) (protocol : CompiledProtocol) (layout : CompiledMessage) (frame : List ℕ)
    (prefix : Bool) (m : DecodedMessage) (consumed depth : ℕ)
    → IsDecoded ops protocol layout frame prefix (m, consumed)
    → IsCompiled protocol (suc depth) layout
    → BitFieldsOk (length layout.fields) layout.bit_fields
    → length frame < 2 ^ 63
    → (i : ℕ) → Selectable m i
    → (j : ℕ) (name : String)
    → AreFieldAccessorsInBounds ops depth m i
      × AreBitAccessorsInBounds m j
      × AreNamedAccessorsInBounds ops depth m name
accessors-InBounds ops protocol layout frame prefix m consumed depth d compiled bits short i h j
      name =
    let message_is = (d.running).message_is in
    let R = IsCompiled protocol depth in
    let bytes = get_bytes-InBounds ops protocol layout frame prefix m consumed d in
    let text = get_string_view-InBounds ops protocol layout frame prefix m consumed d in
    let struct_at =
      get_struct-InBounds ops protocol layout frame prefix m consumed d ops depth compiled short in
    let variant_at =
      get_variant-InBounds ops protocol layout frame prefix m consumed d ops depth compiled short in
    let elements : (i : ℕ) → Ensures (ElementsInBounds ops depth) (get_collection m i) = λ i.
      Ensures-mono
        (get_collection-View ops protocol layout frame prefix m consumed d ops depth compiled short
          i)
        (λ o f v e index. let (c, b) = f v e in at-InBounds ops depth v c b index) in
    let bit = get_bit_unsigned-InBounds m layout message_is d.few protocol R compiled bits in
    let signed = get_bit_signed-InBounds m layout message_is d.few protocol R compiled bits in
    let enum = get_bit_enum_name-InBounds m layout message_is d.few protocol R compiled bits in
    (
      (
        is_present-InBounds m i h,
        get_unsigned-InBounds m i h,
        get_signed-InBounds m i h,
        get_float32-InBounds m i h,
        get_float64-InBounds m i h,
        bytes i,
        text i,
        get_enum_name-InBounds m i h,
        struct_at i,
        variant_at i,
        elements i,
      ),
      (bit j, signed j, enum j),
      (
        is_present_by_name-InBounds m layout message_is d.few protocol R compiled name
            (is_present-InBounds m),
        by_field_name-Ensures m layout message_is d.few protocol R compiled get_unsigned name tt
            (get_unsigned-InBounds m),
        by_field_name-Ensures m layout message_is d.few protocol R compiled get_signed name tt
            (get_signed-InBounds m),
        by_field_name-Ensures m layout message_is d.few protocol R compiled get_float32 name tt
            (get_float32-InBounds m),
        by_field_name-Ensures m layout message_is d.few protocol R compiled get_float64 name tt
            (get_float64-InBounds m),
        by_field_name-Ensures m layout message_is d.few protocol R compiled get_bytes name tt
            (λ i h. bytes i),
        by_field_name-Ensures m layout message_is d.few protocol R compiled get_string_view name tt
            (λ i h. text i),
        by_field_name-Ensures m layout message_is d.few protocol R compiled get_enum_name name tt
            (get_enum_name-InBounds m),
        by_field_name-Ensures m layout message_is d.few protocol R compiled (get_struct ops depth)
            name tt (λ i h. struct_at i),
        by_field_name-Ensures m layout message_is d.few protocol R compiled (get_variant ops depth)
            name tt (λ i h. variant_at i),
        by_field_name-Ensures m layout message_is d.few protocol R compiled get_collection name
            (λ v e. cc) (λ i h. elements i),
        by_bit_field_name-InBounds m layout message_is d.few protocol R compiled get_bit_unsigned
            name bit,
        by_bit_field_name-InBounds m layout message_is d.few protocol R compiled get_bit_signed name
            signed,
        by_bit_field_name-InBounds m layout message_is d.few protocol R compiled get_bit_enum_name
            name enum,
      ),
    )
