-- ===== src/Decoded/ByName.antt =====
-- What the overloads by name and the accessors of bit fields look up, in a message that was decoded.
use Prim.Native.String.{String}
use mathlib.Core.Path.{subst}
use universal_protocol_runti.Base.{
  ℕ, zero, suc, ◌+◌, ◌≤◌, ◌<◌, ◌≡◌, refl, sym, ap, ◌∙◌, true, false, List, [], ◌∷◌, Option, none,
  some, length, get_elem?, arith, ltb, inr,
}
use universal_protocol_runti.Outcome.{Outcome, done, Ensures, holds, Ensures->>=}
use universal_protocol_runti.Layout.{
  CompiledField, CompiledBitField, CompiledMessage, CompiledProtocol,
}
use universal_protocol_runti.Layout.Names.{find_named, find_field, find_bit_field}
use universal_protocol_runti.Decoded.{DecodedMessage, field_definition, cached_scalar_raw}
use universal_protocol_runti.Decoded.Access.{
  and_then, bit_field_definition, get_bit_unsigned, get_bit_signed, get_bit_enum_name,
  is_integer_kind, by_field_name, by_bit_field_name, is_present, is_present_by_name,
}
use universal_protocol_runti.Decoded.Compiled.{FieldsOk}
use universal_protocol_runti.Decoded.InBounds.{
  InBounds, Selectable, Ensures-guarded, Ensures-and_then, field_selected-InBounds,
}

-- What the schema compiler promises of bit fields: each is of a field of the layout, and starts at one
-- of 64 bits.
abbrev pub BitFieldsOk : ℕ → List CompiledBitField → Type 0
BitFieldsOk n [] = Unit {0}
BitFieldsOk n (b ∷ bit_fields) =
    (b.container_field_id < n) × (b.shift_bits < 64) × BitFieldsOk n bit_fields

get-BitFieldsOk :
    (n : ℕ) (bit_fields : List CompiledBitField) (j : ℕ) (b : CompiledBitField)
    → BitFieldsOk n bit_fields
    → get_elem? bit_fields j ≡ some b
    → (b.container_field_id < n) × (b.shift_bits < 64)
get-BitFieldsOk n [] j b h e = cc
get-BitFieldsOk n (x ∷ bit_fields) zero b (c, s, h) e =
    let y : x ≡ b = ground (arith, e) in
    subst (λ (z : CompiledBitField). (z.container_field_id < n) × (z.shift_bits < 64)) y (c, s)
get-BitFieldsOk n (x ∷ bit_fields) (suc j) b (c, s, h) e = get-BitFieldsOk n bit_fields j b h e

-- The number of a field that is found by its name is that of a field.
find_named-lt :
    (protocol : CompiledProtocol) (P : CompiledMessage → Type 0) (k : ℕ)
    (fields : List CompiledField) (name : String) (f : CompiledField)
    → FieldsOk protocol P k fields
    → find_named (λ (f : CompiledField). f.name) name fields ≡ some f
    → f.id < k + length fields
unfolding find_named
find_named-lt protocol P k [] name f ok e = cc
find_named-lt protocol P k (x ∷ fields) name f ok e =
    ground (arith, (ok.0).id_is, find_named-lt protocol P (suc k) fields name f ok.1, e)

find_field-lt :
    (protocol : CompiledProtocol) (P : CompiledMessage → Type 0) (layout : CompiledMessage)
    (name : String) (id : ℕ)
    → FieldsOk protocol P 0 layout.fields
    → find_field layout name ≡ some id
    → id < length layout.fields
unfolding find_field
find_field-lt protocol P layout name id ok e =
    go (find_named (λ (f : CompiledField). f.name) name layout.fields)
      (λ f. find_named-lt protocol P 0 layout.fields name f ok) e
  where
    go :
        (o : Option CompiledField)
        → ((f : CompiledField) → o ≡ some f → f.id < 0 + length layout.fields)
        → (elim o [ none ↦ none | some f ↦ some f.id ]) ≡ some id
        → id < length layout.fields
    go none k h = cc
    go (some f) k h = ground (arith, k f refl, h)

module _ (m : DecodedMessage) (layout : CompiledMessage) (message_is : m.message ≡ some layout)
    (few : length layout.fields ≤ 64) (protocol : CompiledProtocol) (R : CompiledMessage → Type 0)
    (ok : FieldsOk protocol R 0 layout.fields) where
  selectable : (name : String) (i : ℕ) → find_field layout name ≡ some i → Selectable m i
  selectable name i e = inr (omega (arith, find_field-lt protocol R layout name i ok e, few))

  pub is_present_by_name-InBounds :
      (name : String)
      → ((i : ℕ) → Selectable m i → InBounds (is_present m i))
      → InBounds (is_present_by_name m name)
  unfolding is_present_by_name
  is_present_by_name-InBounds name h =
      rw message_is (go (find_field layout name) (λ i e. h i (selectable name i e)))
    where
      go :
          (o : Option ℕ)
          → ((i : ℕ) → o ≡ some i → InBounds (is_present m i))
          → InBounds (elim o [ none ↦ done false | some i ↦ is_present m i ])
      go none k = holds tt
      go (some i) k = k i refl

  module _ {ℓ ℓ'} {A : Type ℓ} {P : Option A → Type ℓ'} where
    pub by_field_name-Ensures :
        (get : DecodedMessage → ℕ → Outcome (Option A)) (name : String)
        → P none
        → ((i : ℕ) → Selectable m i → Ensures P (get m i))
        → Ensures P (by_field_name get m name)
    unfolding by_field_name
    by_field_name-Ensures get name p h =
        subst
          (λ (o : Option CompiledMessage).
            Ensures P (elim o [ none ↦ done none | some l ↦ and_then (find_field l name) (get m) ]))
          (sym message_is)
          (Ensures-and_then (find_field layout name) p (λ i e. h i (selectable name i e)))

  module _ {ℓ} {A : Type ℓ} where
    pub by_bit_field_name-InBounds :
        (get : DecodedMessage → ℕ → Outcome (Option A)) (name : String)
        → ((j : ℕ) → InBounds (get m j))
        → InBounds (by_bit_field_name get m name)
    unfolding by_bit_field_name
    by_bit_field_name-InBounds get name h =
        subst
          (λ (o : Option CompiledMessage).
            InBounds
              (elim o [ none ↦ done none | some l ↦ and_then (find_bit_field l name) (get m) ]))
          (sym message_is) (Ensures-and_then (find_bit_field layout name) tt (λ j e. h j))

  module _ (bits : BitFieldsOk (length layout.fields) layout.bit_fields) where
    bit_field_ok :
        (j : ℕ) (b : CompiledBitField)
        → bit_field_definition m j ≡ some b
        → (b.container_field_id < length layout.fields) × (b.shift_bits < 64)
    unfolding bit_field_definition
    bit_field_ok j b e = get-BitFieldsOk (length layout.fields) layout.bit_fields j b bits (
        sym (
          ap
            (λ (o : Option CompiledMessage). elim o [
              | none ↦ none
              | some l ↦ get_elem? l.bit_fields j
            ])
            message_is)
        ∙ e)

    pub get_bit_unsigned-InBounds : (j : ℕ) → InBounds (get_bit_unsigned m j)
    unfolding get_bit_unsigned
    get_bit_unsigned-InBounds j = Ensures-and_then (bit_field_definition m j) tt (λ b e.
        let (inside, shift) = bit_field_ok j b e in
        let t : ltb b.shift_bits 64 ≡ true = ground (arith, shift) in
        Ensures->>=
          (field_selected-InBounds m b.container_field_id (inr (omega (arith, inside, few))))
          (λ selected _. Ensures-guarded selected tt (λ e'.
            Ensures-and_then (field_definition m b.container_field_id) tt (λ container f.
              Ensures-guarded (is_integer_kind container.kind) tt (λ e''.
                Ensures-and_then (cached_scalar_raw m b.container_field_id) tt
                  (λ value v. rw t (holds tt)))))))

    pub get_bit_signed-InBounds : (j : ℕ) → InBounds (get_bit_signed m j)
    unfolding get_bit_signed
    get_bit_signed-InBounds j = Ensures-and_then (bit_field_definition m j) tt (λ b e.
        Ensures-guarded b.is_signed tt (λ e'.
          Ensures->>= (get_bit_unsigned-InBounds j)
            (λ value _. Ensures-and_then value tt (λ v e''. holds tt))))

    pub get_bit_enum_name-InBounds : (j : ℕ) → InBounds (get_bit_enum_name m j)
    unfolding get_bit_enum_name
    get_bit_enum_name-InBounds j = Ensures-and_then (bit_field_definition m j) tt (λ b e.
        Ensures->>= (get_bit_unsigned-InBounds j)
          (λ value _. Ensures-and_then value tt (λ v e'. holds tt)))
