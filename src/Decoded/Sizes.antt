-- ===== src/Decoded/Sizes.antt =====
-- The size that the decoder finds for a field, of every kind, without an access out of bounds; and the
-- arithmetic of sizes.
use universal_protocol_runti.Base.{
  get_inside, ℕ, zero, suc, ◌+◌, ◌-◌, ◌/◌, ◌%◌, ◌^◌, ◌≤◌, ◌<◌, ◌≡◌, ◌⊎◌, refl, ap, inl, inr, true,
  List, [], ◌∷◌, Option, none, some, ltb, leb, ◌==◌, length, drop, get_elem?, arith, Bool-cases,
  Option-cases, ltb→le, length-drop, if_elim,
}
use mathlib.Core.Path.{subst}
use native.Mathlib.Nat.{mod-eq_of_lt}
use universal_protocol_runti.Outcome.{
  Outcome, Ensures, holds, rejected, Ensures->>=, Ensures-fail_if, Ensures-or_fail, Ensures-if,
  Ensures-mono,
}
use universal_protocol_runti.Layout.{
  FieldKind, CompiledField, CompiledMessage, CompiledProtocol, CompiledVariantCase, is_scalar_kind,
  struct_by_id,
}
use universal_protocol_runti.Layout.Variants.{
  find_variant_case, case_at, find_by_search, lower_bound, variant_lookup_missing,
}
use universal_protocol_runti.Decoded.{DecodedMessage, checked_add_size, raw_unsigned}
use universal_protocol_runti.Decoded.Assign.{
  subspan_from, nested_size, elements_size, fixed_elements_size, element_count, collection_size,
  variant_size, dynamic_bytes_size, bytes_size, size_of_kind,
}
use universal_protocol_runti.Decoded.Compiled.{RefOk, CasesOk, LookupOk, RefsOk}

pub checked_add_size-some : (a b s : ℕ) → b < 2 ^ 64 → checked_add_size a b ≡ some s → s ≡ a + b
unfolding checked_add_size
checked_add_size-some a b s h e = elim (Bool-cases (ltb (2 ^ 64 - 1 - b) a)) [
  | inl t ↦ ground (arith, e, t)
  | inr f ↦
      let l : a + b < 2 ^ 64 = omega (arith, ltb→le (2 ^ 64 - 1 - b) a f) in
      let m : (a + b) % 2 ^ 64 ≡ a + b = mod-eq_of_lt l in ground (arith, e, f, m)
]

-- No case is found but one of the field's, and none out of the bounds of its table.
lower_bound-CasesOk :
    (protocol : CompiledProtocol) (P : CompiledMessage → Type 0) (cases : List CompiledVariantCase)
    (tag : ℕ) (c : CompiledVariantCase)
    → CasesOk protocol P cases
    → lower_bound cases tag ≡ some c
    → RefOk P (struct_by_id protocol c.struct_id)
unfolding lower_bound
lower_bound-CasesOk protocol P [] tag c h e = cc
lower_bound-CasesOk protocol P (d ∷ cases) tag c h e = elim (Bool-cases (ltb d.tag_value tag)) [
  | inl t ↦ lower_bound-CasesOk protocol P cases tag c h.1 (rw t at e)
  | inr f ↦
      let x : d ≡ c = ground (arith, e, f) in
      subst (λ (v : CompiledVariantCase). RefOk P (struct_by_id protocol v.struct_id)) x h.0
]

get-CasesOk :
    (protocol : CompiledProtocol) (P : CompiledMessage → Type 0) (cases : List CompiledVariantCase)
    (i : ℕ) (c : CompiledVariantCase)
    → CasesOk protocol P cases
    → get_elem? cases i ≡ some c
    → RefOk P (struct_by_id protocol c.struct_id)
get-CasesOk protocol P [] i c h e = cc
get-CasesOk protocol P (d ∷ cases) zero c h e =
    let x : d ≡ c = ground (arith, e) in
    subst (λ (v : CompiledVariantCase). RefOk P (struct_by_id protocol v.struct_id)) x h.0
get-CasesOk protocol P (d ∷ cases) (suc i) c h e = get-CasesOk protocol P cases i c h.1 e

get-LookupOk :
    (n : ℕ) (indices : List ℕ) (j i : ℕ)
    → LookupOk n indices
    → get_elem? indices j ≡ some i
    → (i ≡ variant_lookup_missing) ⊎ (i < n)
get-LookupOk n [] j i h e = cc
get-LookupOk n (k ∷ indices) zero i h e =
    let x : k ≡ i = ground (arith, e) in
    subst (λ (v : ℕ). (v ≡ variant_lookup_missing) ⊎ (v < n)) x h.0
get-LookupOk n (k ∷ indices) (suc j) i h e = get-LookupOk n indices j i h.1 e

-- A case that was found, if any, refers to a layout of `P`.
abbrev pub FoundOk :
    CompiledProtocol → (CompiledMessage → Type 0) → Option CompiledVariantCase → Type 0
FoundOk protocol P none = Unit {0}
FoundOk protocol P (some c) = RefOk P (struct_by_id protocol c.struct_id)

find_by_search-FoundOk :
    (protocol : CompiledProtocol) (P : CompiledMessage → Type 0) (cases : List CompiledVariantCase)
    (tag : ℕ)
    → CasesOk protocol P cases
    → FoundOk protocol P (find_by_search cases tag)
unfolding find_by_search
find_by_search-FoundOk protocol P cases tag h = elim (Option-cases (lower_bound cases tag)) [
  | inl e ↦ rw e tt
  | inr (c, e) ↦ rw e (
      if_elim (FoundOk protocol P) (c.tag_value == tag) (some c) none
        (lower_bound-CasesOk protocol P cases tag c h e) tt)
]

case_at-FoundOk :
    (protocol : CompiledProtocol) (P : CompiledMessage → Type 0) (cases : List CompiledVariantCase)
    (i : ℕ)
    → CasesOk protocol P cases
    → (i ≡ variant_lookup_missing) ⊎ (i < length cases)
    → Ensures (FoundOk protocol P) (case_at cases i)
unfolding case_at
case_at-FoundOk protocol P cases i h b =
    Ensures-if (i == variant_lookup_missing) (λ e. holds tt)
      (λ e. elim (Option-cases (get_elem? cases i)) [
        | inl n ↦ absurd (elim b [ inl x ↦ ground (arith, e, x) | inr l ↦ get_inside cases i l n ])
        | inr (c, g) ↦ rw g (holds (get-CasesOk protocol P cases i c h g))
      ])

pub find_variant_case-FoundOk :
    (protocol : CompiledProtocol) (P : CompiledMessage → Type 0) (field : CompiledField) (tag : ℕ)
    → CasesOk protocol P field.variant_cases
    → LookupOk (length field.variant_cases) field.variant_lookup_indices
    → Ensures (FoundOk protocol P) (find_variant_case field tag)
unfolding find_variant_case
find_variant_case-FoundOk protocol P field tag h l =
    let searched = find_by_search-FoundOk protocol P field.variant_cases tag h in
    Ensures-if (length field.variant_lookup_indices == 0) (λ e. holds searched)
      (λ e.
        Ensures-if (ltb tag field.variant_lookup_base) (λ e'. holds tt)
          (λ e'.
            elim (Option-cases
              (get_elem? field.variant_lookup_indices (tag - field.variant_lookup_base))) [
                | inl n ↦ rw n (holds searched)
                | inr (i, g) ↦ rw g (
                    case_at-FoundOk protocol P field.variant_cases i h (
                      get-LookupOk (length field.variant_cases) field.variant_lookup_indices
                        (tag - field.variant_lookup_base) i l g))
              ]))

pub subspan_from_lem {ℓ} :
    {P : List ℕ → Type ℓ} (frame : List ℕ) (offset : ℕ)
    → offset ≤ length frame
    → P (drop offset frame)
    → Ensures P (subspan_from frame offset)
unfolding subspan_from
subspan_from_lem frame offset h p =
    Ensures-if (leb offset (length frame)) (λ e. holds p) (λ e. absurd (ground (arith, e)))

fixed_elements_size_lt :
    (element_size : ℕ) (frame : List ℕ) (offset count : ℕ)
    → Ensures (λ size. size < 2 ^ 64) (fixed_elements_size element_size frame offset count)
unfolding fixed_elements_size
fixed_elements_size_lt element_size frame offset count = Ensures-fail_if (element_size == 0) _ (λ e.
    Ensures-fail_if (ltb ((length frame - offset) / element_size) count) _
      (λ e'. holds (omega arith)))

bytes_size_lt :
    (field : CompiledField) (m : DecodedMessage)
    → field.fixed_size < 2 ^ 64
    → length m.frame < 2 ^ 63
    → Ensures (λ size. size < 2 ^ 64) (bytes_size field m)
unfolding bytes_size dynamic_bytes_size
bytes_size_lt field m s b =
    Ensures-if field.dynamic_size
      (λ e.
        Ensures->>= {P = λ (v : ℕ). Unit {0}}
          (Ensures-or_fail (raw_unsigned m field.size_from_field) _ (λ a e'. tt))
          (λ v u.
            Ensures-fail_if (ltb (length m.frame) v) _
              (λ e'. holds (omega (arith, ltb→le (length m.frame) v e')))))
      (λ e. holds s)

module _ (protocol : CompiledProtocol)
    (nested : CompiledMessage → List ℕ → Outcome (DecodedMessage × ℕ))
    (P : CompiledMessage → Type 0)
    (decodes : (layout : CompiledMessage) (bytes : List ℕ)
      → P layout
      → length bytes < 2 ^ 63
      → Ensures (λ (r : DecodedMessage × ℕ). r.1 ≤ length bytes) (nested layout bytes)) where
  nested_size_lt :
      (layout : Option CompiledMessage) (offset : ℕ) (frame : List ℕ)
      → RefOk P layout
      → offset ≤ length frame
      → length frame < 2 ^ 63
      → Ensures (λ size. size < 2 ^ 64) (nested_size protocol nested layout offset frame)
  unfolding nested_size
  nested_size_lt none offset frame ok h b = rejected
  nested_size_lt (some layout) offset frame ok h b =
      let l = length-drop offset frame in
      Ensures->>= (subspan_from_lem {P = λ bytes. bytes ≡ drop offset frame} frame offset h refl)
        (λ bytes e.
          Ensures->>= (decodes layout bytes ok (rw e (omega (arith, l))))
            (λ r c. holds (omega (arith, c, ap length e, l))))

  elements_size_lt :
      (layout : CompiledMessage) (frame : List ℕ) (offset count total : ℕ)
      → P layout
      → offset + total ≤ length frame
      → length frame < 2 ^ 63
      → Ensures
          (λ size. size < 2 ^ 64)
          (elements_size protocol nested layout frame offset count total)
  unfolding elements_size
  elements_size_lt layout frame offset zero total ok h b = holds (omega arith)
  elements_size_lt layout frame offset (suc count) total ok h b =
      let small : offset + total < 2 ^ 64 = omega arith in
      let m : (offset + total) % 2 ^ 64 ≡ offset + total = mod-eq_of_lt small in
      let l = length-drop (offset + total) frame in
      Ensures->>= {P = λ (bytes : List ℕ). bytes ≡ drop (offset + total) frame}
        {o = subspan_from frame ((offset + total) % 2 ^ 64)}
        (rw m (
          subspan_from_lem {P = λ bytes. bytes ≡ drop (offset + total) frame} frame (offset + total)
            h refl))
        (λ bytes e. Ensures->>= (decodes layout bytes ok (rw e (omega (arith, l)))) (λ r c.
          Ensures-fail_if (r.1 == 0) _ (λ nonzero.
            Ensures->>= {P = λ t. t ≡ total + r.1}
              (Ensures-or_fail (checked_add_size total r.1) _
                (λ t e'. checked_add_size-some total r.1 t (omega (arith, c, ap length e, l)) e'))
              (λ t e'. Ensures-fail_if (ltb (length frame - offset) t) _ (λ inside.
                elements_size_lt layout frame offset count t ok
                  (omega (arith, ltb→le (length frame - offset) t inside)) b)))))

  collection_size_lt :
      (field : CompiledField) (offset : ℕ) (m : DecodedMessage)
      → RefOk P (struct_by_id protocol field.struct_id)
      → offset ≤ length m.frame
      → length m.frame < 2 ^ 63
      → Ensures (λ size. size < 2 ^ 64) (collection_size protocol nested field offset m)
  unfolding collection_size element_count
  collection_size_lt field offset m ok h b =
      Ensures->>= {P = λ (count : ℕ). Unit {0}}
        (Ensures-if field.dynamic_count
          (λ e. Ensures-or_fail (raw_unsigned m field.count_from_field) _ (λ a e'. tt))
          (λ e. holds tt))
        (λ count u.
          Ensures->>= {P = P}
            (Ensures-or_fail (struct_by_id protocol field.struct_id) _
              (λ layout e. subst (RefOk P) e ok))
            (λ layout ok'.
              Ensures-if (count == 0) (λ e. holds (omega arith))
                (λ e.
                  Ensures-if layout.has_fixed_size
                    (λ e'. fixed_elements_size_lt layout.minimum_size m.frame offset count)
                    (λ e'. elements_size_lt layout m.frame offset count 0 ok' (omega arith) b))))

  variant_size_lt :
      (field : CompiledField) (offset : ℕ) (m : DecodedMessage)
      → CasesOk protocol P field.variant_cases
      → LookupOk (length field.variant_cases) field.variant_lookup_indices
      → offset ≤ length m.frame
      → length m.frame < 2 ^ 63
      → Ensures (λ size. size < 2 ^ 64) (variant_size protocol nested field offset m)
  unfolding variant_size
  variant_size_lt field offset m ok look h b =
      Ensures->>= {P = λ (tag : ℕ). Unit {0}}
        (Ensures-or_fail (raw_unsigned m field.tag_from_field) _ (λ a e'. tt))
        (λ tag u. Ensures->>= (find_variant_case-FoundOk protocol P field tag ok look) (λ found ok'.
          Ensures->>= {P = λ (c : CompiledVariantCase). RefOk P (struct_by_id protocol c.struct_id)}
            (Ensures-or_fail found _ (λ c e. subst (FoundOk protocol P) e ok'))
            (λ c ok''. nested_size_lt (struct_by_id protocol c.struct_id) offset m.frame ok'' h b)))

  -- Whatever the kind of the field, a size is found without an access out of bounds, or the decoding
  -- fails; it is the width if the field is a scalar.
  pub size_of_kind_lem :
      (kind : FieldKind) (field : CompiledField) (offset : ℕ) (m : DecodedMessage)
      → RefsOk protocol P kind field
      → field.width_bytes < 2 ^ 8
      → field.fixed_size < 2 ^ 64
      → offset ≤ length m.frame
      → length m.frame < 2 ^ 63
      → Ensures
          (λ size. (size < 2 ^ 64) × (is_scalar_kind kind ≡ true → size ≡ field.width_bytes))
          (size_of_kind protocol nested kind field offset m)
  unfolding size_of_kind
  size_of_kind_lem FieldKind.bytes field offset m ok w s h b =
      Ensures-mono (bytes_size_lt field m s b) (λ a l. (l, λ e. cc))
  size_of_kind_lem FieldKind.string field offset m ok w s h b =
      Ensures-mono (bytes_size_lt field m s b) (λ a l. (l, λ e. cc))
  size_of_kind_lem FieldKind.struct field offset m ok w s h b =
      Ensures-mono (nested_size_lt (struct_by_id protocol field.struct_id) offset m.frame ok h b)
        (λ a l. (l, λ e. cc))
  size_of_kind_lem FieldKind.collection field offset m ok w s h b =
      Ensures-mono (collection_size_lt field offset m ok h b) (λ a l. (l, λ e. cc))
  size_of_kind_lem FieldKind.variant field offset m ok w s h b =
      Ensures-mono (variant_size_lt field offset m ok.0 ok.1 h b) (λ a l. (l, λ e. cc))
  size_of_kind_lem FieldKind.unsigned field offset m ok w s h b = holds (omega arith, λ e. refl)
  size_of_kind_lem FieldKind.signed field offset m ok w s h b = holds (omega arith, λ e. refl)
  size_of_kind_lem FieldKind.float32 field offset m ok w s h b = holds (omega arith, λ e. refl)
  size_of_kind_lem FieldKind.float64 field offset m ok w s h b = holds (omega arith, λ e. refl)
  size_of_kind_lem FieldKind.enum field offset m ok w s h b = holds (omega arith, λ e. refl)
