-- ===== src/Decoded/Checks.antt =====
-- What the checksums and the validation rules of `DecodedMessage::assign_from_layout` make sure of.
use universal_protocol_runti.Base.{
  ℕ, ◌-◌, ◌*◌, ◌%◌, ◌^◌, ◌≤◌, ◌≡◌, ap, ◌∙◌, true, List, [], ◌∷◌, some, length, subspan, arith, ◌==◌,
  ltb, if◌then◌else◌, ltb→le,
}
use universal_protocol_runti.ByteOps.{ByteOps}
use universal_protocol_runti.Outcome.{
  Ensures, holds, Ensures->>=, Ensures-fail_if, Ensures-or_fail, Ensures-if, Ensures-mono,
}
use universal_protocol_runti.Layout.{CompiledChecksum, CompiledValidationRule}
use universal_protocol_runti.Decoded.{
  DecodedMessage, checksum_anchor_offset, raw_unsigned, validation_operator_matches,
}
use universal_protocol_runti.Decoded.Assign.{
  actual_checksum, check_checksum, check_checksums, applies, rhs_value, compare_sides,
  check_validation, check_validations,
}
use universal_protocol_runti.Decoded.Fields.{fail_if-not, subspan_of_inside}

-- The field of the checksum holds the checksum of the bytes between its anchors.
pub record ChecksumHolds (ops : ByteOps) (m : DecodedMessage) (checksum : CompiledChecksum)
    : Type 0 where
  pub function : List ℕ → ℕ
  pub from : ℕ
  pub to : ℕ
  pub function_is : checksum.function ≡ some function
  pub from_is : checksum_anchor_offset checksum.from m ≡ some from
  pub to_is : checksum_anchor_offset checksum.to m ≡ some to
  pub from_le : from ≤ to
  pub to_le : to ≤ length m.frame
  pub field_is :
      raw_unsigned m checksum.field_id
      ≡ some (actual_checksum ops checksum function (subspan m.frame from (to - from)))

abbrev pub ChecksumsHold : ByteOps → DecodedMessage → List CompiledChecksum → Type 0
ChecksumsHold ops m [] = Unit {0}
ChecksumsHold ops m (checksum ∷ checksums) =
    ChecksumHolds ops m checksum × ChecksumsHold ops m checksums

-- The rule does not apply, or both its sides have a value and compare as it says.
abbrev pub ValidationHolds : DecodedMessage → CompiledValidationRule → Type 0
ValidationHolds m v =
    applies m v ≡ true
    → (lhs : ℕ) × (rhs : ℕ) × (raw_unsigned m v.field_id ≡ some lhs)
      × (rhs_value m v ≡ some rhs)
      × (validation_operator_matches v.op lhs
            (if v.multiplier == 1 then rhs else rhs * v.multiplier % 2 ^ 64)
          ≡ true)

abbrev pub ValidationsHold : DecodedMessage → List CompiledValidationRule → Type 0
ValidationsHold m [] = Unit {0}
ValidationsHold m (validation ∷ validations) =
    ValidationHolds m validation × ValidationsHold m validations

check_checksum-Holds :
    (ops : ByteOps) (m : DecodedMessage) (checksum : CompiledChecksum)
    → Ensures (λ _. ChecksumHolds ops m checksum) (check_checksum ops m checksum)
unfolding check_checksum
check_checksum-Holds ops m checksum =
    Ensures->>= {P = λ (f : List ℕ → ℕ). checksum.function ≡ some f}
      (Ensures-or_fail checksum.function _ (λ f e. e))
      (λ function function_is.
        Ensures->>= {P = λ (f : ℕ). checksum_anchor_offset checksum.from m ≡ some f}
          (Ensures-or_fail (checksum_anchor_offset checksum.from m) _ (λ f e. e))
          (λ from from_is.
            Ensures->>= {P = λ (t : ℕ). checksum_anchor_offset checksum.to m ≡ some t}
              (Ensures-or_fail (checksum_anchor_offset checksum.to m) _ (λ t e. e))
              (λ to to_is. Ensures-fail_if (ltb to from) _ (λ e.
                Ensures-fail_if (ltb (length m.frame) to) _ (λ e'.
                  let a : from ≤ to = ltb→le to from e in
                  let b : to ≤ length m.frame = ltb→le (length m.frame) to e' in
                  rw (subspan_of_inside m.frame from (to - from) (omega arith)) (
                    Ensures->>= {P = λ (x : ℕ). raw_unsigned m checksum.field_id ≡ some x}
                      (Ensures-or_fail (raw_unsigned m checksum.field_id) _ (λ x e''. e''))
                      (λ x e''.
                        fail_if-not
                          (x
                            == actual_checksum ops checksum function
                                (subspan m.frame from (to - from)))
                          _
                          (λ t. record {
                            function = function;
                            from = from;
                            to = to;
                            function_is = function_is;
                            from_is = from_is;
                            to_is = to_is;
                            from_le = a;
                            to_le = b;
                            field_is = e'' ∙ ap some (ground (arith, t));
                          }))))))))

pub check_checksums-Hold :
    (ops : ByteOps) (m : DecodedMessage) (checksums : List CompiledChecksum)
    → Ensures (λ _. ChecksumsHold ops m checksums) (check_checksums ops m checksums)
unfolding check_checksums
check_checksums-Hold ops m [] = holds tt
check_checksums-Hold ops m (checksum ∷ checksums) =
    Ensures->>= (check_checksum-Holds ops m checksum)
      (λ _ h. Ensures-mono (check_checksums-Hold ops m checksums) (λ _ hs. (h, hs)))

check_validation-Holds :
    (m : DecodedMessage) (validation : CompiledValidationRule)
    → Ensures (λ _. ValidationHolds m validation) (check_validation m validation)
unfolding check_validation compare_sides
check_validation-Holds m v =
    Ensures-if (applies m v)
      (λ e.
        Ensures->>= {P = λ (x : ℕ). raw_unsigned m v.field_id ≡ some x}
          (Ensures-or_fail (raw_unsigned m v.field_id) _ (λ x e'. e'))
          (λ lhs l.
            Ensures->>= {P = λ (x : ℕ). rhs_value m v ≡ some x}
              (Ensures-or_fail (rhs_value m v) _ (λ x e'. e'))
              (λ rhs r.
                fail_if-not
                  (validation_operator_matches v.op lhs
                    (if v.multiplier == 1 then rhs else rhs * v.multiplier % 2 ^ 64))
                  _ (λ t e'. (lhs, rhs, l, r, t)))))
      (λ e. holds (λ e'. cc))

pub check_validations-Hold :
    (m : DecodedMessage) (validations : List CompiledValidationRule)
    → Ensures (λ _. ValidationsHold m validations) (check_validations m validations)
unfolding check_validations
check_validations-Hold m [] = holds tt
check_validations-Hold m (validation ∷ validations) =
    Ensures->>= (check_validation-Holds m validation)
      (λ _ h. Ensures-mono (check_validations-Hold m validations) (λ _ hs. (h, hs)))
