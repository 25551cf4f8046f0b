-- ===== src/Examples/Encoding.antt =====
-- A small message that is built: a fixed tag, a number, two bytes and a checksum.
use universal_protocol_runti.Base.{
  ℕ, ◌≡◌, refl, true, false, Bool, List, [], ◌∷◌, some, none, arith, ap, Option,
}
use universal_protocol_runti.ByteOps.{scalar_only, checksum_xor8_scalar}
use universal_protocol_runti.Scalar.{write_unsigned_scalar_unchecked, host_bytes}
use universal_protocol_runti.Layout.{
  FieldKind, CompiledField, CompiledMessage, BuiltinKind, ChecksumAnchorKind, default_field,
}
use universal_protocol_runti.Decoded.{align_up}
use universal_protocol_runti.Encoder.{
  EncodeStatus, MessageBuilder, Built, built, refused, fault, set_scalar, set_unsigned, set_payload,
  set_bytes,
}
use universal_protocol_runti.Encoder.Safety.{IsReady, InRange}
use universal_protocol_runti.Encoder.Finalize.{new_builder, finalize, view}
use universal_protocol_runti.Encoder.Calls.{Call, CallsOk, Settles, make_calls, make_calls-Settles}
use universal_protocol_runti.Encoder.Closed.{finalize-Closed}

abbrev field : ℕ → FieldKind → CompiledField
field id kind = record default_field { id = id; kind = kind; width_bytes = 1 }

abbrev layout : CompiledMessage
layout = record {
  name = "built";
  fields =
      record (field 0 FieldKind.unsigned) { has_expected_unsigned = true; expected_unsigned = 126 }
      ∷ (record (field 1 FieldKind.unsigned) { width_bytes = 2; alignment = 2 })
      ∷ (record (field 2 FieldKind.bytes) { fixed_size = 2 })
      ∷ (field 3 FieldKind.unsigned)
      ∷ [];
  bit_fields = [];
  checksums =
      record {
        field_id = 3;
        result_width_bytes = 1;
        function = none;
        algorithm_name = "xor8";
        builtin_kind = BuiltinKind.xor8;
        from = record { kind = ChecksumAnchorKind.frame_start; field_id = 0 };
        to = record { kind = ChecksumAnchorKind.before_self; field_id = 3 };
      }
      ∷ [];
  validations = [];
  minimum_size = 0;
  has_fixed_size = false;
  allow_trailing_bytes = false;
  dispatch_prefix = [];
}

unfoldable fresh : MessageBuilder
unfolding new_builder
fresh = new_builder layout (255 ∷ 255 ∷ 255 ∷ 255 ∷ 255 ∷ 255 ∷ 255 ∷ 255 ∷ [])

abbrev fixed_of : Option CompiledField → ℕ
fixed_of none = 0
fixed_of (some f) = f.fixed_size

-- The builder that a call leaves.
abbrev after : Built (Unit {0}) → MessageBuilder
after (built a b) = b
after (refused s b) = b
after fault = fresh

unfoldable placed : MessageBuilder
unfolding set_unsigned fresh
placed = after (set_unsigned 1 260 fresh)

unfoldable filled : MessageBuilder
unfolding set_bytes placed
filled = after (set_bytes 2 (7 ∷ 9 ∷ []) placed)

abbrev closed_by : Built ℕ → MessageBuilder
closed_by (built n b) = b
closed_by (refused s b) = b
closed_by fault = filled

unfoldable closed : MessageBuilder
unfolding finalize filled
closed = closed_by (finalize scalar_only filled)

-- No byte is put before the number, whose alignment is 2: a decoder looks for it at 2.
view-closed : view closed ≡ 126 ∷ 4 ∷ 1 ∷ 7 ∷ 9 ∷ 117 ∷ []
unfolding view closed align_up write_unsigned_scalar_unchecked host_bytes checksum_xor8_scalar
view-closed = refl

closed_size : finalize scalar_only filled ≡ built 6 closed
unfolding finalize closed align_up write_unsigned_scalar_unchecked host_bytes
closed_size = refl

-- Two bytes are asked for and one is given.
set_bytes_short : set_bytes 2 (7 ∷ []) placed ≡ fault
unfolding set_bytes placed align_up write_unsigned_scalar_unchecked host_bytes
set_bytes_short = refl

in_range : InRange layout.fields
in_range = (
  (omega arith, omega arith, λ e. (omega arith, omega arith)),
  (
    (omega arith, omega arith, λ e. (omega arith, omega arith)),
    (
      (omega arith, omega arith, λ e. (omega arith, omega arith)),
      ((omega arith, omega arith, λ e. (omega arith, omega arith)), tt),
    ),
  ),
)

fresh-IsReady : IsReady fresh
unfolding fresh new_builder
fresh-IsReady = record {
  offset_inside = omega arith;
  buffer_short = omega arith;
  few_fields = omega arith;
  fields_in_range = in_range;
}

filled_open : filled.finalized ≡ false
unfolding filled align_up write_unsigned_scalar_unchecked host_bytes
filled_open = refl

finalize-Closed_example :
    (finalize scalar_only closed ≡ built 6 closed)
    × (((takes : FieldKind → Bool) (id value : ℕ)
          → set_scalar takes id value closed ≡ refused EncodeStatus.invalid_data closed)
        × ((takes : CompiledField → Bool) (id : ℕ) (bytes : List ℕ)
            → set_payload takes id bytes closed ≡ refused EncodeStatus.invalid_data closed))
finalize-Closed_example = finalize-Closed scalar_only filled closed 6 filled_open closed_size

abbrev calls : List Call
calls = Call.unsigned 1 260 ∷ Call.signed 2 5 ∷ Call.bytes 2 (7 ∷ 9 ∷ []) ∷ []

calls_ok : CallsOk fresh.layout calls
unfolding fresh new_builder
calls_ok = (omega arith, (omega arith, (λ f e d. omega (arith, ap fixed_of e), tt)))

make_calls-Settles_example : Settles fresh (make_calls calls fresh)
make_calls-Settles_example = make_calls-Settles calls fresh fresh-IsReady calls_ok
