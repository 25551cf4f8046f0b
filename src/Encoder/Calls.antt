-- ===== src/Encoder/Calls.antt =====
-- Sequences of calls on a `MessageBuilder` (packages/upr_runtime/src/encoder/message_encoder.cpp). A
-- caller may go on after a call that is refused.
use mathlib.Core.Path.{subst}
use universal_protocol_runti.Base.{
  true, arith, ℕ, ◌≡◌, ◌≤◌, ◌<◌, ◌^◌, refl, sym, false, List, [], ◌∷◌, Option, some, none, length,
  get_elem?,
}
use universal_protocol_runti.Layout.{CompiledField, CompiledMessage, FieldKind, is_scalar_kind}
use universal_protocol_runti.Decoded.{is_unsigned_or_enum}
use universal_protocol_runti.Encoder.{
  MessageBuilder, Built, built, refused, fault, set_unsigned, set_signed, set_float32, set_float64,
  set_bytes, set_string, takes_signed, takes_float32, takes_float64,
}
use universal_protocol_runti.Encoder.Growth.{
  Continues, Continues-same, Continues-trans, Grows, grown, stopped, Anything,
}
use universal_protocol_runti.Encoder.Safety.{IsReady, IsReady-Continues}
use universal_protocol_runti.Encoder.Setters.{set_scalar-Grows, set_payload-Grows}

pub data Call : Type 0 where
  unsigned signed float32 float64 : ℕ → ℕ → Call
  bytes string : ℕ → List ℕ → Call

abbrev pub call : Call → MessageBuilder → Built (Unit {0})
call (Call.unsigned id value) = set_unsigned id value
call (Call.signed id value) = set_signed id value
call (Call.float32 id value) = set_float32 id value
call (Call.float64 id value) = set_float64 id value
call (Call.bytes id given) = set_bytes id given
call (Call.string id given) = set_string id given

-- The builder after a call, if the call made no access out of bounds.
abbrev pub settled : Built (Unit {0}) → Option MessageBuilder
settled (built a b) = some b
settled (refused status b) = some b
settled fault = none

unfoldable pub make_calls : List Call → MessageBuilder → Option MessageBuilder
make_calls [] b = some b
make_calls (c ∷ calls) b = elim (settled (call c b)) [ some b' ↦ make_calls calls b' | none ↦ none ]

-- The bytes given are enough for the field.
abbrev pub Suffices : CompiledMessage → ℕ → List ℕ → Type 0
Suffices layout id given =
    (field : CompiledField)
    → get_elem? layout.fields id ≡ some field
    → field.dynamic_size ≡ false
    → field.fixed_size ≤ length given

abbrev pub CallOk : CompiledMessage → Call → Type 0
CallOk layout (Call.unsigned id value) = value < 2 ^ 64
CallOk layout (Call.signed id value) = value < 2 ^ 64
CallOk layout (Call.float32 id value) = value < 2 ^ 64
CallOk layout (Call.float64 id value) = value < 2 ^ 64
CallOk layout (Call.bytes id given) = Suffices layout id given
CallOk layout (Call.string id given) = Suffices layout id given

abbrev pub CallsOk : CompiledMessage → List Call → Type 0
CallsOk layout [] = Unit {0}
CallsOk layout (c ∷ calls) = CallOk layout c × CallsOk layout calls

unsigned_or_enum_scalar :
    (kind : FieldKind) → is_unsigned_or_enum kind ≡ true → is_scalar_kind kind ≡ true
unsigned_or_enum_scalar kind e = ground (arith, e)

signed_scalar : (kind : FieldKind) → takes_signed kind ≡ true → is_scalar_kind kind ≡ true
signed_scalar kind e = ground (arith, e)

float32_scalar : (kind : FieldKind) → takes_float32 kind ≡ true → is_scalar_kind kind ≡ true
float32_scalar kind e = ground (arith, e)

float64_scalar : (kind : FieldKind) → takes_float64 kind ≡ true → is_scalar_kind kind ≡ true
float64_scalar kind e = ground (arith, e)

call-Grows :
    (c : Call) (b : MessageBuilder) → CallOk b.layout c → IsReady b → Grows Anything b (call c b)
unfolding set_unsigned set_signed set_float32 set_float64 set_bytes set_string
call-Grows (Call.unsigned id value) b h r =
    set_scalar-Grows _ id value b unsigned_or_enum_scalar h r
call-Grows (Call.signed id value) b h r = set_scalar-Grows _ id value b signed_scalar h r
call-Grows (Call.float32 id value) b h r = set_scalar-Grows _ id value b float32_scalar h r
call-Grows (Call.float64 id value) b h r = set_scalar-Grows _ id value b float64_scalar h r
call-Grows (Call.bytes id given) b h r = set_payload-Grows _ id given b h r
call-Grows (Call.string id given) b h r = set_payload-Grows _ id given b h r

-- The builder that calls leave, if any is left.
pub record Settles (b : MessageBuilder) (o : Option MessageBuilder) : Type 0 where
  pub last : MessageBuilder
  pub is_last : o ≡ some last
  pub continues : Continues b last

Settles-later :
    (b d : MessageBuilder) (o : Option MessageBuilder) → Continues b d → Settles d o → Settles b o
Settles-later b d o x s = record {
  last = s.last;
  is_last = s.is_last;
  continues = Continues-trans b d s.last x s.continues;
}

Settles-call :
    (calls : List Call) (b : MessageBuilder) (o : Built (Unit {0}))
    → Grows Anything b o
    → ((d : MessageBuilder) → Continues b d → Settles d (make_calls calls d))
    → Settles b (elim (settled o) [ some b' ↦ make_calls calls b' | none ↦ none ])
Settles-call calls b (built a d) (grown x y) k = Settles-later b d (make_calls calls d) x (k d x)
Settles-call calls b (refused s d) (stopped x) k = Settles-later b d (make_calls calls d) x (k d x)
Settles-call calls b fault g k = elim g [ ]

-- Every sequence of setter calls on a ready builder is made to its end without an access out of bounds
-- and without a scalar write that is `unreachable()`, whatever calls of it are refused, where the
-- scalars fit 64 bits and the bytes given suffice for fields of fixed size. The bytes before the offset
-- that the builder has at first are kept, and the offset does not go back and stays in the buffer,
-- whose length stays. A builder is ready if its offset is in the buffer, the buffer is shorter than
-- 2^63 bytes, and its layout has at most 64 fields, whose alignments are at most 2^63 and expected
-- values below 2^64, and of which those that are scalars or have an expected value are 1 to 8 bytes
-- wide.
pub make_calls-Settles :
    (calls : List Call) (b : MessageBuilder)
    → IsReady b
    → CallsOk b.layout calls
    → Settles b (make_calls calls b)
unfolding make_calls
make_calls-Settles [] b r h = record {
  last = b;
  is_last = refl;
  continues = Continues-same b b r.offset_inside refl refl refl refl;
}
make_calls-Settles (c ∷ calls) b r (h, hs) =
    Settles-call calls b (call c b) (call-Grows c b h r) (λ d x.
      make_calls-Settles calls d (IsReady-Continues b d r x)
        (subst (λ (l : CompiledMessage). CallsOk l calls) (sym x.layout_same) hs))
