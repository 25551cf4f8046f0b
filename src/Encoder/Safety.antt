-- ===== src/Encoder/Safety.antt =====
-- The calls of `MessageBuilder` (packages/upr_runtime/src/encoder/message_encoder.cpp) stay in their
-- buffer and keep what is written.
use mathlib.Core.Path.{subst}
use universal_protocol_runti.Base.{
  get_inside, ℕ, zero, suc, ◌+◌, ◌^◌, ◌≤◌, ◌<◌, ◌≡◌, ◌≢◌, refl, sym, ap, ◌∙◌, ◌||◌, ◌&&◌, Bool,
  true, false, not, leb, List, [], ◌∷◌, Option, some, none, length, get_elem?, arith, ltb, ltb→le,
}
use universal_protocol_runti.Scalar.{write_unsigned_scalar_unchecked}
use universal_protocol_runti.Scalar.Value.{length-bytes_of}
use universal_protocol_runti.Scalar.Write.{write_unchecked-bytes_of}
use universal_protocol_runti.Layout.{CompiledField, CompiledMessage, is_scalar_kind}
use universal_protocol_runti.Decoded.{update}
use universal_protocol_runti.Encoder.{
  entry, EncodeStatus, MessageBuilder, Building, built, fault, ◌>>=◌, ◌>>◌, gets, modify, refuse_if,
  fail_if, field_at, room, emit, emit_field, write_scalar_field, has_entry, scalar_bytes,
  max_fields_per_message,
}
use universal_protocol_runti.Encoder.Growth.{
  Continues, Continues-same, Grows, grown, Grows->>=, Grows-refuse_if, Grows-fail_if, room-left,
  Grows-emit, Anything,
}

-- A scalar that the builder writes, of a width that there is a case for.
abbrev pub writes_scalar : CompiledField → Bool
writes_scalar field = field.has_expected_unsigned || is_scalar_kind field.kind

-- An alignment of at most half of the range of `size_t`, an expected value of 64 bits, and a width of 1
-- to 8 bytes if the field is written as a scalar.
abbrev pub FieldOk : CompiledField → Type 0
FieldOk f =
    (f.alignment ≤ 2 ^ 63)
    × (f.expected_unsigned < 2 ^ 64)
    × (writes_scalar f ≡ true → (0 < f.width_bytes) × (f.width_bytes ≤ 8))

-- What is asked of the fields of a compiled layout.
abbrev pub InRange : List CompiledField → Type 0
InRange [] = Unit {0}
InRange (field ∷ fields) = FieldOk field × InRange fields

get-InRange :
    (fields : List CompiledField) (i : ℕ) (field : CompiledField)
    → InRange fields
    → get_elem? fields i ≡ some field
    → FieldOk field
get-InRange [] i field h e = cc
get-InRange (f ∷ fields) zero field (a, h) e =
    let y : f ≡ field = ground (arith, e) in subst FieldOk y a
get-InRange (f ∷ fields) (suc i) field (a, h) e = get-InRange fields i field h e

-- A builder that calls may be made on.
pub record IsReady (b : MessageBuilder) : Type 0 where
  pub offset_inside : b.offset ≤ length b.buffer
  pub buffer_short : length b.buffer < 2 ^ 63
  pub few_fields : length b.layout.fields ≤ max_fields_per_message
  pub fields_in_range : InRange b.layout.fields

pub IsReady-Continues : (b c : MessageBuilder) → IsReady b → Continues b c → IsReady c
IsReady-Continues b c r x = record {
  offset_inside = x.offset_inside;
  buffer_short = omega (arith, x.length_same, r.buffer_short);
  few_fields =
      subst (λ (l : CompiledMessage). length l.fields ≤ max_fields_per_message) (sym x.layout_same)
        r.few_fields;
  fields_in_range =
      subst (λ (l : CompiledMessage). InRange l.fields) (sym x.layout_same) r.fields_in_range;
}

pub Grows-emit_field :
    (id : ℕ) (bytes : List ℕ) (b : MessageBuilder)
    → id < max_fields_per_message
    → b.offset + length bytes ≤ length b.buffer
    → Grows Anything b (emit_field id bytes b)
unfolding emit_field
Grows-emit_field id bytes b few h =
    let t : ltb id max_fields_per_message ≡ true = ground (arith, few) in
    let c : MessageBuilder = record b { field_starts = update b.field_starts id b.offset } in
    rw (◌>>=◌, has_entry, t)
      (Grows->>= {P = λ (u : Unit {0}) (d : MessageBuilder). d ≡ c}
        (modify (λ b. record b { field_starts = update b.field_starts id b.offset }))
        (λ _. emit bytes >> modify (λ b. record b { field_ends = update b.field_ends id b.offset }))
        b (grown (Continues-same b c (omega arith) refl refl refl refl) refl)
        (λ u d x e.
          Grows->>= {P = Anything} (emit bytes)
            (λ _. modify (λ b. record b { field_ends = update b.field_ends id b.offset })) d
            (subst (λ (y : MessageBuilder). Grows Anything y (emit bytes y)) (sym e)
              (Grows-emit bytes c h tt))
            (λ u' d' x' _. grown (Continues-same d' _ x'.offset_inside refl refl refl refl) tt)))

-- Where the room that the code computes suffices, the bytes fit.
fits_room :
    (b : MessageBuilder) (n : ℕ)
    → IsReady b
    → ltb (room b) n ≡ false
    → b.offset + n ≤ length b.buffer
fits_room b n r e =
    omega (arith, ltb→le (room b) n e, room-left b r.offset_inside r.buffer_short, r.offset_inside)

-- What the code may take of a field that it reads.
abbrev pub IsField : CompiledMessage → ℕ → CompiledField → Type 0
IsField layout id f =
    FieldOk f × (get_elem? layout.fields id ≡ some f) × (id < max_fields_per_message)

Grows-field_at :
    (id : ℕ) (b : MessageBuilder)
    → IsReady b
    → id < length b.layout.fields
    → Grows (λ f (c : MessageBuilder). IsField b.layout id f) b (field_at id b)
Grows-field_at id b r h =
    go (get_elem? b.layout.fields id)
      (λ f e.
        (get-InRange b.layout.fields id f r.fields_in_range e, e, omega (arith, h, r.few_fields)))
      (get_inside b.layout.fields id h)
  where
    go :
        (o : Option CompiledField)
        → ((f : CompiledField) → o ≡ some f → IsField b.layout id f)
        → o ≢ none
        → Grows
            (λ f (c : MessageBuilder). IsField b.layout id f)
            b
            (elim o [ some field ↦ built field b | none ↦ fault ])
    go none k n = absurd (n refl)
    go (some f) k n = grown (Continues-same b b r.offset_inside refl refl refl refl) (k f refl)

-- Made on a ready builder of the layout, the call grows it.
abbrev pub IsSafe {ℓ} : {A : Type ℓ} → CompiledMessage → (A → Type 0) → Building A → Type ℓ
IsSafe layout P o =
    (b : MessageBuilder)
    → IsReady b
    → b.layout ≡ layout
    → Grows (λ a (c : MessageBuilder). P a) b (o b)

pub IsSafe->>= {ℓ κ} :
    {A : Type ℓ} {B : Type κ} {layout : CompiledMessage} {P : A → Type 0} {Q : B → Type 0}
    (o : Building A) (f : A → Building B)
    → IsSafe layout P o
    → ((a : A) → P a → IsSafe layout Q (f a))
    → IsSafe layout Q (o >>= f)
IsSafe->>= o f s k b r l =
    Grows->>= o f b (s b r l) (λ a c x p. k a p c (IsReady-Continues b c r x) (x.layout_same ∙ l))

abbrev pub Always {ℓ} : {A : Type ℓ} → A → Type 0
Always a = Unit {0}

pub IsSafe-field_at :
    (layout : CompiledMessage) (id : ℕ)
    → id < length layout.fields
    → IsSafe layout (IsField layout id) (field_at id)
IsSafe-field_at layout id h b r l =
    subst
      (λ (m : CompiledMessage). Grows (λ f (c : MessageBuilder). IsField m id f) b (field_at id b))
      l (Grows-field_at id b r (subst (λ (m : CompiledMessage). id < length m.fields) (sym l) h))

pub IsSafe-gets {ℓ} :
    {A : Type ℓ} (layout : CompiledMessage) (f : MessageBuilder → A) → IsSafe layout Always (gets f)
IsSafe-gets layout f b r l = grown (Continues-same b b r.offset_inside refl refl refl refl) tt

-- A change of what is noted of the fields.
pub IsSafe-modify :
    (layout : CompiledMessage) (f : MessageBuilder → MessageBuilder)
    → ((b : MessageBuilder) → Continues b b → Continues b (f b))
    → IsSafe layout Always (modify f)
IsSafe-modify layout f k b r l =
    grown (k b (Continues-same b b r.offset_inside refl refl refl refl)) tt

-- What is done after the test that there is room for `size` bytes.
pub IsSafe-room :
    (layout : CompiledMessage) (size : ℕ) (p : Building (Unit {0}))
    → ((b : MessageBuilder)
        → IsReady b
        → b.layout ≡ layout
        → b.offset + size ≤ length b.buffer
        → Grows Anything b (p b))
    → IsSafe layout Always
        (fail_if (λ b. ltb (room b) size) EncodeStatus.buffer_too_small >>= λ _. p)
IsSafe-room layout size p k b r l =
    Grows->>= {P = λ (u : Unit {0}) (c : MessageBuilder). (c ≡ b) × (ltb (room b) size ≡ false)}
      (fail_if (λ b. ltb (room b) size) EncodeStatus.buffer_too_small) (λ _. p) b
      (Grows-fail_if b r.offset_inside (λ b. ltb (room b) size) EncodeStatus.buffer_too_small
        (λ t. (refl, t)))
      (λ u c x (d, t).
        subst (λ (y : MessageBuilder). Grows Anything y (p y)) (sym d)
          (k b r l (fits_room b size r t)))

-- The bytes of a field, and what is done after.
pub Grows-emit_field->>= :
    (layout : CompiledMessage) (id : ℕ) (bytes : List ℕ) (rest : Building (Unit {0}))
    → id < max_fields_per_message
    → IsSafe layout Always rest
    → (b : MessageBuilder) → IsReady b
    → b.layout ≡ layout
    → b.offset + length bytes ≤ length b.buffer
    → Grows Anything b ((emit_field id bytes >>= λ _. rest) b)
Grows-emit_field->>= layout id bytes rest few k b r l h =
    Grows->>= {P = Anything} (emit_field id bytes) (λ _. rest) b (Grows-emit_field id bytes b few h)
      (λ u c x _. k c (IsReady-Continues b c r x) (x.layout_same ∙ l))

pub IsSafe-guarded :
    (layout : CompiledMessage) (id size : ℕ) (bytes : List ℕ) (rest : Building (Unit {0}))
    → length bytes ≡ size
    → id < max_fields_per_message
    → IsSafe layout Always rest
    → IsSafe layout Always (
        fail_if (λ b. ltb (room b) size) EncodeStatus.buffer_too_small >>= λ _.
        (emit_field id bytes >>= λ _. rest))
IsSafe-guarded layout id size bytes rest e few k =
    IsSafe-room layout size (emit_field id bytes >>= λ _. rest)
      (λ b r l h. Grows-emit_field->>= layout id bytes rest few k b r l (omega (arith, h, e)))

pub IsSafe-entry {ℓ} :
    {A : Type ℓ} (layout : CompiledMessage) (id : ℕ) (read : MessageBuilder → A)
    → id < max_fields_per_message
    → IsSafe layout Always (entry id read)
IsSafe-entry layout id read few b r l =
    let t : ltb id max_fields_per_message ≡ true = ground (arith, few) in
    rw (entry, t) (grown (Continues-same b b r.offset_inside refl refl refl refl) tt)

pub IsSafe-fail_if :
    (layout : CompiledMessage) (test : MessageBuilder → Bool) (status : EncodeStatus)
    → IsSafe layout Always (fail_if test status)
IsSafe-fail_if layout test status b r l = Grows-fail_if b r.offset_inside test status (λ _. tt)

pub IsSafe-refuse_if :
    (layout : CompiledMessage) (test : MessageBuilder → Bool) (status : EncodeStatus)
    → IsSafe layout Always (refuse_if test status)
IsSafe-refuse_if layout test status b r l = Grows-refuse_if b r.offset_inside test status (λ _. tt)

pub note_scalar :
    (layout : CompiledMessage) (id value : ℕ)
    → IsSafe layout Always
        (modify (λ b. record b { written_scalars = update b.written_scalars id value }))
note_scalar layout id value =
    IsSafe-modify layout (λ b. record b { written_scalars = update b.written_scalars id value })
      (λ b x. Continues-same b _ x.offset_inside refl refl refl refl)

-- A test that the call refuses without, and what it says of what goes on.
pub IsSafe-refuse_unless :
    (layout : CompiledMessage) (test : Bool) (status : EncodeStatus)
    → IsSafe layout (λ _. test ≡ true) (refuse_if (λ b. not test) status)
IsSafe-refuse_unless layout test status b r l =
    Grows-refuse_if b r.offset_inside (λ b. not test) status (λ e. ground (arith, e))

-- The bytes of a scalar of a width that there is a case for.
Grows-scalar :
    (layout : CompiledMessage) (id value : ℕ) (f : CompiledField)
    → IsField layout id f
    → writes_scalar f ≡ true
    → value < 2 ^ 64
    → (b : MessageBuilder) → IsReady b
    → b.layout ≡ layout
    → b.offset + f.width_bytes ≤ length b.buffer
    → Grows Anything b (
        (scalar_bytes f.byte_order f.width_bytes value >>= λ bytes.
        (emit_field id bytes >>= λ _.
        modify (λ b. record b { written_scalars = update b.written_scalars id value })))
          b)
Grows-scalar layout id value f ((a, x, w), e, few) writes v b r l h =
    let (above, below) = w writes in
    let t : (ltb 0 f.width_bytes && leb f.width_bytes 8) ≡ true = ground (arith, above, below) in
    rw (◌>>=◌, scalar_bytes, t)
      (Grows-emit_field->>= layout id
        (write_unsigned_scalar_unchecked f.byte_order f.width_bytes value) _ few
        (note_scalar layout id value) b r l
        (omega (
          arith,
          h,
          ap length (write_unchecked-bytes_of f.byte_order f.width_bytes value v),
          length-bytes_of f.byte_order f.width_bytes value,
        )))

pub IsSafe-write_scalar_field :
    (layout : CompiledMessage) (id value : ℕ)
    → id < length layout.fields
    → ((f : CompiledField) → get_elem? layout.fields id ≡ some f → writes_scalar f ≡ true)
    → value < 2 ^ 64
    → IsSafe layout Always (write_scalar_field id value)
unfolding write_scalar_field
IsSafe-write_scalar_field layout id value h writes v =
    IsSafe->>= (field_at id) _ (IsSafe-field_at layout id h) (λ f ok.
      IsSafe-room layout f.width_bytes _ (Grows-scalar layout id value f ok (writes f ok.1) v))
