-- ===== src/Encoder/Steady.antt =====
-- What writing the bytes of a `MessageBuilder` (packages/upr_runtime/src/encoder/message_encoder.cpp)
-- does not change.
use universal_protocol_runti.Base.{
  leb, ◌&&◌, ℕ, zero, suc, ◌-◌, ◌≡◌, refl, ◌∙◌, Bool, true, false, List, Option, some, none, length,
  get_elem?, replicate, ltb, ◌==◌, if◌then◌else◌,
}
use universal_protocol_runti.Layout.{CompiledField}
use universal_protocol_runti.Decoded.{align_up, update}
use universal_protocol_runti.Core.{ByteOrder}
use universal_protocol_runti.Scalar.{write_unsigned_scalar_unchecked}
use universal_protocol_runti.Encoder.{
  entry, has_entry, scalar_bytes, max_fields_per_message, EncodeStatus, MessageBuilder, Built,
  Building, built, refused, fault, ◌>>=◌, gets, modify, fail_if, field_at, room, emit, emit_field,
  write_scalar_field, write_placeholder, write_reserved, pad_to, write_automatic, write_until,
}

-- What a field that is written does not change.
pub record IsSteady (b c : MessageBuilder) : Type 0 where
  pub layout_same : c.layout ≡ b.layout
  pub failed_same : c.failed ≡ b.failed
  pub next_same : c.next_field_id ≡ b.next_field_id

steady : (b : MessageBuilder) → IsSteady b b
steady b = record { layout_same = refl; failed_same = refl; next_same = refl }

-- `P` holds of what the call gives, if it is not refused.
pub data Ends {ℓ ℓ'} {A : Type ℓ} (P : A → MessageBuilder → Type ℓ') : Built A → Type (ℓ ⊔ ℓ') where
  ended : {a : A} {c : MessageBuilder} → P a c → Ends P (built a c)
  stopped : {status : EncodeStatus} {c : MessageBuilder} → Ends P (refused status c)
  faulted : Ends P fault

module _ {ℓ ℓ' κ κ'} {A : Type ℓ} {P : A → MessageBuilder → Type ℓ'} {B : Type κ}
    {Q : B → MessageBuilder → Type κ'} where
  pub Ends->>= :
      (o : Building A) (f : A → Building B) (b : MessageBuilder)
      → Ends P (o b)
      → ((a : A) (c : MessageBuilder) → P a c → Ends Q (f a c))
      → Ends Q ((o >>= f) b)
  Ends->>= o f b g k = go (o b) g
    where
      go :
          (r : Built A)
          → Ends P r
          → Ends Q (elim r [ built a c ↦ f a c | refused s c ↦ refused s c | fault ↦ fault ])
      go (built a c) (ended p) = k a c p
      go (refused s c) h = stopped
      go fault h = faulted

abbrev pub Keeps {ℓ} : {A : Type ℓ} → Building A → Type ℓ
Keeps o = (b : MessageBuilder) → Ends (λ a (c : MessageBuilder). IsSteady b c) (o b)

IsSteady-trans : (b c d : MessageBuilder) → IsSteady b c → IsSteady c d → IsSteady b d
IsSteady-trans b c d x y = record {
  layout_same = y.layout_same ∙ x.layout_same;
  failed_same = y.failed_same ∙ x.failed_same;
  next_same = y.next_same ∙ x.next_same;
}

Ends-later {ℓ} :
    {A : Type ℓ} (b c : MessageBuilder) (r : Built A)
    → IsSteady b c
    → Ends (λ a (d : MessageBuilder). IsSteady c d) r
    → Ends (λ a (d : MessageBuilder). IsSteady b d) r
Ends-later b c (built a d) x (ended y) = ended (IsSteady-trans b c d x y)
Ends-later b c (refused s d) x h = stopped
Ends-later b c fault x h = faulted

pub Keeps->>= {ℓ κ} :
    {A : Type ℓ} {B : Type κ} (o : Building A) (f : A → Building B)
    → Keeps o
    → ((a : A) → Keeps (f a))
    → Keeps (o >>= f)
Keeps->>= o f s k b = Ends->>= o f b (s b) (λ a c x. Ends-later b c (f a c) x (k a c))

pub Keeps-gets {ℓ} : {A : Type ℓ} (f : MessageBuilder → A) → Keeps (gets f)
Keeps-gets f b = ended (steady b)

pub Keeps-fail_if :
    (test : MessageBuilder → Bool) (status : EncodeStatus) → Keeps (fail_if test status)
Keeps-fail_if test status b = go (test b)
  where
    go :
        (t : Bool)
        → Ends
            (λ (a : Unit {0}) (c : MessageBuilder). IsSteady b c)
            (if t then refused status (record b { failed = true }) else built tt b)
    go true = stopped
    go false = ended (steady b)

pub Keeps-field_at : (id : ℕ) → Keeps (field_at id)
Keeps-field_at id b = go (get_elem? b.layout.fields id)
  where
    go :
        (o : Option CompiledField)
        → Ends
            (λ (a : CompiledField) (c : MessageBuilder). IsSteady b c)
            (elim o [ some field ↦ built field b | none ↦ fault ])
    go none = faulted
    go (some f) = ended (steady b)

pub Keeps-if {ℓ} :
    {A : Type ℓ} (t : Bool) {o p : Building A} → Keeps o → Keeps p → Keeps (if t then o else p)
Keeps-if true x y = x
Keeps-if false x y = y

-- A test that the bytes are inside, and what is done if they are.
pub Keeps-inside {ℓ} :
    {A : Type ℓ} (t : MessageBuilder → Bool) (a : MessageBuilder → A)
    (f : MessageBuilder → MessageBuilder)
    → ((b : MessageBuilder) → IsSteady b (f b))
    → Keeps (λ b. if t b then built (a b) (f b) else fault)
Keeps-inside {A = A} t a f k b = go (t b)
  where
    go :
        (x : Bool)
        → Ends
            (λ (y : A) (c : MessageBuilder). IsSteady b c)
            (if x then built (a b) (f b) else fault)
    go true = ended (k b)
    go false = faulted

pub Keeps-emit : (bytes : List ℕ) → Keeps (emit bytes)
unfolding emit
Keeps-emit bytes =
    Keeps-inside _ _ _ (λ b. record { layout_same = refl; failed_same = refl; next_same = refl })

pub Keeps-modify :
    (f : MessageBuilder → MessageBuilder)
    → ((b : MessageBuilder) → IsSteady b (f b))
    → Keeps (modify f)
Keeps-modify f k b = ended (k b)

Keeps-has_entry : (id : ℕ) → Keeps (has_entry id)
Keeps-has_entry id = Keeps-inside (λ b. ltb id max_fields_per_message) (λ b. tt) (λ b. b) steady

pub Keeps-entry {ℓ} : {A : Type ℓ} (id : ℕ) (read : MessageBuilder → A) → Keeps (entry id read)
Keeps-entry id read = Keeps-inside (λ b. ltb id max_fields_per_message) read (λ b. b) steady

pub Keeps-scalar_bytes :
    (order : ByteOrder) (width value : ℕ) → Keeps (scalar_bytes order width value)
Keeps-scalar_bytes order width value =
    Keeps-inside (λ b. ltb 0 width && leb width 8)
      (λ b. write_unsigned_scalar_unchecked order width value) (λ b. b) steady

pub Keeps-emit_field : (id : ℕ) (bytes : List ℕ) → Keeps (emit_field id bytes)
unfolding emit_field
Keeps-emit_field id bytes = Keeps->>= (has_entry id) _ (Keeps-has_entry id) (λ _.
    Keeps->>= (modify (λ b. record b { field_starts = update b.field_starts id b.offset })) _
      (λ b. ended (record { layout_same = refl; failed_same = refl; next_same = refl }))
      (λ _. Keeps->>= (emit bytes) _ (Keeps-emit bytes) (λ _.
        Keeps-modify (λ b. record b { field_ends = update b.field_ends id b.offset })
          (λ b. record { layout_same = refl; failed_same = refl; next_same = refl }))))

pub Keeps-note :
    (id value : ℕ)
    → Keeps (modify (λ b. record b { written_scalars = update b.written_scalars id value }))
Keeps-note id value b = ended (record { layout_same = refl; failed_same = refl; next_same = refl })

pub Keeps-write_scalar_field : (id value : ℕ) → Keeps (write_scalar_field id value)
unfolding write_scalar_field
Keeps-write_scalar_field id value = Keeps->>= (field_at id) _ (Keeps-field_at id) (λ f.
    Keeps->>= (fail_if (λ b. ltb (room b) f.width_bytes) EncodeStatus.buffer_too_small) _
      (Keeps-fail_if _ _)
      (λ _.
        Keeps->>= (scalar_bytes f.byte_order f.width_bytes value) _
          (Keeps-scalar_bytes f.byte_order f.width_bytes value)
          (λ bytes.
            Keeps->>= (emit_field id bytes) _ (Keeps-emit_field id bytes)
              (λ _. Keeps-note id value))))

pub Keeps-write_placeholder : (id : ℕ) (f : CompiledField) → Keeps (write_placeholder id f)
unfolding write_placeholder
Keeps-write_placeholder id f =
    Keeps->>= (fail_if (λ b. ltb (room b) f.width_bytes) EncodeStatus.buffer_too_small) _
      (Keeps-fail_if _ _)
      (λ _. Keeps->>= (emit_field id _) _ (Keeps-emit_field id _) (λ _. Keeps-note id 0))

pub Keeps-write_reserved : (id : ℕ) (f : CompiledField) → Keeps (write_reserved id f)
unfolding write_reserved
Keeps-write_reserved id f =
    Keeps->>= (fail_if (λ b. ltb (room b) f.fixed_size) EncodeStatus.buffer_too_small) _
      (Keeps-fail_if _ _) (λ _. Keeps-emit_field id _)

pub Keeps-pad_to : (alignment : ℕ) → Keeps (pad_to alignment)
unfolding pad_to
Keeps-pad_to alignment =
    Keeps->>= (gets (λ b. align_up b.offset alignment)) _ (Keeps-gets _) (λ aligned.
      Keeps->>= (fail_if (λ b. ltb (length b.buffer) aligned) EncodeStatus.buffer_too_small) _
        (Keeps-fail_if _ _)
        (λ _. Keeps->>= (gets (λ b. b.offset)) _ (Keeps-gets _) (λ offset.
          Keeps-if (aligned == offset) (Keeps-gets _)
            (Keeps-emit (replicate (aligned - offset) 0)))))

pub Keeps-write_automatic : (id : ℕ) → Keeps (write_automatic id)
unfolding write_automatic
Keeps-write_automatic id = Keeps->>= (field_at id) _ (Keeps-field_at id) (λ f.
    Keeps->>= (pad_to f.alignment) _ (Keeps-pad_to f.alignment) (λ _.
      Keeps->>= (entry id (λ b. b.checksum_field_mask id)) _ (Keeps-entry id _) (λ is_checksum.
        Keeps-if is_checksum (Keeps-write_placeholder id f) (
          Keeps-if f.has_expected_unsigned (Keeps-write_scalar_field id f.expected_unsigned) (
            Keeps-if f.is_reserved (Keeps-write_reserved id f)
              (Keeps-fail_if (λ b. true) EncodeStatus.invalid_data))))))

pub Keeps-write_until : (left id : ℕ) → Keeps (write_until left id)
unfolding write_until
Keeps-write_until zero id = Keeps-gets _
Keeps-write_until (suc left) id =
    Keeps->>= (write_automatic id) _ (Keeps-write_automatic id)
      (λ _. Keeps-write_until left (suc id))
