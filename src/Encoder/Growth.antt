-- ===== src/Encoder/Growth.antt =====
-- What every call on a `MessageBuilder` (packages/upr_runtime/src/encoder/message_encoder.cpp) keeps.
use mathlib.Core.List.{append-nil}
use universal_protocol_runti.Base.{
  ℕ, ◌+◌, ◌-◌, ◌^◌, ◌≤◌, ◌<◌, ◌≡◌, refl, sym, ap, ◌∙◌, Bool, true, false, List, length, take,
  copy_at, arith, leb, if◌then◌else◌, length-copy_at, take-append_ge, take-take, length-take,
}
use universal_protocol_runti.Encoder.{
  EncodeStatus, MessageBuilder, Built, Building, built, refused, fault, ◌>>=◌, refuse_if, fail_if,
  room, emit,
}

-- The builder `b'` goes on from `b`: the bytes before the offset of `b` stay, and the offset, which lies
-- in the buffer, does not go back.
pub record Continues (b b' : MessageBuilder) : Type 0 where
  pub layout_same : b'.layout ≡ b.layout
  pub length_same : length b'.buffer ≡ length b.buffer
  pub offset_le : b.offset ≤ b'.offset
  pub offset_inside : b'.offset ≤ length b'.buffer
  pub bytes_kept : take b.offset b'.buffer ≡ take b.offset b.buffer
  pub mask_same : b'.checksum_field_mask ≡ b.checksum_field_mask

pub Continues-same :
    (b b' : MessageBuilder)
    → b.offset ≤ length b.buffer
    → b'.layout ≡ b.layout
    → b'.buffer ≡ b.buffer
    → b'.offset ≡ b.offset
    → b'.checksum_field_mask ≡ b.checksum_field_mask
    → Continues b b'
Continues-same b b' h l f o m = record {
  layout_same = l;
  length_same = ap length f;
  offset_le = omega (arith, o);
  offset_inside = omega (arith, o, ap length f);
  bytes_kept = ap (take b.offset) f;
  mask_same = m;
}

pub Continues-trans : (b c d : MessageBuilder) → Continues b c → Continues c d → Continues b d
Continues-trans b c d x y = record {
  layout_same = y.layout_same ∙ x.layout_same;
  length_same = y.length_same ∙ x.length_same;
  offset_le = omega (arith, x.offset_le, y.offset_le);
  offset_inside = y.offset_inside;
  bytes_kept =
      sym (take-take b.offset c.offset d.buffer x.offset_le)
      ∙ (ap (take b.offset) y.bytes_kept
          ∙ (take-take b.offset c.offset c.buffer x.offset_le ∙ x.bytes_kept));
  mask_same = y.mask_same ∙ x.mask_same;
}

-- A call that makes no access out of bounds and goes on from the builder it is made on; `P` holds of
-- what it gives if it is not refused.
pub data Grows {ℓ ℓ'} {A : Type ℓ} (P : A → MessageBuilder → Type ℓ') (b : MessageBuilder)
    : Built A → Type (ℓ ⊔ ℓ') where
  grown : {a : A} {b' : MessageBuilder} → Continues b b' → P a b' → Grows P b (built a b')
  stopped :
      {status : EncodeStatus} {b' : MessageBuilder} → Continues b b' → Grows P b (refused status b')

Grows-later {κ κ'} :
    {B : Type κ} {Q : B → MessageBuilder → Type κ'} {b c : MessageBuilder} {o : Built B}
    → Continues b c
    → Grows Q c o
    → Grows Q b o
Grows-later {b = b} {c = c} x (grown {b' = d} y q) = grown (Continues-trans b c d x y) q
Grows-later {b = b} {c = c} x (stopped {b' = d} y) = stopped (Continues-trans b c d x y)

module _ {ℓ ℓ' κ κ'} {A : Type ℓ} {P : A → MessageBuilder → Type ℓ'} {B : Type κ}
    {Q : B → MessageBuilder → Type κ'} where
  pub Grows->>= :
      (o : Building A) (f : A → Building B) (b : MessageBuilder)
      → Grows P b (o b)
      → ((a : A) (c : MessageBuilder) → Continues b c → P a c → Grows Q c (f a c))
      → Grows Q b ((o >>= f) b)
  Grows->>= o f b g k = go (o b) g
    where
      go :
          (r : Built A)
          → Grows P b r
          → Grows Q b (elim r [ built a c ↦ f a c | refused s c ↦ refused s c | fault ↦ fault ])
      go (built a c) (grown x p) = Grows-later x (k a c x p)
      go (refused s c) (stopped x) = stopped x
      go fault g = elim g [ ]

-- No more than that.
abbrev pub Anything {ℓ} : {A : Type ℓ} → A → MessageBuilder → Type 0
Anything a b = Unit {0}

module _ {ℓ'} {Q : Unit {0} → MessageBuilder → Type ℓ'} (b : MessageBuilder)
    (h : b.offset ≤ length b.buffer) where
  pub Grows-refuse_if :
      (test : MessageBuilder → Bool) (status : EncodeStatus)
      → (test b ≡ false → Q tt b)
      → Grows Q b (refuse_if test status b)
  Grows-refuse_if test status q = go (test b) q
    where
      go :
          (t : Bool) → (t ≡ false → Q tt b) → Grows Q b (if t then refused status b else built tt b)
      go true k = stopped (Continues-same b b h refl refl refl refl)
      go false k = grown (Continues-same b b h refl refl refl refl) (k refl)

  pub Grows-fail_if :
      (test : MessageBuilder → Bool) (status : EncodeStatus)
      → (test b ≡ false → Q tt b)
      → Grows Q b (fail_if test status b)
  Grows-fail_if test status q = go (test b) q
    where
      go :
          (t : Bool)
          → (t ≡ false → Q tt b)
          → Grows Q b (if t then refused status (record b { failed = true }) else built tt b)
      go true k = stopped (Continues-same b (record b { failed = true }) h refl refl refl refl)
      go false k = grown (Continues-same b b h refl refl refl refl) (k refl)

-- While the offset is in the buffer, the room that the code computes is what is left of the buffer.
pub room-left :
    (b : MessageBuilder)
    → b.offset ≤ length b.buffer
    → length b.buffer < 2 ^ 63
    → room b ≡ length b.buffer - b.offset
room-left b h s = omega arith

pub Grows-emit {ℓ'} :
    {Q : Unit {0} → MessageBuilder → Type ℓ'} (bytes : List ℕ) (b : MessageBuilder)
    → b.offset + length bytes ≤ length b.buffer
    → Q tt (record b { buffer = copy_at b.buffer b.offset bytes; offset = b.offset + length bytes })
    → Grows Q b (emit bytes b)
unfolding emit
Grows-emit bytes b h q =
    let e : leb (b.offset + length bytes) (length b.buffer) ≡ true = ground (arith, h) in
    let n = length-copy_at b.buffer b.offset bytes h in
    rw e (
      grown
        (record {
          layout_same = refl;
          length_same = n;
          offset_le = omega arith;
          offset_inside = omega (arith, n);
          bytes_kept =
              take-append_ge b.offset 0 (take b.offset b.buffer) _
                (omega (arith, length-take b.offset b.buffer))
              ∙ append-nil (take b.offset b.buffer);
          mask_same = refl;
        })
        q)
