-- ===== src/Hash/Absorb.antt =====
-- What `XxHash64State` holds of the bytes that it has been given.
use mathlib.Core.Path.{subst, ap₂}
use mathlib.Core.List.{append-nil, append_assoc}
use universal_protocol_runti.Base.{
  ℕ, zero, suc, ◌+◌, ◌*◌, ◌≤◌, ◌<◌, ◌≡◌, refl, sym, ap, ◌∙◌, List, [], ◌∷◌, ◌++◌, arith, leb,
  length, take, drop, length-append, length-take, length-drop, take-append-drop, take-append_le,
  take-append_ge, drop-append_ge, drop-append_le, if_true_elim, if_false_elim,
}
use native.Mathlib.Decide.{dec_le}
use universal_protocol_runti.Hash.{Lanes, consume_stripe, consume_stripes}

-- The accumulators after so many stripes of these bytes.
unfoldable pub stripes : ℕ → Lanes → List ℕ → Lanes
stripes zero lanes bytes = lanes
stripes (suc k) lanes bytes = stripes k (consume_stripe lanes (take 32 bytes)) (drop 32 bytes)

-- Bytes cut into `count` whole stripes, consumed from `start`, and less than a stripe behind them.
pub record Cut (start : Lanes) (bytes : List ℕ) (lanes : Lanes) (tail : List ℕ) : Type 0 where
  pub count : ℕ
  pub full : List ℕ
  pub whole : bytes ≡ full ++ tail
  pub full_size : length full ≡ 32 * count
  pub tail_size : length tail < 32
  pub consumed : lanes ≡ stripes count start full

-- One stripe in front of a cut.
pub stripe-Cut :
    (start lanes : Lanes) (stripe bytes tail : List ℕ)
    → length stripe ≡ 32
    → Cut (consume_stripe start stripe) bytes lanes tail
    → Cut start (stripe ++ bytes) lanes tail
unfolding stripes
stripe-Cut start lanes stripe bytes tail h c = record {
  count = suc c.count;
  full = stripe ++ c.full;
  whole = ap (◌++◌ stripe) c.whole ∙ sym (append_assoc stripe c.full tail);
  full_size = omega (arith, length-append stripe c.full, c.full_size, h);
  tail_size = c.tail_size;
  consumed =
      rw
        (
          take-append_ge 32 0 stripe c.full (omega arith),
          append-nil stripe,
          drop-append_ge 32 0 stripe c.full (omega arith),
        )
        c.consumed;
}

-- The loop over the stripes, with rounds enough.
pub consume_stripes-Cut :
    (rounds : ℕ) (start : Lanes) (input : List ℕ)
    → length input ≤ rounds
    → Cut start input (consume_stripes rounds start input).0 (consume_stripes rounds start input).1
unfolding consume_stripes stripes
consume_stripes-Cut zero start input h = record {
  count = 0;
  full = [];
  whole = refl;
  full_size = refl;
  tail_size = omega arith;
  consumed = refl;
}
consume_stripes-Cut (suc rounds) start input h = elim (dec_le 32 (length input)) [
  | yes k ↦
      if_true_elim (λ (r : Lanes × List ℕ). Cut start input r.0 r.1) (leb 32 (length input)) _ _
        (ground arith)
        (subst
          (λ bytes.
            Cut start bytes
              (consume_stripes rounds (consume_stripe start (take 32 input)) (drop 32 input)).0
              (consume_stripes rounds (consume_stripe start (take 32 input)) (drop 32 input)).1)
          (take-append-drop 32 input)
          (stripe-Cut start _ (take 32 input) (drop 32 input) _
            (omega (arith, length-take 32 input))
            (consume_stripes-Cut rounds (consume_stripe start (take 32 input)) (drop 32 input)
              (omega (arith, length-drop 32 input)))))
  | no k ↦
      if_false_elim (λ (r : Lanes × List ℕ). Cut start input r.0 r.1) (leb 32 (length input)) _ _
        (ground arith)
        (record {
          count = 0;
          full = [];
          whole = refl;
          full_size = refl;
          tail_size = omega arith;
          consumed = refl;
        })
]

stripes-append :
    (j k : ℕ) (start : Lanes) (front back : List ℕ)
    → length front ≡ 32 * j
    → stripes (j + k) start (front ++ back) ≡ stripes k (stripes j start front) back
unfolding stripes
stripes-append zero k start [] back h =
    let same : zero + k ≡ k = omega arith in ap (λ n. stripes n start back) same
stripes-append zero k start (b ∷ front) back h = absurd (omega arith)
stripes-append (suc j) k start front back h =
    let one_more : suc j + k ≡ suc (j + k) = omega arith in
    ap (λ n. stripes n start (front ++ back)) one_more
    ∙ ap₂ (stripes (j + k)) (ap (consume_stripe start) (take-append_le 32 front back (omega arith)))
        (drop-append_le 32 front back (omega arith))
    ∙ stripes-append j k (consume_stripe start (take 32 front)) (drop 32 front) back
        (omega (arith, length-drop 32 front))

-- A cut of the rest of a cut and what follows it.
pub Cut-append :
    {start lanes lanes' : Lanes} {bytes tail tail' : List ℕ} (more : List ℕ)
    → Cut start bytes lanes tail
    → Cut lanes (tail ++ more) lanes' tail'
    → Cut start (bytes ++ more) lanes' tail'
Cut-append {start} {lanes} {lanes'} {bytes} {tail} {tail'} more a b = record {
  count = a.count + b.count;
  full = a.full ++ b.full;
  whole =
      ap (λ s. s ++ more) a.whole
      ∙ append_assoc a.full tail more
      ∙ ap (◌++◌ a.full) b.whole
      ∙ sym (append_assoc a.full b.full tail');
  full_size = omega (arith, length-append a.full b.full, a.full_size, b.full_size);
  tail_size = b.tail_size;
  consumed =
      b.consumed
      ∙ ap (λ l. stripes b.count l b.full) a.consumed
      ∙ sym (stripes-append a.count b.count start a.full b.full a.full_size);
}

-- A cut is decided by the bytes.
pub Cut-unique :
    {start l m : Lanes} {bytes a b : List ℕ}
    → Cut start bytes l a
    → Cut start bytes m b
    → (l ≡ m) × (a ≡ b)
Cut-unique {start} {l} {m} {bytes} {a} {b} c d =
    let total = ap length (sym c.whole ∙ d.whole) in
    let same : c.count ≡ d.count = omega (
      arith,
      total,
      length-append c.full a,
      length-append d.full b,
      c.full_size,
      d.full_size,
      c.tail_size,
      d.tail_size,
    ) in
    let full : c.full ≡ d.full =
      sym
        (take-append_ge (32 * c.count) 0 c.full a (omega (arith, c.full_size)) ∙ append-nil c.full)
      ∙ ap (take (32 * c.count)) (sym c.whole ∙ d.whole)
      ∙ take-append_ge (32 * c.count) 0 d.full b (omega (arith, d.full_size, same))
      ∙ append-nil d.full in
    (
      c.consumed ∙ ap₂ (λ n s. stripes n start s) same full ∙ sym d.consumed,
      sym (drop-append_ge (32 * c.count) 0 c.full a (omega (arith, c.full_size)))
          ∙ ap (drop (32 * c.count)) (sym c.whole ∙ d.whole)
          ∙ drop-append_ge (32 * c.count) 0 d.full b (omega (arith, d.full_size, same)),
    )
