-- ===== src/Hash/Incremental.antt =====
-- `XxHash64State::update` in pieces and at once.
use mathlib.Core.List.{append-nil, append_assoc}
use mathlib.Core.Path.{ap₂, subst}
use universal_protocol_runti.Base.{
  ℕ, ◌+◌, ◌-◌, ◌%◌, ◌^◌, ◌≤◌, ◌<◌, ◌≡◌, refl, sym, ap, ◌∙◌, List, [], ◌∷◌, ◌++◌, arith, ltb, ◌==◌,
  if◌then◌else◌, length, take, drop, copy_at, length-append, length-take, length-copy_at,
  take-append-drop, take-append_ge, if_true_elim, if_false_elim, false,
}
use native.Mathlib.Decide.{dec_lt, ℕ_discrete}
use universal_protocol_runti.Hash.{
  Lanes, XxHash64State, initial_lanes, init, consume_stripe, consume_stripes, absorb, update,
  digest, xxhash64, digest_of,
}
use universal_protocol_runti.Hash.Absorb.{
  stripes, Cut, stripe-Cut, consume_stripes-Cut, Cut-append, Cut-unique,
}

abbrev held : XxHash64State → List ℕ
held s = take s.buffer_size s.buffer

-- The accumulators and the buffer, from these accumulators on.
pub record Holds (start : Lanes) (bytes : List ℕ) (s : XxHash64State) : Type 0 where
  pub room : length s.buffer ≡ 32
  pub partial : s.buffer_size < 32
  pub cut : Cut start bytes s.lanes (held s)

-- What the end of `update` leaves in the buffer.
kept_tail :
    (buffer tail : List ℕ)
    → take
        (if length tail == 0 then 0 else length tail)
        (if length tail == 0 then buffer else copy_at buffer 0 tail)
      ≡ tail
kept_tail buffer [] = refl
kept_tail buffer (b ∷ tail) =
    let some_left : (length (b ∷ tail) == 0) ≡ false = ground arith in
    rw some_left
      (take-append_ge (length (b ∷ tail)) 0 (b ∷ tail) _ (omega arith) ∙ append-nil (b ∷ tail))

absorb-Holds :
    (s : XxHash64State) (lanes : Lanes) (bytes : List ℕ)
    → length s.buffer ≡ 32
    → Holds lanes bytes (absorb s lanes bytes)
unfolding absorb
absorb-Holds s lanes bytes h =
    let c = consume_stripes-Cut (length bytes) lanes bytes (omega arith) in
    let tail = (consume_stripes (length bytes) lanes bytes).1 in
    record {
      room = ground (arith, h, length-copy_at s.buffer 0 tail, c.tail_size);
      partial = ground (arith, c.tail_size);
      cut =
          subst (λ t. Cut lanes bytes (consume_stripes (length bytes) lanes bytes).0 t)
            (sym (kept_tail s.buffer tail)) c;
    }

-- The bytes that fill a stripe behind those in the buffer.
module _ (s : XxHash64State) (bytes : List ℕ) (room : length s.buffer ≡ 32) where
  length-held : s.buffer_size ≤ 32 → length (held s) ≡ s.buffer_size
  length-held h = omega (arith, length-take s.buffer_size s.buffer, room)

  copied :
      (more : List ℕ)
      → s.buffer_size + length more ≤ 32
      → take (s.buffer_size + length more) (copy_at s.buffer s.buffer_size more) ≡ held s ++ more
  copied more h =
      take-append_ge (s.buffer_size + length more) (length more) (held s) _
        (omega (arith, length-held (omega arith)))
      ∙ ap (◌++◌ (held s)) (take-append_ge (length more) 0 more _ (omega arith) ∙ append-nil more)

  stripe_filled :
      s.buffer_size ≤ 32
      → 32 ≤ s.buffer_size + length bytes
      → take 32 (copy_at s.buffer s.buffer_size (take (32 - s.buffer_size) bytes))
        ≡ held s ++ take (32 - s.buffer_size) bytes
  stripe_filled h k =
      let fill = take (32 - s.buffer_size) bytes in
      let size : s.buffer_size + length fill ≡ 32 =
        omega (arith, length-take (32 - s.buffer_size) bytes) in
      ap (λ n. take n (copy_at s.buffer s.buffer_size fill)) (sym size)
      ∙ copied fill (omega (arith, size))

nil_of_length : (xs : List ℕ) → length xs ≡ 0 → xs ≡ []
nil_of_length [] e = refl
nil_of_length (x ∷ xs) e = absurd (omega arith)

module _ (start : Lanes) (all bytes : List ℕ) (s : XxHash64State) (h : Holds start all s) where
  abbrev H : XxHash64State → Type 0
  H = Holds start (all ++ bytes)

  -- A state that absorbs the held bytes and these.
  Holds-append : {next : XxHash64State} → Holds s.lanes (held s ++ bytes) next → H next
  Holds-append x = record { room = x.room; partial = x.partial; cut = Cut-append bytes h.cut x.cut }

  -- The bytes fit into the buffer.
  buffered :
      (total : ℕ)
      → s.buffer_size + length bytes < 32
      → H (record s {
        total_length = total;
        buffer = copy_at s.buffer s.buffer_size bytes;
        buffer_size = s.buffer_size + length bytes;
      })
  buffered total k = record {
    room = length-copy_at s.buffer s.buffer_size bytes (omega (arith, h.room)) ∙ h.room;
    partial = k;
    cut =
        subst (Cut start (all ++ bytes) s.lanes) (sym (copied s bytes h.room bytes (omega arith)))
          (record {
            count = h.cut.count;
            full = h.cut.full;
            whole = ap (λ b. b ++ bytes) h.cut.whole ∙ append_assoc h.cut.full (held s) bytes;
            full_size = h.cut.full_size;
            tail_size =
                omega
                  (arith, length-append (held s) bytes, length-take s.buffer_size s.buffer, h.room);
            consumed = h.cut.consumed;
          });
  }

  -- Nothing was in the buffer.
  absorbed :
      (total : ℕ) → s.buffer_size ≡ 0 → H (absorb (record s { total_length = total }) s.lanes bytes)
  absorbed total e = Holds-append (
      subst
        (λ b. Holds s.lanes (b ++ bytes) (absorb (record s { total_length = total }) s.lanes bytes))
        (sym (ap (λ n. take n s.buffer) e))
        (absorb-Holds (record s { total_length = total }) s.lanes bytes h.room))

  -- The bytes complete the stripe in the buffer.
  completed :
      (total : ℕ)
      → 32 ≤ s.buffer_size + length bytes
      → let filled = copy_at s.buffer s.buffer_size (take (32 - s.buffer_size) bytes) in
        H (
          absorb
            (record s { total_length = total; buffer = filled })
            (consume_stripe s.lanes (take 32 filled))
            (drop (32 - s.buffer_size) bytes))
  completed total k =
      let n = 32 - s.buffer_size in
      let filled = copy_at s.buffer s.buffer_size (take n bytes) in
      let size : length filled ≡ 32 =
        length-copy_at s.buffer s.buffer_size (take n bytes)
          (omega (arith, length-take n bytes, h.room, h.partial))
        ∙ h.room in
      let x =
        absorb-Holds (record s { total_length = total; buffer = filled })
          (consume_stripe s.lanes (take 32 filled)) (drop n bytes) size in
      let whole : take 32 filled ++ drop n bytes ≡ held s ++ bytes =
        ap (λ b. b ++ drop n bytes) (stripe_filled s bytes h.room (omega (arith, h.partial)) k)
        ∙ append_assoc (held s) (take n bytes) (drop n bytes)
        ∙ ap (◌++◌ (held s)) (take-append-drop n bytes) in
      let next =
        absorb (record s { total_length = total; buffer = filled })
          (consume_stripe s.lanes (take 32 filled)) (drop n bytes) in
      Holds-append (record {
        room = x.room;
        partial = x.partial;
        cut =
            subst (λ b. Cut s.lanes b next.lanes (held next)) whole
              (stripe-Cut s.lanes _ (take 32 filled) (drop n bytes) _
                (omega (arith, length-take 32 filled, size)) x.cut);
      })

  update-Holds : H (update s bytes)
  unfolding update
  update-Holds = elim (ℕ_discrete (length bytes) 0) [
    | yes e ↦ if_true_elim H (length bytes == 0) _ _ (ground arith) (
        subst (λ b. Holds start b s) (sym (ap (◌++◌ all) (nil_of_length bytes e) ∙ append-nil all))
          h)
    | no n ↦
        if_false_elim H (length bytes == 0) _ _ (ground arith)
          (elim (dec_lt (s.buffer_size + length bytes) 32) [
            | yes k ↦
                if_true_elim H (ltb (s.buffer_size + length bytes) 32) _ _ (ground arith)
                  (buffered _ k)
            | no k ↦
                if_false_elim H (ltb (s.buffer_size + length bytes) 32) _ _ (ground arith)
                  (elim (ℕ_discrete s.buffer_size 0) [
                    | yes z ↦ if_true_elim H (s.buffer_size == 0) _ _ (ground arith) (absorbed _ z)
                    | no z ↦
                        if_false_elim H (s.buffer_size == 0) _ _ (ground arith)
                          (completed _ (omega arith))
                  ])
          ])
  ]

-- What a state has been given, from its seed on.
record Absorbed (seed : ℕ) (bytes : List ℕ) (s : XxHash64State) : Type 0 where
  seeded : s.seed ≡ seed
  counted : s.total_length ≡ length bytes % 2 ^ 64
  holds : Holds (initial_lanes seed) bytes s

init-Absorbed : (seed : ℕ) → Absorbed seed [] (init seed)
unfolding init stripes
init-Absorbed seed = record {
  seeded = refl;
  counted = refl;
  holds = record {
    room = refl;
    partial = omega arith;
    cut = record {
      count = 0;
      full = [];
      whole = refl;
      full_size = refl;
      tail_size = omega arith;
      consumed = refl;
    };
  };
}

update-Absorbed :
    (seed : ℕ) (all bytes : List ℕ) (s : XxHash64State)
    → Absorbed seed all s
    → Absorbed seed (all ++ bytes) (update s bytes)
unfolding update absorb
update-Absorbed seed all bytes s a = record {
  seeded = ground (arith, a.seeded);
  counted = ground (arith, a.counted, length-append all bytes);
  holds = update-Holds (initial_lanes seed) all bytes s a.holds;
}

-- Two states that have been given the same bytes have the same digest.
digest-Absorbed :
    (seed : ℕ) (bytes : List ℕ) (s t : XxHash64State)
    → Absorbed seed bytes s
    → Absorbed seed bytes t
    → digest s ≡ digest t
unfolding digest
digest-Absorbed seed bytes s t a b =
    let (lanes, tail) = Cut-unique a.holds.cut b.holds.cut in
    ap (λ x. digest_of x s.total_length s.lanes (held s)) (a.seeded ∙ sym b.seeded)
    ∙ ap (λ x. digest_of t.seed x s.lanes (held s)) (a.counted ∙ sym b.counted)
    ∙ ap₂ (digest_of t.seed t.total_length) lanes tail

-- `update` with one piece after the other.
unfoldable pub update_all : XxHash64State → List (List ℕ) → XxHash64State
update_all s [] = s
update_all s (piece ∷ pieces) = update_all (update s piece) pieces

abbrev pub joined : List (List ℕ) → List ℕ
joined [] = []
joined (piece ∷ pieces) = piece ++ joined pieces

update_all-Absorbed :
    (seed : ℕ) (all : List ℕ) (s : XxHash64State) (pieces : List (List ℕ))
    → Absorbed seed all s
    → Absorbed seed (all ++ joined pieces) (update_all s pieces)
unfolding update_all
update_all-Absorbed seed all s [] a = subst (λ b. Absorbed seed b s) (sym (append-nil all)) a
update_all-Absorbed seed all s (piece ∷ pieces) a =
    subst (λ b. Absorbed seed b (update_all (update s piece) pieces))
      (append_assoc all piece (joined pieces))
      (update_all-Absorbed seed (all ++ piece) (update s piece) pieces
        (update-Absorbed seed all piece s a))

-- For every seed and every way to cut bytes into pieces, the digest after hashing piece by piece is
-- the hash of the whole.
pub digest-update_all :
    (seed : ℕ) (pieces : List (List ℕ))
    → digest (update_all (init seed) pieces) ≡ xxhash64 (joined pieces) seed
unfolding xxhash64
digest-update_all seed pieces =
    digest-Absorbed seed (joined pieces) _ _
      (update_all-Absorbed seed [] (init seed) pieces (init-Absorbed seed))
      (update-Absorbed seed [] (joined pieces) (init seed) (init-Absorbed seed))
