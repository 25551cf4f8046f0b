-- ===== src/Ring/Contents.antt =====
-- `ByteRingBuffer` as a queue of bytes.
use universal_protocol_runti.Base.{
  ℕ, ◌+◌, ◌-◌, ◌≤◌, ◌<◌, ◌≡◌, refl, ap, ◌∙◌, List, [], ◌∷◌, ◌++◌, arith, ltb, if◌then◌else◌, length,
  take, drop, copy_at, length-append, length-take, length-drop, take_all, take-append_le,
  take-append_ge, drop-append_le, drop-append_ge, drop-drop, length-copy_at, copy_at-nil,
}
use mathlib.Core.List.{append-nil, append_assoc}
use native.Mathlib.Nat.{add-zero}
use native.Mathlib.Decide.{dec_le, dec_lt}
use universal_protocol_runti.Ring.{
  Ring, empty_ring, size, writable_span, write_span, commit_write, consume,
}
use universal_protocol_runti.Ring.Invariant.{
  IsCapacity, IsValid, size_straight, size_wrapped, writable_straight, writable_behind,
  commit_straight, commit_to_end, consume_straight, consume_around,
}

-- The bytes between two indices of the storage, going round its end.
abbrev pub window : List ℕ → ℕ → ℕ → List ℕ
window storage head tail =
    if ltb tail head then drop head storage ++ take tail storage else drop head (take tail storage)

-- The readable bytes, oldest first.
abbrev pub contents : Ring → List ℕ
contents r = window r.storage r.head r.tail

module _ (cap : ℕ) (c : IsCapacity cap) where
  pub length-contents : (r : Ring) → IsValid cap r → length (contents r) ≡ size cap r
  length-contents r v = ground (
    arith,
    size_straight cap c r v,
    size_wrapped cap c r v,
    length-append (drop r.head r.storage) (take r.tail r.storage),
    length-take r.tail r.storage,
    length-drop r.head r.storage,
    length-drop r.head (take r.tail r.storage),
  )

  pub contents-empty_ring : contents (empty_ring cap) ≡ []
  unfolding empty_ring
  contents-empty_ring = refl

  -- Overwriting from the tail on leaves what is before it, and what is beyond the written bytes.
  take-copy_at :
      (s bytes : List ℕ) (t : ℕ)
      → t + length bytes ≤ length s
      → take (t + length bytes) (copy_at s t bytes) ≡ take t s ++ bytes
  take-copy_at s bytes t h =
      take-append_ge (t + length bytes) (length bytes) (take t s) _ (omega (arith, length-take t s))
      ∙ ap (◌++◌ (take t s))
          (take-append_le (length bytes) bytes _ (omega arith) ∙ take_all _ bytes (omega arith))

  drop-copy_at :
      (s bytes : List ℕ) (t h : ℕ)
      → t + length bytes ≤ h
      → h ≤ length s
      → drop h (copy_at s t bytes) ≡ drop h s
  drop-copy_at s bytes t h p q =
      drop-append_ge h (h - t) (take t s) _ (omega (arith, length-take t s))
      ∙ drop-append_ge (h - t) (h - t - length bytes) bytes _ (omega arith)
      ∙ drop-drop (h - t - length bytes) (t + length bytes) s
      ∙ ap (λ k. drop k s) (omega arith)

  -- The bytes fit behind the tail, and the tail does not go round.
  window_straight :
      (s bytes : List ℕ) (h t t' : ℕ)
      → h ≤ t
      → t + length bytes ≤ length s
      → t' ≡ t + length bytes
      → window (copy_at s t bytes) h t' ≡ window s h t ++ bytes
  window_straight s bytes h t t' p q e = ground (
    arith,
    take-copy_at s bytes t q,
    drop-append_le h (take t s) bytes (omega (arith, length-take t s)),
  )

  -- The bytes fill the storage to its end, and the tail goes round to 0.
  window_to_end :
      (s bytes : List ℕ) (h t : ℕ)
      → h ≤ t
      → 0 < h
      → t + length bytes ≡ length s
      → window (copy_at s t bytes) h 0 ≡ window s h t ++ bytes
  window_to_end s bytes h t p pos q = ground (
    arith,
    append-nil (drop h (copy_at s t bytes)),
    take-copy_at s bytes t (omega arith),
    take_all (t + length bytes) (copy_at s t bytes)
        (omega (arith, length-copy_at s t bytes (omega arith))),
    drop-append_le h (take t s) bytes (omega (arith, length-take t s)),
  )

  -- The tail is before the head already, and stays so.
  window_behind :
      (s bytes : List ℕ) (h t t' : ℕ)
      → t + length bytes < h
      → h ≤ length s
      → t' ≡ t + length bytes
      → window (copy_at s t bytes) h t' ≡ window s h t ++ bytes
  window_behind s bytes h t t' p q e = ground (
    arith,
    take-copy_at s bytes t (omega arith),
    drop-copy_at s bytes t h (omega arith) q,
    append_assoc (drop h s) (take t s) bytes,
  )

  -- Where a write of `n` bytes starts, and where it leaves the tail.
  write_offset :
      (r : Ring) (n : ℕ)
      → IsValid cap r
      → 0 < n
      → n ≤ (writable_span cap r).size
      → (writable_span cap r).offset ≡ r.tail
  unfolding writable_span
  write_offset r n v pos h = ground arith

  -- The three ways in which a write can lie in the storage.
  data WriteCase (r : Ring) (n : ℕ) : Type 0 where
    straight : r.head ≤ r.tail → r.tail + n < cap → WriteCase r n
    to_end : r.head ≤ r.tail → 0 < r.head → r.tail + n ≡ cap → WriteCase r n
    behind : r.tail < r.head → r.tail + n < r.head → WriteCase r n

  write_cases : (r : Ring) (n : ℕ) → IsValid cap r → n ≤ (writable_span cap r).size → WriteCase r n
  write_cases r n v h = elim (dec_le r.head r.tail) [
    | yes p ↦ elim (dec_lt (r.tail + n) cap) [
      | yes q ↦ straight p q
      | no q ↦
          to_end p (omega (arith, writable_straight cap c r v p))
            (omega (arith, writable_straight cap c r v p))
    ]
    | no p ↦ behind (omega arith) (omega (arith, writable_behind cap c r v (omega arith)))
  ]

  -- Writing nothing leaves the ring as it is.
  pub write_span-nil : (r : Ring) → write_span cap r [] ≡ r
  unfolding write_span
  write_span-nil r =
      ap (λ s. record r { storage = s }) (copy_at-nil r.storage (writable_span cap r).offset)

  contents-commit_nothing :
      (r : Ring) → IsValid cap r → contents (commit_write cap (write_span cap r []) 0) ≡ contents r
  unfolding commit_write write_span
  contents-commit_nothing r v =
      rw (copy_at-nil r.storage (writable_span cap r).offset)
        (ap (window r.storage r.head) (commit_straight cap c r 0 v (omega arith) ∙ add-zero r.tail))

  -- What the caller writes at the front of the writable span is appended by `commit_write`. The
  -- bytes fit the span, the ring is valid, and its capacity is 2 to 2^62.
  pub contents-commit_write :
      (r : Ring) (bytes : List ℕ)
      → IsValid cap r
      → length bytes ≤ (writable_span cap r).size
      → contents (commit_write cap (write_span cap r bytes) (length bytes)) ≡ contents r ++ bytes
  unfolding commit_write write_span
  contents-commit_write r [] v h = rw append-nil (contents-commit_nothing r v)
  contents-commit_write r (b ∷ bs) v h =
      rw (write_offset r (length (b ∷ bs)) v (omega arith) h)
        (elim (write_cases r (length (b ∷ bs)) v h) [
          | straight p q ↦
              window_straight r.storage (b ∷ bs) r.head r.tail _ p (omega arith)
                (commit_straight cap c r _ v q)
          | to_end p q e ↦
              rw (commit_to_end cap c r _ v e)
                (window_to_end r.storage (b ∷ bs) r.head r.tail p q (omega arith))
          | behind p q ↦
              window_behind r.storage (b ∷ bs) r.head r.tail _ q (omega arith)
                (commit_straight cap c r _ v (omega arith))
        ])

  -- Dropping from a window moves its start.
  drop_straight : (s : List ℕ) (h t n : ℕ) → h + n ≤ t → window s (h + n) t ≡ drop n (window s h t)
  drop_straight s h t n p = ground (arith, drop-drop n h (take t s))

  drop_front :
      (s : List ℕ) (h t n : ℕ)
      → t < h
      → h + n < length s
      → window s (h + n) t ≡ drop n (window s h t)
  drop_front s h t n p q = ground (
    arith,
    drop-append_le n (drop h s) (take t s) (omega (arith, length-drop h s)),
    drop-drop n h s,
  )

  drop_around :
      (s : List ℕ) (h t n h' : ℕ)
      → t < h
      → h ≤ length s
      → h + n ≡ h' + length s
      → h' ≤ t
      → window s h' t ≡ drop n (window s h t)
  drop_around s h t n h' p l e q =
      ground (arith, drop-append_ge n h' (drop h s) (take t s) (omega (arith, length-drop h s)))

  -- `consume` drops the oldest bytes. There are as many bytes, the ring is valid, and its capacity
  -- is 2 to 2^62.
  pub contents-consume :
      (r : Ring) (n : ℕ)
      → IsValid cap r
      → n ≤ size cap r
      → contents (consume cap r n) ≡ drop n (contents r)
  unfolding consume
  contents-consume r n v h = elim (dec_le r.head r.tail) [
    | yes p ↦
        rw (consume_straight cap c r n v (omega (arith, size_straight cap c r v p)))
          (drop_straight r.storage r.head r.tail n (omega (arith, size_straight cap c r v p)))
    | no p ↦ elim (dec_lt (r.head + n) cap) [
      | yes q ↦
          rw (consume_straight cap c r n v q)
            (drop_front r.storage r.head r.tail n (omega arith) (omega arith))
      | no q ↦
          let w : size cap r ≡ cap - r.head + r.tail = size_wrapped cap c r v (omega arith) in
          rw (consume_around cap c r n v (omega arith) (omega arith)) (
            drop_around r.storage r.head r.tail n _ (omega arith) (omega arith) (omega arith)
              (omega arith))
    ]
  ]
