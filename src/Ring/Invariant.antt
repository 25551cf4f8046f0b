-- ===== src/Ring/Invariant.antt =====
-- The representation invariant of `ByteRingBuffer`, and its `size_t` arithmetic.
use universal_protocol_runti.Base.{
  ◌%◌, inl, inr, ltb, ltb→lt, ltb→le, Bool-cases, ℕ, ◌+◌, ◌-◌, ◌^◌, ◌≤◌, ◌<◌, ◌≡◌, ◌⊎◌, List, arith,
  length, length-copy_at, length-replicate,
}
use native.Mathlib.Nat.{mod-eq_of_lt, mod-eq-sub-mod, mod_self}
use universal_protocol_runti.Ring.{
  Ring, empty_ring, size, free_space, writable_span, write_span, commit_write, consume,
}

-- The `static_assert` on the capacity, and a bound that every array in memory meets.
pub record IsCapacity (cap : ℕ) : Type 0 where
  pub two : 1 < cap
  pub small : cap ≤ 2 ^ 62

pub record IsValid (cap : ℕ) (r : Ring) : Type 0 where
  pub head_in : r.head < cap
  pub tail_in : r.tail < cap
  pub storage_size : length r.storage ≡ cap

module _ (cap : ℕ) (c : IsCapacity cap) where
  pub empty_ring-IsValid : IsValid cap (empty_ring cap)
  unfolding empty_ring
  empty_ring-IsValid = omega (arith, length-replicate {A = ℕ} cap 0)

  pub size_straight : (r : Ring) → IsValid cap r → r.head ≤ r.tail → size cap r ≡ r.tail - r.head
  unfolding size
  size_straight r v h = ground arith

  pub size_wrapped :
      (r : Ring) → IsValid cap r → r.tail < r.head → size cap r ≡ cap - r.head + r.tail
  unfolding size
  size_wrapped r v h = ground arith

  pub size-lt : (r : Ring) → IsValid cap r → size cap r < cap
  unfolding size
  size-lt r v = ground arith

  size-around : (r : Ring) → IsValid cap r → (r.head + size cap r) % cap ≡ r.tail
  size-around r v = elim (Bool-cases (ltb r.tail r.head)) [
    | inl e ↦
        let h : r.tail < r.head = ltb→lt r.tail r.head e in
        let s : r.head + size cap r ≡ r.tail + cap = omega (arith, size_wrapped r v h) in
        let wrap : cap ≤ r.tail + cap = omega arith in
        let t : r.tail + cap - cap ≡ r.tail = omega arith in
        rw (s, mod-eq-sub-mod wrap, t) (mod-eq_of_lt v.tail_in)
    | inr e ↦
        let s : r.head + size cap r ≡ r.tail =
          omega (arith, size_straight r v (ltb→le r.tail r.head e), ltb→le r.tail r.head e) in
        rw s (mod-eq_of_lt v.tail_in)
  ]

  -- `size` is the one number below the capacity of the storage that leads from `head` around to `tail`,
  -- and `free_space` is what it leaves of the storage but for one slot, which stays unused. The
  -- capacity of the storage is 2 to 2^62, and both indices are below it.
  pub free_space-add-size :
      (r : Ring)
      → IsValid cap r
      → ((r.head + size cap r) % cap ≡ r.tail)
        × (size cap r < cap)
        × (free_space cap r + size cap r + 1 ≡ cap)
  unfolding free_space
  free_space-add-size r v = (size-around r v, size-lt r v, ground (arith, size-lt r v))

  -- A caller that fills the writable span stays inside the storage and inside the free space. The
  -- ring is valid, and its capacity 2 to 2^62.
  pub writable_span_bounds :
      (r : Ring)
      → IsValid cap r
      → ((writable_span cap r).offset + (writable_span cap r).size ≤ cap)
        × ((writable_span cap r).size ≤ free_space cap r)
  unfolding writable_span
  writable_span_bounds r v = ground arith

  -- The writable span is empty only when the ring is full.
  pub writable_span_pos :
      (r : Ring) → IsValid cap r → 0 < free_space cap r → 0 < (writable_span cap r).size
  unfolding writable_span
  writable_span_pos r v h = ground arith

  -- The writable span runs to the end of the storage, and stops before it when the head is at 0.
  pub writable_straight :
      (r : Ring)
      → IsValid cap r
      → r.head ≤ r.tail
      → (r.tail + (writable_span cap r).size ≤ cap)
        × ((0 < r.head) ⊎ (r.tail + (writable_span cap r).size < cap))
  unfolding writable_span
  writable_straight r v h = ground arith

  -- Behind the head it leaves one slot free.
  pub writable_behind :
      (r : Ring) → IsValid cap r → r.tail < r.head → r.tail + (writable_span cap r).size < r.head
  unfolding writable_span
  writable_behind r v h = ground arith

  pub commit_straight :
      (r : Ring) (n : ℕ)
      → IsValid cap r
      → r.tail + n < cap
      → (commit_write cap r n).tail ≡ r.tail + n
  unfolding commit_write
  commit_straight r n v h =
      rw (mod-eq_of_lt {n = r.tail + n} {m = 2 ^ 64} (omega arith)) (mod-eq_of_lt h)

  pub commit_to_end :
      (r : Ring) (n : ℕ) → IsValid cap r → r.tail + n ≡ cap → (commit_write cap r n).tail ≡ 0
  unfolding commit_write
  commit_to_end r n v h =
      rw (mod-eq_of_lt {n = r.tail + n} {m = 2 ^ 64} (omega arith), h) (mod_self cap)

  pub write_span-IsValid :
      (r : Ring) (bytes : List ℕ)
      → IsValid cap r
      → length bytes ≤ (writable_span cap r).size
      → IsValid cap (write_span cap r bytes)
  unfolding write_span
  write_span-IsValid r bytes v h =
      ground (
        arith,
        writable_span_bounds r v,
        length-copy_at r.storage (writable_span cap r).offset bytes,
      )

  pub commit_write-IsValid : (r : Ring) (n : ℕ) → IsValid cap r → IsValid cap (commit_write cap r n)
  unfolding commit_write
  commit_write-IsValid r n v = ground arith

  pub consume-IsValid : (r : Ring) (n : ℕ) → IsValid cap r → IsValid cap (consume cap r n)
  unfolding consume
  consume-IsValid r n v = ground arith

  pub consume_straight :
      (r : Ring) (n : ℕ) → IsValid cap r → r.head + n < cap → (consume cap r n).head ≡ r.head + n
  unfolding consume
  consume_straight r n v h =
      rw (mod-eq_of_lt {n = r.head + n} {m = 2 ^ 64} (omega arith)) (mod-eq_of_lt h)

  pub consume_around :
      (r : Ring) (n : ℕ)
      → IsValid cap r
      → cap ≤ r.head + n
      → n ≤ cap
      → (consume cap r n).head ≡ r.head + n - cap
  unfolding consume
  consume_around r n v h k =
      rw (mod-eq_of_lt {n = r.head + n} {m = 2 ^ 64} (omega arith), mod-eq-sub-mod h)
        (mod-eq_of_lt (omega arith))
