-- ===== src/Ring/Spans.antt =====
-- What `readable_span` and `linearize` of `ByteRingBuffer` show of its contents.
use universal_protocol_runti.Base.{
  ℕ, ◌-◌, ◌≤◌, ◌<◌, ◌≡◌, refl, ap, ◌∙◌, sym, false, List, ◌++◌, min, arith, length, take, drop,
  copy_at, length-take, length-drop, take_all, take-append_le, take-append_ge, take-drop, take-take,
  copy_at-append, length-copy_at,
}
use native.Mathlib.Decide.{dec_lt, ℕ_discrete}
use universal_protocol_runti.Ring.{
  Ring, size, has_wrapped_readable_data, readable_span, readable_bytes, linearize,
}
use universal_protocol_runti.Ring.Invariant.{
  IsCapacity, IsValid, size_straight, size_wrapped, size-lt,
}
use universal_protocol_runti.Ring.Contents.{contents, length-contents}

subspan_straight : (s : List ℕ) (h t : ℕ) → h ≤ t → take (t - h) (drop h s) ≡ drop h (take t s)
subspan_straight s h t p = take-drop (t - h) h s ∙ ap (λ k. drop h (take k s)) (omega arith)

module _ (cap : ℕ) (c : IsCapacity cap) where
  span_straight :
      (r : Ring)
      → IsValid cap r
      → r.head < r.tail
      → ((readable_span cap r).offset ≡ r.head) × ((readable_span cap r).size ≡ r.tail - r.head)
  unfolding readable_span
  span_straight r v h = ground arith

  span_wrapped :
      (r : Ring)
      → IsValid cap r
      → r.tail < r.head
      → ((readable_span cap r).offset ≡ r.head) × ((readable_span cap r).size ≡ cap - r.head)
  unfolding readable_span
  span_wrapped r v h = ground arith

  span_empty : (r : Ring) → IsValid cap r → r.head ≡ r.tail → (readable_span cap r).size ≡ 0
  unfolding readable_span
  span_empty r v h = ground arith

  -- The readable span is the front of the contents. The ring is valid, and its capacity 2 to 2^62.
  pub readable_bytes-take :
      (r : Ring)
      → IsValid cap r
      → readable_bytes cap r ≡ take (readable_span cap r).size (contents r)
  unfolding readable_bytes
  readable_bytes-take r v = elim (dec_lt r.head r.tail) [
    | yes p ↦ ground (
      arith,
      span_straight r v p,
      subspan_straight r.storage r.head r.tail (omega arith),
      take_all (r.tail - r.head) (contents r)
          (omega (arith, length-contents cap c r v, size_straight cap c r v (omega arith))),
    )
    | no p ↦ elim (ℕ_discrete r.head r.tail) [
      | yes q ↦ rw (span_empty r v q) refl
      | no q ↦ ground (
        arith,
        span_wrapped r v (omega arith),
        take-append_le (cap - r.head) (drop r.head r.storage) (take r.tail r.storage)
            (omega (arith, length-drop r.head r.storage)),
      )
    ]
  ]

  -- Unless the readable bytes are reported as wrapped, the span shows all of them.
  pub readable_size_all :
      (r : Ring)
      → IsValid cap r
      → has_wrapped_readable_data cap r ≡ false
      → (readable_span cap r).size ≡ size cap r
  unfolding readable_span has_wrapped_readable_data
  readable_size_all r v h = ground arith

  -- A read that goes on behind the readable span goes on at the start of the storage.
  take-contents_around :
      (r : Ring) (n : ℕ)
      → IsValid cap r
      → (readable_span cap r).size < n
      → n ≤ size cap r
      → take n (contents r)
        ≡ take (readable_span cap r).size (contents r)
          ++ take (n - (readable_span cap r).size) r.storage
  take-contents_around r n v p q = elim (dec_lt r.tail r.head) [
    | yes w ↦ ground (
      arith,
      span_wrapped r v w,
      size_wrapped cap c r v w,
      length-drop r.head r.storage,
      take-append_ge n (n - (cap - r.head)) (drop r.head r.storage) (take r.tail r.storage)
          (omega (arith, length-drop r.head r.storage, span_wrapped r v w)),
      take-take (n - (cap - r.head)) r.tail r.storage (omega (arith, size_wrapped cap c r v w)),
      take-append_le (cap - r.head) (drop r.head r.storage) (take r.tail r.storage)
          (omega (arith, length-drop r.head r.storage)),
      take_all (cap - r.head) (drop r.head r.storage) (omega (arith, length-drop r.head r.storage)),
    )
    | no w ↦ elim (dec_lt r.head r.tail) [
      | yes u ↦ absurd (omega (arith, span_straight r v u, size_straight cap c r v (omega arith)))
      | no u ↦ absurd (omega (arith, size_straight cap c r v (omega arith)))
    ]
  ]

  linearize_around :
      (r : Ring) (destination : List ℕ) (n : ℕ)
      → IsValid cap r
      → (readable_span cap r).size < n
      → n ≤ size cap r
      → n ≤ length destination
      → copy_at
          (copy_at destination 0 (readable_bytes cap r))
          (readable_span cap r).size
          (take (n - (readable_span cap r).size) r.storage)
        ≡ copy_at destination 0 (take n (contents r))
  linearize_around r destination n v p q l = rw (readable_bytes-take r v) (
      copy_at-append destination _ (take f (contents r)) (take (n - f) r.storage)
        (omega (arith, length-take f (contents r), length-contents cap c r v))
        (omega (
          arith,
          length-take f (contents r),
          length-contents cap c r v,
          length-take (n - f) r.storage,
        ))
      ∙ ap (copy_at destination 0) (sym (take-contents_around r n v p q)))
    where
      f : ℕ
      f = (readable_span cap r).size

  -- `linearize` copies the front of the contents, as much as the destination holds, also where the
  -- readable bytes go round the end of the storage. The ring is valid, and its capacity 2 to 2^62.
  pub linearize_lem :
      (r : Ring) (destination : List ℕ)
      → IsValid cap r
      → let (n, copied) = linearize cap r destination in
        (n ≡ min (size cap r) (length destination))
        × (copied ≡ copy_at destination 0 (take n (contents r)))
  unfolding linearize
  linearize_lem r destination v =
      elim (dec_lt (readable_span cap r).size (min (size cap r) (length destination))) [
        | yes p ↦ ground (
          arith,
          size-lt cap c r v,
          readable_bytes-take r v,
          take-take (readable_span cap r).size (readable_span cap r).size (contents r)
              (omega arith),
          linearize_around r destination (min (size cap r) (length destination)) v p (omega arith)
              (omega arith),
        )
        | no p ↦ ground (
          arith,
          readable_bytes-take r v,
          take-take (min (size cap r) (length destination)) (readable_span cap r).size (contents r)
              (omega arith),
        )
      ]

  -- A destination of the ring's own size gets all of the contents, in front.
  pub linearize_whole :
      (r : Ring) (destination : List ℕ)
      → IsValid cap r
      → length destination ≡ cap
      → let (n, copied) = linearize cap r destination in
        (take n copied ≡ contents r) × (length copied ≡ cap)
  linearize_whole r destination v e = (front, whole)
    where
      n-size : (linearize cap r destination).0 ≡ length (contents r)
      n-size =
          omega
            (arith, (linearize_lem r destination v).0, length-contents cap c r v, size-lt cap c r v)

      copied : (linearize cap r destination).1 ≡ copy_at destination 0 (contents r)
      copied =
          (linearize_lem r destination v).1
          ∙ ap (copy_at destination 0)
              (take_all (linearize cap r destination).0 (contents r) (omega (arith, n-size)))

      front : take (linearize cap r destination).0 (linearize cap r destination).1 ≡ contents r
      front = rw copied (
          take-append_le _ (contents r) _ (omega (arith, n-size))
          ∙ take_all _ (contents r) (omega (arith, n-size)))

      whole : length (linearize cap r destination).1 ≡ cap
      whole = rw copied (
          length-copy_at destination 0 (contents r)
            (omega (arith, length-contents cap c r v, size-lt cap c r v))
          ∙ e)
