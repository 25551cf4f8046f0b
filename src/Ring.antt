-- ===== src/Ring.antt =====
-- packages/upr_runtime/include/universal_protocol_runtime/runtime/byte_ring_buffer.hpp:
-- `ByteRingBuffer<Capacity>`, a byte ring that keeps one slot free. `Capacity` is the parameter of
-- the section. A span into the storage is its offset and its length.
pub mod Invariant
pub mod Contents
pub mod Spans
use universal_protocol_runti.Base.{
  ℕ, zero, ◌+◌, ◌-◌, ◌%◌, ◌^◌, min, Bool, not, ◌&&◌, List, [], ◌∷◌, ◌++◌, ltb, leb, ◌==◌,
  if◌then◌else◌, length, take, drop, replicate, subspan, copy_at,
}

-- `size_t` arithmetic.
abbrev pub add_size : ℕ → ℕ → ℕ
add_size a b = (a + b) % 2 ^ 64

abbrev pub sub_size : ℕ → ℕ → ℕ
sub_size a b = (a + 2 ^ 64 - b) % 2 ^ 64

pub record Ring : Type 0 where
  pub head : ℕ
  pub tail : ℕ
  pub storage : List ℕ

-- A region of the storage that a caller may write or read.
pub record Span : Type 0 where
  pub offset : ℕ
  pub size : ℕ

abbrev pub no_span : Span
no_span = record { offset = 0; size = 0 }

module _ (cap : ℕ) where
  unfoldable pub empty_ring : Ring
  empty_ring = record { head = 0; tail = 0; storage = replicate cap 0 }

  abbrev pub capacity : ℕ
  capacity = sub_size cap 1

  unfoldable pub size : Ring → ℕ
  size r =
      if leb r.head r.tail then sub_size r.tail r.head else add_size (sub_size cap r.head) r.tail

  unfoldable pub free_space : Ring → ℕ
  unfolding size
  free_space r = sub_size capacity (size r)

  unfoldable pub empty : Ring → Bool
  unfolding size
  empty r = size r == 0

  unfoldable pub has_wrapped_readable_data : Ring → Bool
  unfolding empty
  has_wrapped_readable_data r = not (empty r) && leb r.tail r.head

  unfoldable pub writable_span : Ring → Span
  unfolding free_space
  writable_span r =
      if free_space r == 0
      then no_span
      else if leb r.head r.tail
      then record {
        offset = r.tail;
        size = min (sub_size (if r.head == 0 then sub_size cap 1 else cap) r.tail) (free_space r);
      }
      else record { offset = r.tail; size = sub_size (sub_size r.head r.tail) 1 }

  -- What the caller does between `writable_span` and `commit_write`: it writes the first bytes of
  -- the span.
  unfoldable pub write_span : Ring → List ℕ → Ring
  write_span r bytes = record r { storage = copy_at r.storage (writable_span r).offset bytes }

  unfoldable pub commit_write : Ring → ℕ → Ring
  commit_write r bytes_written = record r { tail = add_size r.tail bytes_written % cap }

  unfoldable pub readable_span : Ring → Span
  unfolding empty
  readable_span r =
      if empty r
      then no_span
      else if ltb r.head r.tail
      then record { offset = r.head; size = sub_size r.tail r.head }
      else record { offset = r.head; size = sub_size cap r.head }

  -- The bytes that a readable span shows.
  unfoldable pub readable_bytes : Ring → List ℕ
  readable_bytes r = subspan r.storage (readable_span r).offset (readable_span r).size

  unfoldable pub consume : Ring → ℕ → Ring
  consume r bytes_consumed = record r { head = add_size r.head bytes_consumed % cap }

  -- The number of bytes copied, and the destination afterwards.
  unfoldable pub linearize : Ring → List ℕ → ℕ × List ℕ
  linearize r destination =
      let bytes_to_copy = min (size r) (length destination) in
      let first_copy = min bytes_to_copy (readable_span r).size in
      let first = copy_at destination 0 (take first_copy (readable_bytes r)) in
      if first_copy == bytes_to_copy then (bytes_to_copy, first) else (
        bytes_to_copy,
        copy_at first first_copy (take (sub_size bytes_to_copy first_copy) r.storage),
      )
