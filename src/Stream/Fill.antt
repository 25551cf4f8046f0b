-- ===== src/Stream/Fill.antt =====
-- `fill_buffer`, against the bytes that are in the ring and still in the transport.
use mathlib.Core.Path.{ap₂}
use mathlib.Core.List.{append_assoc}
use native.Mathlib.Decide.{dec_lt, ℕ_discrete}
use universal_protocol_runti.Base.{
  ℕ, ◌+◌, ◌<◌, ◌≡◌, ◌≢◌, inl, inr, refl, sym, ap, ◌∙◌, true, false, List, [], ◌++◌, arith, ◌==◌,
  length, length-append, Bool-cases,
}
use universal_protocol_runti.Status.{is_ok}
use universal_protocol_runti.Ring
use universal_protocol_runti.Ring.{free_space, size, writable_span, write_span, commit_write}
use universal_protocol_runti.Ring.Invariant.{
  IsCapacity, writable_span_pos, writable_span_bounds, write_span-IsValid, commit_write-IsValid,
  free_space-add-size,
}
use universal_protocol_runti.Ring.Contents.{
  contents, contents-commit_write, length-contents, write_span-nil,
}
use universal_protocol_runti.Transport.{Transport, ReadResult}
use universal_protocol_runti.Transport.Laws.{IsRead, IsStream}
use universal_protocol_runti.Stream.{Runtime, FillResult, filled, fill_buffer}
use universal_protocol_runti.Stream.Extract.{IsValid}

pub ==_of_ne : (n : ℕ) → n ≢ 0 → (n == 0) ≡ false
==_of_ne n h = ground arith

module _ (cap : ℕ) (c : IsCapacity cap) (t : Transport) (remaining : t.State → List ℕ)
    (stream : IsStream t remaining) where
  -- The bytes that no frame has consumed: those in the ring, and those still in the transport.
  abbrev pub pending : Runtime t.State → List ℕ
  pending rt = contents rt.buffer ++ remaining rt.transport

  -- Besides, the end of the stream is recorded only when nothing is left to read.
  pub record IsSound (rt : Runtime t.State) : Type 0 where
    pub valid : IsValid cap rt
    pub ended : rt.end_of_stream ≡ true → remaining rt.transport ≡ []

  -- What a fill leaves.
  pub record Fills (rt : Runtime t.State) (fill : FillResult) (rt' : Runtime t.State) : Type 0 where
    pub sound : IsSound rt'
    pub kept : pending rt' ≡ pending rt
    pub grown : fill ≡ FillResult.read_some → free_space cap rt'.buffer < free_space cap rt.buffer
    pub at_end : fill ≡ FillResult.end_of_stream → rt'.end_of_stream ≡ true
    pub full : fill ≡ FillResult.no_space → free_space cap rt.buffer ≡ 0

  module _ (rt : Runtime t.State) (sound : IsSound rt) (result : ReadResult) (bytes : List ℕ)
      (st : t.State)
      (read : IsRead remaining rt.transport
        (writable_span cap rt.buffer).size
        result
        bytes
        st) where
    committed :
        contents (commit_write cap (write_span cap rt.buffer bytes) result.bytes_read)
        ≡ contents rt.buffer ++ bytes
    committed =
        rw read.counted (contents-commit_write cap c rt.buffer bytes sound.valid.ring read.fits)

    committed-IsValid :
        Ring.Invariant.IsValid cap
          (commit_write cap (write_span cap rt.buffer bytes) result.bytes_read)
    committed-IsValid =
        commit_write-IsValid cap c _ _
          (write_span-IsValid cap c rt.buffer bytes sound.valid.ring read.fits)

    committed_free :
        free_space cap (commit_write cap (write_span cap rt.buffer bytes) result.bytes_read)
          + result.bytes_read
        ≡ free_space cap rt.buffer
    committed_free = omega (
      arith,
      ap length committed,
      length-append (contents rt.buffer) bytes,
      length-contents cap c rt.buffer sound.valid.ring,
      length-contents cap c _ committed-IsValid,
      free_space-add-size cap c rt.buffer sound.valid.ring,
      free_space-add-size cap c _ committed-IsValid,
      read.counted,
    )

    -- A read that fails leaves the ring and the stream as they were.
    failed_pending :
        is_ok result.status.code ≡ false
        → (contents (write_span cap rt.buffer bytes) ≡ contents rt.buffer)
          × (remaining st ≡ remaining rt.transport)
    failed_pending e =
        let none_read : bytes ≡ [] = read.failed e in
        (
          rw none_read (ap contents (write_span-nil cap c rt.buffer)),
          sym (read.taken ∙ ap (λ front. front ++ remaining st) none_read),
        )

    filled-Fills :
        0 < free_space cap rt.buffer
        → Fills rt (filled cap t rt result bytes st).0 (filled cap t rt result bytes st).1
    unfolding filled
    filled-Fills pos = elim (Bool-cases (is_ok result.status.code)) [
      | inl e ↦ rw e (record {
        sound = record {
          valid = record { ring = committed-IsValid; scratch = sound.valid.scratch };
          ended = read.ended;
        };
        kept =
            ap (λ front. front ++ remaining st) committed
            ∙ append_assoc (contents rt.buffer) bytes (remaining st)
            ∙ ap (◌++◌ (contents rt.buffer)) (sym read.taken);
        grown = λ q. ground (arith, committed_free);
        at_end = λ q. ground arith;
        full = λ q. ground arith;
      })
      | inr e ↦ rw e (record {
        sound = record {
          valid = record {
            ring = write_span-IsValid cap c rt.buffer bytes sound.valid.ring read.fits;
            scratch = sound.valid.scratch;
          };
          ended = λ q. (failed_pending e).1 ∙ sound.ended q;
        };
        kept = ap₂ ◌++◌ (failed_pending e).0 (failed_pending e).1;
        grown = λ q. cc;
        at_end = λ q. cc;
        full = λ q. cc;
      })
    ]

  no_room :
      (rt : Runtime t.State)
      → IsSound rt
      → (writable_span cap rt.buffer).size ≡ 0
      → free_space cap rt.buffer ≡ 0
  no_room rt sound e = elim (dec_lt 0 (free_space cap rt.buffer)) [
    | yes p ↦ absurd (omega (arith, writable_span_pos cap c rt.buffer sound.valid.ring p))
    | no p ↦ omega arith
  ]

  -- One `fill_buffer` keeps the runtime sound and loses none of the pending bytes, whatever it
  -- returns; it says that it read something only if the free space shrank, and that the ring is
  -- full only if it is. The transport is a stream, and the capacity of the storage is 2 to 2^62.
  pub fill_buffer-Fills :
      (rt : Runtime t.State)
      → IsSound rt
      → Fills rt (fill_buffer cap t rt).0 (fill_buffer cap t rt).1
  unfolding fill_buffer
  fill_buffer-Fills rt sound = elim (ℕ_discrete (writable_span cap rt.buffer).size 0) [
    | yes e ↦ rw e (record {
      sound = sound;
      kept = refl;
      grown = λ q. cc;
      at_end = λ q. cc;
      full = λ q. omega (arith, no_room rt sound e);
    })
    | no e ↦ rw (==_of_ne (writable_span cap rt.buffer).size e) (
        filled-Fills rt sound _ _ _
          (stream.read_lem rt.transport (writable_span cap rt.buffer).size)
          (omega (arith, writable_span_bounds cap c rt.buffer sound.valid.ring)))
  ]
