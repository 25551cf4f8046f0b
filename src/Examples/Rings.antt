-- ===== src/Examples/Rings.antt =====
-- A ring of four slots whose readable bytes go round the end of its storage.
use universal_protocol_runti.Base.{
  ◌<◌, ◌%◌, ◌+◌, ◌≤◌, ◌≡◌, refl, [], ◌∷◌, ◌++◌, arith, min, take, drop, copy_at,
}
use universal_protocol_runti.Ring.{
  Ring, size, free_space, writable_span, write_span, commit_write, consume, linearize,
  readable_bytes, readable_span,
}
use universal_protocol_runti.Ring.Invariant.{
  IsCapacity, IsValid, free_space-add-size, writable_span_bounds,
}
use universal_protocol_runti.Ring.Contents.{contents, contents-commit_write, contents-consume}
use universal_protocol_runti.Ring.Spans.{linearize_lem, readable_bytes-take}

abbrev four : IsCapacity 4
four = record { two = omega arith; small = omega arith }

abbrev wrapped : Ring
wrapped = record { head = 3; tail = 1; storage = 10 ∷ 20 ∷ 30 ∷ 40 ∷ [] }

wrapped-IsValid : IsValid 4 wrapped
wrapped-IsValid = record { head_in = omega arith; tail_in = omega arith; storage_size = refl }

contents-commit_write_example :
    contents (commit_write 4 (write_span 4 wrapped (7 ∷ [])) 1) ≡ contents wrapped ++ (7 ∷ [])
unfolding writable_span
contents-commit_write_example =
    contents-commit_write 4 four wrapped (7 ∷ []) wrapped-IsValid (omega arith)

contents-consume_example : contents (consume 4 wrapped 2) ≡ drop 2 (contents wrapped)
unfolding size
contents-consume_example = contents-consume 4 four wrapped 2 wrapped-IsValid (omega arith)

linearize_example :
    ((linearize 4 wrapped (0 ∷ 0 ∷ [])).0 ≡ min (size 4 wrapped) 2)
    × ((linearize 4 wrapped (0 ∷ 0 ∷ [])).1
        ≡ copy_at (0 ∷ 0 ∷ []) 0 (take (linearize 4 wrapped (0 ∷ 0 ∷ [])).0 (contents wrapped)))
linearize_example = linearize_lem 4 four wrapped (0 ∷ 0 ∷ []) wrapped-IsValid

readable_bytes_example :
    readable_bytes 4 wrapped ≡ take (readable_span 4 wrapped).size (contents wrapped)
readable_bytes_example = readable_bytes-take 4 four wrapped wrapped-IsValid

free_space_example :
    ((wrapped.head + size 4 wrapped) % 4 ≡ wrapped.tail)
    × (size 4 wrapped < 4)
    × (free_space 4 wrapped + size 4 wrapped + 1 ≡ 4)
free_space_example = free_space-add-size 4 four wrapped wrapped-IsValid

writable_span_example :
    ((writable_span 4 wrapped).offset + (writable_span 4 wrapped).size ≤ 4)
    × ((writable_span 4 wrapped).size ≤ free_space 4 wrapped)
writable_span_example = writable_span_bounds 4 four wrapped wrapped-IsValid
