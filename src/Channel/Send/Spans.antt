-- ===== src/Channel/Send/Spans.antt =====
-- The spans of `write_spans_fully` (adapters/frame_channel.cpp), against the bytes that are still to
-- be written.
use mathlib.Core.List.{append-nil, append_assoc}
use universal_protocol_runti.Base.{
  ℕ, ◌-◌, ◌<◌, ◌≡◌, refl, sym, ap, ◌∙◌, List, [], ◌∷◌, ◌++◌, arith, ◌==◌, if◌then◌else◌, length,
  drop, length-append, length-drop, drop-append_le, drop-append_ge, drop-drop, drop_all, drop-nil,
  if_false_elim,
}
use universal_protocol_runti.Channel.Send.{skip_written, pending_spans, advance}

abbrev pub concat : List (List ℕ) → List ℕ
concat [] = []
concat (span ∷ spans) = span ++ concat spans

-- The bytes that are still to be written.
unfoldable pub unwritten : List (List ℕ) → ℕ → List ℕ
unwritten [] span_offset = []
unwritten (span ∷ spans) span_offset = drop span_offset span ++ concat spans

pub unwritten-zero : (spans : List (List ℕ)) → unwritten spans 0 ≡ concat spans
unfolding unwritten
unwritten-zero [] = refl
unwritten-zero (span ∷ spans) = refl

pub unwritten-skip_written :
    (spans : List (List ℕ)) (offset : ℕ)
    → unwritten (skip_written spans offset).0 (skip_written spans offset).1 ≡ unwritten spans offset
unfolding skip_written unwritten
unwritten-skip_written [] offset = refl
unwritten-skip_written (span ∷ spans) offset =
    ground (arith, unwritten-skip_written spans 0, unwritten-zero spans, drop_all offset span)

concat_next : (next : List ℕ) → concat (if length next == 0 then [] else next ∷ []) ≡ next
concat_next [] = refl
concat_next (b ∷ next) =
    if_false_elim (λ s. concat s ≡ b ∷ next) (length (b ∷ next) == 0) _ _ (ground arith)
      (append-nil (b ∷ next))

-- What a vectored write offers is a front of what is to be written.
pub pending_front :
    (spans : List (List ℕ)) (offset : ℕ)
    → (rest : List ℕ) × (unwritten spans offset ≡ concat (pending_spans spans offset) ++ rest)
unfolding pending_spans unwritten
pending_front [] offset = ([], refl)
pending_front (span ∷ []) offset = ([], sym (append-nil _))
pending_front (span ∷ next ∷ spans) offset = (
  concat spans,
  sym (
      append_assoc (drop offset span) _ (concat spans)
      ∙ ap (λ s. drop offset span ++ (s ++ concat spans)) (concat_next next)),
)

pub unwritten-advance :
    (spans : List (List ℕ)) (offset n : ℕ)
    → unwritten (advance spans offset n).0 (advance spans offset n).1
      ≡ drop n (unwritten spans offset)
unfolding advance unwritten
unwritten-advance [] offset n = sym (drop-nil n)
unwritten-advance (span ∷ spans) offset n = ground (
  arith,
  unwritten-advance spans 0 (n - (length span - offset)),
  unwritten-zero spans,
  length-drop offset span,
  drop-drop n offset span,
  drop-append_le n (drop offset span) (concat spans),
  drop-append_ge n (n - (length span - offset)) (drop offset span) (concat spans),
)

-- What is left after skipping begins with a span that is not written yet.
pub skip_written_head :
    (spans rest : List (List ℕ)) (span : List ℕ) (offset : ℕ)
    → (skip_written spans offset).0 ≡ span ∷ rest
    → (skip_written spans offset).1 < length span
unfolding skip_written
skip_written_head [] rest span offset e = cc
skip_written_head (first ∷ spans) rest span offset e =
    ground (arith, skip_written_head spans rest span 0)

pub pending_some :
    (spans : List (List ℕ)) (span : List ℕ) (offset : ℕ)
    → offset < length span
    → 0 < length (concat (pending_spans (span ∷ spans) offset))
unfolding pending_spans
pending_some [] span offset h =
    ground (arith, length-append (drop offset span) [], length-drop offset span)
pending_some (next ∷ spans) span offset h = ground (
  arith,
  length-append (drop offset span) [],
  length-append (drop offset span) (next ++ []),
  length-drop offset span,
)
