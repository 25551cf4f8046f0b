-- ===== src/Dispatch/Linear.antt =====
-- `decode_any` (protocol_decoder.cpp) against a scan of all messages of the protocol.
use mathlib.Core.List.{append_assoc}
use universal_protocol_runti.Base.{
  ℕ, zero, suc, ◌≡◌, refl, sym, ap, ◌∙◌, Bool, true, false, not, List, [], ◌∷◌, ◌++◌, some, arith,
  ◌==◌, if◌then◌else◌, length, get_elem?, length-append, Bool-cases, inl, inr, if_true_elim,
  replicate,
}
use universal_protocol_runti.Core.{DecodeStatus, AreBytes}
use universal_protocol_runti.Dispatch.{
  CompiledMessage, Attempt, no_candidates, enter_all, dispatch_candidate_ids,
  frame_matches_dispatch_prefix, starts_with, decode_ok, try_candidate, try_decode_candidates,
  decode_any, ids_at,
}
use universal_protocol_runti.Dispatch.Index.{
  begins, is_empty, ids_where, ids_at-enter_all, fallback-enter_all,
}

nothing_yet : (b n : ℕ) → ids_at (replicate n []) b ≡ []
nothing_yet b zero = refl
nothing_yet zero (suc n) = refl
nothing_yet (suc b) (suc n) = nothing_yet b n

agree_empty_at :
    (prefix : List ℕ)
    → (if length prefix == 0 then true else starts_with prefix []) ≡ true
    → false ≡ not (is_empty prefix)
unfolding starts_with
agree_empty_at [] e = refl
agree_empty_at (p ∷ prefix) e = ground arith

agree_front_at :
    (b : ℕ) (frame prefix : List ℕ)
    → (if length prefix == 0 then true else starts_with prefix (b ∷ frame)) ≡ true
    → begins b prefix ≡ not (is_empty prefix)
unfolding starts_with
agree_front_at b frame [] e = refl
agree_front_at b frame (p ∷ prefix) e = ground arith

module _ {Layout Message : Type 0}
    (decode_message : Layout → List ℕ → Message → DecodeStatus × Message) where
  -- A scan of the messages whose prefix `p` selects.
  unfoldable pub scan :
      (List ℕ → Bool) → List ℕ → List (CompiledMessage Layout) → Attempt Message → Attempt Message
  scan p frame [] a = a
  scan p frame (m ∷ messages) a =
      let (returns, a') = try_candidate decode_message frame m a in
      let found = scan p frame messages a' in
      let rest = scan p frame messages a in
      if p m.dispatch_prefix then (if returns then a' else found) else rest

  -- `decode_any` without the table: first the messages that have a prefix, then those that have none.
  unfoldable pub decode_linear :
      List (CompiledMessage Layout) → List ℕ → Message → DecodeStatus × Message
  decode_linear messages frame message =
      let first =
        scan (λ prefix. not (is_empty prefix)) frame messages
          (record {
            status = DecodeStatus.message_not_found;
            attempted = false;
            message = message;
          }) in
      let second = scan is_empty frame messages first in
      if decode_ok first.status then (first.status, first.message) else (
        (if second.attempted then second.status else DecodeStatus.message_not_found),
        second.message,
      )

  get_elem?-middle :
      (front : List (CompiledMessage Layout)) (m : CompiledMessage Layout)
      (messages : List (CompiledMessage Layout))
      → get_elem? (front ++ m ∷ messages) (length front) ≡ some m
  get_elem?-middle [] m messages = refl
  get_elem?-middle (x ∷ front) m messages = get_elem?-middle front m messages

  module _ (frame : List ℕ) (all : List (CompiledMessage Layout)) where
    try_one :
        (index : ℕ) (ids : List ℕ) (m : CompiledMessage Layout) (a : Attempt Message)
        → get_elem? all index ≡ some m
        → try_decode_candidates decode_message frame all (index ∷ ids) a ≡ (
            if (try_candidate decode_message frame m a).0
            then (try_candidate decode_message frame m a).1
            else try_decode_candidates decode_message frame all ids
                (try_candidate decode_message frame m a).1)
    unfolding try_decode_candidates
    try_one index ids m a e = rw (try_decode_candidates, e) refl

    try_if :
        (b : Bool) (index : ℕ) (ids : List ℕ) (a : Attempt Message) {x y : Attempt Message}
        → try_decode_candidates decode_message frame all (index ∷ ids) a ≡ x
        → try_decode_candidates decode_message frame all ids a ≡ y
        → try_decode_candidates decode_message frame all (if b then index ∷ ids else ids) a
          ≡ (if b then x else y)
    try_if true index ids a h k = h
    try_if false index ids a h k = k

    -- The candidates that a selection of the messages gives are tried as a scan tries them.
    try-ids_where :
        (p : List ℕ → Bool) (front messages : List (CompiledMessage Layout)) (index : ℕ)
        (a : Attempt Message)
        → all ≡ front ++ messages
        → index ≡ length front
        → try_decode_candidates decode_message frame all (ids_where p index messages) a
          ≡ scan p frame messages a
    unfolding try_decode_candidates scan
    try-ids_where p front [] index a e h = refl
    try-ids_where p front (m ∷ messages) index a e h =
        let at : get_elem? all index ≡ some m =
          ap (λ xs. get_elem? xs index) e
          ∙ ap (get_elem? (front ++ m ∷ messages)) h
          ∙ get_elem?-middle front m messages in
        let later = λ (a' : Attempt Message).
          try-ids_where p (front ++ (m ∷ [])) messages (suc index) a'
            (e ∙ sym (append_assoc front (m ∷ []) messages))
            (omega (arith, length-append front (m ∷ []))) in
        try_if (p m.dispatch_prefix) index _ a
          (try_one index _ m a at
            ∙ ap
                (λ r.
                  if (try_candidate decode_message frame m a).0
                  then (try_candidate decode_message frame m a).1
                  else r)
                (later (try_candidate decode_message frame m a).1))
          (later a)

  -- A message that does not match is passed over.
  passed_over :
      (frame : List ℕ) (m : CompiledMessage Layout) (a : Attempt Message)
      → frame_matches_dispatch_prefix m frame ≡ false
      → try_candidate decode_message frame m a ≡ (false, a)
  unfolding try_candidate
  passed_over frame m a e = if_true_elim (λ r. r ≡ (false, a)) _ _ _ (ap not e) refl

  if_same : {A : Type 0} (b : Bool) (x : A) → (if b then x else x) ≡ x
  if_same true x = refl
  if_same false x = refl

  -- Two selections that agree on the messages that match are scanned alike.
  scan_agree :
      (p q : List ℕ → Bool) (frame : List ℕ)
      → ((m : CompiledMessage Layout)
          → frame_matches_dispatch_prefix m frame ≡ true
          → p m.dispatch_prefix ≡ q m.dispatch_prefix)
      → (messages : List (CompiledMessage Layout)) (a : Attempt Message)
      → scan p frame messages a ≡ scan q frame messages a
  unfolding scan
  scan_agree p q frame agree [] a = refl
  scan_agree p q frame agree (m ∷ messages) a =
      let later = scan_agree p q frame agree messages in
      elim (Bool-cases (frame_matches_dispatch_prefix m frame)) [
        | inl e ↦ rw (agree m e, later a, later (try_candidate decode_message frame m a).1) refl
        | inr e ↦ rw (passed_over frame m a e) (
            if_same (p m.dispatch_prefix) _
            ∙ later a
            ∙ sym (if_same (q m.dispatch_prefix) (scan q frame messages a)))
      ]

  scan_nothing :
      (frame : List ℕ) (messages : List (CompiledMessage Layout)) (a : Attempt Message)
      → scan (λ prefix. false) frame messages a ≡ a
  unfolding scan
  scan_nothing frame [] a = refl
  scan_nothing frame (m ∷ messages) a = scan_nothing frame messages a

  agree_empty :
      (m : CompiledMessage Layout)
      → frame_matches_dispatch_prefix m [] ≡ true
      → false ≡ not (is_empty m.dispatch_prefix)
  unfolding frame_matches_dispatch_prefix starts_with
  agree_empty m e = agree_empty_at m.dispatch_prefix e

  agree_front :
      (b : ℕ) (frame : List ℕ) (m : CompiledMessage Layout)
      → frame_matches_dispatch_prefix m (b ∷ frame) ≡ true
      → begins b m.dispatch_prefix ≡ not (is_empty m.dispatch_prefix)
  unfolding frame_matches_dispatch_prefix
  agree_front b frame m e = agree_front_at b frame m.dispatch_prefix e

  -- The candidates of a frame are the messages whose prefix begins with its first byte.
  dispatch-scan :
      (frame : List ℕ) (messages : List (CompiledMessage Layout)) (a : Attempt Message)
      → AreBytes frame
      → try_decode_candidates decode_message frame messages
          (dispatch_candidate_ids (enter_all messages 0 no_candidates) frame)
          a
        ≡ scan (λ prefix. not (is_empty prefix)) frame messages a
  unfolding dispatch_candidate_ids try_decode_candidates
  dispatch-scan [] messages a ok =
      sym (scan_nothing [] messages a)
      ∙ scan_agree (λ prefix. false) (λ prefix. not (is_empty prefix)) [] agree_empty messages a
  dispatch-scan (b ∷ frame) messages a ok =
      ap (λ ids. try_decode_candidates decode_message (b ∷ frame) messages ids a)
        (ids_at-enter_all messages 0 b no_candidates ok.0
          ∙ ap (λ s. s ++ ids_where (begins b) 0 messages) (nothing_yet b 256))
      ∙ try-ids_where (b ∷ frame) messages (begins b) [] messages 0 a refl refl
      ∙ scan_agree (begins b) (λ prefix. not (is_empty prefix)) (b ∷ frame) (agree_front b frame)
          messages a

  fallback-scan :
      (frame : List ℕ) (messages : List (CompiledMessage Layout)) (a : Attempt Message)
      → try_decode_candidates decode_message frame messages
          (enter_all messages 0 no_candidates).fallback_message_ids
          a
        ≡ scan is_empty frame messages a
  fallback-scan frame messages a =
      ap (λ ids. try_decode_candidates decode_message frame messages ids a)
        (fallback-enter_all messages 0 no_candidates)
      ∙ try-ids_where frame messages is_empty [] messages 0 a refl refl

  -- For every frame of bytes, `decode_any` with the table that the constructor of the protocol
  -- builds gives the status and the message that a scan of all messages gives, those with a dispatch
  -- prefix first and those without one after them.
  pub decode_any-linear :
      (messages : List (CompiledMessage Layout)) (frame : List ℕ) (message : Message)
      → AreBytes frame
      → decode_any decode_message frame messages (enter_all messages 0 no_candidates) message
        ≡ decode_linear messages frame message
  unfolding decode_any decode_linear
  decode_any-linear messages frame message ok =
      rw (dispatch-scan frame messages _ ok, fallback-scan frame messages _) refl
