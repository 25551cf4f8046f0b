-- ===== src/Dispatch.antt =====
-- packages/upr_compiler (`CompiledProtocol`: the table of dispatch candidates that its constructor
-- builds) and packages/upr_runtime/src/decoder/protocol_decoder.cpp (`decode_any`). What a layout
-- holds besides its dispatch prefix, and how a frame is decoded by it, are the section's parameters.
pub mod Index
pub mod Linear
pub mod Decoder
pub mod Plans
use universal_protocol_runti.Base.{
  ℕ, zero, suc, Bool, true, false, ◌&&◌, List, [], ◌∷◌, ◌++◌, Option, some, none, leb, ◌==◌,
  if◌then◌else◌, length, get_elem?, set, replicate, not,
}
use universal_protocol_runti.Core.{DecodeStatus}

-- `CompiledMessage`, as far as the dispatch reads it.
pub record CompiledMessage (Layout : Type 0) : Type 0 where
  pub dispatch_prefix : List ℕ
  pub layout : Layout

-- `dispatch_message_ids_` and `fallback_message_ids_`
pub record Candidates : Type 0 where
  pub dispatch_message_ids : List (List ℕ)
  pub fallback_message_ids : List ℕ

-- The entry of the table for this byte.
abbrev pub ids_at : List (List ℕ) → ℕ → List ℕ
ids_at table b = elim (get_elem? table b) [ some ids ↦ ids | none ↦ [] ]

abbrev pub no_candidates : Candidates
no_candidates = record { dispatch_message_ids = replicate 256 []; fallback_message_ids = [] }

-- How the constructor enters the message with this prefix and index.
unfoldable pub enter : List ℕ → ℕ → Candidates → Candidates
enter [] index c = record c { fallback_message_ids = c.fallback_message_ids ++ (index ∷ []) }
enter (b ∷ prefix) index c = record c {
  dispatch_message_ids =
      set c.dispatch_message_ids b (ids_at c.dispatch_message_ids b ++ (index ∷ []));
}

unfoldable pub enter_all :
    {Layout : Type 0} → List (CompiledMessage Layout) → ℕ → Candidates → Candidates
enter_all [] index c = c
enter_all (m ∷ messages) index c = enter_all messages (suc index) (enter m.dispatch_prefix index c)

unfoldable pub dispatch_candidate_ids : Candidates → List ℕ → List ℕ
dispatch_candidate_ids c [] = []
dispatch_candidate_ids c (b ∷ frame) = ids_at c.dispatch_message_ids b

-- frame.size() >= prefix.size() && std::memcmp(prefix.data(), frame.data(), prefix.size()) == 0
unfoldable pub starts_with : List ℕ → List ℕ → Bool
starts_with [] frame = true
starts_with (p ∷ prefix) [] = false
starts_with (p ∷ prefix) (b ∷ frame) =
    let later = starts_with prefix frame in if p == b then later else false

unfoldable pub frame_matches_dispatch_prefix :
    {Layout : Type 0} → CompiledMessage Layout → List ℕ → Bool
frame_matches_dispatch_prefix m frame =
    if length m.dispatch_prefix == 0 then true else starts_with m.dispatch_prefix frame

-- best_failure == kMessageNotFound || best_failure == kSchemaMismatch
abbrev pub is_weak : DecodeStatus → Bool
is_weak DecodeStatus.message_not_found = true
is_weak DecodeStatus.schema_mismatch = true
is_weak _ = false

abbrev pub decode_ok : DecodeStatus → Bool
decode_ok DecodeStatus.ok = true
decode_ok _ = false

-- What a run over candidates leaves: the status, whether one was attempted, and the message.
pub record Attempt (Message : Type 0) : Type 0 where
  pub status : DecodeStatus
  pub attempted : Bool
  pub message : Message

module _ {Layout Message : Type 0}
    (decode_message : Layout → List ℕ → Message → DecodeStatus × Message) (frame : List ℕ) where
  -- One candidate: the loop returns, or goes on with the best failure so far.
  unfoldable pub try_candidate : CompiledMessage Layout → Attempt Message → Bool × Attempt Message
  try_candidate m a =
      let (status, message) = decode_message m.layout frame a.message in
      if not (frame_matches_dispatch_prefix m frame)
      then (false, a)
      else if decode_ok status
      then (true, record { status = status; attempted = true; message = message })
      else (
        false,
        record {
          status = if is_weak a.status then status else a.status;
          attempted = true;
          message = message;
        },
      )

  -- `messages[candidate_id]` is in range for every entry of the table.
  unfoldable pub try_decode_candidates :
      List (CompiledMessage Layout) → List ℕ → Attempt Message → Attempt Message
  try_decode_candidates messages [] a = a
  try_decode_candidates messages (id ∷ ids) a = elim (get_elem? messages id) [
    | none ↦ try_decode_candidates messages ids a
    | some m ↦
        let (returns, a') = try_candidate m a in
        let rest = try_decode_candidates messages ids a' in if returns then a' else rest
  ]

  unfoldable pub decode_any :
      List (CompiledMessage Layout) → Candidates → Message → DecodeStatus × Message
  decode_any messages c message =
      let first = try_decode_candidates messages (dispatch_candidate_ids c frame) (record {
        status = DecodeStatus.message_not_found;
        attempted = false;
        message = message;
      }) in
      let second = try_decode_candidates messages c.fallback_message_ids first in
      if decode_ok first.status then (first.status, first.message) else (
        (if second.attempted then second.status else DecodeStatus.message_not_found),
        second.message,
      )
