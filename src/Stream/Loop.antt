-- ===== src/Stream/Loop.antt =====
-- The loop of `poll`, for rounds that keep the pending bytes and make a measure smaller.
use universal_protocol_runti.Base.{
  ℕ, zero, suc, ◌≤◌, ◌<◌, ◌≡◌, refl, sym, ◌∙◌, List, Option, some, arith, if◌then◌else◌,
}
use universal_protocol_runti.Core.{DecodeStatus}
use universal_protocol_runti.Ring.{free_space}
use universal_protocol_runti.Ring.Invariant.{IsCapacity}
use universal_protocol_runti.Framing.{Framer}
use universal_protocol_runti.Transport.{Transport}
use universal_protocol_runti.Transport.Laws.{IsStream}
use universal_protocol_runti.Stream.{
  Runtime, StreamRuntimeOptions, PollResult, Round, done, continue, round, poll,
}
use universal_protocol_runti.Stream.Extract.{SameButScratch}
use universal_protocol_runti.Stream.Decode.{unconsumed-Same}
use universal_protocol_runti.Stream.Fill.{pending, IsSound}

-- How many rounds may follow a fill: one more once the end of the stream is recorded.
abbrev pub measure : {State : Type 0} → ℕ → Runtime State → ℕ
measure cap rt = if rt.end_of_stream then 0 else suc (free_space cap rt.buffer)

module _ (cap : ℕ) (c : IsCapacity cap) (t : Transport) (remaining : t.State → List ℕ)
    (stream : IsStream t remaining) (framer : Framer) {Message : Type 0}
    (decode_any : List ℕ → Message → DecodeStatus × Message) (options : StreamRuntimeOptions) where
  abbrev Sound : Runtime t.State → Type 0
  Sound = IsSound cap c t remaining stream

  abbrev unconsumed : Runtime t.State → List ℕ
  unconsumed = pending cap c t remaining stream

  -- A round that ends the loop with a result that fulfils `P`, or goes on with less to do.
  pub data Ending (P : PollResult → Runtime t.State → Message → Type 0) (rt : Runtime t.State)
      : Round t.State Message → Type 0 where
    ends :
        {result : PollResult} {next : Runtime t.State} {message : Message}
        → P result next message
        → Ending P rt (done result next message)
    goes_on :
        {next : Runtime t.State}
        → Sound next
        → unconsumed next ≡ unconsumed rt
        → measure cap next < measure cap rt
        → Ending P rt (continue next)

  measure-Same : {a b : Runtime t.State} → SameButScratch a b → measure cap b ≡ measure cap a
  measure-Same same = rw (same.end_of_stream, same.buffer) refl

  -- A round that follows an attempt to extract a frame.
  pub Ending-SameButScratch :
      {P : PollResult → Runtime t.State → Message → Type 0} {a b : Runtime t.State}
      {r : Round t.State Message}
      → SameButScratch a b
      → Ending P b r
      → Ending P a r
  Ending-SameButScratch same (ends p) = ends p
  Ending-SameButScratch same (goes_on sound kept less) =
      goes_on sound (kept ∙ unconsumed-Same cap c t remaining stream framer decode_any options same)
        (rw (sym (measure-Same same)) less)

  -- A result of `poll` that there is, and that fulfils `P`.
  abbrev pub Returns :
      (PollResult → Runtime t.State → Message → Type 0)
      → Option (PollResult × Runtime t.State × Message)
      → Type 0
  Returns P answer =
      (result : PollResult) × (next : Runtime t.State) × (message : Message) × (answer
        ≡ some (result, next, message))
      × P result next message

  module _ (P : PollResult → Runtime t.State → Message → Type 0) (bytes : List ℕ)
      (message : Message) where
    after_round :
        (rounds : ℕ) (rt : Runtime t.State) (r : Round t.State Message)
        → unconsumed rt ≡ bytes
        → measure cap rt ≤ rounds
        → ((next : Runtime t.State)
            → Sound next
            → unconsumed next ≡ bytes
            → measure cap next < rounds
            → Returns P (poll cap t framer decode_any options rounds next message))
        → Ending P rt r
        → Returns P (elim r [
          | done result rt' message' ↦ some (result, rt', message')
          | continue rt' ↦ poll cap t framer decode_any options rounds rt' message
        ])
    after_round rounds rt (done result next message') e h later (ends p) =
        (result, next, message', refl, p)
    after_round rounds rt (continue next) e h later (goes_on sound kept less) =
        later next sound (kept ∙ e) (omega arith)

    -- Where every round with these bytes pending is as `Ending` says, the loop returns.
    pub poll-Returns :
        ((rt : Runtime t.State)
          → Sound rt
          → unconsumed rt ≡ bytes
          → Ending P rt (round cap t framer decode_any options rt message))
        → (rounds : ℕ) (rt : Runtime t.State) → Sound rt
        → unconsumed rt ≡ bytes
        → measure cap rt < rounds
        → Returns P (poll cap t framer decode_any options rounds rt message)
    unfolding poll
    poll-Returns each zero rt sound e h = absurd (omega arith)
    poll-Returns each (suc rounds) rt sound e h =
        after_round rounds rt _ e (omega arith)
          (λ next next_sound kept less. poll-Returns each rounds next next_sound kept less)
          (each rt sound e)
