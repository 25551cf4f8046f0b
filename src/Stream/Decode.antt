-- ===== src/Stream/Decode.antt =====
-- The branch of `poll` for a frame that is ready, and what leaves a runtime sound.
use universal_protocol_runti.Base.{
  ℕ, ◌≤◌, ◌≡◌, refl, sym, ap, ◌∙◌, List, ◌++◌, arith, length, drop, drop-append_le,
}
use mathlib.Core.Path.{ap₂}
use universal_protocol_runti.Core.{DecodeStatus}
use universal_protocol_runti.Ring.{consume}
use universal_protocol_runti.Ring.Invariant.{IsCapacity, consume-IsValid}
use universal_protocol_runti.Ring.Contents.{contents, contents-consume, length-contents}
use universal_protocol_runti.Framing.{Framer, FrameSlice}
use universal_protocol_runti.Transport.{Transport}
use universal_protocol_runti.Transport.Laws.{IsStream}
use universal_protocol_runti.Stream.{
  Runtime, StreamRuntimeOptions, PollResult, PollStatus, Round, RuntimeStats, done, with_status,
  policy_for, frame_decoded,
}
use universal_protocol_runti.Stream.Extract.{SameButScratch}
use universal_protocol_runti.Stream.Fill.{pending, IsSound}

-- What `poll` reports for a frame, by the status of its decoding.
unfoldable pub decoded : StreamRuntimeOptions → ℕ → DecodeStatus → PollResult
decoded options consumed DecodeStatus.ok = record (with_status PollStatus.message_ready) {
  bytes_consumed = consumed;
}
decoded options consumed failed = record {
  status = PollStatus.decode_error;
  decode_status = failed;
  policy = policy_for options failed;
  bytes_consumed = consumed;
}

pub decoded_consumed :
    (options : StreamRuntimeOptions) (consumed : ℕ) (status : DecodeStatus)
    → (decoded options consumed status).bytes_consumed ≡ consumed
unfolding decoded
decoded_consumed options consumed DecodeStatus.ok = refl
decoded_consumed options consumed failed = refl

module _ (cap : ℕ) (c : IsCapacity cap) (t : Transport) (remaining : t.State → List ℕ)
    (stream : IsStream t remaining) (framer : Framer) {Message : Type 0}
    (decode_any : List ℕ → Message → DecodeStatus × Message) (options : StreamRuntimeOptions) where
  abbrev Sound : Runtime t.State → Type 0
  Sound = IsSound cap c t remaining stream

  abbrev unconsumed : Runtime t.State → List ℕ
  unconsumed = pending cap c t remaining stream

  -- A runtime that differs from a sound one in its counters and its scratch array is sound.
  pub SameButScratch-Sound : {a b : Runtime t.State} → Sound a → SameButScratch a b → Sound b
  SameButScratch-Sound sound same = record {
    valid = record {
      ring = rw same.buffer sound.valid.ring;
      scratch = same.scratch ∙ sound.valid.scratch;
    };
    ended = λ q. ap remaining same.transport ∙ sound.ended (sym same.end_of_stream ∙ q);
  }

  -- What decoding a frame leaves: the frame is consumed, and the result and the message are those of
  -- the decoder.
  pub record Decodes (rt : Runtime t.State) (s : FrameSlice) (status : DecodeStatus)
      (message : Message) (r : Round t.State Message) : Type 0 where
    pub next : Runtime t.State
    pub outcome : r ≡ done (decoded options s.bytes_consumed status) next message
    pub buffer : next.buffer ≡ consume cap rt.buffer s.bytes_consumed
    pub transport : next.transport ≡ rt.transport
    pub end_of_stream : next.end_of_stream ≡ rt.end_of_stream
    pub scratch : next.linearized_frame ≡ rt.linearized_frame

  pub frame_decoded-Decodes :
      (rt : Runtime t.State) (s : FrameSlice) (status : DecodeStatus) (message : Message)
      → Decodes rt s status message
          (frame_decoded cap t framer decode_any options rt s status message)
  unfolding frame_decoded decoded
  frame_decoded-Decodes rt s DecodeStatus.ok message = record {
    next = _;
    outcome = refl;
    buffer = refl;
    transport = refl;
    end_of_stream = refl;
    scratch = refl;
  }
  frame_decoded-Decodes rt s failed message = record {
    next = _;
    outcome = refl;
    buffer = refl;
    transport = refl;
    end_of_stream = refl;
    scratch = refl;
  }

  -- Consuming a frame that lies in the contents.
  pub Decodes-Sound :
      {rt : Runtime t.State} {s : FrameSlice} {status : DecodeStatus} {message : Message}
      {r : Round t.State Message}
      → Sound rt
      → s.bytes_consumed ≤ length (contents rt.buffer)
      → (d : Decodes rt s status message r)
      → Sound d.next × (unconsumed d.next ≡ drop s.bytes_consumed (unconsumed rt))
  Decodes-Sound {rt} {s} sound h d = (
    record {
      valid = record {
        ring = rw d.buffer (consume-IsValid cap c rt.buffer s.bytes_consumed sound.valid.ring);
        scratch = ap length d.scratch ∙ sound.valid.scratch;
      };
      ended = λ q. ap remaining d.transport ∙ sound.ended (sym d.end_of_stream ∙ q);
    },
    rw
        (
          d.buffer,
          d.transport,
          contents-consume cap c rt.buffer s.bytes_consumed sound.valid.ring
              (omega (arith, length-contents cap c rt.buffer sound.valid.ring)),
        )
        (sym (drop-append_le s.bytes_consumed (contents rt.buffer) (remaining rt.transport) h)),
  )

  pub with_stats-Sound :
      (rt : Runtime t.State) (stats : RuntimeStats) → Sound rt → Sound (record rt { stats = stats })
  with_stats-Sound rt stats sound = record {
    valid = record { ring = sound.valid.ring; scratch = sound.valid.scratch };
    ended = sound.ended;
  }

  pub unconsumed-Same : {a b : Runtime t.State} → SameButScratch a b → unconsumed b ≡ unconsumed a
  unconsumed-Same same = ap₂ ◌++◌ (ap contents same.buffer) (ap remaining same.transport)
