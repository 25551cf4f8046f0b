-- ===== src/Framing/Laws.antt =====
-- What a user of `IFramer` relies on: a decision on a front of the stream is final, it waits for
-- the bytes of one frame and no more, and a frame lies inside the bytes that it consumes.
use universal_protocol_runti.Base.{ℕ, ◌+◌, ◌≤◌, ◌<◌, ◌≡◌, List, ◌++◌, length}
use universal_protocol_runti.Framing.{Framer, FrameSlice, FrameStatus}

pub record IsLawful (f : Framer) : Type 0 where
  -- A frame found in the readable bytes is the same with more bytes behind them.
  pub ready-append :
      (bytes more : List ℕ) (s : FrameSlice)
      → f.try_frame bytes ≡ FrameStatus.ready s
      → f.try_frame (bytes ++ more) ≡ FrameStatus.ready s
  pub invalid-append :
      (bytes more : List ℕ)
      → f.try_frame bytes ≡ FrameStatus.invalid_frame
      → f.try_frame (bytes ++ more) ≡ FrameStatus.invalid_frame
  -- A frame is found as soon as its bytes are readable.
  pub ready_front :
      (bytes more : List ℕ) (s : FrameSlice)
      → f.try_frame (bytes ++ more) ≡ FrameStatus.ready s
      → s.bytes_consumed ≤ length bytes
      → f.try_frame bytes ≡ FrameStatus.ready s
  pub inside :
      (bytes : List ℕ) (s : FrameSlice)
      → f.try_frame bytes ≡ FrameStatus.ready s
      → (s.offset + s.size ≤ s.bytes_consumed) × (s.bytes_consumed ≤ length bytes)
  pub progress :
      (bytes : List ℕ) (s : FrameSlice)
      → f.try_frame bytes ≡ FrameStatus.ready s
      → 0 < s.bytes_consumed
