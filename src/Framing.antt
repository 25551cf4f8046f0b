-- ===== src/Framing.antt =====
-- packages/upr_runtime/include/universal_protocol_runtime/framing: `IFramer` and the result of one
-- attempt to extract a frame. The slice is written only with `kReady`, so it is that constructor's
-- argument.
pub mod Laws
pub mod FixedSize
pub mod LengthPrefixed
pub mod RoundTrip
use Prim.Native.String.{String}
use universal_protocol_runti.Base.{ℕ, List}

pub record FrameSlice : Type 0 where
  pub offset : ℕ
  pub size : ℕ
  pub bytes_consumed : ℕ

pub data FrameStatus : Type 0 where
  ready : FrameSlice → FrameStatus
  need_more_data : FrameStatus
  invalid_frame : FrameStatus

-- `to_string`
unfoldable pub frame_status_name : FrameStatus → String
frame_status_name (FrameStatus.ready s) = "ready"
frame_status_name FrameStatus.need_more_data = "need_more_data"
frame_status_name FrameStatus.invalid_frame = "invalid_frame"

-- `IFramer`
pub record Framer : Type 0 where
  pub try_frame : List ℕ → FrameStatus
