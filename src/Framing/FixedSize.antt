-- ===== src/Framing/FixedSize.antt =====
-- packages/upr_runtime/src/framing/fixed_size_framer.cpp.
use universal_protocol_runti.Base.{ℕ, List, arith, ltb, ◌==◌, if◌then◌else◌, length, length-append}
use universal_protocol_runti.Framing.{Framer, FrameStatus}
use universal_protocol_runti.Framing.Laws.{IsLawful}

-- `FixedSizeFramer::try_frame` of a framer with this `frame_size_`
unfoldable pub try_frame : ℕ → List ℕ → FrameStatus
try_frame frame_size readable_bytes =
    if frame_size == 0
    then FrameStatus.invalid_frame
    else if ltb (length readable_bytes) frame_size
    then FrameStatus.need_more_data
    else FrameStatus.ready (record { offset = 0; size = frame_size; bytes_consumed = frame_size })

abbrev pub framer : ℕ → Framer
framer frame_size = record { try_frame = try_frame frame_size }

-- The fixed-size framer is lawful, for every frame size.
pub fixed_size-IsLawful : (frame_size : ℕ) → IsLawful (framer frame_size)
unfolding try_frame
fixed_size-IsLawful n = record {
  ready-append = λ bytes more s h. ground (arith, length-append bytes more);
  invalid-append = λ bytes more h. ground (arith, length-append bytes more);
  ready_front = λ bytes more s h k. ground (arith, length-append bytes more);
  inside = λ bytes s h. ground arith;
  progress = λ bytes s h. ground arith;
}
