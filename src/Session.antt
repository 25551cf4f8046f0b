-- ===== src/Session.antt =====
-- packages/upr_adapters: adapters/upr_session.{hpp,cpp}, the handshake of a session. A value of
-- `UprTransportMode`, an `enum class` over `uint16_t` that any number of 16 bits may be cast to, is
-- its underlying number. The channel is the section's parameter; how often a handshake polls before
-- its deadline is decided by the clock, so it is an argument.
pub mod Codec
pub mod Agreement
use Prim.Native.String.{String}
use universal_protocol_runti.Base.{
  ℕ, zero, suc, ◌+◌, ◌*◌, ◌/◌, ◌%◌, ◌^◌, Bool, true, false, not, List, [], ◌∷◌, ◌++◌, ltb, ◌==◌,
  if◌then◌else◌, length, take, subspan, bit_and,
}
use universal_protocol_runti.Status.{
  Status, StatusOr, value, failure, is_ok, ok_status, io_error, exhausted, invalid_argument,
}
use universal_protocol_runti.Scalar.{read_little}
use universal_protocol_runti.Channel.{FrameChannelPollStatus, FrameChannelPollResult}

-- `UprTransportMode`
abbrev pub length_prefixed_stream : ℕ
length_prefixed_stream = 1

abbrev pub descriptor_ring : ℕ
descriptor_ring = 2

abbrev pub datagram : ℕ
datagram = 3

pub record UprSessionHandshake : Type 0 where
  pub protocol_version : ℕ
  pub flags : ℕ
  pub transport_mode : ℕ
  pub frame_codec : ℕ
  pub max_frame_bytes : ℕ
  pub session_id : ℕ

-- The defaults of the fields.
abbrev pub default_handshake : UprSessionHandshake
default_handshake = record {
  protocol_version = 1;
  flags = 0;
  transport_mode = length_prefixed_stream;
  frame_codec = 1;
  max_frame_bytes = 2 ^ 20;
  session_id = 0;
}

-- "UPR1"
abbrev pub magic : List ℕ
magic = 85 ∷ 80 ∷ 82 ∷ 49 ∷ []

-- output->push_back((value >> (index * 8U)) & 0xFFU), from this index on, for so many bytes
unfoldable pub append_from : ℕ → ℕ → ℕ → List ℕ → List ℕ
append_from n index zero output = output
append_from n index (suc width) output =
    append_from n (index + 1) width (output ++ (bit_and (n / 2 ^ (index * 8)) 255 ∷ []))

-- `append_le` of an integer of this width.
unfoldable pub append_le : ℕ → ℕ → List ℕ → List ℕ
unfolding append_from
append_le width n output = append_from n 0 width output

-- `decode_le` to an integer of this width.
unfoldable pub decode_le : ℕ → List ℕ → ℕ → ℕ
decode_le width bytes offset = read_little 0 0 (subspan bytes offset width) % 2 ^ (width * 8)

unfoldable pub encode_handshake : UprSessionHandshake → List ℕ
encode_handshake handshake = append_le 8 handshake.session_id (
    append_le 4 handshake.max_frame_bytes (
      append_le 2 handshake.frame_codec (
        append_le 2 handshake.transport_mode
          (append_le 2 handshake.flags (append_le 2 handshake.protocol_version ([] ++ magic))))))

-- std::equal(kMagic.begin(), kMagic.end(), bytes.begin()), for bytes that are long enough
unfoldable pub begins_with : List ℕ → List ℕ → Bool
begins_with [] bytes = true
begins_with (m ∷ ms) [] = false
begins_with (m ∷ ms) (b ∷ bytes) =
    let later = begins_with ms bytes in if m == b then later else false

unfoldable pub decode_handshake : List ℕ → StatusOr UprSessionHandshake
decode_handshake bytes =
    if not (length bytes == 24)
    then failure (invalid_argument "UPR handshake frame has an unexpected size.")
    else if not (begins_with magic bytes)
    then failure (invalid_argument "UPR handshake magic is invalid.")
    else value (record {
      protocol_version = decode_le 2 bytes 4;
      flags = decode_le 2 bytes 6;
      transport_mode = decode_le 2 bytes 8;
      frame_codec = decode_le 2 bytes 10;
      max_frame_bytes = decode_le 4 bytes 12;
      session_id = decode_le 8 bytes 16;
    })

unfoldable pub validate_compatibility : UprSessionHandshake → UprSessionHandshake → Status
validate_compatibility local remote =
    if not (local.protocol_version == remote.protocol_version)
    then invalid_argument "UPR protocol versions do not match."
    else if not (local.transport_mode == remote.transport_mode)
    then invalid_argument "UPR transport modes do not match."
    else if not (local.frame_codec == remote.frame_codec)
    then invalid_argument "UPR frame codecs do not match."
    else if ltb remote.max_frame_bytes local.max_frame_bytes
    then invalid_argument "Remote max frame size is smaller than the local requirement."
    else ok_status

-- The remote handshake is the object that the caller passes.
unfoldable pub accept :
    UprSessionHandshake
    → StatusOr UprSessionHandshake
    → UprSessionHandshake
    → Status × UprSessionHandshake
accept local (failure status) remote = (status, remote)
accept local (value decoded) remote =
    if is_ok (validate_compatibility local decoded).code
    then (ok_status, decoded)
    else (validate_compatibility local decoded, remote)

-- What a poll means for the loop that waits for a frame.
pub data Waiting : Type 0 where
  arrived broken waiting : Waiting

abbrev pub waiting_of : FrameChannelPollStatus → Waiting
waiting_of FrameChannelPollStatus.frame_ready = Waiting.arrived
waiting_of FrameChannelPollStatus.would_block = Waiting.waiting
waiting_of FrameChannelPollStatus.need_more_data = Waiting.waiting
waiting_of _ = Waiting.broken

module _ {Channel : Type 0} (send_frame : Channel → List ℕ → Status × Channel)
    (receive_frame : Channel → List ℕ → FrameChannelPollResult × List ℕ × Channel) where
  -- `receive_handshake_frame`, with so many polls before the deadline.
  unfoldable pub receive_handshake_frame : ℕ → Channel → List ℕ → String → Status × List ℕ × Channel
  receive_handshake_frame zero channel frame error_message =
      (exhausted error_message, frame, channel)
  receive_handshake_frame (suc polls) channel frame error_message =
      let (result, frame', channel') = receive_frame channel frame in
      let later = receive_handshake_frame polls channel' frame' error_message in
      elim (waiting_of result.status) [
        | Waiting.arrived ↦ (ok_status, frame', channel')
        | Waiting.broken ↦ (io_error error_message, frame', channel')
        | Waiting.waiting ↦ later
      ]

  unfoldable pub client_handshake :
      ℕ
      → Channel
      → UprSessionHandshake
      → UprSessionHandshake
      → Status × UprSessionHandshake × Channel
  client_handshake polls channel local remote =
      let (send_status, sent) = send_frame channel (encode_handshake local) in
      let (receive_status, response, received) =
        receive_handshake_frame polls sent [] "Server handshake response failed." in
      let (status, remote') = accept local (decode_handshake response) remote in
      if not (is_ok send_status.code)
      then (send_status, remote, sent)
      else if not (is_ok receive_status.code)
      then (receive_status, remote, received)
      else (status, remote', received)

  unfoldable pub server_handshake :
      ℕ
      → Channel
      → UprSessionHandshake
      → UprSessionHandshake
      → Status × UprSessionHandshake × Channel
  server_handshake polls channel local remote =
      let (receive_status, request, received) =
        receive_handshake_frame polls channel [] "Client handshake request failed." in
      let (status, remote') = accept local (decode_handshake request) remote in
      let (send_status, sent) = send_frame received (encode_handshake local) in
      if not (is_ok receive_status.code)
      then (receive_status, remote, received)
      else if not (is_ok status.code)
      then (status, remote', received)
      else (send_status, remote', sent)
