-- ===== src/Examples/Codecs.antt =====
-- Scalars, hashes, a handshake and a small protocol.
use universal_protocol_runti.Base.{
  ℕ, ◌≡◌, ◌↔◌, refl, true, ◌&&◌, List, [], ◌∷◌, some, none, arith, leb, length, if◌then◌else◌,
}
use universal_protocol_runti.Core.{little_endian, big_endian, DecodeStatus}
use universal_protocol_runti.Status.{Status, value, ok_status, is_ok}
use universal_protocol_runti.Scalar.{
  read_unsigned_scalar, write_unsigned_scalar, write_unsigned_scalar_unchecked,
}
use universal_protocol_runti.Scalar.Value
use universal_protocol_runti.Scalar.Value.{bytes_of}
use universal_protocol_runti.Scalar.Read.{read-value}
use universal_protocol_runti.Scalar.Write.{write_unchecked-bytes_of, read-write}
use universal_protocol_runti.Channel.{FrameChannelPollResult, FrameChannelPollStatus, polled}
use universal_protocol_runti.Session.{
  UprSessionHandshake, default_handshake, encode_handshake, decode_handshake,
  validate_compatibility, receive_handshake_frame, client_handshake, server_handshake,
}
use universal_protocol_runti.Session.Codec.{IsInRange, decode-encode_handshake}
use universal_protocol_runti.Session.Agreement.{validate_compatibility_both, handshake_agreed}
use universal_protocol_runti.Dispatch.{CompiledMessage, decode_any, enter_all, no_candidates}
use universal_protocol_runti.Dispatch.Linear.{decode_linear, decode_any-linear}
use universal_protocol_runti.Hash.{
  init, update, digest, xxhash64, digest_of, digest_words, digest_half, digest_bytes, avalanche,
  initial_lanes, rotl,
}
use universal_protocol_runti.Hash.Incremental.{update_all, digest-update_all}

read-value_example :
    read_unsigned_scalar big_endian (1 ∷ 2 ∷ 3 ∷ [])
    ≡ (if leb 1 3 && leb 3 8 then some (Value.value big_endian (1 ∷ 2 ∷ 3 ∷ [])) else none)
read-value_example = read-value big_endian (1 ∷ 2 ∷ 3 ∷ []) (omega arith)

write_unchecked-bytes_of_example :
    write_unsigned_scalar_unchecked big_endian 4 0x01020304 ≡ bytes_of big_endian 4 0x01020304
write_unchecked-bytes_of_example = write_unchecked-bytes_of big_endian 4 0x01020304 (omega arith)

read-write_example :
    ((write_unsigned_scalar little_endian (0 ∷ 0 ∷ 0 ∷ []) 70000).0 ≡ true)
    × (length (write_unsigned_scalar little_endian (0 ∷ 0 ∷ 0 ∷ []) 70000).1 ≡ 3)
    × (read_unsigned_scalar little_endian
          (write_unsigned_scalar little_endian (0 ∷ 0 ∷ 0 ∷ []) 70000).1
        ≡ some 70000)
read-write_example =
    read-write little_endian (0 ∷ 0 ∷ 0 ∷ []) 70000 (omega arith) (omega arith) (omega arith)

digest-update_all_example :
    digest (update_all (init 0) ((97 ∷ []) ∷ (98 ∷ 99 ∷ []) ∷ [])) ≡ xxhash64 (97 ∷ 98 ∷ 99 ∷ []) 0
digest-update_all_example = digest-update_all 0 ((97 ∷ []) ∷ (98 ∷ 99 ∷ []) ∷ [])

default-IsInRange : IsInRange default_handshake
default-IsInRange = record {
  protocol_version = omega arith;
  flags = omega arith;
  transport_mode = omega arith;
  frame_codec = omega arith;
  max_frame_bytes = omega arith;
  session_id = omega arith;
}

decode-encode_handshake_example :
    decode_handshake (encode_handshake default_handshake) ≡ value default_handshake
decode-encode_handshake_example = decode-encode_handshake default_handshake default-IsInRange

-- Another session of the same protocol.
abbrev other_handshake : UprSessionHandshake
other_handshake = record default_handshake { session_id = 7 }

validate_compatibility_example :
    ((is_ok (validate_compatibility default_handshake other_handshake).code ≡ true)
      × (is_ok (validate_compatibility other_handshake default_handshake).code ≡ true))
    ↔ ((default_handshake.protocol_version ≡ other_handshake.protocol_version)
        × (default_handshake.transport_mode ≡ other_handshake.transport_mode)
        × (default_handshake.frame_codec ≡ other_handshake.frame_codec)
        × (default_handshake.max_frame_bytes ≡ other_handshake.max_frame_bytes))
validate_compatibility_example = validate_compatibility_both default_handshake other_handshake

-- A channel that holds the frame that the other side has sent.
abbrev send : List ℕ → List ℕ → Status × List ℕ
send incoming bytes = (ok_status, incoming)

abbrev receive : List ℕ → List ℕ → FrameChannelPollResult × List ℕ × List ℕ
receive incoming old = (polled FrameChannelPollStatus.frame_ready, incoming, [])

handshake_agreed_example :
    (client_handshake send receive 1
        (encode_handshake other_handshake)
        default_handshake
        default_handshake
      ≡ (ok_status, other_handshake, []))
    × (server_handshake send receive 1
          (encode_handshake default_handshake)
          other_handshake
          other_handshake
        ≡ (ok_status, default_handshake, []))
unfolding receive_handshake_frame
handshake_agreed_example =
    handshake_agreed send receive 1 default_handshake other_handshake default_handshake
      other_handshake (encode_handshake other_handshake) (encode_handshake other_handshake) []
      (encode_handshake default_handshake) [] [] default-IsInRange
      (record {
        protocol_version = omega arith;
        flags = omega arith;
        transport_mode = omega arith;
        frame_codec = omega arith;
        max_frame_bytes = omega arith;
        session_id = omega arith;
      })
      refl refl refl refl refl refl refl refl

-- Three messages: two that begin with the byte 1, and one without a prefix.
abbrev messages : List (CompiledMessage ℕ)
messages =
    record { dispatch_prefix = 1 ∷ 2 ∷ []; layout = 3 }
    ∷ record { dispatch_prefix = []; layout = 1 }
    ∷ record { dispatch_prefix = 1 ∷ []; layout = 2 }
    ∷ []

-- A layout is the size of its frames.
abbrev decode_size : ℕ → List ℕ → List ℕ → DecodeStatus × List ℕ
decode_size n frame message =
    if leb n (length frame) then (DecodeStatus.ok, frame) else (DecodeStatus.invalid_data, message)

decode_any-linear_example :
    decode_any decode_size (1 ∷ 9 ∷ []) messages (enter_all messages 0 no_candidates) []
    ≡ decode_linear decode_size messages (1 ∷ 9 ∷ []) []
decode_any-linear_example = decode_any-linear decode_size messages (1 ∷ 9 ∷ []) [] (omega arith)

-- The published digest of no bytes.
xxhash64_nothing : xxhash64 [] 0 ≡ 0xEF46DB3751D8E999
unfolding xxhash64 digest digest_of update init digest_words digest_half digest_bytes avalanche
    initial_lanes
xxhash64_nothing = refl

-- The published digest of "abc".
xxhash64_abc : xxhash64 (97 ∷ 98 ∷ 99 ∷ []) 0 ≡ 0x44BC2CF5AD770999
unfolding xxhash64 digest digest_of update init digest_words digest_half digest_bytes avalanche
    initial_lanes rotl
xxhash64_abc = refl
