-- ===== src/Examples/Channels.antt =====
-- A peer that serves its bytes two at a time and takes three at a time.
use universal_protocol_runti.Core.{little_endian, AreBytes}
use universal_protocol_runti.Scalar.Value
use universal_protocol_runti.Base.{
  ℕ, ◌≡◌, refl, false, true, List, [], ◌∷◌, ◌++◌, some, arith, min, length, take,
}
use universal_protocol_runti.Status.{value, failure, ok_status, not_found, invalid_argument}
use universal_protocol_runti.Transport.Laws.{IsReliable}
use universal_protocol_runti.Transport.SpanTransport
use universal_protocol_runti.Transport.SpanTransport.{SpanState, transport-IsReliable}
use universal_protocol_runti.Channel.{
  ByteStreamTransport, FrameChannel, FrameChannelOptions, FrameChannelPollStatus, polled,
  encode_little_endian, encode_from, decode_little_endian,
}
use universal_protocol_runti.Channel.Prefix.{decode-encode_little_endian}
use universal_protocol_runti.Channel.Receive.{receive_frame}
use universal_protocol_runti.Channel.Receive.Unread.{IsSound, pending}
use universal_protocol_runti.Channel.Receive.Delivery.{IsCarried, receive_frame-Delivers}
use universal_protocol_runti.Channel.Send.{send_frame}
use universal_protocol_runti.Channel.Send.Spans.{concat}
use universal_protocol_runti.Channel.Send.Written.{IsWriter, Sends, send_frame-Sends}

record Peer : Type 0 where
  incoming : SpanState
  sent : List ℕ

abbrev peer_transport : ByteStreamTransport
peer_transport = record {
  base = record {
    State = Peer;
    read = λ p n.
        let (result, bytes, st) = SpanTransport.read p.incoming n in
        (result, bytes, record p { incoming = st });
    is_open = λ p. p.incoming.is_open;
  };
  write = λ p bytes. (
    record { bytes_written = min 3 (length bytes); would_block = false; status = ok_status },
    record p { sent = p.sent ++ take (min 3 (length bytes)) bytes },
  );
  writev = λ p spans. (
    record {
      bytes_written = min 3 (length (concat spans));
      would_block = false;
      status = ok_status;
    },
    record p { sent = p.sent ++ take (min 3 (length (concat spans))) (concat spans) },
  );
  wait_until_writable = λ p n. (value true, p);
  preserves_frame_boundaries = λ p. false;
  try_acquire_receive_buffer = λ p. (failure (not_found "no lease"), p);
  release_receive_buffer = λ p lease. (invalid_argument "no lease", p);
}

abbrev left_to_read : Peer → List ℕ
left_to_read p = SpanTransport.remaining p.incoming

peer-IsReliable : IsReliable peer_transport.base left_to_read
peer-IsReliable = record {
  stream = record {
    read_lem = λ p n.
        let r = transport-IsReliable.stream.read_lem p.incoming n in
        record {
          counted = r.counted;
          fits = r.fits;
          taken = r.taken;
          failed = r.failed;
          ended = r.ended;
        };
  };
  succeeds = λ p n. transport-IsReliable.succeeds p.incoming n;
  serves = λ p n. transport-IsReliable.serves p.incoming n;
  advances = λ p n. transport-IsReliable.advances p.incoming n;
}

peer-IsWriter : IsWriter peer_transport (λ p. p.sent)
peer-IsWriter = record {
  writev_lem = λ p spans. record {
    succeeds = refl;
    fits = omega arith;
    progress = λ h. omega arith;
    taken = refl;
  };
  waits = λ p n. refl;
  keeps = λ p n. refl;
}

abbrev channel_options : FrameChannelOptions
channel_options = record { prefix_width_bytes = 2; max_frame_size = 100 }

abbrev frame : List ℕ
frame = 65 ∷ 66 ∷ 67 ∷ []

-- The frame with its prefix, and a byte behind it.
abbrev channel : FrameChannel Peer
channel = record {
  transport = record {
    incoming = record {
      source = 3 ∷ 0 ∷ 65 ∷ 66 ∷ 67 ∷ 9 ∷ [];
      offset = 0;
      chunk_size = 2;
      is_open = true;
    };
    sent = [];
  };
  stream_buffer = [];
  stream_buffer_offset = 0;
}

frame-IsCarried : IsCarried channel_options frame
frame-IsCarried = record { narrow = omega arith; fits = omega arith; accepted = omega arith }

channel-IsSound : IsSound peer_transport channel_options left_to_read channel
channel-IsSound = record { valid = record { within = omega arith }; bounded = omega arith }

send_frame-Sends_example :
    (prefix : List ℕ) × AreBytes prefix
    × (length prefix ≡ 2)
    × (Value.value little_endian prefix ≡ 3)
    × Sends peer_transport
        (λ p. p.sent)
        peer-IsWriter
        channel.transport
        (prefix ++ frame)
        (send_frame peer_transport 6 channel_options channel frame)
send_frame-Sends_example =
    send_frame-Sends peer_transport (λ p. p.sent) peer-IsWriter 6 channel_options channel frame refl
      (omega arith) (omega arith) (omega arith) (omega arith)

receive_frame-Delivers_example :
    (next : FrameChannel Peer) × (receive_frame peer_transport channel_options 7 channel []
      ≡ some (
        record (polled FrameChannelPollStatus.frame_ready) { bytes_transferred = 3 },
        frame,
        next,
      ))
    × IsSound peer_transport channel_options left_to_read next
    × (pending peer_transport channel_options left_to_read next ≡ 9 ∷ [])
unfolding encode_little_endian encode_from
receive_frame-Delivers_example =
    receive_frame-Delivers peer_transport channel_options left_to_read peer-IsReliable frame
      (9 ∷ []) frame-IsCarried 7 channel [] channel-IsSound refl (λ p. refl) (omega arith)

decode-encode_little_endian_example : decode_little_endian (encode_little_endian 300 2) ≡ 300
decode-encode_little_endian_example = decode-encode_little_endian 300 2 (omega arith) (omega arith)
