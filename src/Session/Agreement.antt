-- ===== src/Session/Agreement.antt =====
-- `validate_compatibility`, and the two sides of a handshake (adapters/upr_session.cpp).
use universal_protocol_runti.Base.{ℕ, ◌≤◌, ◌≡◌, ◌↔◌, refl, sym, true, List, [], arith}
use universal_protocol_runti.Status.{Status, is_ok, ok_status}
use universal_protocol_runti.Channel.{FrameChannelPollResult}
use universal_protocol_runti.Session.{
  UprSessionHandshake, encode_handshake, decode_handshake, validate_compatibility,
  receive_handshake_frame, accept, client_handshake, server_handshake,
}
use universal_protocol_runti.Session.Codec.{IsInRange, decode-encode_handshake}

-- What two peers have to agree on.
pub record Agree (a b : UprSessionHandshake) : Type 0 where
  pub protocol_version : a.protocol_version ≡ b.protocol_version
  pub transport_mode : a.transport_mode ≡ b.transport_mode
  pub frame_codec : a.frame_codec ≡ b.frame_codec
  pub max_frame_bytes : a.max_frame_bytes ≤ b.max_frame_bytes

validate_ok :
    (local remote : UprSessionHandshake)
    → is_ok (validate_compatibility local remote).code ≡ true
    → Agree local remote
unfolding validate_compatibility
validate_ok local remote e = record {
  protocol_version = ground arith;
  transport_mode = ground arith;
  frame_codec = ground arith;
  max_frame_bytes = ground arith;
}

validate_agreed :
    (local remote : UprSessionHandshake)
    → Agree local remote
    → validate_compatibility local remote ≡ ok_status
unfolding validate_compatibility
validate_agreed local remote a =
    ground (arith, a.protocol_version, a.transport_mode, a.frame_codec, a.max_frame_bytes)

-- Both sides accept each other just when they announce the same version, mode, codec and greatest
-- frame.
pub validate_compatibility_both :
    (a b : UprSessionHandshake)
    → ((is_ok (validate_compatibility a b).code ≡ true)
        × (is_ok (validate_compatibility b a).code ≡ true))
      ↔ ((a.protocol_version ≡ b.protocol_version)
          × (a.transport_mode ≡ b.transport_mode)
          × (a.frame_codec ≡ b.frame_codec)
          × (a.max_frame_bytes ≡ b.max_frame_bytes))
validate_compatibility_both a b = (
  λ (p, q).
      let x = validate_ok a b p in
      let y = validate_ok b a q in
      (
        x.protocol_version,
        x.transport_mode,
        x.frame_codec,
        omega (arith, x.max_frame_bytes, y.max_frame_bytes),
      ),
  λ (v, m, c, n). (
    rw
        (validate_agreed a b (record {
          protocol_version = v;
          transport_mode = m;
          frame_codec = c;
          max_frame_bytes = omega (arith, n);
        }))
        refl,
    rw
        (validate_agreed b a (record {
          protocol_version = sym v;
          transport_mode = sym m;
          frame_codec = sym c;
          max_frame_bytes = omega (arith, n);
        }))
        refl,
  ),
)

-- What a side makes of the other one's encoding.
accept-encode :
    (local peer old : UprSessionHandshake)
    → IsInRange peer
    → Agree local peer
    → accept local (decode_handshake (encode_handshake peer)) old ≡ (ok_status, peer)
unfolding accept
accept-encode local peer old r agree =
    rw (decode-encode_handshake peer r, accept, validate_agreed local peer agree) refl

module _ {Channel : Type 0} (send_frame : Channel → List ℕ → Status × Channel)
    (receive_frame : Channel → List ℕ → FrameChannelPollResult × List ℕ × Channel) where
  -- When two sides in range announce the same version, mode, codec and greatest frame, each one's
  -- encoding reaches the other one before its deadline, and both sends succeed, then both handshakes
  -- succeed and each side holds what the other one announced.
  pub handshake_agreed :
      (polls : ℕ) (client server client_old server_old : UprSessionHandshake)
      (at_client client_sent client_done at_server server_received server_done : Channel)
      → IsInRange client
      → IsInRange server
      → client.protocol_version ≡ server.protocol_version
      → client.transport_mode ≡ server.transport_mode
      → client.frame_codec ≡ server.frame_codec
      → client.max_frame_bytes ≡ server.max_frame_bytes
      → send_frame at_client (encode_handshake client) ≡ (ok_status, client_sent)
      → receive_handshake_frame send_frame receive_frame polls at_server []
          "Client handshake request failed."
        ≡ (ok_status, encode_handshake client, server_received)
      → send_frame server_received (encode_handshake server) ≡ (ok_status, server_done)
      → receive_handshake_frame send_frame receive_frame polls client_sent []
          "Server handshake response failed."
        ≡ (ok_status, encode_handshake server, client_done)
      → (client_handshake send_frame receive_frame polls at_client client client_old
          ≡ (ok_status, server, client_done))
        × (server_handshake send_frame receive_frame polls at_server server server_old
            ≡ (ok_status, client, server_done))
  unfolding client_handshake server_handshake
  handshake_agreed polls client server client_old server_old at_client client_sent client_done
        at_server server_received server_done rc rs v m c n sent_c got_s sent_s got_c =
      (
        rw
            (
              sent_c,
              got_c,
              accept-encode client server client_old rs (record {
                protocol_version = v;
                transport_mode = m;
                frame_codec = c;
                max_frame_bytes = omega (arith, n);
              }),
            )
            refl,
        rw
            (
              got_s,
              sent_s,
              accept-encode server client server_old rc (record {
                protocol_version = sym v;
                transport_mode = sym m;
                frame_codec = sym c;
                max_frame_bytes = omega (arith, n);
              }),
            )
            refl,
      )
