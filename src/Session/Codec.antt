-- ===== src/Session/Codec.antt =====
-- `encode_handshake` and `decode_handshake` (adapters/upr_session.cpp).
use native.Mathlib.Nat.{mod-eq_of_lt}
use mathlib.Core.List.{append-nil, append_assoc}
use mathlib.Core.Path.{ap₂}
use universal_protocol_runti.Base.{
  ℕ, zero, suc, ◌+◌, ◌*◌, ◌/◌, ◌^◌, ◌≤◌, ◌<◌, ◌≡◌, refl, sym, ap, ◌∙◌, List, [], ◌∷◌, ◌++◌, arith,
  subspan, bit_and, and_byte,
}
use universal_protocol_runti.Status.{value}
use universal_protocol_runti.Scalar.Value.{little_bytes}
use universal_protocol_runti.Scalar.Read.{two_pow_bytes}
use universal_protocol_runti.Channel.{decode_little_endian}
use universal_protocol_runti.Channel.Prefix.{decode-little_bytes, shifted_byte}
use universal_protocol_runti.Session.{
  UprSessionHandshake, magic, append_from, append_le, decode_le, encode_handshake, decode_handshake,
  begins_with,
}

-- Every field fits its integer.
pub record IsInRange (h : UprSessionHandshake) : Type 0 where
  pub protocol_version : h.protocol_version < 2 ^ 16
  pub flags : h.flags < 2 ^ 16
  pub transport_mode : h.transport_mode < 2 ^ 16
  pub frame_codec : h.frame_codec < 2 ^ 16
  pub max_frame_bytes : h.max_frame_bytes < 2 ^ 32
  pub session_id : h.session_id < 2 ^ 64

append_from-little_bytes :
    (n i width : ℕ) (output : List ℕ)
    → append_from n i width output ≡ output ++ little_bytes width (n / 2 ^ (i * 8))
unfolding append_from little_bytes
append_from-little_bytes n i zero output = sym (append-nil output)
append_from-little_bytes n i (suc width) output =
    append_from-little_bytes n (i + 1) width (output ++ (bit_and (n / 2 ^ (i * 8)) 255 ∷ []))
    ∙ append_assoc output _ _
    ∙ ap (◌++◌ output)
        (ap₂ ◌∷◌ (and_byte (n / 2 ^ (i * 8))) (ap (little_bytes width) (sym (shifted_byte n i))))

append_le-little_bytes :
    (width n : ℕ) (output : List ℕ) → append_le width n output ≡ output ++ little_bytes width n
unfolding append_le
append_le-little_bytes width n output =
    append_from-little_bytes n 0 width output
    ∙ ap (λ k. output ++ little_bytes width k) (omega arith)

-- A field is read back from behind the bytes in front of it, whatever follows.
decode_le-lem :
    (width n offset : ℕ) (bytes : List ℕ)
    → width ≤ 8
    → n < 256 ^ width
    → subspan bytes offset width ≡ little_bytes width n
    → decode_le width bytes offset ≡ n
unfolding decode_le decode_little_endian
decode_le-lem width n offset bytes h k e =
    rw (e, decode-little_bytes n width h k, two_pow_bytes width) (mod-eq_of_lt k)

-- The bytes of a handshake, field by field.
abbrev wire : UprSessionHandshake → List ℕ
wire h =
    magic
    ++ (little_bytes 2 h.protocol_version
        ++ (little_bytes 2 h.flags
            ++ (little_bytes 2 h.transport_mode
                ++ (little_bytes 2 h.frame_codec
                    ++ (little_bytes 4 h.max_frame_bytes ++ little_bytes 8 h.session_id)))))

encode_handshake-wire : (h : UprSessionHandshake) → encode_handshake h ≡ wire h
unfolding encode_handshake little_bytes
encode_handshake-wire h = simp append_le-little_bytes refl

-- Decoding the encoding of a handshake whose fields are in range gives the handshake back.
pub decode-encode_handshake :
    (h : UprSessionHandshake) → IsInRange h → decode_handshake (encode_handshake h) ≡ value h
unfolding decode_handshake begins_with little_bytes
decode-encode_handshake h r =
    rw
      (
        encode_handshake-wire h,
        decode_le-lem 2 h.protocol_version 4 (wire h) (omega arith) r.protocol_version refl,
        decode_le-lem 2 h.flags 6 (wire h) (omega arith) r.flags refl,
        decode_le-lem 2 h.transport_mode 8 (wire h) (omega arith) r.transport_mode refl,
        decode_le-lem 2 h.frame_codec 10 (wire h) (omega arith) r.frame_codec refl,
        decode_le-lem 4 h.max_frame_bytes 12 (wire h) (omega arith) r.max_frame_bytes refl,
        decode_le-lem 8 h.session_id 16 (wire h) (omega arith) r.session_id refl,
      )
      refl
