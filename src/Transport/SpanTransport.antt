-- ===== src/Transport/SpanTransport.antt =====
-- packages/upr_runtime/include/universal_protocol_runtime/transport/span_transport.hpp.
use universal_protocol_runti.Base.{
  ℕ, ◌+◌, ◌-◌, min, Bool, true, false, not, List, [], arith, leb, ◌==◌, if◌then◌else◌, length, drop,
  subspan, length-take, length-drop, drop_all, drop-drop, take-append-drop,
}
use universal_protocol_runti.Status.{ok_status}
use universal_protocol_runti.Transport.{Transport, ReadResult}
use universal_protocol_runti.Transport.Laws.{IsRead, IsReliable}

pub record SpanState : Type 0 where
  pub source : List ℕ
  pub offset : ℕ
  pub chunk_size : ℕ
  pub is_open : Bool

unfoldable pub init : List ℕ → ℕ → SpanState
init source chunk_size = record {
  source = source;
  offset = 0;
  chunk_size = chunk_size;
  is_open = true;
}

abbrev result : ℕ → Bool → ReadResult
result bytes_read end_of_stream = record {
  bytes_read = bytes_read;
  end_of_stream = end_of_stream;
  would_block = false;
  status = ok_status;
}

-- How many bytes the next read copies.
abbrev bytes_to_copy : SpanState → ℕ → ℕ
bytes_to_copy t size =
    min size (
      min (if t.chunk_size == 0 then length t.source else t.chunk_size)
        (length t.source - t.offset))

abbrev advanced : SpanState → ℕ → SpanState
advanced t n = record t {
  offset = t.offset + n;
  is_open = if leb (length t.source) (t.offset + n) then false else t.is_open;
}

unfoldable pub read : SpanState → ℕ → ReadResult × List ℕ × SpanState
read t size =
    if not t.is_open
    then (result 0 true, [], t)
    else if leb (length t.source) t.offset
    then (result 0 true, [], record t { is_open = false })
    else (
      result (bytes_to_copy t size) (leb (length t.source) (t.offset + bytes_to_copy t size)),
      subspan t.source t.offset (bytes_to_copy t size),
      advanced t (bytes_to_copy t size),
    )

abbrev pub transport : Transport
transport = record { State = SpanState; read = read; is_open = λ t. t.is_open }

-- What a span transport has still to serve.
abbrev pub remaining : SpanState → List ℕ
remaining t = if t.is_open then drop t.offset t.source else []

read-IsRead : (t : SpanState) (n : ℕ) → IsRead remaining t n (read t n).0 (read t n).1 (read t n).2
unfolding read
read-IsRead t n = ground (
  arith,
  length-take (bytes_to_copy t n) (drop t.offset t.source),
  length-drop t.offset t.source,
  drop_all t.offset t.source,
  drop_all (t.offset + bytes_to_copy t n) t.source,
  take-append-drop (bytes_to_copy t n) (drop t.offset t.source),
  drop-drop (bytes_to_copy t n) t.offset t.source,
)

-- For every source and chunk size, a span transport serves its source in order: no read fails or asks to wait, each
-- takes the bytes that it reports off the front of what is left, and takes some until none are left.
pub transport-IsReliable : IsReliable transport remaining
unfolding read
transport-IsReliable = record {
  stream = record { read_lem = read-IsRead };
  succeeds = λ t n. ground arith;
  serves = λ t n. ground arith;
  advances = λ t n h e. ground arith;
}
