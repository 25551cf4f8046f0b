-- ===== src/Transport.antt =====
-- packages/upr_runtime/include/universal_protocol_runtime/transport/transport.hpp: `ReadResult` and
-- `ITransport`. A read is given the size of its destination; it returns its result, the bytes that it
-- wrote at the front of the destination, and the transport's next state.
pub mod Laws
pub mod SpanTransport
use universal_protocol_runti.Base.{ℕ, Bool, List}
use universal_protocol_runti.Status.{Status}

pub record ReadResult : Type 0 where
  pub bytes_read : ℕ
  pub end_of_stream : Bool
  pub would_block : Bool
  pub status : Status

-- `ITransport`
pub record Transport : Type 1 where
  pub State : Type 0
  pub read : State → ℕ → ReadResult × List ℕ × State
  pub is_open : State → Bool
