-- ===== src/Core.antt =====
-- packages/upr_core/include/universal_protocol_runtime/core and
-- packages/upr_runtime/include/universal_protocol_runtime/decoder/decode_status.hpp: the enums that
-- the components share. A byte is a number below 256, and a `ByteSpan` the list of its bytes.
use Prim.Native.String.{String}
use universal_protocol_runti.Base.{ℕ, ◌<◌, List, [], ◌∷◌}

pub data ByteOrder : Type 0 where
  little_endian big_endian : ByteOrder

pub data DecodeStatus : Type 0 where
  ok message_not_found schema_mismatch invalid_data checksum_mismatch field_limit_exceeded :
      DecodeStatus

-- `to_string`
unfoldable pub decode_status_name : DecodeStatus → String
decode_status_name DecodeStatus.ok = "ok"
decode_status_name DecodeStatus.message_not_found = "message_not_found"
decode_status_name DecodeStatus.schema_mismatch = "schema_mismatch"
decode_status_name DecodeStatus.invalid_data = "invalid_data"
decode_status_name DecodeStatus.checksum_mismatch = "checksum_mismatch"
decode_status_name DecodeStatus.field_limit_exceeded = "field_limit_exceeded"

abbrev pub IsByte : ℕ → Type 0
IsByte b = b < 256

abbrev pub AreBytes : List ℕ → Type 0
AreBytes [] = Unit {0}
AreBytes (b ∷ bs) = IsByte b × AreBytes bs
