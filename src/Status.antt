-- ===== src/Status.antt =====
-- packages/utils/include/utils/status.hpp: `Status` and `StatusOr`.
mod Code
pub use Code.{StatusCode}
use Prim.Native.String.{String}
use universal_protocol_runti.Base.{Bool, true, false}

pub record Status : Type 0 where
  pub code : StatusCode
  pub message : String

-- `Status::ok()`, on the code
abbrev pub is_ok : StatusCode → Bool
is_ok StatusCode.ok = true
is_ok _ = false

-- `to_string`
unfoldable pub status_code_name : StatusCode → String
status_code_name StatusCode.ok = "ok"
status_code_name StatusCode.invalid_argument = "invalid_argument"
status_code_name StatusCode.not_found = "not_found"
status_code_name StatusCode.schema_error = "schema_error"
status_code_name StatusCode.decode_error = "decode_error"
status_code_name StatusCode.io_error = "io_error"
status_code_name StatusCode.exhausted = "exhausted"

abbrev pub ok_status : Status
ok_status = record { code = StatusCode.ok; message = "" }

abbrev pub invalid_argument : String → Status
invalid_argument message = record { code = StatusCode.invalid_argument; message = message }

abbrev pub not_found : String → Status
not_found message = record { code = StatusCode.not_found; message = message }

abbrev pub io_error : String → Status
io_error message = record { code = StatusCode.io_error; message = message }

abbrev pub exhausted : String → Status
exhausted message = record { code = StatusCode.exhausted; message = message }

pub data StatusOr {ℓ} (A : Type ℓ) : Type ℓ where
  value : A → StatusOr A
  failure : Status → StatusOr A
