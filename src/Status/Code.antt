-- ===== src/Status/Code.antt =====
-- packages/utils/include/utils/status.hpp: `StatusCode`.
pub data StatusCode : Type 0 where
  ok invalid_argument not_found schema_error decode_error io_error exhausted : StatusCode
