-- ===== src/Patch.antt =====
-- The payloads of PATCH routes, read by `model_dump(exclude_unset=True)`.
use iot_server.Prelude.{String}

-- A field that is left out, set to null, or set to a value.
pub data Given : Type 0 where
  unset : Given
  null : Given
  value : String → Given
