-- ===== src/RpcWire/Frame.antt =====
-- `encode_frame` and `decode_frame` of crates/bloom-rpc-wire/src/codec.rs. serde_json and serde_jcs
-- are parameters.
pub mod RoundTrip
mod Examples
use bloom_service_runtime.Prelude.{
  ℕ, ◌+◌, ◌*◌, ◌/◌, ◌%◌, Bytes, length, take, drop, Bool, true, false, Option, Result, ok, err,
  ◌>>=◌, ◌>>◌, ok_or, map_err, reject_if, [], ◌∷◌, ◌++◌, ltb, ◌==◌, ◌!=◌, nat_eq, list_eq,
  if◌then◌else◌,
}
use bloom_service_runtime.RpcWire.Error.{
  WireError, wire_error, malformed_frame, unknown_field, limit_exceeded_frame,
}
use bloom_service_runtime.RpcWire.Shape.{Value, validate_json_shape}

abbrev pub frame_max_bytes : ℕ
frame_max_bytes = 1_048_576

-- `serde_json::from_slice` into a value, and `serde_jcs::to_vec` of a value.
pub record Json : Type 0 where
  pub from_slice : Bytes → Option Value
  pub value_to_vec : Value → Option Bytes

-- The derived serde instances of a type: `serde_jcs::to_vec`, and `serde_json::from_value`, whose
-- error says whether its message names an unknown field.
pub record Serde (T : Type 0) : Type 0 where
  pub to_vec : T → Option Bytes
  pub from_value : Value → Result T Bool

-- `u32::to_be_bytes` and `from_be_bytes`
abbrev pub to_be_bytes : ℕ → Bytes
to_be_bytes n = (n / 16_777_216 % 256) ∷ (n / 65_536 % 256) ∷ (n / 256 % 256) ∷ (n % 256) ∷ []

abbrev pub from_be_bytes : Bytes → ℕ
from_be_bytes (a ∷ b ∷ c ∷ d ∷ []) = a * 16_777_216 + b * 65_536 + c * 256 + d
from_be_bytes _ = 0

unfoldable pub encode_frame : {T : Type 0} → Serde T → T → Result Bytes WireError
encode_frame s value = do
  json ← ok_or (s.to_vec value) (wire_error malformed_frame)
  reject_if (ltb frame_max_bytes (length json)) (wire_error limit_exceeded_frame)
  ok (to_be_bytes (length json % 4_294_967_296) ++ json)

abbrev pub from_value_error : Bool → WireError
from_value_error names_unknown_field =
    if names_unknown_field then wire_error unknown_field else wire_error malformed_frame

-- `decode_frame` from the payload on.
unfoldable pub decode_payload : {T : Type 0} → Json → Serde T → Bytes → Result T WireError
decode_payload j s payload = do
  value ← ok_or (j.from_slice payload) (wire_error malformed_frame)
  validate_json_shape value 1
  canonical ← ok_or (j.value_to_vec value) (wire_error malformed_frame)
  reject_if (canonical != payload) (wire_error malformed_frame)
  map_err from_value_error (s.from_value value)

unfoldable pub decode_frame : {T : Type 0} → Json → Serde T → Bytes → Result T WireError
decode_frame j s frame = do
  reject_if (ltb (length frame) 4) (wire_error malformed_frame)
  let declared = from_be_bytes (take 4 frame)
  reject_if (ltb frame_max_bytes declared) (wire_error limit_exceeded_frame)
  reject_if (length frame != declared + 4) (wire_error malformed_frame)
  decode_payload j s (drop 4 frame)
