-- ===== src/RpcWire/Shape.antt =====
-- `validate_json_shape` of crates/bloom-rpc-wire/src/codec.rs, over the values of serde_json.
-- A number is its text; an object has its entries in order.
pub mod Limits
use bloom_service_runtime.Prelude.{
  ℕ, suc, ◌+◌, ◌*◌, Bytes, length, Bool, Result, ok, err, ◌>>=◌, ◌>>◌, reject_if, ltb,
}
use bloom_service_runtime.RpcWire.Error.{WireError, wire_error, limit_exceeded_frame}

abbrev pub json_max_depth : ℕ
json_max_depth = 32

abbrev pub json_max_string_bytes : ℕ
json_max_string_bytes = 262_144

abbrev pub json_max_list_length : ℕ
json_max_list_length = 256

mutual
  pub data Value : Type 0 where
    null : Value
    boolean : Bool → Value
    number : Bytes → Value
    string : Bytes → Value
    array : Values → Value
    object : Entries → Value

  pub data Values : Type 0 where
    nil : Values
    cons : Value → Values → Values

  pub data Entries : Type 0 where
    end : Entries
    entry : Bytes → Value → Entries → Entries

abbrev pub count : Values → ℕ
count nil = 0
count (cons v vs) = suc (count vs)

abbrev limit : WireError
limit = wire_error limit_exceeded_frame

abbrev too_deep : ℕ → Result (Unit {0}) WireError
too_deep depth = reject_if (ltb json_max_depth depth) limit

unfoldable mutual
  pub validate_json_shape : Value → ℕ → Result (Unit {0}) WireError
  validate_json_shape null depth = too_deep depth
  validate_json_shape (boolean b) depth = too_deep depth
  validate_json_shape (number n) depth = too_deep depth
  validate_json_shape (string s) depth = do
    too_deep depth
    reject_if (ltb json_max_string_bytes (length s)) limit
  validate_json_shape (array vs) depth = do
    too_deep depth
    reject_if (ltb json_max_list_length (count vs)) limit
    validate_values vs depth
  validate_json_shape (object es) depth = do too_deep depth; validate_entries es depth

  pub validate_values : Values → ℕ → Result (Unit {0}) WireError
  validate_values nil depth = ok tt
  validate_values (cons v vs) depth = do validate_json_shape v (depth + 1); validate_values vs depth

  pub validate_entries : Entries → ℕ → Result (Unit {0}) WireError
  validate_entries end depth = ok tt
  validate_entries (entry key v es) depth = do
    reject_if (ltb json_max_string_bytes (length key)) limit
    validate_json_shape v (depth + 1)
    validate_entries es depth
