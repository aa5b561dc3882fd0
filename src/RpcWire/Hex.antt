-- ===== src/RpcWire/Hex.antt =====
-- The types that the macro `fixed_lower_hex!` of crates/bloom-rpc-wire/src/ids.rs makes: texts of
-- 2 · n lowercase hexadecimal digits, for n bytes.
pub mod RoundTrip
use bloom_service_runtime.Prelude.{
  ℕ, ◌*◌, Bytes, all, length, true, ◌&&◌, Option, none, some, Result, ok, err, ◌≡◌, ◌↔◌, arith,
  ◌==◌, nat_eq, list_beq, list_beq_iff, PartialEq, if◌then◌else◌,
}
use bloom_service_runtime.RpcWire.Error.{WireError, wire_error, malformed_frame}
use bloom_service_runtime.RpcWire.External.{External, is_lower_hex}

pub record Hex (n : ℕ) : Type 0 where
  pub text : Bytes

abbrev pub Digest32 : Type 0
Digest32 = Hex 32

abbrev pub OperationId : Type 0
OperationId = Hex 32

abbrev pub BootEpoch : Type 0
BootEpoch = Hex 16

abbrev pub RequestNonce : Type 0
RequestNonce = Hex 16

unfoldable pub hex_new : (n : ℕ) → Bytes → Result (Hex n) WireError
hex_new n value =
    if length value == n * 2 && all is_lower_hex value
    then ok (record { text = value })
    else err (wire_error malformed_frame)

unfoldable pub hex_from_bytes : (n : ℕ) → External → Bytes → Hex n
hex_from_bytes n x bytes = record { text = x.hex_encode bytes }

-- `none` is a panic: of `expect` on the decoder, or on the conversion to n bytes.
unfoldable pub hex_to_bytes : {n : ℕ} → External → Hex n → Option Bytes
hex_to_bytes {n} x h = elim (x.hex_decode h.text) [
  | none ↦ none
  | some bytes ↦ if length bytes == n then some bytes else none
]

module _ {n : ℕ} where
  pub hex_beq_iff : (a b : Hex n) → (list_beq a.text b.text ≡ true) ↔ (a ≡ b)
  hex_beq_iff a b = ground (arith, list_beq_iff a.text b.text)

  instance abbrev pub hex_eq : PartialEq (Hex n)
  hex_eq = record { same = λ a b. list_beq a.text b.text; same_iff = hex_beq_iff }
