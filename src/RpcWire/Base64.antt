-- ===== src/RpcWire/Base64.antt =====
-- `Base64UrlBytes` of crates/bloom-rpc-wire/src/codec.rs.
pub mod RoundTrip
use bloom_service_runtime.Prelude.{
  Bytes, Bool, true, false, ◌||◌, Option, Result, ok, err, ◌>>=◌, ◌>>◌, ok_or, reject_if, [], ◌∷◌,
  ◌≡◌, ◌↔◌, arith, ◌==◌, ◌!=◌, nat_eq, list_eq, list_beq, list_beq_iff, PartialEq,
}
use bloom_service_runtime.RpcWire.Error.{WireError, wire_error, malformed_frame}
use bloom_service_runtime.RpcWire.External.{External}

pub record Base64UrlBytes : Type 0 where
  pub encoded : Bytes

-- `encoded.contains('=')`
pub contains_padding : Bytes → Bool
contains_padding [] = false
contains_padding (b ∷ bs) = b == b'=' || contains_padding bs

unfoldable pub base64_from_bytes : External → Bytes → Base64UrlBytes
base64_from_bytes x bytes = record { encoded = x.base64_encode bytes }

unfoldable pub base64_parse : External → Bytes → Result Base64UrlBytes WireError
base64_parse x encoded = do
  reject_if (contains_padding encoded) (wire_error malformed_frame)
  decoded ← ok_or (x.base64_decode encoded) (wire_error malformed_frame)
  reject_if (x.base64_encode decoded != encoded) (wire_error malformed_frame)
  ok (record { encoded = encoded })

-- `none` is a panic of `expect`.
unfoldable pub base64_to_bytes : External → Base64UrlBytes → Option Bytes
base64_to_bytes x b = x.base64_decode b.encoded

pub base64_beq_iff : (a b : Base64UrlBytes) → (list_beq a.encoded b.encoded ≡ true) ↔ (a ≡ b)
base64_beq_iff a b = ground (arith, list_beq_iff a.encoded b.encoded)

instance abbrev pub base64_eq : PartialEq Base64UrlBytes
base64_eq = record { same = λ a b. list_beq a.encoded b.encoded; same_iff = base64_beq_iff }
