-- ===== src/RpcWire/Signature/Sign.antt =====
-- Signatures that the runtime makes itself: `signing_key.sign(message)` as base64
-- (crates/bloom-triad-local-transport/src/lib.rs).
use bloom_service_runtime.Prelude.{Bytes}
use bloom_service_runtime.RpcWire.External.{External, IsBase64, IsSigner}
use bloom_service_runtime.RpcWire.Base64.{base64_from_bytes, base64_to_bytes}
use bloom_service_runtime.RpcWire.Signature.{Signs}

-- They are signatures over the message, under the public key of the seed.
pub sign-Signs :
    (x : External)
    → IsSigner x
    → IsBase64 x
    → (seed message : Bytes)
    → Signs x (x.public_key seed) (base64_from_bytes x (x.sign seed message)) message
unfolding base64_from_bytes base64_to_bytes
sign-Signs x signer base64 seed message =
    let (key, pinned, verified) = signer.verify-sign seed message in
    record {
      key = key;
      bytes = x.sign seed message;
      pinned = pinned;
      decoded = base64.decode-encode (x.sign seed message) (signer.IsBytes-sign seed message);
      sized = signer.length-sign seed message;
      verified = verified;
    }
