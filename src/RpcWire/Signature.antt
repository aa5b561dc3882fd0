-- ===== src/RpcWire/Signature.antt =====
-- The check of an ed25519 signature under a pinned key, which crates/bloom-rpc-wire/src/audit.rs,
-- envelope.rs there, and crates/bloom-triad-local-transport/src/lib.rs each write out.
pub mod Sign
use bloom_service_runtime.Prelude.{
  ℕ, Bytes, length, not, Bool, true, false, Option, none, some, Result, ok, err, ◌>>=◌, ◌>>◌,
  >>=-eq-ok, ok_or, ok_or-eq-ok, reject_if, ◌!=◌, nat_eq, ◌≡◌, ◌↔◌, arith, refl,
}
use bloom_service_runtime.RpcWire.Error.{Failure, panicked, reject, unauthenticated_peer}
use bloom_service_runtime.RpcWire.External.{External}
use bloom_service_runtime.RpcWire.Base64.{Base64UrlBytes, base64_to_bytes}

-- `signature.decode().try_into()`: the 64 bytes of a signature.
unfoldable pub signature_bytes : External → Base64UrlBytes → Result Bytes Failure
signature_bytes x signature = do
  bytes ← ok_or (base64_to_bytes x signature) panicked
  reject_if (length bytes != 64) (reject unauthenticated_peer)
  ok bytes

-- The message is computed after the key and the signature are read.
unfoldable pub verify_signature :
    External → Bytes → Base64UrlBytes → Result Bytes Failure → Result (Unit {0}) Failure
verify_signature x public_key signature message = do
  verifying_key ← ok_or (x.verifying_key public_key) (reject unauthenticated_peer)
  bytes ← signature_bytes x signature
  said ← message
  reject_if (not (x.verify verifying_key said bytes)) (reject unauthenticated_peer)

-- A signature of 64 bytes over a message, which verifies under the key of these bytes.
pub record Signs (x : External) (public_key : Bytes) (signature : Base64UrlBytes) (message : Bytes)
    : Type 0 where
  pub key : x.VerifyingKey
  pub bytes : Bytes
  pub pinned : x.verifying_key public_key ≡ some key
  pub decoded : base64_to_bytes x signature ≡ some bytes
  pub sized : length bytes ≡ 64
  pub verified : x.verify key message bytes ≡ true

signature_bytes_iff :
    (x : External) (signature : Base64UrlBytes) (bytes : Bytes)
    → (signature_bytes x signature ≡ ok bytes)
      ↔ ((base64_to_bytes x signature ≡ some bytes) × (length bytes ≡ 64))
unfolding signature_bytes
signature_bytes_iff x signature bytes = ground arith

module _ (x : External) (public_key : Bytes) (signature : Base64UrlBytes) where
  accepted :
      (message : Result Bytes Failure)
      → verify_signature x public_key signature message ≡ ok tt
      → (said : Bytes) × (message ≡ ok said) × Signs x public_key signature said
  unfolding verify_signature
  accepted message h =
      let (key, e, h1) = >>=-eq-ok (ok_or (x.verifying_key public_key) _) _ h in
      let (bytes, f, h2) = >>=-eq-ok (signature_bytes x signature) _ h1 in
      let (said, g, h3) = >>=-eq-ok message _ h2 in
      let (decoded, sized) = (signature_bytes_iff x signature bytes).0 f in
      (
        said,
        g,
        record {
          key = key;
          bytes = bytes;
          pinned = ok_or-eq-ok _ _ e;
          decoded = decoded;
          sized = sized;
          verified = ground arith;
        },
      )

  accepts :
      (said : Bytes) (s : Signs x public_key signature said)
      → verify_signature x public_key signature (ok said) ≡ ok tt
  unfolding verify_signature
  accepts said s =
      rw (s.pinned, (signature_bytes_iff x signature s.bytes).1 (s.decoded, s.sized), s.verified)

  -- The check passes exactly if the message can be made and the signature is one over it.
  pub verify_signature_iff :
      (message : Result Bytes Failure)
      → (verify_signature x public_key signature message ≡ ok tt)
        ↔ ((said : Bytes) × (message ≡ ok said) × Signs x public_key signature said)
  verify_signature_iff message = (accepted message, λ (said, e, s). rw e (accepts said s))
