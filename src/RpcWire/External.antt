-- ===== src/RpcWire/External.antt =====
-- The crates that the wire format calls: ed25519_dalek, sha2, base64 and hex. Each is a parameter,
-- with the documented behaviour that the code relies on as named laws.
pub mod Sample
use bloom_service_runtime.Prelude.{
  ℕ, ◌*◌, ◌≤◌, ◌<◌, Bytes, IsBytes, All, length, Bool, true, false, ◌||◌, ◌&&◌, Option, none, some,
  ◌≡◌, ◌≢◌, ◌⊎◌, leb,
}

pub record External : Type 1 where
  pub VerifyingKey : Type 0
  -- `VerifyingKey::from_bytes`, `verify`, `sign`, `verifying_key().to_bytes()`
  pub verifying_key : Bytes → Option VerifyingKey
  pub verify : VerifyingKey → Bytes → Bytes → Bool
  pub sign : Bytes → Bytes → Bytes
  pub public_key : Bytes → Bytes
  -- `Sha256::digest`
  pub sha256 : Bytes → Bytes
  -- `URL_SAFE_NO_PAD.encode` and `decode`
  pub base64_encode : Bytes → Bytes
  pub base64_decode : Bytes → Option Bytes
  -- `hex::encode` and `decode`
  pub hex_encode : Bytes → Bytes
  pub hex_decode : Bytes → Option Bytes

-- `is_ascii_digit() || matches!(byte, b'a'..=b'f')`
abbrev pub is_lower_hex : ℕ → Bool
is_lower_hex b = leb b'0' b && leb b b'9' || leb b'a' b && leb b b'f'

-- hex writes two lowercase digits for a byte, and reads back any string of such pairs.
pub record IsHex (x : External) : Type 0 where
  pub length-encode : (bytes : Bytes) → length (x.hex_encode bytes) ≡ length bytes * 2
  pub encode_lower :
      (bytes : Bytes) → IsBytes bytes → All (λ b. is_lower_hex b ≡ true) (x.hex_encode bytes)
  pub decode-encode :
      (bytes : Bytes) → IsBytes bytes → x.hex_decode (x.hex_encode bytes) ≡ some bytes
  pub decode_lower :
      (text : Bytes) (n : ℕ)
      → length text ≡ n * 2
      → All (λ b. is_lower_hex b ≡ true) text
      → (bytes : Bytes) × (x.hex_decode text ≡ some bytes)
        × (length bytes ≡ n)
        × (x.hex_encode bytes ≡ text)

-- base64 without padding: the encoder emits no `=`, and the decoder reads back what it wrote.
pub record IsBase64 (x : External) : Type 0 where
  pub encode_unpadded :
      (bytes : Bytes) → IsBytes bytes → All (λ b. b ≢ b'=') (x.base64_encode bytes)
  pub decode-encode :
      (bytes : Bytes) → IsBytes bytes → x.base64_decode (x.base64_encode bytes) ≡ some bytes

-- ed25519: a signature is 64 bytes, the public key of a seed is a valid key of 32 bytes, and it
-- verifies what the seed signed.
pub record IsSigner (x : External) : Type 0 where
  pub length-sign : (seed message : Bytes) → length (x.sign seed message) ≡ 64
  pub IsBytes-sign : (seed message : Bytes) → IsBytes (x.sign seed message)
  pub length-public_key : (seed : Bytes) → length (x.public_key seed) ≡ 32
  pub verify-sign :
      (seed message : Bytes)
      → (key : x.VerifyingKey) × (x.verifying_key (x.public_key seed) ≡ some key)
        × (x.verify key message (x.sign seed message) ≡ true)
