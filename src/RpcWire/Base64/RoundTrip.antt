-- ===== src/RpcWire/Base64/RoundTrip.antt =====
-- Bytes and canonical texts of `Base64UrlBytes` (crates/bloom-rpc-wire/src/codec.rs).
use bloom_service_runtime.Prelude.{
  Bytes, IsBytes, All, false, some, ok, [], ◌∷◌, ◌≡◌, ◌≢◌, refl, arith, list_beq_iff, eq_refl,
  list_eq, nat_eq, Option-cases, inl, inr, ap,
}
use bloom_service_runtime.RpcWire.External.{External, IsBase64}
use bloom_service_runtime.RpcWire.Base64.{
  Base64UrlBytes, contains_padding, base64_from_bytes, base64_parse, base64_to_bytes,
}

unpadded : (bs : Bytes) → All (λ b. b ≢ b'=') bs → contains_padding bs ≡ false
unfolding contains_padding
unpadded [] h = refl
unpadded (b ∷ bs) h = ground (arith, unpadded bs h.1)

-- For a base64 codec that works as documented, the text made from bytes is accepted by the
-- parser unchanged, and decodes to the same bytes.
pub base64_roundtrip :
    (x : External)
    → IsBase64 x
    → (bytes : Bytes) → IsBytes bytes
    → (base64_parse x (base64_from_bytes x bytes).encoded ≡ ok (base64_from_bytes x bytes))
      × (base64_to_bytes x (base64_from_bytes x bytes) ≡ some bytes)
unfolding base64_parse base64_from_bytes base64_to_bytes
base64_roundtrip x lawful bytes b = (
  rw (
    unpadded (x.base64_encode bytes) (lawful.encode_unpadded bytes b),
    lawful.decode-encode bytes b,
    eq_refl (x.base64_encode bytes),
  ),
  lawful.decode-encode bytes b,
)

-- Whatever the base64 codec does: an accepted text is kept as it is, has no padding, its
-- decoding cannot panic, and it is the one encoding of the bytes that it decodes to, so two
-- accepted texts of the same bytes are equal.
pub base64_parse_canonical :
    (x : External) (encoded : Bytes) {v : Base64UrlBytes}
    → base64_parse x encoded ≡ ok v
    → (v ≡ record { encoded = encoded })
      × (contains_padding encoded ≡ false)
      × ((bytes : Bytes) × (x.base64_decode encoded ≡ some bytes)
          × (base64_from_bytes x bytes ≡ record { encoded = encoded }))
unfolding base64_parse base64_from_bytes
base64_parse_canonical x encoded h = elim (Option-cases (x.base64_decode encoded)) [
  | inl failed ↦ absurd (ground (arith, failed))
  | inr (bytes, decoded) ↦
      let same : x.base64_encode bytes ≡ encoded =
        ground (arith, decoded, list_beq_iff (x.base64_encode bytes) encoded) in
      (
        ground (arith, decoded),
        ground (arith, decoded),
        (bytes, decoded, ap (λ t. record { encoded = t }) same),
      )
]
