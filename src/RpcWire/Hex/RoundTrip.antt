-- ===== src/RpcWire/Hex/RoundTrip.antt =====
-- Texts and bytes of the fixed-length hexadecimal types of crates/bloom-rpc-wire/src/ids.rs.
use bloom_service_runtime.Prelude.{
  ℕ, ◌*◌, Bytes, IsBytes, All, all_iff, length, true, some, ok, ◌≡◌, arith, nat_eq,
}
use mathlib.Core.Path.{subst, sym, refl, ap}
use bloom_service_runtime.RpcWire.External.{External, IsHex, is_lower_hex}
use bloom_service_runtime.RpcWire.Hex.{Hex, hex_new, hex_from_bytes, hex_to_bytes}

-- What an accepted text is.
pub hex_new_inv :
    (n : ℕ) (value : Bytes) {h : Hex n}
    → hex_new n value ≡ ok h
    → (h ≡ record { text = value })
      × (length value ≡ n * 2)
      × All (λ b. is_lower_hex b ≡ true) value
unfolding hex_new
hex_new_inv n value parsed =
    (ground arith, ground arith, (all_iff is_lower_hex value).0 (ground arith))

module _ (n : ℕ) (x : External) (lawful : IsHex x) where
  to_bytes-decode :
      (text : Bytes) {bytes : Bytes}
      → x.hex_decode text ≡ some bytes
      → length bytes ≡ n
      → hex_to_bytes {n = n} x (record { text = text }) ≡ some bytes
  unfolding hex_to_bytes
  to_bytes-decode text decoded count = ground arith

  -- For a hex codec that works as documented, the text made from n bytes is accepted by the
  -- parser of the type, and gives the same n bytes back.
  pub from_bytes_roundtrip :
      (bytes : Bytes)
      → IsBytes bytes
      → length bytes ≡ n
      → (hex_new n (hex_from_bytes n x bytes).text ≡ ok (hex_from_bytes n x bytes))
        × (hex_to_bytes x (hex_from_bytes n x bytes) ≡ some bytes)
  unfolding hex_new hex_from_bytes
  from_bytes_roundtrip bytes b e = (
    ground (
      arith,
      lawful.length-encode bytes,
      (all_iff is_lower_hex (x.hex_encode bytes)).1 (lawful.encode_lower bytes b),
    ),
    to_bytes-decode (x.hex_encode bytes) (lawful.decode-encode bytes b) e,
  )

  -- For a hex codec that works as documented, whatever text the parser accepts is kept as it
  -- is; its conversion to bytes cannot panic, gives n bytes, and those encode to the same text.
  pub to_bytes_total :
      (value : Bytes) {h : Hex n}
      → hex_new n value ≡ ok h
      → (h.text ≡ value)
        × ((bytes : Bytes) × (hex_to_bytes x h ≡ some bytes)
            × (length bytes ≡ n)
            × (hex_from_bytes n x bytes ≡ h))
  unfolding hex_from_bytes
  to_bytes_total value {h} parsed =
      let (same, sized, lower) = hex_new_inv n value parsed in
      let (bytes, decoded, count, encoded) = lawful.decode_lower value n sized lower in
      subst
        (λ (k : Hex n).
          (k.text ≡ value)
          × ((bs : Bytes) × (hex_to_bytes x k ≡ some bs)
              × (length bs ≡ n)
              × (hex_from_bytes n x bs ≡ k)))
        (sym same)
        (
          refl,
          (
            bytes,
            to_bytes-decode value decoded count,
            count,
            ap (λ t. record { text = t }) encoded,
          ),
        )
