-- ===== src/RpcWire/Frame/RoundTrip.antt =====
-- Frames that are encoded and decoded (crates/bloom-rpc-wire/src/codec.rs).
use bloom_service_runtime.Prelude.{
  ◌+◌, ◌%◌, ◌≤◌, Bytes, length, take, drop, some, ok, ◌>>◌, ◌++◌, ◌≡◌, ◌∙◌, arith, Option-cases,
  inl, inr, eq_refl, list_eq, nat_eq, list_beq_iff,
}
use bloom_service_runtime.RpcWire.Shape.{Value, validate_json_shape}
use bloom_service_runtime.RpcWire.Frame.{
  Json, Serde, frame_max_bytes, to_be_bytes, from_be_bytes, encode_frame, decode_payload,
  decode_frame,
}

-- serde: the canonical bytes of a value parse into a tree whose canonical bytes they are, and the
-- value is read back from the tree.
pub record IsSerde {T : Type 0} (j : Json) (s : Serde T) : Type 0 where
  pub reads :
      (value : T) (bytes : Bytes)
      → s.to_vec value ≡ some bytes
      → (tree : Value) × (j.from_slice bytes ≡ some tree)
        × (j.value_to_vec tree ≡ some bytes)
        × (s.from_value tree ≡ ok value)

module _ {T : Type 0} (j : Json) (s : Serde T) where
  decode-prefix :
      (json : Bytes)
      → length json ≤ frame_max_bytes
      → decode_frame j s (to_be_bytes (length json % 4_294_967_296) ++ json)
        ≡ decode_payload j s json
  unfolding decode_frame
  decode-prefix json h =
      let n = length json in
      let same : from_be_bytes (to_be_bytes (n % 4_294_967_296)) ≡ n = omega arith in
      ground (arith, same)

  payload-reads :
      (value : T) (bytes : Bytes) (tree : Value)
      → j.from_slice bytes ≡ some tree
      → j.value_to_vec tree ≡ some bytes
      → s.from_value tree ≡ ok value
      → decode_payload j s bytes ≡ (validate_json_shape tree 1 >> ok value)
  unfolding decode_payload
  payload-reads value bytes tree p q r = rw (p, q, eq_refl bytes, r)

  pub encode_frame_inv :
      (value : T) {frame : Bytes}
      → encode_frame s value ≡ ok frame
      → (json : Bytes) × (s.to_vec value ≡ some json)
        × (length json ≤ frame_max_bytes)
        × (frame ≡ to_be_bytes (length json % 4_294_967_296) ++ json)
  unfolding encode_frame
  encode_frame_inv value h = elim (Option-cases (s.to_vec value)) [
    | inl failed ↦ absurd (ground (arith, failed))
    | inr (json, e) ↦ (json, e, ground (arith, e), ground (arith, e))
  ]

  decode_frame_inv :
      (frame : Bytes) {value : T}
      → decode_frame j s frame ≡ ok value
      → (decode_payload j s (drop 4 frame) ≡ ok value)
        × (length frame ≡ from_be_bytes (take 4 frame) + 4)
        × (length frame ≤ frame_max_bytes + 4)
  unfolding decode_frame
  decode_frame_inv frame h = (ground arith, ground arith, ground arith)

  decode_payload_inv :
      (payload : Bytes) {value : T}
      → decode_payload j s payload ≡ ok value
      → (tree : Value) × (j.from_slice payload ≡ some tree)
        × (j.value_to_vec tree ≡ some payload)
        × (validate_json_shape tree 1 ≡ ok tt)
        × (s.from_value tree ≡ ok value)
  unfolding decode_payload
  decode_payload_inv payload h = elim (Option-cases (j.from_slice payload)) [
    | inl failed ↦ absurd (ground (arith, failed))
    | inr (tree, parsed) ↦ (
      tree,
      parsed,
      elim (Option-cases (j.value_to_vec tree)) [
        | inl failed ↦ absurd (ground (arith, parsed, failed))
        | inr (canonical, printed) ↦ ground (arith, parsed, printed, list_beq_iff canonical payload)
      ],
      ground (arith, parsed),
      ground (arith, parsed),
    )
  ]

  -- For serde instances that read back what they wrote: a value whose encoding succeeds has a
  -- frame of 4 bytes and its canonical bytes, at most 1 MiB. Decoding the frame gives the value
  -- back, unless the tree of the value passes the shape limits, which the encoder does not check;
  -- then it gives the error of that check.
  pub frame_roundtrip :
      IsSerde j s
      → (value : T) {frame : Bytes} → encode_frame s value ≡ ok frame
      → (tree : Value) × (j.from_slice (drop 4 frame) ≡ some tree)
        × (s.to_vec value ≡ some (drop 4 frame))
        × (length frame ≤ frame_max_bytes + 4)
        × (decode_frame j s frame ≡ (validate_json_shape tree 1 >> ok value))
  frame_roundtrip lawful value h =
      let (json, written, small, same) = encode_frame_inv value h in
      let (tree, parsed, printed, read) = lawful.reads value json written in
      rw same (
        tree,
        parsed,
        written,
        omega arith,
        decode-prefix json small ∙ payload-reads value json tree parsed printed read,
      )

  -- A frame that decodes is 4 bytes and a payload of at most 1 MiB; the payload is the canonical
  -- text of the tree that it parses into, the tree has an accepted shape, and the value is read
  -- from the tree.
  pub decode_frame_canonical :
      (frame : Bytes) {value : T}
      → decode_frame j s frame ≡ ok value
      → (tree : Value) × (j.from_slice (drop 4 frame) ≡ some tree)
        × (j.value_to_vec tree ≡ some (drop 4 frame))
        × (validate_json_shape tree 1 ≡ ok tt)
        × (s.from_value tree ≡ ok value)
        × (length frame ≡ from_be_bytes (take 4 frame) + 4)
        × (length frame ≤ frame_max_bytes + 4)
  decode_frame_canonical frame h =
      let (decoded, counted, small) = decode_frame_inv frame h in
      let (tree, parsed, printed, shaped, read) = decode_payload_inv (drop 4 frame) decoded in
      (tree, parsed, printed, shaped, read, counted, small)
