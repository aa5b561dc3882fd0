-- ===== src/LocalTransport/Stream/Delivered.antt =====
-- A frame that is written is the next one that is read
-- (crates/bloom-triad-local-transport/src/lib.rs).
use bloom_service_runtime.Prelude.{
  ◌%◌, ◌≤◌, Bytes, length, length-append, take, drop, take-append, drop-append, ◌++◌, some, ok,
  ◌>>=◌, ltb, ◌≡◌, false, refl, ap, ◌∙◌, arith,
}
use bloom_service_runtime.RpcWire.Frame.{
  Json, Serde, frame_max_bytes, to_be_bytes, from_be_bytes, encode_frame, decode_frame,
}
use bloom_service_runtime.RpcWire.Frame.RoundTrip.{encode_frame_inv}
use bloom_service_runtime.LocalTransport.Stream.{Reader, IsReader, read_frame}

module _ {S T : Type 0} (r : Reader S) (contents : S → Bytes) (lawful : IsReader r contents)
    (j : Json) (serde : Serde T) where
  abbrev prefixed : Bytes → Bytes
  prefixed json = to_be_bytes (length json % 4_294_967_296) ++ json

  delivered :
      (json rest : Bytes) (stream : S)
      → length json ≤ frame_max_bytes
      → contents stream ≡ prefixed json ++ rest
      → (after : S) × (contents after ≡ rest)
        × (read_frame r j serde stream
            ≡ (decode_frame j serde (prefixed json) >>= λ decoded. ok (decoded, after)))
  unfolding read_frame
  delivered json rest stream small brings =
      let n = length json in
      let head : Bytes = to_be_bytes (n % 4_294_967_296) in
      let (behind, p, q) = lawful.reads stream 4 (rw brings (omega arith)) in
      let first : r.read_exact stream 4 ≡ some (head, behind) =
        p ∙ ap (λ c. some (take 4 c, behind)) brings in
      let left : contents behind ≡ json ++ rest = q ∙ ap (drop 4) brings in
      let (after, p2, q2) =
        lawful.reads behind n (rw left (omega (arith, length-append json rest))) in
      let second : r.read_exact behind n ≡ some (json, after) =
        p2
        ∙ ap (λ c. some (take n c, after)) left
        ∙ ap (λ c. some (c, after)) (take-append json rest) in
      let counted : from_be_bytes head ≡ n = omega arith in
      let fits : ltb frame_max_bytes n ≡ false = ground arith in
      (after, q2 ∙ ap (drop n) left ∙ drop-append json rest, rw (first, counted, fits, second) refl)

  -- On a stream that works as documented and starts with the frame of a value, reading takes that
  -- frame and no more off the stream, whatever follows, and gives what `decode_frame` makes of
  -- it.
  pub read_frame_delivers :
      (value : T) (stream : S) {frame rest : Bytes}
      → encode_frame serde value ≡ ok frame
      → contents stream ≡ frame ++ rest
      → (after : S) × (contents after ≡ rest)
        × (read_frame r j serde stream
            ≡ (decode_frame j serde frame >>= λ decoded. ok (decoded, after)))
  read_frame_delivers value stream {frame} {rest} h brings =
      let (json, written, small, same) = encode_frame_inv j serde value h in
      let brought : contents stream ≡ prefixed json ++ rest = brings ∙ ap (λ f. f ++ rest) same in
      rw same (delivered json rest stream small brought)
