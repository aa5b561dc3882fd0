-- ===== src/LocalTransport/Stream.antt =====
-- Frames on a stream: `read_frame` and `write_frame` of
-- crates/bloom-triad-local-transport/src/lib.rs. The two halves of a `UnixStream` are parameters.
pub mod Delivered
mod Examples
use bloom_service_runtime.Prelude.{
  ℕ, ◌≤◌, ◌<◌, Bytes, length, take, drop, ◌++◌, Option, some, none, Result, ok, err, ◌>>=◌, ◌>>◌,
  ok_or, reject_if, ltb, ◌≡◌,
}
use bloom_service_runtime.RpcWire.Error.{
  WireError, wire_error, limit_exceeded_frame, service_unavailable,
}
use bloom_service_runtime.RpcWire.Frame.{
  Json, Serde, frame_max_bytes, from_be_bytes, encode_frame, decode_frame,
}

-- `read_exact` fills a buffer of that length, or fails.
pub record Reader (S : Type 0) : Type 0 where
  pub read_exact : S → ℕ → Option (Bytes × S)

-- `write_all` writes the bytes, or fails.
pub record Writer (S : Type 0) : Type 0 where
  pub write_all : S → Bytes → Option S

-- What `read_exact` is documented to do, on a stream that still brings `contents`: it takes that
-- many bytes off the front, and fails if the stream ends before.
pub record IsReader {S : Type 0} (r : Reader S) (contents : S → Bytes) : Type 0 where
  pub reads :
      (s : S) (n : ℕ)
      → n ≤ length (contents s)
      → (after : S) × (r.read_exact s n ≡ some (take n (contents s), after))
        × (contents after ≡ drop n (contents s))
  pub ends : (s : S) (n : ℕ) → length (contents s) < n → r.read_exact s n ≡ none

unfoldable pub write_frame : {S T : Type 0} → Writer S → Serde T → S → T → Result S WireError
write_frame w serde stream value = do
  frame ← encode_frame serde value
  ok_or (w.write_all stream frame) (wire_error service_unavailable)

-- The value with the stream behind it.
unfoldable pub read_frame :
    {S T : Type 0} → Reader S → Json → Serde T → S → Result (T × S) WireError
read_frame r j serde stream = do
  (prefix, behind) ← ok_or (r.read_exact stream 4) (wire_error service_unavailable)
  reject_if (ltb frame_max_bytes (from_be_bytes prefix)) (wire_error limit_exceeded_frame)
  (payload, after) ←
      ok_or (r.read_exact behind (from_be_bytes prefix)) (wire_error service_unavailable)
  value ← decode_frame j serde (prefix ++ payload)
  ok (value, after)
