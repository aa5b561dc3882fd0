-- ===== src/RpcWire/Frame/Examples.antt =====
-- Frames of a type of texts, whose canonical bytes are its own.
use bloom_service_runtime.Prelude.{
  ◌+◌, ◌≤◌, Bytes, codes, length, take, Option, some, none, Result, ok, err, ◌>>◌, ◌∷◌, ◌≡◌, refl,
  Bool, false, list_beq,
}
use bloom_service_runtime.RpcWire.Error.{wire_error, malformed_frame, limit_exceeded_frame}
use bloom_service_runtime.RpcWire.Shape.{Value, string, validate_json_shape}
use bloom_service_runtime.RpcWire.Frame.{
  Json, Serde, frame_max_bytes, from_be_bytes, encode_frame, decode_payload, decode_frame,
}
use bloom_service_runtime.RpcWire.Frame.RoundTrip.{IsSerde, frame_roundtrip, decode_frame_canonical}

abbrev string_bytes : Value → Option Bytes
string_bytes (string s) = some s
string_bytes _ = none

abbrev json : Json
json = record { from_slice = λ bytes. some (string bytes); value_to_vec = string_bytes }

abbrev read_string : Value → Result Bytes Bool
read_string (string s) = ok s
read_string _ = err false

abbrev serde : Serde Bytes
serde = record { to_vec = λ text. some text; from_value = read_string }

serde-IsSerde : IsSerde json serde
serde-IsSerde = record { reads = λ value bytes e. (string bytes, refl, refl, cc) }

abbrev frame : Bytes
frame = 0 ∷ 0 ∷ 0 ∷ 2 ∷ codes "ok"

test_encode : encode_frame serde (codes "ok") ≡ ok frame
unfolding encode_frame
test_encode = refl

test_decode : decode_frame json serde frame ≡ ok (codes "ok")
unfolding decode_frame decode_payload validate_json_shape list_beq
test_decode = refl

test_decode_short :
    decode_frame json serde (0 ∷ 0 ∷ 0 ∷ 3 ∷ codes "ok") ≡ err (wire_error malformed_frame)
unfolding decode_frame
test_decode_short = refl

test_decode_limit :
    decode_frame json serde (0 ∷ 16 ∷ 0 ∷ 1 ∷ codes "ok") ≡ err (wire_error limit_exceeded_frame)
unfolding decode_frame
test_decode_limit = refl

frame_roundtrip_example :
    (tree : Value) × (json.from_slice (codes "ok") ≡ some tree)
    × (serde.to_vec (codes "ok") ≡ some (codes "ok"))
    × (length frame ≤ frame_max_bytes + 4)
    × (decode_frame json serde frame ≡ (validate_json_shape tree 1 >> ok (codes "ok")))
frame_roundtrip_example = frame_roundtrip json serde serde-IsSerde (codes "ok") test_encode

decode_frame_canonical_example :
    (tree : Value) × (json.from_slice (codes "ok") ≡ some tree)
    × (json.value_to_vec tree ≡ some (codes "ok"))
    × (validate_json_shape tree 1 ≡ ok tt)
    × (serde.from_value tree ≡ ok (codes "ok"))
    × (length frame ≡ from_be_bytes (take 4 frame) + 4)
    × (length frame ≤ frame_max_bytes + 4)
decode_frame_canonical_example = decode_frame_canonical json serde frame test_decode
