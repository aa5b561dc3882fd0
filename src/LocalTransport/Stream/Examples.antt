-- ===== src/LocalTransport/Stream/Examples.antt =====
-- A stream in memory, with frames of texts whose canonical bytes are their own.
use bloom_service_runtime.Prelude.{
  Bytes, codes, length, take, drop, ◌++◌, ◌∷◌, Option, some, none, Result, ok, err, ◌>>=◌, Bool,
  false, leb, if◌then◌else◌, list_beq, ◌≡◌, refl, arith,
}
use bloom_service_runtime.RpcWire.Error.{WireError, wire_error, service_unavailable}
use bloom_service_runtime.RpcWire.Shape.{Value, string, validate_json_shape}
use bloom_service_runtime.RpcWire.Frame.{Json, Serde, encode_frame, decode_frame, decode_payload}
use bloom_service_runtime.LocalTransport.Stream.{Reader, Writer, IsReader, read_frame, write_frame}
use bloom_service_runtime.LocalTransport.Stream.Delivered.{read_frame_delivers}

abbrev memory : Reader Bytes
memory = record { read_exact = λ s n. if leb n (length s) then some (take n s, drop n s) else none }

abbrev appended : Writer Bytes
appended = record { write_all = λ s bytes. some (s ++ bytes) }

memory-IsReader : IsReader memory (λ s. s)
memory-IsReader = record {
  reads = λ s n h. (drop n s, ground arith, refl);
  ends = λ s n h. ground arith;
}

abbrev string_bytes : Value → Option Bytes
string_bytes (string s) = some s
string_bytes _ = none

abbrev json : Json
json = record { from_slice = λ bytes. some (string bytes); value_to_vec = string_bytes }

abbrev read_string : Value → Result Bytes Bool
read_string (string s) = ok s
read_string _ = err false

abbrev serde : Serde Bytes
serde = record { to_vec = λ text. some text; from_value = read_string }

abbrev frame : Bytes
frame = 0 ∷ 0 ∷ 0 ∷ 2 ∷ codes "ok"

test_encode : encode_frame serde (codes "ok") ≡ ok frame
unfolding encode_frame
test_encode = refl

abbrev exchange : Result (Bytes × Bytes) WireError
unfolding write_frame read_frame
exchange = do
  s ← write_frame appended serde (codes "") (codes "ok")
  t ← write_frame appended serde s (codes "no")
  (first, u) ← read_frame memory json serde t
  (second, v) ← read_frame memory json serde u
  ok (first, second)

-- Two writes are read in order, and a frame that is cut short is no frame.
test_stream :
    (exchange ≡ ok (codes "ok", codes "no"))
    × (read_frame memory json serde (take 5 frame) ≡ err (wire_error service_unavailable))
unfolding exchange write_frame read_frame encode_frame decode_frame decode_payload
    validate_json_shape list_beq
test_stream = (refl, refl)

read_frame_delivers_example :
    (after : Bytes) × (after ≡ codes "rest")
    × (read_frame memory json serde (frame ++ codes "rest")
        ≡ (decode_frame json serde frame >>= λ decoded. ok (decoded, after)))
read_frame_delivers_example =
    read_frame_delivers memory (λ s. s) memory-IsReader json serde (codes "ok")
      (frame ++ codes "rest") test_encode refl
