-- ===== src/RpcWire/Examples.antt =====
-- The theorems about texts, shapes, heads and envelopes at concrete inputs, over the sample
-- instance of the external crates. The envelope is like that of the crate's tests.
use bloom_service_runtime.Prelude.{
  ◌≤◌, Bytes, codes, false, none, some, [], ◌∷◌, ◌++◌, ok, err, ◌≡◌, ◌≢◌, ◌↔◌, ◌⊎◌, refl, arith,
  all, list_beq,
}
use bloom_service_runtime.RpcWire.Error.{
  wire_error, reject, malformed_frame, unauthenticated_peer, limit_exceeded_frame,
}
use bloom_service_runtime.RpcWire.External.Sample.{
  encode, decode, cons?, digit, undigit, pad, sample, sample-IsBase64,
}
use bloom_service_runtime.RpcWire.Token.{Token, token_new}
use bloom_service_runtime.RpcWire.Hex.{Hex, hex_new, hex_from_bytes}
use bloom_service_runtime.RpcWire.Decimal.{decimal_u64_get}
use bloom_service_runtime.RpcWire.Decimal.Value.{decimal_value}
use bloom_service_runtime.RpcWire.Base64.{contains_padding, base64_from_bytes, base64_to_bytes}
use bloom_service_runtime.RpcWire.Base64.RoundTrip.{base64_roundtrip, base64_parse_canonical}
use bloom_service_runtime.RpcWire.Shape.{
  Value, null, string, array, nil, cons, object, end, entry, validate_json_shape,
}
use bloom_service_runtime.RpcWire.Shape.Limits.{depth_of, Fits, validate_json_shape_iff}
use bloom_service_runtime.RpcWire.Signature.{verify_signature, signature_bytes}
use bloom_service_runtime.RpcWire.Audit.{
  SignedJournalHead, head_message, signature_message, verify_sender_identity,
}
use bloom_service_runtime.RpcWire.Audit.Message.{IsHead, SameSigned, signature_message_injective}
use bloom_service_runtime.RpcWire.Audit.Sender.{SenderVerified, verify_sender_identity_iff}
use bloom_service_runtime.RpcWire.Version.{ProtocolVersion, ProtocolVersionRange, contains, require}
use bloom_service_runtime.RpcWire.Envelope.{
  request, required, BodySerde, SignedEnvelope, UnsignedEnvelope, AuthenticatedPeer,
  TypedRequestMethod, rpc_envelope_schema_v1, verify, verify_response_to, verify_typed,
  check_schema, check_peer, check_deadline, check_digest, verify_sender_journal_head,
  expected_request_digest, canonical_bytes, method_of,
}
use bloom_service_runtime.RpcWire.Envelope.Accepted.{Accepted, verify_iff}
use bloom_service_runtime.RpcWire.Envelope.Response.{
  Answers, Typed, verify_response_to_iff, verify_typed_iff,
}

abbrev ab07 : Hex 2
ab07 = record { text = codes "ab07" }

test_hex : hex_new 2 (codes "ab07") ≡ ok ab07
unfolding hex_new all
test_hex = refl

base64_parse_canonical_example :
    (base64_from_bytes sample (171 ∷ 7 ∷ [])
      ≡ record { encoded = (base64_from_bytes sample (171 ∷ 7 ∷ [])).encoded })
    × (contains_padding (base64_from_bytes sample (171 ∷ 7 ∷ [])).encoded ≡ false)
    × ((bytes : Bytes) × (sample.base64_decode (base64_from_bytes sample (171 ∷ 7 ∷ [])).encoded
          ≡ some bytes)
        × (base64_from_bytes sample bytes
            ≡ record { encoded = (base64_from_bytes sample (171 ∷ 7 ∷ [])).encoded }))
base64_parse_canonical_example =
    base64_parse_canonical sample (base64_from_bytes sample (171 ∷ 7 ∷ [])).encoded
      (base64_roundtrip sample sample-IsBase64 (171 ∷ 7 ∷ []) (omega arith, (omega arith, tt))).0

abbrev tree : Value
tree = object (entry (codes "a") (array (cons null (cons (string (codes "b")) nil))) end)

validate_json_shape_iff_example :
    ((validate_json_shape tree 1 ≡ ok tt) ↔ ((depth_of tree ≤ 32) × Fits tree))
    × ((validate_json_shape tree 1 ≡ ok tt)
        ⊎ (validate_json_shape tree 1 ≡ err (wire_error limit_exceeded_frame)))
validate_json_shape_iff_example = validate_json_shape_iff tree

abbrev v1_1 : ProtocolVersion
v1_1 = record { major = 1; minor = 1 }

abbrev range : ProtocolVersionRange
range = record { major = 1; minor_min = 1; minor_max = 1 }

abbrev token : Bytes → Token
token text = record { text = text }

abbrev hash : Bytes → Bytes
hash digit =
    let four = digit ++ digit ++ digit ++ digit in
    let sixteen = four ++ four ++ four ++ four in sixteen ++ sixteen ++ sixteen ++ sixteen

-- A head of sequence number 7 with a seed's signature.
abbrev unsigned_head : SignedJournalHead
unsigned_head = record {
  service_id = token (codes "bloom-broker");
  sequence = record { text = codes "7" };
  head_hash = record { text = hash (codes "9") };
  key_id = token (codes "broker-app-1");
  signature = record { encoded = [] };
}

abbrev seed : Bytes
seed = 7 ∷ 7 ∷ []

abbrev head : SignedJournalHead
head = record unsigned_head {
  signature = base64_from_bytes sample (sample.sign seed (head_message unsigned_head 7));
}

seven : decimal_value (codes "7") ≡ 7
unfolding decimal_value
seven = refl

unsigned-IsHead : IsHead unsigned_head
unsigned-IsHead = record {
  service = record { short = omega arith; starts = omega arith; bytes = omega arith };
  sequence = record { digits = omega arith; leads = tt; small = omega (arith, seven) };
  hash = refl;
  key = record { short = omega arith; starts = omega arith; bytes = omega arith };
}

test_message : signature_message head ≡ some (head_message head 7)
unfolding signature_message decimal_u64_get
test_message = refl

signature_message_injective_example :
    (signature_message unsigned_head ≢ none) × SameSigned unsigned_head unsigned_head
signature_message_injective_example =
    signature_message_injective unsigned_head unsigned_head unsigned-IsHead unsigned-IsHead refl

verify_sender_identity_iff_example :
    (verify_sender_identity sample head
        (token (codes "bloom-broker"))
        (token (codes "broker-app-1"))
        (sample.public_key seed)
      ≡ ok tt)
    ↔ SenderVerified sample head
        (token (codes "bloom-broker"))
        (token (codes "broker-app-1"))
        (sample.public_key seed)
verify_sender_identity_iff_example =
    verify_sender_identity_iff sample head (token (codes "bloom-broker"))
      (token (codes "broker-app-1")) (sample.public_key seed)

-- A body is a text; an envelope's canonical bytes stand for it by its method and body.
abbrev serde : BodySerde Bytes
serde = record {
  envelope_to_vec = λ e. some (e.method.text ++ e.body);
  body_to_vec = λ body. some body;
  body_to_value = λ body. some (object (entry (codes "method") (string body) end));
}

abbrev typed : TypedRequestMethod Bytes
typed = record { operation_id = λ body. ok none; is_read_only = λ body. false }

abbrev unsigned : UnsignedEnvelope Bytes
unsigned = record {
  protocol = v1_1;
  schema = token rpc_envelope_schema_v1;
  kind = request;
  method = token (codes "signer.sign");
  operation_id = record { text = hash (codes "1") };
  request_digest = hex_from_bytes 32 sample (sample.sha256 (codes "signer.sign"));
  caller_service_id = token (codes "bloom-broker");
  caller_boot_epoch = record { text = hash (codes "2") };
  audience = token (codes "bloom-signer");
  sent_at_ms = record { text = codes "10" };
  deadline_ms = record { text = codes "20" };
  body = codes "signer.sign";
  application_key_id = token (codes "broker-app-1");
  sender_journal_head = some head;
}

abbrev envelope : SignedEnvelope Bytes
envelope = record {
  unsigned = unsigned;
  signature = base64_from_bytes sample (sample.sign seed (codes "signer.signsigner.sign"));
}

abbrev peer : AuthenticatedPeer
peer = record {
  effective_uid = 501;
  service_id = token (codes "bloom-broker");
  boot_epoch = record { text = hash (codes "2") };
  audience = token (codes "bloom-signer");
  application_key_id = token (codes "broker-app-1");
  application_public_key = sample.public_key seed;
}

-- The envelope is accepted, and with another body it is refused.
test_verify :
    (verify_typed sample serde typed envelope 501 peer range required ≡ ok tt)
    × (verify sample serde
          (record envelope { unsigned = record unsigned { body = codes "changed" } })
          501
          peer
          range
          required
        ≡ err (reject malformed_frame))
    × (verify sample serde envelope 502 peer range required ≡ err (reject unauthenticated_peer))
unfolding verify_typed verify check_schema check_peer check_deadline check_digest
    verify_sender_journal_head require contains expected_request_digest canonical_bytes method_of
    token_new verify_signature signature_bytes base64_to_bytes base64_from_bytes hex_from_bytes
    verify_sender_identity signature_message head_message decimal_u64_get list_beq all encode decode
    cons? digit undigit pad
test_verify = (refl, refl, refl)

verify_iff_example :
    (verify sample serde envelope 501 peer range required ≡ ok tt)
    ↔ Accepted sample serde envelope 501 peer range required
verify_iff_example = verify_iff sample serde envelope 501 peer range required

verify_response_to_iff_example :
    (verify_response_to sample serde envelope 501 peer envelope range required ≡ ok tt)
    ↔ (Accepted sample serde envelope 501 peer range required × Answers envelope envelope)
verify_response_to_iff_example =
    verify_response_to_iff sample serde envelope 501 peer range required envelope

verify_typed_iff_example :
    (verify_typed sample serde typed envelope 501 peer range required ≡ ok tt) ↔ (
      Accepted sample serde envelope 501 peer range required
      × Typed sample serde envelope 501 peer range required typed)
verify_typed_iff_example = verify_typed_iff sample serde envelope 501 peer range required typed
