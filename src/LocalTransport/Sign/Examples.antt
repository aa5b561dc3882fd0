-- ===== src/LocalTransport/Sign/Examples.antt =====
-- Signed requests and responses over the sample instance of the external crates.
use bloom_service_runtime.Prelude.{
  Bytes, codes, all, list_beq, false, Option, none, some, [], ◌∷◌, ◌++◌, ok, ◌≡◌, inl, refl, arith,
}
use bloom_service_runtime.RpcWire.External.Sample.{sample, sample-IsBase64, sample-IsSigner}
use bloom_service_runtime.RpcWire.Token.{Token, token_new}
use bloom_service_runtime.RpcWire.Hex.{Digest32, OperationId, hex_from_bytes}
use bloom_service_runtime.RpcWire.Decimal.{decimal_u64_new, decimal_u64_get}
use bloom_service_runtime.RpcWire.Base64.{base64_from_bytes}
use bloom_service_runtime.RpcWire.Shape.{string, object, entry, end}
use bloom_service_runtime.RpcWire.Version.{ProtocolVersion, ProtocolVersionRange, contains, require}
use bloom_service_runtime.RpcWire.Version.Range.{InRange}
use bloom_service_runtime.RpcWire.Audit.{SignedJournalHead, signature_message, head_message}
use bloom_service_runtime.RpcWire.Envelope.{
  required, forbidden, SignedEnvelope, BodySerde, TypedRequestMethod, canonical_bytes, method_of,
  verify_typed, verify_response_to,
}
use bloom_service_runtime.LocalTransport.Identity.{LocalIdentity, PeerAcl, authenticated_for}
use bloom_service_runtime.LocalTransport.Hello.Answered.{IsPinned}
use bloom_service_runtime.LocalTransport.Sign.{
  digest, seal, sign_journal_head, sign_request, sign_request_with_journal_head,
  sign_request_with_optional_journal_head, sign_response, sign_response_with_optional_journal_head,
}
use bloom_service_runtime.LocalTransport.Sign.Draft.{sealed_of, request_draft, response_draft}
use bloom_service_runtime.LocalTransport.Sign.Accepted.{sign_request_with_journal_head_accepted}
use bloom_service_runtime.LocalTransport.Sign.Responded.{sign_response_accepted}

abbrev pub token : Bytes → Token
token text = record { text = text }

abbrev pub broker : LocalIdentity
broker = record {
  service_id = token (codes "bloom-broker");
  boot_epoch = record { text = codes "00" };
  application_key_id = token (codes "broker-app-1");
  signing_key = 7 ∷ [];
}

abbrev pub acl : PeerAcl
acl = record {
  effective_uid = 501;
  service_id = broker.service_id;
  boot_epoch = broker.boot_epoch;
  application_key_id = broker.application_key_id;
  application_public_key = sample.public_key broker.signing_key;
}

pinned : IsPinned sample broker acl
pinned = record { service = refl; boot = refl; key_id = refl; public_key = refl }

abbrev pub serde : BodySerde Bytes
serde = record {
  envelope_to_vec = λ e. some (e.method.text ++ e.body);
  body_to_vec = λ body. some body;
  body_to_value = λ body. some (object (entry (codes "method") (string body) end));
}

abbrev pub typed : TypedRequestMethod Bytes
typed = record { operation_id = λ body. ok none; is_read_only = λ body. false }

abbrev pub v1_1 : ProtocolVersion
v1_1 = record { major = 1; minor = 1 }

abbrev pub versions : ProtocolVersionRange
versions = record { major = 1; minor_min = 0; minor_max = 1 }

supported : InRange versions v1_1
supported = record { major = refl; low = omega arith; high = omega arith }

abbrev pub id : OperationId
id = record { text = codes "11" }

abbrev pub body : Bytes
body = codes "signer.sign"

abbrev pub hash : Digest32
hash = hex_from_bytes 32 sample (sample.sha256 body)

abbrev pub sealed : Option SignedJournalHead → SignedEnvelope Bytes
sealed head =
    sealed_of sample serde broker
      (request_draft sample serde broker v1_1 (token body) id hash (token (codes "bloom-signer"))
        body 10 20 head)
      (body ++ body)

signed :
    sign_request sample serde broker (token (codes "bloom-signer")) v1_1 versions id body 10 20
    ≡ ok (sealed none)
unfolding sign_request sign_request_with_optional_journal_head require contains digest token_new all
    list_beq method_of seal canonical_bytes
signed = refl

abbrev pub head : SignedJournalHead
head = record {
  service_id = broker.service_id;
  sequence = decimal_u64_new 7;
  head_hash = hash;
  key_id = broker.application_key_id;
  signature = base64_from_bytes sample (
      sample.sign broker.signing_key (
        head_message
          (record {
            service_id = broker.service_id;
            sequence = decimal_u64_new 7;
            head_hash = hash;
            key_id = broker.application_key_id;
            signature = base64_from_bytes sample [];
          })
          7));
}

head_signed : sign_journal_head sample broker 7 hash ≡ ok head
unfolding sign_journal_head signature_message head_message decimal_u64_new decimal_u64_get
head_signed = refl

signed_with_head :
    sign_request_with_journal_head sample serde broker
      (token (codes "bloom-signer"))
      v1_1
      versions
      id
      body
      10
      20
      head
    ≡ ok (sealed (some head))
unfolding sign_request_with_journal_head sign_request_with_optional_journal_head require contains
    digest token_new all list_beq method_of seal canonical_bytes
signed_with_head = refl

sign_request_with_journal_head_accepted_example :
    verify_typed sample serde typed
      (sealed (some head))
      501
      (authenticated_for acl (token (codes "bloom-signer")))
      versions
      required
    ≡ ok tt
sign_request_with_journal_head_accepted_example =
    sign_request_with_journal_head_accepted sample serde sample-IsSigner sample-IsBase64 broker acl
      pinned versions typed (token (codes "bloom-signer")) v1_1 id body 10 20 7 hash head_signed
      signed_with_head (omega arith) (omega arith) (omega arith) refl (inl refl)

abbrev answer : SignedEnvelope Bytes
answer =
    sealed_of sample serde broker
      (response_draft sample serde broker (sealed none) (codes "done") 12 20 none)
      (body ++ codes "done")

response_signed : sign_response sample serde broker (sealed none) (codes "done") 12 20 ≡ ok answer
unfolding sign_response sign_response_with_optional_journal_head token_new all seal canonical_bytes
response_signed = refl

sign_response_accepted_example :
    verify_response_to sample serde answer 501
      (authenticated_for acl broker.service_id)
      (sealed none)
      versions
      forbidden
    ≡ ok tt
sign_response_accepted_example =
    sign_response_accepted sample serde sample-IsSigner sample-IsBase64 broker acl pinned versions
      (sealed none) (codes "done") 12 20 response_signed refl supported (omega arith) (omega arith)
