-- ===== src/LocalTransport/Sign.antt =====
-- Requests, responses and journal heads that a service signs
-- (crates/bloom-triad-local-transport/src/lib.rs).
pub mod Draft
pub mod Sealed
pub mod Accepted
pub mod Responded
pub mod Examples
use bloom_service_runtime.Prelude.{
  ℕ, Bytes, Option, none, some, [], Result, ok, err, ◌>>=◌, ◌>>◌, ok_or, map_err, reject_if, leb,
}
use bloom_service_runtime.RpcWire.Error.{
  Failure, rejected, panicked, reject, malformed_frame, service_unavailable,
}
use bloom_service_runtime.RpcWire.External.{External}
use bloom_service_runtime.RpcWire.Token.{Token, token_new}
use bloom_service_runtime.RpcWire.Hex.{Digest32, OperationId, hex_from_bytes}
use bloom_service_runtime.RpcWire.Decimal.{decimal_u64_new, decimal_u64_get}
use bloom_service_runtime.RpcWire.Base64.{base64_from_bytes}
use bloom_service_runtime.RpcWire.Version.{ProtocolVersion, ProtocolVersionRange, require}
use bloom_service_runtime.RpcWire.Audit.{SignedJournalHead, signature_message}
use bloom_service_runtime.RpcWire.Envelope.{
  request, response, UnsignedEnvelope, SignedEnvelope, BodySerde, canonical_bytes, method_of,
  rpc_envelope_schema_v1,
}
use bloom_service_runtime.LocalTransport.Identity.{LocalIdentity}

-- `Failure` on `panicked` is the panic of `sequence.get()` in the message of a head.
unfoldable pub sign_journal_head :
    External → LocalIdentity → ℕ → Digest32 → Result SignedJournalHead Failure
sign_journal_head x identity sequence head_hash = do
  let head : SignedJournalHead = record {
    service_id = identity.service_id;
    sequence = decimal_u64_new sequence;
    head_hash = head_hash;
    key_id = identity.application_key_id;
    signature = base64_from_bytes x [];
  }
  message ← ok_or (signature_message head) panicked
  ok (record head { signature = base64_from_bytes x (x.sign identity.signing_key message) })

module _ {T : Type 0} (x : External) (s : BodySerde T) where
  unfoldable pub digest : T → Result Digest32 Failure
  digest value = do
    bytes ← ok_or (s.body_to_vec value) (reject malformed_frame)
    ok (hex_from_bytes 32 x (x.sha256 bytes))

  -- `SignedEnvelope` of an envelope and its signature
  unfoldable pub seal : LocalIdentity → UnsignedEnvelope T → Result (SignedEnvelope T) Failure
  seal identity unsigned = do
    message ← canonical_bytes s unsigned
    ok (record {
      unsigned = unsigned;
      signature = base64_from_bytes x (x.sign identity.signing_key message);
    })

  unfoldable pub sign_request_with_optional_journal_head :
      LocalIdentity
      → Token
      → ProtocolVersion
      → ProtocolVersionRange
      → OperationId
      → T
      → ℕ
      → ℕ
      → Option SignedJournalHead
      → Result (SignedEnvelope T) Failure
  sign_request_with_optional_journal_head identity audience protocol supported_versions operation_id
        body sent_at_ms deadline_ms sender_journal_head =
      do
        map_err rejected (require supported_versions protocol)
        request_digest ← digest body
        schema ← map_err rejected (token_new rpc_envelope_schema_v1)
        method ← method_of s body
        seal identity (record {
          protocol = protocol;
          schema = schema;
          kind = request;
          method = method;
          operation_id = operation_id;
          request_digest = request_digest;
          caller_service_id = identity.service_id;
          caller_boot_epoch = identity.boot_epoch;
          audience = audience;
          sent_at_ms = decimal_u64_new sent_at_ms;
          deadline_ms = decimal_u64_new deadline_ms;
          body = body;
          application_key_id = identity.application_key_id;
          sender_journal_head = sender_journal_head;
        })

  unfoldable pub sign_request :
      LocalIdentity
      → Token
      → ProtocolVersion
      → ProtocolVersionRange
      → OperationId
      → T
      → ℕ
      → ℕ
      → Result (SignedEnvelope T) Failure
  sign_request identity audience protocol supported_versions operation_id body sent_at_ms
        deadline_ms =
      sign_request_with_optional_journal_head identity audience protocol supported_versions
        operation_id body sent_at_ms deadline_ms none

  unfoldable pub sign_request_with_journal_head :
      LocalIdentity
      → Token
      → ProtocolVersion
      → ProtocolVersionRange
      → OperationId
      → T
      → ℕ
      → ℕ
      → SignedJournalHead
      → Result (SignedEnvelope T) Failure
  sign_request_with_journal_head identity audience protocol supported_versions operation_id body
        sent_at_ms deadline_ms sender_journal_head =
      sign_request_with_optional_journal_head identity audience protocol supported_versions
        operation_id body sent_at_ms deadline_ms (some sender_journal_head)

  unfoldable pub sign_response_with_optional_journal_head :
      {U : Type 0}
      → LocalIdentity
      → SignedEnvelope U
      → T
      → ℕ
      → ℕ
      → Option SignedJournalHead
      → Result (SignedEnvelope T) Failure
  sign_response_with_optional_journal_head identity req body sent_at_ms deadline_ms
        sender_journal_head =
      do
        schema ← map_err rejected (token_new rpc_envelope_schema_v1)
        seal identity (record {
          protocol = req.protocol;
          schema = schema;
          kind = response;
          method = req.method;
          operation_id = req.operation_id;
          request_digest = req.request_digest;
          caller_service_id = identity.service_id;
          caller_boot_epoch = identity.boot_epoch;
          audience = req.caller_service_id;
          sent_at_ms = decimal_u64_new sent_at_ms;
          deadline_ms = decimal_u64_new deadline_ms;
          body = body;
          application_key_id = identity.application_key_id;
          sender_journal_head = sender_journal_head;
        })

  unfoldable pub sign_response :
      {U : Type 0}
      → LocalIdentity
      → SignedEnvelope U
      → T
      → ℕ
      → ℕ
      → Result (SignedEnvelope T) Failure
  sign_response identity req body sent_at_ms deadline_ms =
      sign_response_with_optional_journal_head identity req body sent_at_ms deadline_ms none

  unfoldable pub sign_response_with_journal_head :
      {U : Type 0}
      → LocalIdentity
      → SignedEnvelope U
      → T
      → ℕ
      → ℕ
      → SignedJournalHead
      → Result (SignedEnvelope T) Failure
  sign_response_with_journal_head identity req body sent_at_ms deadline_ms sender_journal_head =
      sign_response_with_optional_journal_head identity req body sent_at_ms deadline_ms
        (some sender_journal_head)

-- `deadline_ms.get()` panics on a text that is no u64.
unfoldable pub require_live_deadline :
    {T : Type 0} → SignedEnvelope T → ℕ → Result (Unit {0}) Failure
require_live_deadline envelope observed_at_ms = do
  deadline ← ok_or (decimal_u64_get envelope.deadline_ms) panicked
  reject_if (leb deadline observed_at_ms) (reject service_unavailable)
