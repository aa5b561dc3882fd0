-- ===== src/LocalTransport/Sign/Draft.antt =====
-- What a signed request or response consists of
-- (crates/bloom-triad-local-transport/src/lib.rs).
use bloom_service_runtime.Prelude.{
  ℕ, Bytes, all, Option, ok, >>=-eq-ok, ok_injective, map_err, ◌≡◌, arith,
}
use bloom_service_runtime.RpcWire.Error.{rejected}
use bloom_service_runtime.RpcWire.External.{External}
use bloom_service_runtime.RpcWire.Token.{Token, token_new}
use bloom_service_runtime.RpcWire.Hex.{Digest32, OperationId}
use bloom_service_runtime.RpcWire.Decimal.{decimal_u64_new}
use bloom_service_runtime.RpcWire.Base64.{base64_from_bytes}
use bloom_service_runtime.RpcWire.Version.{ProtocolVersion, ProtocolVersionRange, require}
use bloom_service_runtime.RpcWire.Version.Range.{InRange, require_iff}
use bloom_service_runtime.RpcWire.Audit.{SignedJournalHead}
use bloom_service_runtime.RpcWire.Envelope.{
  EnvelopeKind, request, response, UnsignedEnvelope, SignedEnvelope, BodySerde, canonical_bytes,
  method_of, rpc_envelope_schema_v1,
}
use bloom_service_runtime.LocalTransport.Identity.{LocalIdentity}
use bloom_service_runtime.LocalTransport.Sign.{
  digest, seal, sign_request_with_optional_journal_head,
}

-- What distinguishes the envelopes of one identity.
pub record Draft (T : Type 0) : Type 0 where
  pub kind : EnvelopeKind
  pub protocol : ProtocolVersion
  pub method : Token
  pub operation_id : OperationId
  pub request_digest : Digest32
  pub audience : Token
  pub body : T
  pub sent : ℕ
  pub deadline : ℕ
  pub head : Option SignedJournalHead

module _ {T : Type 0} (x : External) (s : BodySerde T) (identity : LocalIdentity) where
  abbrev pub unsigned_of : Draft T → UnsignedEnvelope T
  unsigned_of d = record {
    protocol = d.protocol;
    schema = record { text = rpc_envelope_schema_v1 };
    kind = d.kind;
    method = d.method;
    operation_id = d.operation_id;
    request_digest = d.request_digest;
    caller_service_id = identity.service_id;
    caller_boot_epoch = identity.boot_epoch;
    audience = d.audience;
    sent_at_ms = decimal_u64_new d.sent;
    deadline_ms = decimal_u64_new d.deadline;
    body = d.body;
    application_key_id = identity.application_key_id;
    sender_journal_head = d.head;
  }

  abbrev pub sealed_of : Draft T → Bytes → SignedEnvelope T
  sealed_of d message = record {
    unsigned = unsigned_of d;
    signature = base64_from_bytes x (x.sign identity.signing_key message);
  }

  -- What a signed envelope consists of.
  pub record IsSealed (d : Draft T) (e : SignedEnvelope T) : Type 0 where
    pub message : Bytes
    pub canonical : canonical_bytes s (unsigned_of d) ≡ ok message
    pub made : sealed_of d message ≡ e

  pub seal-IsSealed :
      (d : Draft T) {e : SignedEnvelope T} → seal x s identity (unsigned_of d) ≡ ok e → IsSealed d e
  unfolding seal
  seal-IsSealed d h =
      let (message, c, k) = >>=-eq-ok (canonical_bytes s (unsigned_of d)) _ h in
      record { message = message; canonical = c; made = ok_injective k }

  abbrev pub request_draft :
      ProtocolVersion
      → Token
      → OperationId
      → Digest32
      → Token
      → T
      → ℕ
      → ℕ
      → Option SignedJournalHead
      → Draft T
  request_draft protocol method operation_id hash audience body sent deadline head = record {
    kind = request;
    protocol = protocol;
    method = method;
    operation_id = operation_id;
    request_digest = hash;
    audience = audience;
    body = body;
    sent = sent;
    deadline = deadline;
    head = head;
  }

  abbrev pub response_draft :
      {U : Type 0} → SignedEnvelope U → T → ℕ → ℕ → Option SignedJournalHead → Draft T
  response_draft req body sent deadline head = record {
    kind = response;
    protocol = req.protocol;
    method = req.method;
    operation_id = req.operation_id;
    request_digest = req.request_digest;
    audience = req.caller_service_id;
    body = body;
    sent = sent;
    deadline = deadline;
    head = head;
  }

  pub record IsSignedRequest (versions : ProtocolVersionRange) (protocol : ProtocolVersion)
      (audience : Token) (operation_id : OperationId) (body : T) (sent deadline : ℕ)
      (head : Option SignedJournalHead) (e : SignedEnvelope T) : Type 0 where
    pub ranged : InRange versions protocol
    pub hash : Digest32
    pub digested : digest x s body ≡ ok hash
    pub method : Token
    pub named : method_of s body ≡ ok method
    pub sealed_as :
        IsSealed
          (request_draft protocol method operation_id hash audience body sent deadline head)
          e

  pub sign_request_inv :
      (versions : ProtocolVersionRange) (protocol : ProtocolVersion) (audience : Token)
      (operation_id : OperationId) (body : T) (sent deadline : ℕ) (head : Option SignedJournalHead)
      {e : SignedEnvelope T}
      → sign_request_with_optional_journal_head x s identity audience protocol versions operation_id
          body sent deadline head
        ≡ ok e
      → IsSignedRequest versions protocol audience operation_id body sent deadline head e
  unfolding sign_request_with_optional_journal_head token_new all
  sign_request_inv versions protocol audience operation_id body sent deadline head {e} h =
      let (u, a, h1) = >>=-eq-ok (map_err rejected (require versions protocol)) _ h in
      let (hash, b, h2) = >>=-eq-ok (digest x s body) _ h1 in
      let (method, d, h3) = >>=-eq-ok (method_of s body) _ h2 in
      record {
        ranged = (require_iff versions protocol).0.0 (ground (arith, a));
        hash = hash;
        digested = b;
        method = method;
        named = d;
        sealed_as =
            seal-IsSealed
              (request_draft protocol method operation_id hash audience body sent deadline head) h3;
      }
