-- ===== src/RpcWire/Envelope.antt =====
-- Signed envelopes (crates/bloom-rpc-wire/src/envelope.rs). The serde instances of the body are
-- parameters.
pub mod Checks
pub mod Accepted
pub mod Response
use bloom_service_runtime.Prelude.{
  ℕ, Bytes, codes, Bool, true, false, not, ◌&&◌, ◌||◌, Option, none, some, Result, ok, err, ◌>>=◌,
  ◌>>◌, ok_or, map_err, reject_if, leb, ◌==◌, ◌!=◌, nat_eq, list_eq, if◌then◌else◌, PartialEq, ◌≡◌,
  ◌↔◌, arith,
}
use bloom_service_runtime.RpcWire.Error.{
  WireError, wire_error, Failure, rejected, panicked, reject, malformed_frame, unsupported_version,
  unauthenticated_peer, operation_id_conflict,
}
use bloom_service_runtime.RpcWire.External.{External}
use bloom_service_runtime.RpcWire.Token.{Token, token_new, token_eq}
use bloom_service_runtime.RpcWire.Hex.{Digest32, OperationId, BootEpoch, hex_eq, hex_from_bytes}
use bloom_service_runtime.RpcWire.Decimal.{DecimalU64, decimal_u64_get}
use bloom_service_runtime.RpcWire.Base64.{Base64UrlBytes}
use bloom_service_runtime.RpcWire.Shape.{Value, string, object, Entries, end, entry}
use bloom_service_runtime.RpcWire.Signature.{verify_signature}
use bloom_service_runtime.RpcWire.Version.{
  ProtocolVersion, version_eq, ProtocolVersionRange, require,
}
use bloom_service_runtime.RpcWire.Audit.{SignedJournalHead, verify_sender_identity}

abbrev pub rpc_envelope_schema_v1 : Bytes
rpc_envelope_schema_v1 = codes "bloom.rpc-envelope.1"

pub data EnvelopeKind : Type 0 where
  request response : EnvelopeKind

abbrev pub kind_beq : EnvelopeKind → EnvelopeKind → Bool
kind_beq request request = true
kind_beq response response = true
kind_beq _ _ = false

pub data JournalHeadPolicy : Type 0 where
  required forbidden : JournalHeadPolicy

pub record UnsignedEnvelope (T : Type 0) : Type 0 where
  pub protocol : ProtocolVersion
  pub schema : Token
  pub kind : EnvelopeKind
  pub method : Token
  pub operation_id : OperationId
  pub request_digest : Digest32
  pub caller_service_id : Token
  pub caller_boot_epoch : BootEpoch
  pub audience : Token
  pub sent_at_ms : DecimalU64
  pub deadline_ms : DecimalU64
  pub body : T
  pub application_key_id : Token
  pub sender_journal_head : Option SignedJournalHead

-- The serde instances of a body: `serde_jcs::to_vec` of an envelope and of the body, and
-- `serde_json::to_value` of the body.
pub record BodySerde (T : Type 0) : Type 0 where
  pub envelope_to_vec : UnsignedEnvelope T → Option Bytes
  pub body_to_vec : T → Option Bytes
  pub body_to_value : T → Option Value

unfoldable pub canonical_bytes :
    {T : Type 0} → BodySerde T → UnsignedEnvelope T → Result Bytes Failure
canonical_bytes s unsigned = ok_or (s.envelope_to_vec unsigned) (reject malformed_frame)

unfoldable pub expected_request_digest :
    {T : Type 0} → External → BodySerde T → UnsignedEnvelope T → Result Digest32 Failure
expected_request_digest x s unsigned = do
  body ← ok_or (s.body_to_vec unsigned.body) (reject malformed_frame)
  ok (hex_from_bytes 32 x (x.sha256 body))

pub record SignedEnvelope (T : Type 0) : Type 0 where
  pub unsigned : UnsignedEnvelope T
  pub open unsigned use *
  pub signature : Base64UrlBytes

pub record AuthenticatedPeer : Type 0 where
  pub effective_uid : ℕ
  pub service_id : Token
  pub boot_epoch : BootEpoch
  pub audience : Token
  pub application_key_id : Token
  pub application_public_key : Bytes

-- `TypedRequestMethod`: what the owner of a body type supplies.
pub record TypedRequestMethod (T : Type 0) : Type 0 where
  pub operation_id : T → Result (Option OperationId) Failure
  pub is_read_only : T → Bool

-- `as_object().get(key).as_str()`
abbrev pub entry_text : Bytes → Entries → Option Bytes
entry_text key end = none
entry_text key (entry k v es) =
    if k == key then elim v [ string s ↦ some s | _ ↦ none ] else entry_text key es

abbrev pub text_at : Bytes → Value → Option Bytes
text_at key (object es) = entry_text key es
text_at key _ = none

-- The default `method`: the tag of the serialized body. An implementor that overrides it is not
-- modelled.
unfoldable pub method_of : {T : Type 0} → BodySerde T → T → Result Token Failure
method_of s body = do
  value ← ok_or (s.body_to_value body) (reject malformed_frame)
  tag ← ok_or (text_at (codes "method") value) (reject malformed_frame)
  map_err rejected (token_new tag)

module _ {T : Type 0} (x : External) (s : BodySerde T) where
  -- The checks of `verify`, in its order; each is one `if` of the source.
  unfoldable pub check_schema : SignedEnvelope T → Result (Unit {0}) Failure
  check_schema e = reject_if (e.schema.text != rpc_envelope_schema_v1) (reject unsupported_version)

  unfoldable pub check_peer : SignedEnvelope T → ℕ → AuthenticatedPeer → Result (Unit {0}) Failure
  check_peer e observed_effective_uid expected =
      reject_if
        (observed_effective_uid != expected.effective_uid
          || e.caller_service_id != expected.service_id
          || e.caller_boot_epoch != expected.boot_epoch
          || e.audience != expected.audience
          || e.application_key_id != expected.application_key_id)
        (reject unauthenticated_peer)

  unfoldable pub check_deadline : SignedEnvelope T → Result (Unit {0}) Failure
  check_deadline e = do
    deadline ← ok_or (decimal_u64_get e.deadline_ms) panicked
    sent_at ← ok_or (decimal_u64_get e.sent_at_ms) panicked
    reject_if (leb deadline sent_at) (reject malformed_frame)

  unfoldable pub check_digest : SignedEnvelope T → Result (Unit {0}) Failure
  check_digest e = elim e.kind [
    | response ↦ ok tt
    | request ↦ do
      digest ← expected_request_digest x s e.unsigned
      reject_if (e.request_digest != digest) (reject malformed_frame)
  ]

  unfoldable pub verify_sender_journal_head :
      SignedEnvelope T → AuthenticatedPeer → JournalHeadPolicy → Result (Unit {0}) Failure
  verify_sender_journal_head e expected policy =
      if e.protocol.minor == 0
      then elim e.sender_journal_head [
        | some head ↦ err (reject unsupported_version)
        | none ↦ elim policy [ required ↦ err (reject unsupported_version) | forbidden ↦ ok tt ]
      ]
      else elim e.sender_journal_head [
        | some head ↦ elim policy [
          | required ↦
              verify_sender_identity x head e.caller_service_id e.application_key_id
                expected.application_public_key
          | forbidden ↦ err (reject unauthenticated_peer)
        ]
        | none ↦ elim policy [ required ↦ err (reject unauthenticated_peer) | forbidden ↦ ok tt ]
      ]

  unfoldable pub verify :
      SignedEnvelope T
      → ℕ
      → AuthenticatedPeer
      → ProtocolVersionRange
      → JournalHeadPolicy
      → Result (Unit {0}) Failure
  verify e observed_effective_uid expected supported_versions policy = do
    map_err rejected (require supported_versions e.protocol)
    check_schema e
    check_peer e observed_effective_uid expected
    check_deadline e
    check_digest e
    verify_signature x expected.application_public_key e.signature (canonical_bytes s e.unsigned)
    verify_sender_journal_head e expected policy

  unfoldable pub verify_response_to :
      {U : Type 0}
      → SignedEnvelope T
      → ℕ
      → AuthenticatedPeer
      → SignedEnvelope U
      → ProtocolVersionRange
      → JournalHeadPolicy
      → Result (Unit {0}) Failure
  verify_response_to e observed_effective_uid expected req supported_versions policy = do
    verify e observed_effective_uid expected supported_versions policy
    reject_if
        (not (kind_beq e.kind response)
          || not (kind_beq req.kind request)
          || e.protocol != req.protocol
          || e.method != req.method
          || e.operation_id != req.operation_id
          || e.request_digest != req.request_digest)
        (reject malformed_frame)

  unfoldable pub verify_typed :
      TypedRequestMethod T
      → SignedEnvelope T
      → ℕ
      → AuthenticatedPeer
      → ProtocolVersionRange
      → JournalHeadPolicy
      → Result (Unit {0}) Failure
  verify_typed t e observed_effective_uid expected supported_versions policy = do
    verify e observed_effective_uid expected supported_versions policy
    reject_if (not (kind_beq e.kind request)) (reject malformed_frame)
    method ← method_of s e.body
    reject_if (e.method != method) (reject malformed_frame)
    body_id ← t.operation_id e.body
    reject_if (elim body_id [ none ↦ false | some id ↦ id != e.operation_id ])
        (reject operation_id_conflict)
