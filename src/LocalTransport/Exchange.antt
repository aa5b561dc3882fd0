-- ===== src/LocalTransport/Exchange.antt =====
-- One exchange on an authenticated connection: a client's `call`, and the requests that a server
-- receives (crates/bloom-triad-local-transport/src/lib.rs). What the connection and the clock give
-- is the input of an exchange.
pub mod Received
use bloom_service_runtime.Prelude.{
  ℕ, Option, none, some, Result, ok, ◌>>=◌, ◌>>◌, ok_or, map_err, reject_if, leb, saturating_add,
}
use bloom_service_runtime.RpcWire.Error.{
  WireError, Failure, rejected, panicked, reject, service_unavailable,
}
use bloom_service_runtime.RpcWire.External.{External}
use bloom_service_runtime.RpcWire.Token.{Token}
use bloom_service_runtime.RpcWire.Hex.{OperationId, BootEpoch}
use bloom_service_runtime.RpcWire.Decimal.{decimal_u64_get}
use bloom_service_runtime.RpcWire.Version.{ProtocolVersion, ProtocolVersionRange}
use bloom_service_runtime.RpcWire.Audit.{SignedJournalHead}
use bloom_service_runtime.RpcWire.Envelope.{
  SignedEnvelope, BodySerde, TypedRequestMethod, JournalHeadPolicy, verify_typed,
  verify_response_to,
}
use bloom_service_runtime.LocalTransport.Identity.{LocalIdentity, PeerAcl, authenticated_for}
use bloom_service_runtime.LocalTransport.Hello.{
  HelloWriter, Connection, authenticate_client, authenticate_server,
}
use bloom_service_runtime.LocalTransport.Sign.{
  sign_request_with_optional_journal_head, sign_response_with_optional_journal_head,
  require_live_deadline,
}

-- What both ends are configured with.
pub record Endpoint : Type 0 where
  pub identity : LocalIdentity
  pub peer : PeerAcl
  pub current_version : ProtocolVersion
  pub supported_versions : ProtocolVersionRange

-- `AuthenticatedRequestContext`
pub record RequestContext : Type 0 where
  pub method : Token
  pub operation_id : OperationId
  pub caller_service_id : Token
  pub caller_boot_epoch : BootEpoch
  pub caller_application_key_id : Token
  pub sent_at_ms : ℕ
  pub deadline_ms : ℕ

-- `from_request`, with the panic of `get`.
unfoldable pub from_request : {T : Type 0} → SignedEnvelope T → Result RequestContext Failure
from_request request = do
  sent_at_ms ← ok_or (decimal_u64_get request.sent_at_ms) panicked
  deadline_ms ← ok_or (decimal_u64_get request.deadline_ms) panicked
  ok (record {
    method = request.method;
    operation_id = request.operation_id;
    caller_service_id = request.caller_service_id;
    caller_boot_epoch = request.caller_boot_epoch;
    caller_application_key_id = request.application_key_id;
    sent_at_ms = sent_at_ms;
    deadline_ms = deadline_ms;
  })

-- The client's end: the handshake, `peer_uid`, the clock before and after, the random operation
-- id, what `write_frame` returns for the request, and what `read_frame` returns.
pub record ClientEnd (T R : Type 0) : Type 0 where
  pub connection : Connection
  pub peer_uid : Option ℕ
  pub sent_at : Result ℕ WireError
  pub received_at : Result ℕ WireError
  pub random_operation_id : OperationId
  pub write : SignedEnvelope T → Result (Unit {0}) WireError
  pub read : Result (SignedEnvelope R) WireError

-- The server's end, up to the request.
pub record ServerEnd (T : Type 0) : Type 0 where
  pub connection : Connection
  pub peer_uid : Option ℕ
  pub received_at : Result ℕ WireError
  pub read : Result (SignedEnvelope T) WireError

-- `unwrap_or_else(random_operation_id)`
abbrev pub operation_or : Option OperationId → OperationId → OperationId
operation_or none random = random
operation_or (some id) random = id

module _ (x : External) (to_vec : HelloWriter) (e : Endpoint) where
  module _ {T R : Type 0} (s : BodySerde T) (r : BodySerde R) (t : TypedRequestMethod T) where
    -- The request that was sent comes back, too.
    unfoldable pub exchange :
        ClientEnd T R
        → T
        → ℕ
        → Option SignedJournalHead
        → JournalHeadPolicy
        → Result (SignedEnvelope T × SignedEnvelope R) Failure
    exchange c body timeout_ms sender_journal_head policy = do
      hellos ←
          authenticate_client x to_vec c.connection e.identity e.peer e.current_version
            e.supported_versions
      observed_uid ← ok_or c.peer_uid (reject service_unavailable)
      sent_at_ms ← map_err rejected c.sent_at
      body_id ← t.operation_id body
      request ←
          sign_request_with_optional_journal_head x s e.identity e.peer.service_id e.current_version
            e.supported_versions (operation_or body_id c.random_operation_id) body sent_at_ms
            (saturating_add sent_at_ms timeout_ms) sender_journal_head
      map_err rejected (c.write request)
      response ← map_err rejected c.read
      verify_response_to x r response observed_uid (authenticated_for e.peer e.identity.service_id)
          request e.supported_versions policy
      received_at_ms ← map_err rejected c.received_at
      require_live_deadline response received_at_ms
      ok (request, response)

    -- The body of the response with its head.
    unfoldable pub call_with_optional_journal_head :
        ClientEnd T R
        → T
        → ℕ
        → Option SignedJournalHead
        → JournalHeadPolicy
        → Result (R × Option SignedJournalHead) Failure
    unfolding exchange
    call_with_optional_journal_head c body timeout_ms sender_journal_head policy = do
      (request, response) ← exchange c body timeout_ms sender_journal_head policy
      ok (response.body, response.sender_journal_head)

  module _ {T : Type 0} (s : BodySerde T) (t : TypedRequestMethod T) where
    unfoldable pub receive_request :
        ServerEnd T → JournalHeadPolicy → Result (SignedEnvelope T) Failure
    receive_request c policy = do
      hellos ←
          authenticate_server x to_vec c.connection e.identity e.peer e.current_version
            e.supported_versions
      observed_uid ← ok_or c.peer_uid (reject service_unavailable)
      request ← map_err rejected c.read
      verify_typed x s t request observed_uid (authenticated_for e.peer e.identity.service_id)
          e.supported_versions policy
      received_at_ms ← map_err rejected c.received_at
      require_live_deadline request received_at_ms
      ok request

-- The response that `send_response` writes at this time.
unfoldable pub response_at :
    {T R : Type 0}
    → External
    → BodySerde R
    → LocalIdentity
    → SignedEnvelope T
    → R
    → Option SignedJournalHead
    → Result ℕ WireError
    → Result (SignedEnvelope R) Failure
response_at x r identity request body sender_journal_head clock = do
  sent_at_ms ← map_err rejected clock
  deadline_ms ← ok_or (decimal_u64_get request.deadline_ms) panicked
  reject_if (leb deadline_ms sent_at_ms) (reject service_unavailable)
  sign_response_with_optional_journal_head x r identity request body sent_at_ms deadline_ms
      sender_journal_head
