-- ===== src/LocalTransport/Exchange/Received.antt =====
-- Which requests a server receives (crates/bloom-triad-local-transport/src/lib.rs).
use bloom_service_runtime.Prelude.{
  ℕ, ◌<◌, some, ok, >>=-eq-ok, map_err-eq-ok, ok_or, ok_or-eq-ok, map_err, ok_injective, ◌≡◌, ◌↔◌,
  refl, subst, arith,
}
use bloom_service_runtime.RpcWire.Error.{rejected, reject, service_unavailable}
use bloom_service_runtime.RpcWire.External.{External}
use bloom_service_runtime.RpcWire.Decimal.{decimal_u64_get}
use bloom_service_runtime.RpcWire.Audit.{SignedJournalHead}
use bloom_service_runtime.RpcWire.Envelope.{
  SignedEnvelope, BodySerde, TypedRequestMethod, JournalHeadPolicy, required, verify_typed,
}
use bloom_service_runtime.RpcWire.Envelope.Checks.{HeadAccepted, without, with_head}
use bloom_service_runtime.RpcWire.Envelope.Accepted.{Accepted}
use bloom_service_runtime.RpcWire.Envelope.Response.{Typed, verify_typed_iff}
use bloom_service_runtime.LocalTransport.Identity.{authenticated_for}
use bloom_service_runtime.LocalTransport.Hello.{HelloWriter, Written, authenticate_server}
use bloom_service_runtime.LocalTransport.Sign.{require_live_deadline}
use bloom_service_runtime.LocalTransport.Exchange.{
  Endpoint, RequestContext, from_request, ServerEnd, receive_request,
}

-- A deadline that has not passed.
pub record IsLive {R : Type 0} (envelope : SignedEnvelope R) (now : ℕ) : Type 0 where
  pub deadline : ℕ
  pub read_deadline : decimal_u64_get envelope.deadline_ms ≡ some deadline
  pub live : now < deadline

pub IsLive-iff :
    {R : Type 0} (envelope : SignedEnvelope R) (now : ℕ)
    → (require_live_deadline envelope now ≡ ok tt) ↔ IsLive envelope now
unfolding require_live_deadline
IsLive-iff envelope now = ground arith

-- The context that a request gives.
pub record IsContextOf {T : Type 0} (request : SignedEnvelope T) (context : RequestContext)
    : Type 0 where
  pub method : context.method ≡ request.method
  pub operation : context.operation_id ≡ request.operation_id
  pub service : context.caller_service_id ≡ request.caller_service_id
  pub epoch : context.caller_boot_epoch ≡ request.caller_boot_epoch
  pub key_id : context.caller_application_key_id ≡ request.application_key_id
  pub sent_at : decimal_u64_get request.sent_at_ms ≡ some context.sent_at_ms
  pub deadline : decimal_u64_get request.deadline_ms ≡ some context.deadline_ms

module _ {T : Type 0} (x : External) (to_vec : HelloWriter) (e : Endpoint) (s : BodySerde T)
    (t : TypedRequestMethod T) (c : ServerEnd T) (policy : JournalHeadPolicy) where
  -- The client is authenticated, and what is read is a typed request of that client to this
  -- service, whose deadline has not passed.
  pub record Received (request : SignedEnvelope T) : Type 0 where
    pub hellos : Written
    pub authenticated :
        authenticate_server x to_vec c.connection e.identity e.peer e.current_version
          e.supported_versions
        ≡ ok hellos
    pub uid : ℕ
    pub observed : c.peer_uid ≡ some uid
    pub read : c.read ≡ ok request
    pub accepted :
        Accepted x s request uid
          (authenticated_for e.peer e.identity.service_id)
          e.supported_versions
          policy
    pub typed :
        Typed x s request uid
          (authenticated_for e.peer e.identity.service_id)
          e.supported_versions
          policy
          t
    pub received : ℕ
    pub received_at : c.received_at ≡ ok received
    pub live : IsLive request received

  received :
      (request : SignedEnvelope T)
      → receive_request x to_vec e s t c policy ≡ ok request
      → Received request
  unfolding receive_request
  received request h =
      let (hellos, a, h1) =
        >>=-eq-ok
          (authenticate_server x to_vec c.connection e.identity e.peer e.current_version
            e.supported_versions)
          _ h in
      let (uid, b, h2) = >>=-eq-ok (ok_or c.peer_uid (reject service_unavailable)) _ h1 in
      let (asked, d, h3) = >>=-eq-ok (map_err rejected c.read) _ h2 in
      let (_, f, h4) =
        >>=-eq-ok
          (verify_typed x s t asked uid (authenticated_for e.peer e.identity.service_id)
            e.supported_versions policy)
          _ h3 in
      let (received_at, g, h5) = >>=-eq-ok (map_err rejected c.received_at) _ h4 in
      let (_, k, h6) = >>=-eq-ok (require_live_deadline asked received_at) _ h5 in
      let (accepted, typed) =
        (verify_typed_iff x s asked uid (authenticated_for e.peer e.identity.service_id)
            e.supported_versions policy t).0
          f in
      subst Received (ok_injective h6) (record {
        hellos = hellos;
        authenticated = a;
        uid = uid;
        observed = ok_or-eq-ok _ _ b;
        read = map_err-eq-ok _ _ d;
        accepted = accepted;
        typed = typed;
        received = received_at;
        received_at = map_err-eq-ok _ _ g;
        live = (IsLive-iff asked received_at).0 k;
      })

  receives :
      (request : SignedEnvelope T)
      → Received request
      → receive_request x to_vec e s t c policy ≡ ok request
  unfolding receive_request
  receives request w =
      let verified =
        (verify_typed_iff x s request w.uid (authenticated_for e.peer e.identity.service_id)
            e.supported_versions policy t).1
          (w.accepted, w.typed) in
      let live = (IsLive-iff request w.received).1 w.live in
      rw (w.authenticated, w.observed, w.read, verified, w.received_at, live)

  pub receive_request_iff :
      (request : SignedEnvelope T)
      → (receive_request x to_vec e s t c policy ≡ ok request) ↔ Received request
  receive_request_iff request = (received request, receives request)

  -- The times of a received request can be read: it gives a context without a panic.
  pub from_request_succeeds :
      (request : SignedEnvelope T)
      → Received request
      → (context : RequestContext) × (from_request request ≡ ok context)
        × IsContextOf request context
  unfolding from_request
  from_request_succeeds request w =
      let times = w.accepted.deadline in
      (
        record {
          method = request.method;
          operation_id = request.operation_id;
          caller_service_id = request.caller_service_id;
          caller_boot_epoch = request.caller_boot_epoch;
          caller_application_key_id = request.application_key_id;
          sent_at_ms = times.sent_at;
          deadline_ms = times.deadline;
        },
        rw (times.read_sent_at, times.read_deadline),
        record {
          method = refl;
          operation = refl;
          service = refl;
          epoch = refl;
          key_id = refl;
          sent_at = times.read_sent_at;
          deadline = times.read_deadline;
        },
      )

  carried_head :
      (request : SignedEnvelope T)
      → policy ≡ required
      → HeadAccepted x s request (authenticated_for e.peer e.identity.service_id) policy
      → (head : SignedJournalHead) × (request.sender_journal_head ≡ some head)
  carried_head request p (without none_carried forbids) = absurd (cc (p, forbids))
  carried_head request p (with_head head minor carries requires verified) = (head, carries)

  -- Where a head is required, a received request has one.
  pub head_carried :
      (request : SignedEnvelope T)
      → policy ≡ required
      → Received request
      → (head : SignedJournalHead) × (request.sender_journal_head ≡ some head)
  head_carried request p w = carried_head request p w.accepted.head
