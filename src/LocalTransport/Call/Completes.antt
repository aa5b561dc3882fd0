-- ===== src/LocalTransport/Call/Completes.antt =====
-- A call to a server that answers it (crates/bloom-triad-local-transport/src/lib.rs).
use bloom_service_runtime.Prelude.{
  ℕ, ◌<◌, all, Option, some, Result, ok, >>=-eq-ok, ok_or, ok_or-eq-ok, reject_if, leb,
  saturating_add, IsU64, ◌≡◌, ◌≢◌, refl, sym, ◌∙◌, ap, subst, arith,
}
use bloom_service_runtime.RpcWire.Error.{WireError, reject, panicked, service_unavailable}
use bloom_service_runtime.RpcWire.External.{External, IsSigner, IsBase64}
use bloom_service_runtime.RpcWire.Token.{Token, token_new}
use bloom_service_runtime.RpcWire.Hex.{Digest32, OperationId}
use bloom_service_runtime.RpcWire.Decimal.{decimal_u64_get}
use bloom_service_runtime.RpcWire.Decimal.U64.{u64_roundtrip}
use bloom_service_runtime.RpcWire.Version.{ProtocolVersion}
use bloom_service_runtime.RpcWire.Version.Range.{InRange}
use bloom_service_runtime.RpcWire.Audit.{SignedJournalHead}
use bloom_service_runtime.RpcWire.Envelope.{
  request, SignedEnvelope, BodySerde, TypedRequestMethod, required, verify_response_to,
}
use bloom_service_runtime.RpcWire.Envelope.Accepted.{Accepted}
use bloom_service_runtime.RpcWire.Envelope.Response.{Answers, verify_response_to_iff}
use bloom_service_runtime.LocalTransport.Identity.{LocalIdentity, authenticated_for}
use bloom_service_runtime.LocalTransport.Hello.{HelloWriter, Written, authenticate_client}
use bloom_service_runtime.LocalTransport.Hello.Answered.{IsPinned}
use bloom_service_runtime.LocalTransport.Sign.{
  sign_journal_head, sign_request_with_optional_journal_head,
  sign_response_with_optional_journal_head,
}
use bloom_service_runtime.LocalTransport.Sign.Draft.{
  response_draft, seal-IsSealed, IsSignedRequest, sign_request_inv,
}
use bloom_service_runtime.LocalTransport.Sign.Responded.{sign_response_with_head_accepted}
use bloom_service_runtime.LocalTransport.Exchange.{Endpoint, ClientEnd, operation_or, response_at}
use bloom_service_runtime.LocalTransport.Call.{call_with_journal_head}
use bloom_service_runtime.LocalTransport.Call.Returned.{call_with_journal_head_iff}

-- What a signed request says of its caller and its deadline.
record Asks {T : Type 0} (identity : LocalIdentity) (protocol : ProtocolVersion) (deadline : ℕ)
    (req : SignedEnvelope T) : Type 0 where
  pub is_request : req.kind ≡ request
  pub version : req.protocol ≡ protocol
  pub caller : req.caller_service_id ≡ identity.service_id
  pub read_deadline : decimal_u64_get req.deadline_ms ≡ some deadline

-- What a response with a head carries.
record Carries {R : Type 0} (body : R) (head : SignedJournalHead) (deadline : ℕ)
    (e : SignedEnvelope R) : Type 0 where
  pub body_of : e.body ≡ body
  pub head_of : e.sender_journal_head ≡ some head
  pub deadline_of : decimal_u64_get e.deadline_ms ≡ some deadline

module _ (x : External) where
  signed-Asks :
      {T : Type 0} (s : BodySerde T) (e : Endpoint) (audience : Token) (operation_id : OperationId)
      (body : T) (sent deadline : ℕ) (head : Option SignedJournalHead) {req : SignedEnvelope T}
      → IsSignedRequest x s e.identity e.supported_versions e.current_version audience operation_id
          body sent deadline head req
      → IsU64 deadline
      → Asks e.identity e.current_version deadline req
  signed-Asks s e audience operation_id body sent deadline head r small =
      subst (Asks e.identity e.current_version deadline) r.sealed_as.made (record {
        is_request = refl;
        version = refl;
        caller = refl;
        read_deadline = (u64_roundtrip deadline small).1;
      })

  signed-Carries :
      {T R : Type 0} (s : BodySerde R) (identity : LocalIdentity) (req : SignedEnvelope T)
      (body : R) (sent deadline : ℕ) (head : SignedJournalHead) {e : SignedEnvelope R}
      → sign_response_with_optional_journal_head x s identity req body sent deadline (some head)
        ≡ ok e
      → IsU64 deadline
      → Carries body head deadline e
  unfolding sign_response_with_optional_journal_head token_new all
  signed-Carries s identity req body sent deadline head h small =
      subst (Carries body head deadline)
        (seal-IsSealed x s identity (response_draft x s identity req body sent deadline (some head))
          h).made
        (record { body_of = refl; head_of = refl; deadline_of = (u64_roundtrip deadline small).1 })

  answered_before :
      {T R : Type 0} (r : BodySerde R) (identity : LocalIdentity) (req : SignedEnvelope T)
      (body : R) (head : Option SignedJournalHead) (answered_at deadline : ℕ) {e : SignedEnvelope R}
      → decimal_u64_get req.deadline_ms ≡ some deadline
      → response_at x r identity req body head (ok answered_at) ≡ ok e
      → (answered_at < deadline)
        × (sign_response_with_optional_journal_head x r identity req body answered_at deadline head
            ≡ ok e)
  unfolding response_at
  answered_before r identity req body head answered_at deadline {e} read h =
      let (d, a, h1) = >>=-eq-ok (ok_or (decimal_u64_get req.deadline_ms) panicked) _ h in
      let (u, b, h2) =
        >>=-eq-ok (reject_if (leb d answered_at) (reject service_unavailable)) _ h1 in
      let same : d ≡ deadline = ground (arith, ok_or-eq-ok _ _ a, read) in
      (
        ground (arith, b, same),
        subst
            (λ (k : ℕ).
              sign_response_with_optional_journal_head x r identity req body answered_at k head
              ≡ ok e)
            same h2,
      )

  module _ {T U E : Type 0} (to_vec : HelloWriter) (e : Endpoint) (s : BodySerde T)
      (r : BodySerde (Result U E)) (t : TypedRequestMethod T) (from : WireError → E)
      (signer : IsSigner x) (base64 : IsBase64 x) (server : LocalIdentity)
      (pinned : IsPinned x server e.peer) where
    response_accepted :
        (body : T) (u : U) (sent answered_at deadline sequence : ℕ)
        (sender_head : Option SignedJournalHead) (head_hash : Digest32) {operation_id : OperationId}
        {req : SignedEnvelope T} {response : SignedEnvelope (Result U E)} {head : SignedJournalHead}
        → IsSignedRequest x s e.identity e.supported_versions e.current_version e.peer.service_id
            operation_id body sent deadline sender_head req
        → sign_journal_head x server sequence head_hash ≡ ok head
        → sign_response_with_optional_journal_head x r server req
            (ok u)
            answered_at
            deadline
            (some head)
          ≡ ok response
        → e.current_version.minor ≢ 0
        → answered_at < deadline
        → IsU64 deadline
        → Accepted x r response e.peer.effective_uid
            (authenticated_for e.peer e.identity.service_id)
            e.supported_versions
            required
          × Answers response req
    response_accepted body u sent answered_at deadline sequence sender_head head_hash {req = req}
          {response = response} made headed sealed minor before small =
        let asks = signed-Asks s e _ _ body sent deadline sender_head made small in
        let verified =
          sign_response_with_head_accepted x r signer base64 server e.peer pinned
            e.supported_versions req (ok u) answered_at deadline sequence head_hash headed sealed
            asks.is_request (subst (InRange e.supported_versions) (sym asks.version) made.ranged)
            (λ z. minor (ap (λ (v : ProtocolVersion). v.minor) (sym asks.version) ∙ z)) before
            small in
        (verify_response_to_iff x r response e.peer.effective_uid
            (authenticated_for e.peer e.identity.service_id) e.supported_versions required req).0
          (subst
            (λ (service : Token).
              verify_response_to x r response e.peer.effective_uid
                (authenticated_for e.peer service) req e.supported_versions required
              ≡ ok tt)
            asks.caller verified)

    -- For crypto and base64 that work as documented: a client pins the server's identity, has
    -- authenticated it, and has signed and written its request, in a version whose minor number
    -- is not 0. If the server answers that request with a value and a head that it signs, as
    -- `response_at` does at a time of its own, and the client reads this response before the
    -- deadline that it set, and retains the head, then the call returns the value.
    pub call_with_journal_head_completes :
        (c : ClientEnd T (Result U E)) (body : T) (timeout_ms : ℕ) (sender_head : SignedJournalHead)
        (checkpoint : SignedJournalHead → Result (Unit {0}) E)
        (sent answered_at received sequence : ℕ) (head_hash : Digest32) (u : U) {hellos : Written}
        {body_id : Option OperationId} {req : SignedEnvelope T}
        {response : SignedEnvelope (Result U E)} {response_head : SignedJournalHead}
        → authenticate_client x to_vec c.connection e.identity e.peer e.current_version
            e.supported_versions
          ≡ ok hellos
        → c.peer_uid ≡ some e.peer.effective_uid
        → c.sent_at ≡ ok sent
        → t.operation_id body ≡ ok body_id
        → sign_request_with_optional_journal_head x s e.identity e.peer.service_id e.current_version
            e.supported_versions
            (operation_or body_id c.random_operation_id)
            body
            sent
            (saturating_add sent timeout_ms)
            (some sender_head)
          ≡ ok req
        → c.write req ≡ ok tt
        → e.current_version.minor ≢ 0
        → sign_journal_head x server sequence head_hash ≡ ok response_head
        → response_at x r server req (ok u) (some response_head) (ok answered_at) ≡ ok response
        → c.read ≡ ok response
        → c.received_at ≡ ok received
        → received < saturating_add sent timeout_ms
        → checkpoint response_head ≡ ok tt
        → call_with_journal_head x to_vec e s r t from c body timeout_ms sender_head checkpoint
          ≡ ok u
    call_with_journal_head_completes c body timeout_ms sender_head checkpoint sent answered_at
          received sequence head_hash u {hellos} {body_id} {req} {response} {response_head}
          authenticated observed sent_at read_id signed written minor headed answered read
          received_at live retained =
        let deadline = saturating_add sent timeout_ms in
        let small : IsU64 deadline = omega arith in
        let made =
          sign_request_inv x s e.identity e.supported_versions e.current_version e.peer.service_id
            (operation_or body_id c.random_operation_id) body sent deadline (some sender_head)
            signed in
        let asks = signed-Asks s e _ _ body sent deadline (some sender_head) made small in
        let (before, sealed) =
          answered_before r server req (ok u) (some response_head) answered_at deadline
            asks.read_deadline answered in
        let carries =
          signed-Carries r server req (ok u) answered_at deadline response_head sealed small in
        let (accepted, answers) =
          response_accepted body u sent answered_at deadline sequence (some sender_head) head_hash
            made headed sealed minor before small in
        (call_with_journal_head_iff x to_vec e s r t from c body timeout_ms sender_head checkpoint
            u).1
          (record {
            request = req;
            response = response;
            exchanged = record {
              hellos = hellos;
              authenticated = authenticated;
              uid = e.peer.effective_uid;
              observed = observed;
              sent = sent;
              sent_at = sent_at;
              body_id = body_id;
              read_id = read_id;
              signed = signed;
              written = written;
              read = read;
              accepted = accepted;
              answers = answers;
              received = received;
              received_at = received_at;
              live = record {
                deadline = deadline;
                read_deadline = carries.deadline_of;
                live = live;
              };
            };
            response_head = response_head;
            carries = carries.head_of;
            retained = retained;
            answers = carries.body_of;
          })
