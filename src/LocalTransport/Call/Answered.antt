-- ===== src/LocalTransport/Call/Answered.antt =====
-- When a call returns, and with what (crates/bloom-triad-local-transport/src/lib.rs).
use bloom_service_runtime.Prelude.{
  ℕ, Option, some, ok, >>=-eq-ok, map_err-eq-ok, ok_or, ok_or-eq-ok, map_err, ok_injective,
  saturating_add, ◌≡◌, ◌↔◌, subst,
}
use bloom_service_runtime.RpcWire.Error.{rejected, reject, service_unavailable}
use bloom_service_runtime.RpcWire.External.{External}
use bloom_service_runtime.RpcWire.Hex.{OperationId}
use bloom_service_runtime.RpcWire.Audit.{SignedJournalHead}
use bloom_service_runtime.RpcWire.Envelope.{
  SignedEnvelope, BodySerde, TypedRequestMethod, JournalHeadPolicy, verify_response_to,
}
use bloom_service_runtime.RpcWire.Envelope.Accepted.{Accepted}
use bloom_service_runtime.RpcWire.Envelope.Response.{Answers, verify_response_to_iff}
use bloom_service_runtime.LocalTransport.Identity.{authenticated_for}
use bloom_service_runtime.LocalTransport.Hello.{HelloWriter, Written, authenticate_client}
use bloom_service_runtime.LocalTransport.Sign.{
  sign_request_with_optional_journal_head, require_live_deadline,
}
use bloom_service_runtime.LocalTransport.Exchange.{Endpoint, ClientEnd, operation_or, exchange}
use bloom_service_runtime.LocalTransport.Exchange.Received.{IsLive, IsLive-iff}

module _ (x : External) (to_vec : HelloWriter) (e : Endpoint) where
  module _ {T R : Type 0} (s : BodySerde T) (r : BodySerde R) (t : TypedRequestMethod T)
      (c : ClientEnd T R) (body : T) (timeout_ms : ℕ) (head : Option SignedJournalHead)
      (policy : JournalHeadPolicy) where
    -- The server is authenticated, the request is signed and written, and the envelope that is
    -- read is a response of that server to this request, whose deadline has not passed.
    pub record Exchanged (request : SignedEnvelope T) (response : SignedEnvelope R) : Type 0 where
      pub hellos : Written
      pub authenticated :
          authenticate_client x to_vec c.connection e.identity e.peer e.current_version
            e.supported_versions
          ≡ ok hellos
      pub uid : ℕ
      pub observed : c.peer_uid ≡ some uid
      pub sent : ℕ
      pub sent_at : c.sent_at ≡ ok sent
      pub body_id : Option OperationId
      pub read_id : t.operation_id body ≡ ok body_id
      pub signed :
          sign_request_with_optional_journal_head x s e.identity e.peer.service_id e.current_version
            e.supported_versions
            (operation_or body_id c.random_operation_id)
            body
            sent
            (saturating_add sent timeout_ms)
            head
          ≡ ok request
      pub written : c.write request ≡ ok tt
      pub read : c.read ≡ ok response
      pub accepted :
          Accepted x r response uid
            (authenticated_for e.peer e.identity.service_id)
            e.supported_versions
            policy
      pub answers : Answers response request
      pub received : ℕ
      pub received_at : c.received_at ≡ ok received
      pub live : IsLive response received

    exchanged :
        (request : SignedEnvelope T) (response : SignedEnvelope R)
        → exchange x to_vec e s r t c body timeout_ms head policy ≡ ok (request, response)
        → Exchanged request response
    unfolding exchange
    exchanged request response h =
        let (hellos, a, h1) =
          >>=-eq-ok
            (authenticate_client x to_vec c.connection e.identity e.peer e.current_version
              e.supported_versions)
            _ h in
        let (uid, b, h2) = >>=-eq-ok (ok_or c.peer_uid (reject service_unavailable)) _ h1 in
        let (sent, d, h3) = >>=-eq-ok (map_err rejected c.sent_at) _ h2 in
        let (body_id, f, h4) = >>=-eq-ok (t.operation_id body) _ h3 in
        let (asked, g, h5) =
          >>=-eq-ok
            (sign_request_with_optional_journal_head x s e.identity e.peer.service_id
              e.current_version e.supported_versions (operation_or body_id c.random_operation_id)
              body sent (saturating_add sent timeout_ms) head)
            _ h4 in
        let (u, k, h6) = >>=-eq-ok (map_err rejected (c.write asked)) _ h5 in
        let (answer, l, h7) = >>=-eq-ok (map_err rejected c.read) _ h6 in
        let (v, m, h8) =
          >>=-eq-ok
            (verify_response_to x r answer uid (authenticated_for e.peer e.identity.service_id)
              asked e.supported_versions policy)
            _ h7 in
        let (received, n, h9) = >>=-eq-ok (map_err rejected c.received_at) _ h8 in
        let (w, o, h10) = >>=-eq-ok (require_live_deadline answer received) _ h9 in
        let (accepted, answers) =
          (verify_response_to_iff x r answer uid (authenticated_for e.peer e.identity.service_id)
              e.supported_versions policy asked).0
            m in
        subst (λ (p : SignedEnvelope T × SignedEnvelope R). Exchanged p.0 p.1) (ok_injective h10)
          (record {
            hellos = hellos;
            authenticated = a;
            uid = uid;
            observed = ok_or-eq-ok _ _ b;
            sent = sent;
            sent_at = map_err-eq-ok _ _ d;
            body_id = body_id;
            read_id = f;
            signed = g;
            written = map_err-eq-ok _ _ k;
            read = map_err-eq-ok _ _ l;
            accepted = accepted;
            answers = answers;
            received = received;
            received_at = map_err-eq-ok _ _ n;
            live = (IsLive-iff answer received).0 o;
          })

    exchanges :
        (request : SignedEnvelope T) (response : SignedEnvelope R)
        → Exchanged request response
        → exchange x to_vec e s r t c body timeout_ms head policy ≡ ok (request, response)
    unfolding exchange
    exchanges request response w =
        let verified =
          (verify_response_to_iff x r response w.uid
              (authenticated_for e.peer e.identity.service_id) e.supported_versions policy
              request).1
            (w.accepted, w.answers) in
        let live = (IsLive-iff response w.received).1 w.live in
        rw (
          w.authenticated, w.observed, w.sent_at, w.read_id, w.signed, w.written, w.read, verified,
          w.received_at, live,
        )

    pub exchange_iff :
        (request : SignedEnvelope T) (response : SignedEnvelope R)
        → (exchange x to_vec e s r t c body timeout_ms head policy ≡ ok (request, response))
          ↔ Exchanged request response
    exchange_iff request response = (exchanged request response, exchanges request response)
