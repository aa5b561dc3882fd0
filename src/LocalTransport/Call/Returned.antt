-- ===== src/LocalTransport/Call/Returned.antt =====
-- When a call with journal heads returns, and with what
-- (crates/bloom-triad-local-transport/src/lib.rs).
use bloom_service_runtime.Prelude.{
  ℕ, Option, some, Result, ok, >>=-eq-ok, map_err-eq-ok, ok_or, ok_or-eq-ok, map_err, ok_injective,
  ◌≡◌, ◌↔◌, ◌∙◌, ap,
}
use bloom_service_runtime.RpcWire.Error.{WireError, wire_error, unauthenticated_peer}
use bloom_service_runtime.RpcWire.External.{External}
use bloom_service_runtime.RpcWire.Audit.{SignedJournalHead}
use bloom_service_runtime.RpcWire.Envelope.{SignedEnvelope, BodySerde, TypedRequestMethod, required}
use bloom_service_runtime.LocalTransport.Hello.{HelloWriter}
use bloom_service_runtime.LocalTransport.Exchange.{
  Endpoint, ClientEnd, exchange, call_with_optional_journal_head,
}
use bloom_service_runtime.LocalTransport.Dispatch.{failed, convert}
use bloom_service_runtime.LocalTransport.Call.{call_with_journal_head}
use bloom_service_runtime.LocalTransport.Call.Answered.{Exchanged, exchange_iff}

module _ {T U E : Type 0} (x : External) (to_vec : HelloWriter) (e : Endpoint) (s : BodySerde T)
    (r : BodySerde (Result U E)) (t : TypedRequestMethod T) (from : WireError → E)
    (c : ClientEnd T (Result U E)) (body : T) (timeout_ms : ℕ) (sender_head : SignedJournalHead)
    (checkpoint : SignedJournalHead → Result (Unit {0}) E) where
  -- A response with a journal head to this call was accepted, its head was retained, and its
  -- body is the result.
  pub record Called (u : U) : Type 0 where
    pub request : SignedEnvelope T
    pub response : SignedEnvelope (Result U E)
    pub exchanged :
        Exchanged x to_vec e s r t c body timeout_ms (some sender_head) required request response
    pub response_head : SignedJournalHead
    pub carries : response.sender_journal_head ≡ some response_head
    pub retained : checkpoint response_head ≡ ok tt
    pub answers : response.body ≡ ok u

  called :
      (u : U)
      → call_with_journal_head x to_vec e s r t from c body timeout_ms sender_head checkpoint ≡ ok u
      → Called u
  unfolding call_with_journal_head call_with_optional_journal_head
  called u h =
      let ((answer, head), a, h1) =
        >>=-eq-ok
          (map_err (convert from) (
            call_with_optional_journal_head x to_vec e s r t c body timeout_ms (some sender_head)
              required))
          _ h in
      let ((request, response), b, h2) =
        >>=-eq-ok (exchange x to_vec e s r t c body timeout_ms (some sender_head) required) _
          (map_err-eq-ok _ _ a) in
      let (response_head, d, h3) =
        >>=-eq-ok (ok_or head (failed (from (wire_error unauthenticated_peer)))) _ h1 in
      let (v, f, h4) = >>=-eq-ok (map_err failed (checkpoint response_head)) _ h3 in
      let pair = ok_injective h2 in
      record {
        request = request;
        response = response;
        exchanged =
            (exchange_iff x to_vec e s r t c body timeout_ms (some sender_head) required request
                response).0
              b;
        response_head = response_head;
        carries = ap (λ (p : Result U E × Option SignedJournalHead). p.1) pair ∙ ok_or-eq-ok _ _ d;
        retained = map_err-eq-ok _ _ f;
        answers =
            ap (λ (p : Result U E × Option SignedJournalHead). p.0) pair ∙ map_err-eq-ok _ _ h4;
      }

  calls :
      (u : U)
      → Called u
      → call_with_journal_head x to_vec e s r t from c body timeout_ms sender_head checkpoint ≡ ok u
  unfolding call_with_journal_head call_with_optional_journal_head
  calls u w =
      let exchanged =
        (exchange_iff x to_vec e s r t c body timeout_ms (some sender_head) required w.request
            w.response).1
          w.exchanged in
      rw (exchanged, w.carries, w.retained, w.answers)

  -- A call with a journal head returns a value exactly if the client authenticated the server,
  -- its request with that head was signed and written, what it read is a response that verifies
  -- as one of this server to this request with a journal head of the server, before the
  -- deadline of the response, that head was retained, and the response's body is that value.
  pub call_with_journal_head_iff :
      (u : U)
      → (call_with_journal_head x to_vec e s r t from c body timeout_ms sender_head checkpoint
          ≡ ok u)
        ↔ Called u
  call_with_journal_head_iff u = (called u, calls u)
