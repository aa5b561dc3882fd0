-- ===== src/LocalTransport/Dispatch/Trace.antt =====
-- A connection with journal heads takes one of its courses.
use bloom_service_runtime.Prelude.{ℕ, some, [], ◌∷◌, ◌++◌, Result, ok, err, map_err, ◌≡◌, refl}
use bloom_service_runtime.RpcWire.Error.{WireError, rejected}
use bloom_service_runtime.RpcWire.External.{External}
use bloom_service_runtime.RpcWire.Audit.{SignedJournalHead}
use bloom_service_runtime.RpcWire.Envelope.{SignedEnvelope, BodySerde, TypedRequestMethod, required}
use bloom_service_runtime.LocalTransport.Quota.{EndpointQuota, EndpointAdmission, admit, release}
use bloom_service_runtime.LocalTransport.Hello.{HelloWriter}
use bloom_service_runtime.LocalTransport.Sign.{
  sign_journal_head, sign_response_with_optional_journal_head,
}
use bloom_service_runtime.LocalTransport.Exchange.{
  Endpoint, RequestContext, ServerEnd, receive_request, response_at,
}
use bloom_service_runtime.LocalTransport.Exchange.Received.{
  IsContextOf, receive_request_iff, from_request_succeeds, head_carried,
}
use bloom_service_runtime.LocalTransport.Dispatch.{
  Abort, failed, Answer, checkpointed, dispatched, asked_head, State, Service, Action, chain,
  convert, handled, admit_and_handle, answer_with_head, after_checkpoint,
  send_response_with_optional_journal_head, dispatch_connection_with_journal_heads_and_context,
}
use bloom_service_runtime.LocalTransport.Dispatch.Reply.{
  sign_journal_head-IsHeadOf, sign_journal_head_total, response_at_iff,
}
use bloom_service_runtime.LocalTransport.Dispatch.Course.{
  IsOffered, Replies, headless, unsigned, unsealed, unwritten, answered, Course, refused,
  unretained, timeless, limited, served,
}

module _ {T U E : Type 0} (x : External) (to_vec : HelloWriter) (endpoint : Endpoint)
    (s : BodySerde T) (r : BodySerde (Answer T U E)) (t : TypedRequestMethod T)
    (service : Service T U E) where
  -- A step whose result is looked at, by what it is.
  through :
      {A F B : Type 0} (P : Result B (Abort E) × State T U E → Type 0) (f : F → Abort E)
      (result : Result A F) (next : A → Action T U E B) (w : State T U E)
      → ((e : F) → result ≡ err e → P (err (f e), w))
      → ((a : A) → result ≡ ok a → P (next a w))
      → P (chain (map_err f result, w) next)
  through P f (ok a) next w bad good = good a refl
  through P f (err e) next w bad good = bad e refl

  -- The same of an error of the wire.
  through_wire :
      {A B : Type 0} (P : Result B (Abort E) × State T U E → Type 0) (result : Result A WireError)
      (next : A → Action T U E B) (w : State T U E)
      → ((e : WireError) → result ≡ err e → P (err (failed (service.from e)), w))
      → ((a : A) → result ≡ ok a → P (next a w))
      → P (chain (map_err (convert service.from) (map_err rejected result), w) next)
  through_wire P (ok a) next w bad good = good a refl
  through_wire P (err e) next w bad good = bad e refl

  answer-Replies :
      (request : SignedEnvelope T) (context : RequestContext) (answer : Answer T U E)
      (w : State T U E)
      → IsContextOf request context
      → Replies x to_vec endpoint s r t service request context answer w.quota w.events
          (answer_with_head x to_vec endpoint s r t service request context answer w)
  unfolding answer_with_head send_response_with_optional_journal_head
  answer-Replies request context answer w same =
      let P = Replies x to_vec endpoint s r t service request context answer w.quota w.events in
      let v : State T U E = record w { events = w.events ++ asked_head context ∷ [] } in
      let identity = endpoint.identity in
      through P failed (service.local_journal_head w.events context) _ v (λ e h. headless e h refl)
        λ (sequence, head_hash) current.
          through P (convert service.from) (sign_journal_head x identity sequence head_hash) _ v
            (λ f h.
              unsigned sequence head_hash f current h
                (sign_journal_head_total x identity sequence head_hash h) refl)
            λ head h.
              let signed = sign_journal_head-IsHeadOf x identity sequence head_hash h in
              let replies =
                response_at_iff x identity r request context answer head service.answered_at same in
              through P (convert service.from)
                (response_at x r identity request answer (some head) service.answered_at) _ v
                (λ f k.
                  unsealed sequence head_hash head f current signed k
                    (λ response reply. cc (k, (replies response).1 reply)) refl)
                λ response k.
                  let reply = (replies response).0 k in
                  through_wire P (service.write response) _ v
                    (λ e l.
                      unwritten sequence head_hash head response e current signed reply l refl)
                    λ u l. answered sequence head_hash head response current signed reply l refl

  module _ (c : ServerEnd T) (q : EndpointQuota) (request : SignedEnvelope T)
      (context : RequestContext) (head : SignedJournalHead)
      (offered : IsOffered x to_vec endpoint s t c request context head) where
    abbrev next : Answer T U E → Action T U E (Unit {0})
    next = answer_with_head x to_vec endpoint s r t service request context

    admitted_course :
        (now : ℕ) (admission : Result EndpointAdmission WireError)
        → service.checkpoint_request_head context head ≡ ok tt
        → service.observed_at ≡ ok now
        → (admit q (t.is_read_only request.body) now).0 ≡ admission
        → Course x to_vec endpoint s r t service c q (
            chain
              (handled x to_vec endpoint s r t service request context admission (record {
                quota = (admit q (t.is_read_only request.body) now).1;
                events = checkpointed context head ∷ [];
              }))
              next)
    admitted_course now (err e) retained observed h =
        limited request context head now e offered retained observed h (
          answer-Replies request context (err (service.from e))
            (record {
              quota = (admit q (t.is_read_only request.body) now).1;
              events = checkpointed context head ∷ [];
            })
            offered.context_of)
    admitted_course now (ok admission) retained observed h =
        served request context head now admission offered retained observed h (
          answer-Replies request context (service.dispatch request.body context)
            (record {
              quota =
                  release (service.meanwhile (admit q (t.is_read_only request.body) now).1)
                    admission;
              events = checkpointed context head ∷ dispatched request.body context ∷ [];
            })
            offered.context_of)

    journal_course :
        (answer : Result (Unit {0}) E)
        → service.checkpoint_request_head context head ≡ answer
        → Course x to_vec endpoint s r t service c q (
            chain
              (after_checkpoint x to_vec endpoint s r t service request context answer
                (record { quota = q; events = checkpointed context head ∷ [] }))
              next)
    unfolding admit_and_handle
    journal_course (err e) h = unretained request context head e offered h (
        answer-Replies request context (err e)
          (record { quota = q; events = checkpointed context head ∷ [] }) offered.context_of)
    journal_course (ok u) h =
        through_wire (λ p. Course x to_vec endpoint s r t service c q (chain p next))
          service.observed_at _ (record { quota = q; events = checkpointed context head ∷ [] })
          (λ e k. timeless request context head e offered h k refl)
          λ now k. admitted_course now _ h k refl

  -- A connection with journal heads on a quota takes one of the following courses. If what it
  -- gives is no request of the pinned client to this service that verifies with a head of that
  -- client and is still live, nothing is asked, and it ends with the error of its reception. Else
  -- the head of the request is offered to the journal, once. If the journal refuses, its error is
  -- the answer. If it retains the head and the clock fails, the connection ends with that error.
  -- If the quota refuses, its error is the answer. If the quota admits, the handler is called
  -- once, with the body and the context of the request, its result is the answer, and what was
  -- taken of the quota is given back. For an answer, the journal is asked for the head of this
  -- service, after all that. That head and a response to the request with the answer and that
  -- head are signed by this service, before the deadline of the request, and the response is
  -- written. If one of these steps fails, because the journal or the write fails, the number of
  -- the head is no u64, or there is no such response, then the connection ends with its error and
  -- nothing is written. It ends without an error exactly where the response is written.
  pub dispatch_course :
      (c : ServerEnd T) (q : EndpointQuota)
      → Course x to_vec endpoint s r t service c q (
          dispatch_connection_with_journal_heads_and_context x to_vec endpoint s r t service c
            (record { quota = q; events = [] }))
  unfolding dispatch_connection_with_journal_heads_and_context
      sign_response_with_optional_journal_head
  dispatch_course c q =
      let w : State T U E = record { quota = q; events = [] } in
      through (Course x to_vec endpoint s r t service c q) (convert service.from)
        (receive_request x to_vec endpoint s t c required) _ w
        (λ f h.
          refused f h
            (λ request got.
              cc (h, (receive_request_iff x to_vec endpoint s t c required request).1 got))
            refl)
        λ request h.
          let got = (receive_request_iff x to_vec endpoint s t c required request).0 h in
          let (context, made, same) =
            from_request_succeeds x to_vec endpoint s t c required request got in
          let (head, carries) = head_carried x to_vec endpoint s t c required request refl got in
          rw (made, carries)
            (journal_course c q request context head
              (record { received = got; context_of = same; carries = carries })
              (service.checkpoint_request_head context head) refl)
