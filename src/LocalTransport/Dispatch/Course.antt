-- ===== src/LocalTransport/Dispatch/Course.antt =====
-- The courses that a connection with journal heads can take, as a relation between what the
-- connection, the journal, the quota and the handler answer, and what is left.
use bloom_service_runtime.Prelude.{IsU64, ℕ, some, List, [], ◌∷◌, ◌++◌, Result, ok, err, ◌≡◌}
use bloom_service_runtime.RpcWire.Error.{WireError, Failure}
use bloom_service_runtime.RpcWire.External.{External}
use bloom_service_runtime.RpcWire.Hex.{Digest32}
use bloom_service_runtime.RpcWire.Audit.{SignedJournalHead}
use bloom_service_runtime.RpcWire.Envelope.{SignedEnvelope, BodySerde, TypedRequestMethod, required}
use bloom_service_runtime.LocalTransport.Quota.{EndpointQuota, EndpointAdmission, admit, release}
use bloom_service_runtime.LocalTransport.Hello.{HelloWriter}
use bloom_service_runtime.LocalTransport.Sign.{sign_journal_head}
use bloom_service_runtime.LocalTransport.Exchange.{
  Endpoint, RequestContext, ServerEnd, receive_request, response_at,
}
use bloom_service_runtime.LocalTransport.Exchange.Received.{Received, IsContextOf}
use bloom_service_runtime.LocalTransport.Dispatch.Reply.{IsHeadOf, IsReply}
use bloom_service_runtime.LocalTransport.Dispatch.{
  Abort, failed, Answer, Event, checkpointed, dispatched, asked_head, wrote, State, Service,
  convert,
}

-- A received request that is offered to the journal.
pub record IsOffered {T : Type 0} (x : External) (to_vec : HelloWriter) (endpoint : Endpoint)
    (s : BodySerde T) (t : TypedRequestMethod T) (c : ServerEnd T) (request : SignedEnvelope T)
    (context : RequestContext) (head : SignedJournalHead) : Type 0 where
  pub received : Received x to_vec endpoint s t c required request
  pub context_of : IsContextOf request context
  pub carries : request.sender_journal_head ≡ some head

module _ {T U E : Type 0} (x : External) (to_vec : HelloWriter) (endpoint : Endpoint)
    (s : BodySerde T) (r : BodySerde (Answer T U E)) (t : TypedRequestMethod T)
    (service : Service T U E) where
  -- The outcome of a connection, and what it leaves.
  abbrev pub Outcome : Type 0
  Outcome = Result (Unit {0}) (Abort E) × State T U E

  -- The answer to a request, from this quota and these events on. The head of this service is
  -- asked for, and a response with this answer and that head is sealed and written, or else the
  -- connection ends with the error of the step that fails.
  pub data Replies (request : SignedEnvelope T) (context : RequestContext) (answer : Answer T U E)
      (quota : EndpointQuota) (before : List (Event T U E)) (p : Outcome) : Type 0 where
    headless :
        (e : E)
        → service.local_journal_head before context ≡ err e
        → p ≡ (err (failed e), record { quota = quota; events = before ++ asked_head context ∷ [] })
        → Replies request context answer quota before p
    unsigned :
        (sequence : ℕ) (head_hash : Digest32) (f : Failure)
        → service.local_journal_head before context ≡ ok (sequence, head_hash)
        → sign_journal_head x endpoint.identity sequence head_hash ≡ err f
        → (IsU64 sequence → ⊥)
        → p ≡ (
          err (convert service.from f),
          record { quota = quota; events = before ++ asked_head context ∷ [] },
        )
        → Replies request context answer quota before p
    unsealed :
        (sequence : ℕ) (head_hash : Digest32) (head : SignedJournalHead) (f : Failure)
        → service.local_journal_head before context ≡ ok (sequence, head_hash)
        → IsHeadOf x endpoint.identity sequence head_hash head
        → response_at x r endpoint.identity request answer (some head) service.answered_at ≡ err f
        → ((response : SignedEnvelope (Answer T U E))
            → IsReply x endpoint.identity r request context answer head service.answered_at response
            → ⊥)
        → p ≡ (
          err (convert service.from f),
          record { quota = quota; events = before ++ asked_head context ∷ [] },
        )
        → Replies request context answer quota before p
    unwritten :
        (sequence : ℕ) (head_hash : Digest32) (head : SignedJournalHead)
        (response : SignedEnvelope (Answer T U E)) (e : WireError)
        → service.local_journal_head before context ≡ ok (sequence, head_hash)
        → IsHeadOf x endpoint.identity sequence head_hash head
        → IsReply x endpoint.identity r request context answer head service.answered_at response
        → service.write response ≡ err e
        → p ≡ (
          err (failed (service.from e)),
          record { quota = quota; events = before ++ asked_head context ∷ [] },
        )
        → Replies request context answer quota before p
    answered :
        (sequence : ℕ) (head_hash : Digest32) (head : SignedJournalHead)
        (response : SignedEnvelope (Answer T U E))
        → service.local_journal_head before context ≡ ok (sequence, head_hash)
        → IsHeadOf x endpoint.identity sequence head_hash head
        → IsReply x endpoint.identity r request context answer head service.answered_at response
        → service.write response ≡ ok tt
        → p ≡ (
          ok tt,
          record {
            quota = quota;
            events = (before ++ asked_head context ∷ []) ++ wrote response ∷ [];
          },
        )
        → Replies request context answer quota before p

  -- The course of a connection on a quota.
  pub data Course (c : ServerEnd T) (q : EndpointQuota) (p : Outcome) : Type 0 where
    -- nothing is a received request, and nothing happens
    refused :
        (f : Failure)
        → receive_request x to_vec endpoint s t c required ≡ err f
        → ((request : SignedEnvelope T) → Received x to_vec endpoint s t c required request → ⊥)
        → p ≡ (err (convert service.from f), record { quota = q; events = [] })
        → Course c q p
    -- the journal refuses the head, and its error is the answer
    unretained :
        (request : SignedEnvelope T) (context : RequestContext) (head : SignedJournalHead) (e : E)
        → IsOffered x to_vec endpoint s t c request context head
        → service.checkpoint_request_head context head ≡ err e
        → Replies request context (err e) q (checkpointed context head ∷ []) p
        → Course c q p
    -- the head is retained, and the clock fails
    timeless :
        (request : SignedEnvelope T) (context : RequestContext) (head : SignedJournalHead)
        (e : WireError)
        → IsOffered x to_vec endpoint s t c request context head
        → service.checkpoint_request_head context head ≡ ok tt
        → service.observed_at ≡ err e
        → p ≡ (
          err (failed (service.from e)),
          record { quota = q; events = checkpointed context head ∷ [] },
        )
        → Course c q p
    -- the head is retained, the quota refuses, and its error is the answer
    limited :
        (request : SignedEnvelope T) (context : RequestContext) (head : SignedJournalHead) (now : ℕ)
        (e : WireError)
        → IsOffered x to_vec endpoint s t c request context head
        → service.checkpoint_request_head context head ≡ ok tt
        → service.observed_at ≡ ok now
        → (admit q (t.is_read_only request.body) now).0 ≡ err e
        → Replies request context
            (err (service.from e))
            (admit q (t.is_read_only request.body) now).1
            (checkpointed context head ∷ [])
            p
        → Course c q p
    -- the head is retained, the quota admits, and the answer is that of the handler, which is
    -- called once; what the admission took of the quota is given back
    served :
        (request : SignedEnvelope T) (context : RequestContext) (head : SignedJournalHead) (now : ℕ)
        (admission : EndpointAdmission)
        → IsOffered x to_vec endpoint s t c request context head
        → service.checkpoint_request_head context head ≡ ok tt
        → service.observed_at ≡ ok now
        → (admit q (t.is_read_only request.body) now).0 ≡ ok admission
        → Replies request context
            (service.dispatch request.body context)
            (release (service.meanwhile (admit q (t.is_read_only request.body) now).1) admission)
            (checkpointed context head ∷ dispatched request.body context ∷ [])
            p
        → Course c q p
