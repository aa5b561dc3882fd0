-- ===== src/LocalTransport/Dispatch.antt =====
-- The service of one connection: `dispatch_connection` and its variants
-- (crates/bloom-triad-local-transport/src/lib.rs). The request handler, the journal exchange and
-- the write of the response are the application's and the system's; what they are asked is kept
-- as a list of events. Tracing is left out.
pub mod Reply
pub mod Course
pub mod Trace
pub mod Examples
use bloom_service_runtime.Prelude.{
  ℕ, Bool, Option, none, some, List, [], ◌∷◌, ◌++◌, Result, ok, err, ok_or, map_err,
}
use bloom_service_runtime.RpcWire.Error.{
  WireError, wire_error, Failure, rejected, unauthenticated_peer,
}
use bloom_service_runtime.RpcWire.External.{External}
use bloom_service_runtime.RpcWire.Hex.{Digest32}
use bloom_service_runtime.RpcWire.Audit.{SignedJournalHead}
use bloom_service_runtime.RpcWire.Envelope.{
  SignedEnvelope, BodySerde, TypedRequestMethod, required, forbidden,
}
use bloom_service_runtime.LocalTransport.Quota.{EndpointQuota, EndpointAdmission, admit, release}
use bloom_service_runtime.LocalTransport.Hello.{HelloWriter}
use bloom_service_runtime.LocalTransport.Sign.{sign_journal_head}
use bloom_service_runtime.LocalTransport.Exchange.{
  Endpoint, RequestContext, from_request, ServerEnd, receive_request, response_at,
}

-- How the service of a connection stops: with an error of the application, or with a panic.
pub data Abort (E : Type 0) : Type 0 where
  failed : E → Abort E
  panicked : Abort E

module _ (T U E : Type 0) where
  -- `Result<U, E>`, the body of a response.
  abbrev pub Answer : Type 0
  Answer = Result U E

  pub data Event : Type 0 where
    checkpointed : RequestContext → SignedJournalHead → Event
    dispatched : T → RequestContext → Event
    asked_head : RequestContext → Event
    wrote : SignedEnvelope Answer → Event

  pub record State : Type 0 where
    pub quota : EndpointQuota
    pub events : List Event

  -- What the application and the system answer while one connection is served.
  pub record Service : Type 0 where
    pub from : WireError → E
    pub dispatch : T → RequestContext → Answer
    -- what other connections do to the quota while the request is handled
    pub meanwhile : EndpointQuota → EndpointQuota
    pub checkpoint_request_head : RequestContext → SignedJournalHead → Result (Unit {0}) E
    -- the head of this service, after these events
    pub local_journal_head : List Event → RequestContext → Result (ℕ × Digest32) E
    pub observed_at : Result ℕ WireError
    pub answered_at : Result ℕ WireError
    pub write : SignedEnvelope Answer → Result (Unit {0}) WireError

  abbrev pub Action : Type 0 → Type 0
  Action A = State → Result A (Abort E) × State

-- `E::from` on an error of the transport.
abbrev pub convert : {E : Type 0} → (WireError → E) → Failure → Abort E
convert from (rejected e) = failed (from e)
convert from Failure.panicked = panicked

module _ {T U E : Type 0} where
  -- What follows an action, from what it gave.
  abbrev pub chain :
      {A B : Type 0}
      → Result A (Abort E) × State T U E
      → (A → Action T U E B)
      → Result B (Abort E) × State T U E
  chain (ok a, w) next = next a w
  chain (err e, w) next = (err e, w)

  infixl 5 ◌>>=◌ ◌>>◌
  abbrev pub ◌>>=◌ : {A B : Type 0} → Action T U E A → (A → Action T U E B) → Action T U E B
  ◌>>=◌ m next w = chain (m w) next

  abbrev pub ◌>>◌ : {B : Type 0} → Action T U E (Unit {0}) → Action T U E B → Action T U E B
  m >> k = m >>= λ _. k

  abbrev pub pure : {A : Type 0} → A → Action T U E A
  pure a w = (ok a, w)

  abbrev pub lift : {A : Type 0} → Result A (Abort E) → Action T U E A
  lift r w = (r, w)

  -- The events of a state, the latest last.
  abbrev pub note : Event T U E → Action T U E (Unit {0})
  note event w = (ok tt, record w { events = w.events ++ event ∷ [] })

  module _ (x : External) (to_vec : HelloWriter) (endpoint : Endpoint) (s : BodySerde T)
      (r : BodySerde (Answer T U E)) (t : TypedRequestMethod T) (service : Service T U E) where
    abbrev pub received : {A : Type 0} → Result A Failure → Action T U E A
    received result = lift (map_err (convert service.from) result)

    -- `send_response_with_optional_journal_head`
    unfoldable pub send_response_with_optional_journal_head :
        SignedEnvelope T → Answer T U E → Option SignedJournalHead → Action T U E (Unit {0})
    unfolding response_at
    send_response_with_optional_journal_head request body sender_journal_head = do
      response ←
          received
            (response_at x r endpoint.identity request body sender_journal_head service.answered_at)
      received (map_err rejected (service.write response))
      note (wrote response)

    unfoldable pub send_response : SignedEnvelope T → Answer T U E → Action T U E (Unit {0})
    unfolding send_response_with_optional_journal_head
    send_response request response = send_response_with_optional_journal_head request response none

    unfoldable pub send_response_with_journal_head :
        SignedEnvelope T → Answer T U E → SignedJournalHead → Action T U E (Unit {0})
    unfolding send_response_with_optional_journal_head
    send_response_with_journal_head request response head =
        send_response_with_optional_journal_head request response (some head)

    -- The handler under an admission; its error or that of the quota is an answer.
    abbrev pub handled :
        SignedEnvelope T
        → RequestContext
        → Result EndpointAdmission WireError
        → Action T U E (Answer T U E)
    handled request context (err e) w = (ok (err (service.from e)), w)
    handled request context (ok admission) w = (
      ok (service.dispatch request.body context),
      record w {
        quota = release (service.meanwhile w.quota) admission;
        events = w.events ++ dispatched request.body context ∷ [];
      },
    )

    unfoldable pub admit_and_handle :
        SignedEnvelope T → RequestContext → Action T U E (Answer T U E)
    unfolding admit release
    admit_and_handle request context = do
      observed_at_ms ← received (map_err rejected service.observed_at)
      (λ w.
          let (admission, quota) = admit w.quota (t.is_read_only request.body) observed_at_ms in
          handled request context admission (record w { quota = quota }))

    unfoldable pub dispatch_connection_with_context : ServerEnd T → Action T U E (Unit {0})
    unfolding receive_request from_request admit_and_handle send_response_with_optional_journal_head
    dispatch_connection_with_context c = do
      request ← received (receive_request x to_vec endpoint s t c forbidden)
      context ← received (from_request request)
      answer ← admit_and_handle request context
      send_response_with_optional_journal_head request answer none

    -- `local_journal_head_with_context`
    abbrev pub local_head : RequestContext → Action T U E (ℕ × Digest32)
    local_head context w = (
      map_err failed (service.local_journal_head w.events context),
      record w { events = w.events ++ asked_head context ∷ [] },
    )

    -- The answer with a fresh journal head of this service.
    unfoldable pub answer_with_head :
        SignedEnvelope T → RequestContext → Answer T U E → Action T U E (Unit {0})
    unfolding sign_journal_head send_response_with_optional_journal_head
    answer_with_head request context answer = do
      (sequence, head_hash) ← local_head context
      head ← received (sign_journal_head x endpoint.identity sequence head_hash)
      send_response_with_optional_journal_head request answer (some head)

    -- The handling of a request whose head has been asked to be retained.
    abbrev pub after_checkpoint :
        SignedEnvelope T → RequestContext → Result (Unit {0}) E → Action T U E (Answer T U E)
    after_checkpoint request context (err e) = pure (err e)
    after_checkpoint request context (ok _) = admit_and_handle request context

    unfoldable pub dispatch_connection_with_journal_heads_and_context :
        ServerEnd T → Action T U E (Unit {0})
    unfolding receive_request from_request admit_and_handle answer_with_head
    dispatch_connection_with_journal_heads_and_context c = do
      request ← received (receive_request x to_vec endpoint s t c required)
      context ← received (from_request request)
      peer_head ← lift (
          ok_or request.sender_journal_head
            (failed (service.from (wire_error unauthenticated_peer))))
      note (checkpointed context peer_head)
      answer ← after_checkpoint request context (service.checkpoint_request_head context peer_head)
      answer_with_head request context answer

  module _ (x : External) (to_vec : HelloWriter) (endpoint : Endpoint) (s : BodySerde T)
      (r : BodySerde (Answer T U E)) (t : TypedRequestMethod T) (service : Service T U E)
      (dispatch : T → Answer T U E) where
    -- The service with a handler that is not told the context.
    abbrev handled_by : Service T U E
    handled_by = record service { dispatch = λ body context. dispatch body }

    unfoldable pub dispatch_connection : ServerEnd T → Action T U E (Unit {0})
    unfolding dispatch_connection_with_context
    dispatch_connection = dispatch_connection_with_context x to_vec endpoint s r t handled_by

    unfoldable pub dispatch_connection_with_journal_heads : ServerEnd T → Action T U E (Unit {0})
    unfolding dispatch_connection_with_journal_heads_and_context
    dispatch_connection_with_journal_heads =
        dispatch_connection_with_journal_heads_and_context x to_vec endpoint s r t handled_by
