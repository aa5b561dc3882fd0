-- ===== src/LocalTransport/Call.antt =====
-- A client's `call` and `call_with_journal_head` (crates/bloom-triad-local-transport/src/lib.rs).
pub mod Answered
pub mod Returned
pub mod Completes
mod Examples
use bloom_service_runtime.Prelude.{ℕ, Option, none, some, Result, ok, ◌>>=◌, ◌>>◌, ok_or, map_err}
use bloom_service_runtime.RpcWire.Error.{WireError, wire_error, unauthenticated_peer}
use bloom_service_runtime.RpcWire.External.{External}
use bloom_service_runtime.RpcWire.Audit.{SignedJournalHead}
use bloom_service_runtime.RpcWire.Envelope.{BodySerde, TypedRequestMethod, required, forbidden}
use bloom_service_runtime.LocalTransport.Hello.{HelloWriter}
use bloom_service_runtime.LocalTransport.Exchange.{
  Endpoint, ClientEnd, call_with_optional_journal_head,
}
use bloom_service_runtime.LocalTransport.Dispatch.{Abort, failed, convert}

module _ {T U E : Type 0} (x : External) (to_vec : HelloWriter) (endpoint : Endpoint)
    (s : BodySerde T) (r : BodySerde (Result U E)) (t : TypedRequestMethod T)
    (from : WireError → E) where
  unfoldable pub call : ClientEnd T (Result U E) → T → ℕ → Result U (Abort E)
  unfolding call_with_optional_journal_head
  call c body timeout_ms = do
    (answer, head) ←
        map_err (convert from)
          (call_with_optional_journal_head x to_vec endpoint s r t c body timeout_ms none forbidden)
    map_err failed answer

  unfoldable pub call_with_journal_head :
      ClientEnd T (Result U E)
      → T
      → ℕ
      → SignedJournalHead
      → (SignedJournalHead → Result (Unit {0}) E)
      → Result U (Abort E)
  unfolding call_with_optional_journal_head
  call_with_journal_head c body timeout_ms sender_journal_head checkpoint_response_head = do
    (answer, head) ← map_err (convert from) (
        call_with_optional_journal_head x to_vec endpoint s r t c body timeout_ms
          (some sender_journal_head) required)
    response_head ← ok_or head (failed (from (wire_error unauthenticated_peer)))
    map_err failed (checkpoint_response_head response_head)
    map_err failed answer
