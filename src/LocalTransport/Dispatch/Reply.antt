-- ===== src/LocalTransport/Dispatch/Reply.antt =====
-- What a response with a journal head consists of
-- (crates/bloom-triad-local-transport/src/lib.rs).
use bloom_service_runtime.Prelude.{
  ℕ, ◌<◌, Bytes, all, some, [], Result, ok, err, >>=-eq-ok, ok_or, ok_or-eq-ok, map_err,
  map_err-eq-ok, reject_if, leb, IsU64, ok_injective, ◌≡◌, ◌↔◌, refl, ap, false, subst, arith,
}
use bloom_service_runtime.RpcWire.Error.{
  WireError, Failure, rejected, reject, panicked, service_unavailable,
}
use bloom_service_runtime.RpcWire.External.{External}
use bloom_service_runtime.RpcWire.Token.{token_new}
use bloom_service_runtime.RpcWire.Hex.{Digest32}
use bloom_service_runtime.RpcWire.Decimal.{decimal_u64_new, decimal_u64_get}
use bloom_service_runtime.RpcWire.Decimal.U64.{u64_roundtrip}
use bloom_service_runtime.RpcWire.Base64.{base64_from_bytes}
use bloom_service_runtime.RpcWire.Audit.{SignedJournalHead, signature_message, head_message}
use bloom_service_runtime.RpcWire.Envelope.{SignedEnvelope, BodySerde}
use bloom_service_runtime.LocalTransport.Identity.{LocalIdentity}
use bloom_service_runtime.LocalTransport.Sign.{
  seal, sign_journal_head, sign_response_with_optional_journal_head,
}
use bloom_service_runtime.LocalTransport.Sign.Draft.{IsSealed, seal-IsSealed, response_draft}
use bloom_service_runtime.LocalTransport.Exchange.{RequestContext, response_at}
use bloom_service_runtime.LocalTransport.Exchange.Received.{IsContextOf}

module _ (x : External) (identity : LocalIdentity) where
  -- A head of this identity, over its own message.
  pub record IsHeadOf (sequence : ℕ) (head_hash : Digest32) (head : SignedJournalHead)
      : Type 0 where
    pub service : head.service_id ≡ identity.service_id
    pub number : head.sequence ≡ decimal_u64_new sequence
    pub hash : head.head_hash ≡ head_hash
    pub key_id : head.key_id ≡ identity.application_key_id
    pub message : Bytes
    pub spoken : signature_message head ≡ some message
    pub signed : head.signature ≡ base64_from_bytes x (x.sign identity.signing_key message)

  pub sign_journal_head-IsHeadOf :
      (sequence : ℕ) (head_hash : Digest32) {head : SignedJournalHead}
      → sign_journal_head x identity sequence head_hash ≡ ok head
      → IsHeadOf sequence head_hash head
  unfolding sign_journal_head signature_message head_message
  sign_journal_head-IsHeadOf sequence head_hash h =
      let (message, m, k) = >>=-eq-ok (ok_or _ panicked) _ h in
      subst (IsHeadOf sequence head_hash) (ok_injective k) (record {
        service = refl;
        number = refl;
        hash = refl;
        key_id = refl;
        message = message;
        spoken = ok_or-eq-ok _ _ m;
        signed = refl;
      })

  abbrev head_of : ℕ → Digest32 → Bytes → SignedJournalHead
  head_of sequence head_hash signature = record {
    service_id = identity.service_id;
    sequence = decimal_u64_new sequence;
    head_hash = head_hash;
    key_id = identity.application_key_id;
    signature = base64_from_bytes x signature;
  }

  spoken_of :
      (sequence : ℕ) (head_hash : Digest32)
      → IsU64 sequence
      → signature_message (head_of sequence head_hash [])
        ≡ some (head_message (head_of sequence head_hash []) sequence)
  unfolding signature_message
  spoken_of sequence head_hash small = ground (arith, (u64_roundtrip sequence small).1)

  -- A head with a u64 as its sequence is always signed.
  pub sign_journal_head_total :
      (sequence : ℕ) (head_hash : Digest32) {f : Failure}
      → sign_journal_head x identity sequence head_hash ≡ err f
      → IsU64 sequence
      → ⊥
  unfolding sign_journal_head
  sign_journal_head_total sequence head_hash h small =
      let message = head_message (head_of sequence head_hash []) sequence in
      let made : sign_journal_head x identity sequence head_hash
          ≡ ok (head_of sequence head_hash (x.sign identity.signing_key message)) =
        rw (spoken_of sequence head_hash small) in
      cc (h, made)

  module _ {T R : Type 0} (r : BodySerde R) (request : SignedEnvelope T) (context : RequestContext)
      (answer : R) (head : SignedJournalHead) (clock : Result ℕ WireError) where
    -- A response to this request with this answer and this head, sealed before the deadline of
    -- the request, which is the deadline of the response.
    pub record IsReply (response : SignedEnvelope R) : Type 0 where
      pub now : ℕ
      pub answered_at : clock ≡ ok now
      pub timely : now < context.deadline_ms
      pub sealed :
          IsSealed x r identity
            (response_draft x r identity request answer now context.deadline_ms (some head))
            response

    pub response_at_iff :
        IsContextOf request context
        → (response : SignedEnvelope R)
        → (response_at x r identity request answer (some head) clock ≡ ok response)
          ↔ IsReply response
    unfolding response_at sign_response_with_optional_journal_head token_new all seal
    response_at_iff same response = (
      λ h.
          let (now, a, h1) = >>=-eq-ok (map_err rejected clock) _ h in
          let (deadline, b, h2) =
            >>=-eq-ok (ok_or (decimal_u64_get request.deadline_ms) panicked) _ h1 in
          let (u, d, h3) =
            >>=-eq-ok (reject_if (leb deadline now) (reject service_unavailable)) _ h2 in
          let equal : deadline ≡ context.deadline_ms =
            ground (arith, ok_or-eq-ok _ _ b, same.deadline) in
          record {
            now = now;
            answered_at = map_err-eq-ok _ _ a;
            timely = ground (arith, d, equal);
            sealed =
                subst
                  (λ (k : ℕ).
                    IsSealed x r identity
                      (response_draft x r identity request answer now k (some head)) response)
                  equal
                  (seal-IsSealed x r identity
                    (response_draft x r identity request answer now deadline (some head)) h3);
          },
      λ w.
          let before : leb context.deadline_ms w.now ≡ false = ground (arith, w.timely) in
          rw (w.answered_at, same.deadline, before, w.sealed.canonical) (ap ok w.sealed.made),
    )
