-- ===== src/LocalTransport/Sign/Accepted.antt =====
-- The requests that the runtime signs are accepted at the other end
-- (crates/bloom-triad-local-transport/src/lib.rs, crates/bloom-rpc-wire/src/envelope.rs).
use bloom_service_runtime.Prelude.{
  ℕ, ◌<◌, Bytes, Option, none, some, ok, IsU64, ◌≡◌, ◌≢◌, ◌⊎◌, refl, subst, arith,
}
use bloom_service_runtime.RpcWire.External.{External, IsBase64, IsSigner}
use bloom_service_runtime.RpcWire.Token.{Token}
use bloom_service_runtime.RpcWire.Hex.{Digest32, OperationId}
use bloom_service_runtime.RpcWire.Version.{ProtocolVersion, ProtocolVersionRange}
use bloom_service_runtime.RpcWire.Audit.{SignedJournalHead}
use bloom_service_runtime.RpcWire.Envelope.{
  JournalHeadPolicy, required, forbidden, SignedEnvelope, BodySerde, TypedRequestMethod,
  expected_request_digest, verify_typed,
}
use bloom_service_runtime.RpcWire.Envelope.Checks.{HeadAccepted, without, with_head}
use bloom_service_runtime.RpcWire.Envelope.Response.{verify_typed_iff}
use bloom_service_runtime.LocalTransport.Identity.{LocalIdentity, PeerAcl, authenticated_for}
use bloom_service_runtime.LocalTransport.Hello.Answered.{IsPinned}
use bloom_service_runtime.LocalTransport.Sign.{
  digest, sign_journal_head, sign_request, sign_request_with_journal_head,
}
use bloom_service_runtime.LocalTransport.Sign.Draft.{
  Draft, sealed_of, request_draft, IsSignedRequest, sign_request_inv,
}
use bloom_service_runtime.LocalTransport.Sign.Sealed.{sealed-Accepted, head-SenderVerified}

module _ {T : Type 0} (x : External) (s : BodySerde T) (signer : IsSigner x) (base64 : IsBase64 x)
    (identity : LocalIdentity) (acl : PeerAcl) (pinned : IsPinned x identity acl)
    (versions : ProtocolVersionRange) where
  request_verified :
      (t : TypedRequestMethod T) (protocol : ProtocolVersion) (audience : Token)
      (operation_id : OperationId) (body : T) (sent deadline : ℕ) (head : Option SignedJournalHead)
      (policy : JournalHeadPolicy) {e : SignedEnvelope T}
      → IsSignedRequest x s identity versions protocol audience operation_id body sent deadline head
          e
      → sent < deadline
      → IsU64 deadline
      → {body_id : Option OperationId} → t.operation_id body ≡ ok body_id
      → (body_id ≡ none) ⊎ (body_id ≡ some operation_id)
      → ((d : Draft T) (message : Bytes)
          → d.protocol ≡ protocol
          → d.head ≡ head
          → HeadAccepted x s
              (sealed_of x s identity d message)
              (authenticated_for acl d.audience)
              policy)
      → verify_typed x s t e acl.effective_uid (authenticated_for acl audience) versions policy
        ≡ ok tt
  unfolding digest expected_request_digest
  request_verified t protocol audience operation_id body sent deadline head policy {e} r before
        small {body_id} id names headed =
      let d =
        request_draft x s identity protocol r.method operation_id r.hash audience body sent deadline
          head in
      let made = r.sealed_as in
      let good =
        sealed-Accepted x s signer base64 identity acl pinned versions d made.message policy
          made.canonical r.ranged before small (λ k. r.digested)
          (headed d made.message refl refl) in
      subst
        (λ (k : SignedEnvelope T).
          verify_typed x s t k acl.effective_uid (authenticated_for acl audience) versions policy
          ≡ ok tt)
        made.made
        ((verify_typed_iff x s (sealed_of x s identity d made.message) acl.effective_uid
            (authenticated_for acl audience) versions policy t).1
          (
            good,
            record {
              is_request = refl;
              method = r.named;
              body_id = body_id;
              read_id = id;
              operation = λ k p. ground (arith, names, p);
            },
          ))

  -- For crypto and base64 that work as documented: a request that is signed without a journal
  -- head, with a u64 deadline after its sending and a body that names no operation or the
  -- request's own, is accepted by `verify_typed` under every entry that pins the signer, for
  -- the audience it is signed for, where no head is expected.
  pub sign_request_accepted :
      (t : TypedRequestMethod T) (audience : Token) (protocol : ProtocolVersion)
      (operation_id : OperationId) (body : T) (sent deadline : ℕ) {e : SignedEnvelope T}
      → sign_request x s identity audience protocol versions operation_id body sent deadline ≡ ok e
      → sent < deadline
      → IsU64 deadline
      → {body_id : Option OperationId} → t.operation_id body ≡ ok body_id
      → (body_id ≡ none) ⊎ (body_id ≡ some operation_id)
      → verify_typed x s t e acl.effective_uid (authenticated_for acl audience) versions forbidden
        ≡ ok tt
  unfolding sign_request
  sign_request_accepted t audience protocol operation_id body sent deadline h before small id
        names =
      request_verified t protocol audience operation_id body sent deadline none forbidden
        (sign_request_inv x s identity versions protocol audience operation_id body sent deadline
          none h)
        before small id names (λ d message p q. without q refl)

  -- For crypto and base64 that work as documented: a request that is signed with a journal head of
  -- the same identity, in a version whose minor number is not 0, with a u64 deadline after its
  -- sending and a body that names no operation or the request's own, is accepted by
  -- `verify_typed` under every entry that pins the signer, for the audience it is signed for,
  -- where a head is required.
  pub sign_request_with_journal_head_accepted :
      (t : TypedRequestMethod T) (audience : Token) (protocol : ProtocolVersion)
      (operation_id : OperationId) (body : T) (sent deadline sequence : ℕ) (head_hash : Digest32)
      {head : SignedJournalHead} {e : SignedEnvelope T}
      → sign_journal_head x identity sequence head_hash ≡ ok head
      → sign_request_with_journal_head x s identity audience protocol versions operation_id body
          sent deadline head
        ≡ ok e
      → protocol.minor ≢ 0
      → sent < deadline
      → IsU64 deadline
      → {body_id : Option OperationId} → t.operation_id body ≡ ok body_id
      → (body_id ≡ none) ⊎ (body_id ≡ some operation_id)
      → verify_typed x s t e acl.effective_uid (authenticated_for acl audience) versions required
        ≡ ok tt
  unfolding sign_request_with_journal_head authenticated_for
  sign_request_with_journal_head_accepted t audience protocol operation_id body sent deadline
        sequence head_hash {head} hh h minor before small id names =
      request_verified t protocol audience operation_id body sent deadline (some head) required
        (sign_request_inv x s identity versions protocol audience operation_id body sent deadline
          (some head) h)
        before small id names
        (λ d message p q.
          with_head head (λ z. minor (ground (arith, p, z))) q refl
            (head-SenderVerified x s signer base64 identity acl pinned versions sequence head_hash
              hh))
