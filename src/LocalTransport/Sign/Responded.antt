-- ===== src/LocalTransport/Sign/Responded.antt =====
-- The responses that the runtime signs are accepted by the caller
-- (crates/bloom-triad-local-transport/src/lib.rs, crates/bloom-rpc-wire/src/envelope.rs).
use bloom_service_runtime.Prelude.{
  ℕ, ◌<◌, Bytes, all, Option, none, some, ok, IsU64, ◌≡◌, ◌≢◌, refl, subst, arith,
}
use bloom_service_runtime.RpcWire.External.{External, IsBase64, IsSigner}
use bloom_service_runtime.RpcWire.Token.{token_new}
use bloom_service_runtime.RpcWire.Hex.{Digest32}
use bloom_service_runtime.RpcWire.Version.{ProtocolVersionRange}
use bloom_service_runtime.RpcWire.Version.Range.{InRange}
use bloom_service_runtime.RpcWire.Audit.{SignedJournalHead}
use bloom_service_runtime.RpcWire.Envelope.{
  request, JournalHeadPolicy, required, forbidden, SignedEnvelope, BodySerde, verify_response_to,
}
use bloom_service_runtime.RpcWire.Envelope.Checks.{HeadAccepted, without, with_head}
use bloom_service_runtime.RpcWire.Envelope.Response.{verify_response_to_iff}
use bloom_service_runtime.LocalTransport.Identity.{LocalIdentity, PeerAcl, authenticated_for}
use bloom_service_runtime.LocalTransport.Hello.Answered.{IsPinned}
use bloom_service_runtime.LocalTransport.Sign.{
  sign_journal_head, sign_response, sign_response_with_optional_journal_head,
}
use bloom_service_runtime.LocalTransport.Sign.Draft.{
  Draft, sealed_of, seal-IsSealed, response_draft,
}
use bloom_service_runtime.LocalTransport.Sign.Sealed.{sealed-Accepted, head-SenderVerified}

module _ {T : Type 0} (x : External) (s : BodySerde T) (signer : IsSigner x) (base64 : IsBase64 x)
    (identity : LocalIdentity) (acl : PeerAcl) (pinned : IsPinned x identity acl)
    (versions : ProtocolVersionRange) where
  response_verified :
      {U : Type 0} (req : SignedEnvelope U) (body : T) (sent deadline : ℕ)
      (head : Option SignedJournalHead) (policy : JournalHeadPolicy) {e : SignedEnvelope T}
      → sign_response_with_optional_journal_head x s identity req body sent deadline head ≡ ok e
      → req.kind ≡ request
      → InRange versions req.protocol
      → sent < deadline
      → IsU64 deadline
      → ((d : Draft T) (message : Bytes)
          → d.protocol ≡ req.protocol
          → d.head ≡ head
          → HeadAccepted x s
              (sealed_of x s identity d message)
              (authenticated_for acl d.audience)
              policy)
      → verify_response_to x s e acl.effective_uid
          (authenticated_for acl req.caller_service_id)
          req
          versions
          policy
        ≡ ok tt
  unfolding sign_response_with_optional_journal_head token_new all
  response_verified req body sent deadline head policy {e} h asked ranged before small headed =
      let d = response_draft x s identity req body sent deadline head in
      let made = seal-IsSealed x s identity d h in
      let good =
        sealed-Accepted x s signer base64 identity acl pinned versions d made.message policy
          made.canonical ranged before small (λ k. absurd (cc k))
          (headed d made.message refl refl) in
      subst
        (λ (k : SignedEnvelope T).
          verify_response_to x s k acl.effective_uid (authenticated_for acl req.caller_service_id)
            req versions policy
          ≡ ok tt)
        made.made
        ((verify_response_to_iff x s (sealed_of x s identity d made.message) acl.effective_uid
            (authenticated_for acl req.caller_service_id) versions policy req).1
          (
            good,
            record {
              is_response = refl;
              is_request = asked;
              protocol = refl;
              method = refl;
              operation = refl;
              digest = refl;
            },
          ))

  -- For crypto and base64 that work as documented: a response that is signed to a request, with a
  -- u64 deadline after its sending and without a journal head, is accepted as the response to
  -- that request by its caller, under every entry that pins the signer, where no head is
  -- expected, if the request's version is supported.
  pub sign_response_accepted :
      {U : Type 0} (req : SignedEnvelope U) (body : T) (sent deadline : ℕ) {e : SignedEnvelope T}
      → sign_response x s identity req body sent deadline ≡ ok e
      → req.kind ≡ request
      → InRange versions req.protocol
      → sent < deadline
      → IsU64 deadline
      → verify_response_to x s e acl.effective_uid
          (authenticated_for acl req.caller_service_id)
          req
          versions
          forbidden
        ≡ ok tt
  unfolding sign_response
  sign_response_accepted req body sent deadline h asked ranged before small =
      response_verified req body sent deadline none forbidden h asked ranged before small
        (λ d message p q. without q refl)

  pub sign_response_with_head_accepted :
      {U : Type 0} (req : SignedEnvelope U) (body : T) (sent deadline sequence : ℕ)
      (head_hash : Digest32) {head : SignedJournalHead} {e : SignedEnvelope T}
      → sign_journal_head x identity sequence head_hash ≡ ok head
      → sign_response_with_optional_journal_head x s identity req body sent deadline (some head)
        ≡ ok e
      → req.kind ≡ request
      → InRange versions req.protocol
      → req.protocol.minor ≢ 0
      → sent < deadline
      → IsU64 deadline
      → verify_response_to x s e acl.effective_uid
          (authenticated_for acl req.caller_service_id)
          req
          versions
          required
        ≡ ok tt
  unfolding authenticated_for
  sign_response_with_head_accepted req body sent deadline sequence head_hash {head} hh h asked
        ranged minor before small =
      response_verified req body sent deadline (some head) required h asked ranged before small
        (λ d message p q.
          with_head head (λ z. minor (ground (arith, p, z))) q refl
            (head-SenderVerified x s signer base64 identity acl pinned versions sequence head_hash
              hh))
