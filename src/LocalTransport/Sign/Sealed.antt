-- ===== src/LocalTransport/Sign/Sealed.antt =====
-- Why what one identity signs verifies under the entry that pins it
-- (crates/bloom-triad-local-transport/src/lib.rs).
use bloom_service_runtime.Prelude.{
  ℕ, ◌<◌, Bytes, [], ok, >>=-eq-ok, ok_or, ok_or-eq-ok, ok_injective, IsU64, ◌≡◌, refl, subst,
  arith,
}
use bloom_service_runtime.RpcWire.Error.{panicked}
use bloom_service_runtime.RpcWire.External.{External, IsBase64, IsSigner}
use bloom_service_runtime.RpcWire.Hex.{Digest32}
use bloom_service_runtime.RpcWire.Decimal.{decimal_u64_new}
use bloom_service_runtime.RpcWire.Decimal.U64.{u64_roundtrip}
use bloom_service_runtime.RpcWire.Base64.{base64_from_bytes}
use bloom_service_runtime.RpcWire.Signature.Sign.{sign-Signs}
use bloom_service_runtime.RpcWire.Version.{ProtocolVersionRange}
use bloom_service_runtime.RpcWire.Version.Range.{InRange}
use bloom_service_runtime.RpcWire.Audit.{SignedJournalHead, signature_message, head_message}
use bloom_service_runtime.RpcWire.Audit.Sender.{SenderVerified}
use bloom_service_runtime.RpcWire.Envelope.{JournalHeadPolicy, BodySerde, canonical_bytes}
use bloom_service_runtime.RpcWire.Envelope.Checks.{HeadAccepted, BindsBody}
use bloom_service_runtime.RpcWire.Envelope.Accepted.{Accepted}
use bloom_service_runtime.LocalTransport.Identity.{LocalIdentity, PeerAcl, authenticated_for}
use bloom_service_runtime.LocalTransport.Hello.Answered.{IsPinned}
use bloom_service_runtime.LocalTransport.Sign.{sign_journal_head}
use bloom_service_runtime.LocalTransport.Sign.Draft.{Draft, unsigned_of, sealed_of}

module _ {T : Type 0} (x : External) (s : BodySerde T) (signer : IsSigner x) (base64 : IsBase64 x)
    (identity : LocalIdentity) (acl : PeerAcl) (pinned : IsPinned x identity acl)
    (versions : ProtocolVersionRange) where
  pub sealed-Accepted :
      (d : Draft T) (message : Bytes) (policy : JournalHeadPolicy)
      → canonical_bytes s (unsigned_of x s identity d) ≡ ok message
      → InRange versions d.protocol
      → d.sent < d.deadline
      → IsU64 d.deadline
      → BindsBody x s (sealed_of x s identity d message)
      → HeadAccepted x s
          (sealed_of x s identity d message)
          (authenticated_for acl d.audience)
          policy
      → Accepted x s
          (sealed_of x s identity d message)
          acl.effective_uid
          (authenticated_for acl d.audience)
          versions
          policy
  unfolding canonical_bytes authenticated_for
  sealed-Accepted d message policy c v before small binds head = record {
    version = v;
    schema = refl;
    peer = record {
      os_uid = refl;
      service = pinned.service;
      boot = pinned.boot;
      audience = refl;
      key_id = pinned.key_id;
    };
    deadline = record {
      sent_at = d.sent;
      deadline = d.deadline;
      read_sent_at = (u64_roundtrip d.sent (omega arith)).1;
      read_deadline = (u64_roundtrip d.deadline small).1;
      after = before;
    };
    digest = binds;
    message = message;
    canonical = ok_or-eq-ok _ _ c;
    signed = rw pinned.public_key (sign-Signs x signer base64 identity.signing_key message);
    head = head;
  }

  abbrev unsigned_head : ℕ → Digest32 → SignedJournalHead
  unsigned_head sequence head_hash = record {
    service_id = identity.service_id;
    sequence = decimal_u64_new sequence;
    head_hash = head_hash;
    key_id = identity.application_key_id;
    signature = base64_from_bytes x [];
  }

  -- A head that the identity signs is one of this sender.
  pub head-SenderVerified :
      (sequence : ℕ) (head_hash : Digest32) {head : SignedJournalHead}
      → sign_journal_head x identity sequence head_hash ≡ ok head
      → SenderVerified x head identity.service_id identity.application_key_id
          acl.application_public_key
  unfolding sign_journal_head signature_message head_message
  head-SenderVerified sequence head_hash {head} h =
      let (message, m, e) =
        >>=-eq-ok (ok_or (signature_message (unsigned_head sequence head_hash)) panicked) _ h in
      subst
        (λ (k : SignedJournalHead).
          SenderVerified x k identity.service_id identity.application_key_id
            acl.application_public_key)
        (ok_injective e)
        (record {
          service = refl;
          key_id = refl;
          message = message;
          spoken = ok_or-eq-ok _ _ m;
          signed = rw pinned.public_key (sign-Signs x signer base64 identity.signing_key message);
        })
