-- ===== src/RpcWire/Envelope/Accepted.antt =====
-- When `verify` and `verify_typed` accept an envelope
-- (crates/bloom-rpc-wire/src/envelope.rs).
use bloom_service_runtime.Prelude.{
  ℕ, Bytes, some, Result, ok, ◌≡◌, ◌↔◌, refl, arith, map_err, ok_or-eq-ok, >>-eq-ok,
}
use bloom_service_runtime.RpcWire.Error.{Failure, rejected}
use bloom_service_runtime.RpcWire.External.{External}
use bloom_service_runtime.RpcWire.Signature.{Signs, verify_signature, verify_signature_iff}
use bloom_service_runtime.RpcWire.Version.{ProtocolVersionRange, require}
use bloom_service_runtime.RpcWire.Version.Range.{InRange, require_iff}
use bloom_service_runtime.RpcWire.Envelope.{
  JournalHeadPolicy, BodySerde, SignedEnvelope, AuthenticatedPeer, rpc_envelope_schema_v1,
  canonical_bytes, verify,
}
use bloom_service_runtime.RpcWire.Envelope.Checks.{
  PeerMatches, DeadlineAfter, BindsBody, HeadAccepted, check_schema_iff, check_peer_iff,
  check_deadline_iff, check_digest_iff, check_head_iff,
}

module _ {T : Type 0} (x : External) (s : BodySerde T) (e : SignedEnvelope T) (uid : ℕ)
    (expected : AuthenticatedPeer) (versions : ProtocolVersionRange)
    (policy : JournalHeadPolicy) where
  -- All that an accepted envelope guarantees.
  pub record Accepted : Type 0 where
    pub version : InRange versions e.protocol
    pub schema : e.schema.text ≡ rpc_envelope_schema_v1
    pub peer : PeerMatches e uid expected
    pub deadline : DeadlineAfter e
    pub digest : BindsBody x s e
    pub message : Bytes
    pub canonical : s.envelope_to_vec e.unsigned ≡ some message
    pub signed : Signs x expected.application_public_key e.signature message
    pub head : HeadAccepted x s e expected policy

  version_checked :
      (map_err rejected (require versions e.protocol) ≡ ok tt) ↔ InRange versions e.protocol
  version_checked = ground (arith, require_iff versions e.protocol)

  abbrev signature_check : Result (Unit {0}) Failure
  signature_check =
      verify_signature x expected.application_public_key e.signature (canonical_bytes s e.unsigned)

  -- An envelope is accepted exactly if its version is in the supported range, its schema is the
  -- one of version 1, the operating system's UID and the pinned service, boot epoch, audience
  -- and key are those it names, its deadline is after its sending, a request carries the digest
  -- of its own body, its 64-byte signature over its canonical bytes verifies under the pinned
  -- key, and it carries a journal head exactly if the policy requires one, which then needs a
  -- minor version other than 0 and the signature of the same sender.
  pub verify_iff : (verify x s e uid expected versions policy ≡ ok tt) ↔ Accepted
  unfolding verify canonical_bytes
  verify_iff = (
    λ h.
        let (v, h1) = (>>-eq-ok _ _).0 h in
        let (c, h2) = (>>-eq-ok _ _).0 h1 in
        let (p, h3) = (>>-eq-ok _ _).0 h2 in
        let (d, h4) = (>>-eq-ok _ _).0 h3 in
        let (g, h5) = (>>-eq-ok _ _).0 h4 in
        let (q, h6) = (>>-eq-ok signature_check _).0 h5 in
        let (message, canonical, signed) = (verify_signature_iff x _ e.signature _).0 q in
        record {
          version = version_checked.0 v;
          schema = (check_schema_iff x s e).0 c;
          peer = (check_peer_iff x s e uid expected).0 p;
          deadline = (check_deadline_iff x s e).0 d;
          digest = (check_digest_iff x s e).0 g;
          message = message;
          canonical = ok_or-eq-ok _ _ canonical;
          signed = signed;
          head = (check_head_iff x s e expected policy).0 h6;
        },
    λ a. rw (
      version_checked.1 a.version,
      (check_schema_iff x s e).1 a.schema,
      (check_peer_iff x s e uid expected).1 a.peer,
      (check_deadline_iff x s e).1 a.deadline,
      (check_digest_iff x s e).1 a.digest,
      a.canonical,
      (verify_signature_iff x expected.application_public_key e.signature (ok a.message)).1
          (a.message, refl, a.signed),
      (check_head_iff x s e expected policy).1 a.head,
    ),
  )
