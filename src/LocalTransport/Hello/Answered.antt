-- ===== src/LocalTransport/Hello/Answered.antt =====
-- What an accepted hello is, and that a signed one is accepted
-- (crates/bloom-triad-local-transport/src/lib.rs).
use bloom_service_runtime.Prelude.{
  Bytes, [], ok, >>=-eq-ok, >>-eq-ok, ok_injective, reject_if, map_err, ◌||◌, ◌!=◌, nat_eq, ◌≡◌,
  ◌↔◌, refl, ap, subst, arith,
}
use bloom_service_runtime.RpcWire.Error.{rejected, reject, unauthenticated_peer}
use bloom_service_runtime.RpcWire.External.{External, IsBase64, IsSigner}
use bloom_service_runtime.RpcWire.Token.{token_eq, token_beq_iff}
use bloom_service_runtime.RpcWire.Hex.{Digest32, hex_eq, hex_beq_iff}
use bloom_service_runtime.RpcWire.Base64.{base64_from_bytes}
use bloom_service_runtime.RpcWire.Signature.{Signs, verify_signature_iff}
use bloom_service_runtime.RpcWire.Signature.Sign.{sign-Signs}
use bloom_service_runtime.RpcWire.Version.{
  ProtocolVersion, version_eq, ProtocolVersionRange, require,
}
use bloom_service_runtime.RpcWire.Version.Range.{InRange, require_iff}
use bloom_service_runtime.LocalTransport.Identity.{LocalIdentity, PeerAcl}
use bloom_service_runtime.LocalTransport.Hello.{
  HelloChallenge, HelloWriter, hello_message, signed_hello, verify_hello,
}

-- The entry of an access list pins this identity.
pub record IsPinned (x : External) (identity : LocalIdentity) (acl : PeerAcl) : Type 0 where
  pub service : identity.service_id ≡ acl.service_id
  pub boot : identity.boot_epoch ≡ acl.boot_epoch
  pub key_id : identity.application_key_id ≡ acl.application_key_id
  pub public_key : acl.application_public_key ≡ x.public_key identity.signing_key

-- A hello of the pinned peer, in a supported version, with its signature over the hello.
pub record HelloVerified (x : External) (to_vec : HelloWriter) (hello : HelloChallenge)
    (acl : PeerAcl) (versions : ProtocolVersionRange) : Type 0 where
  pub version : InRange versions hello.protocol
  pub service : hello.service_id ≡ acl.service_id
  pub boot : hello.boot_epoch ≡ acl.boot_epoch
  pub key_id : hello.application_key_id ≡ acl.application_key_id
  pub message : Bytes
  pub spoken : hello_message x to_vec hello ≡ ok message
  pub signed : Signs x acl.application_public_key hello.signature message

module _ (x : External) (to_vec : HelloWriter) where
  same_peer_iff :
      (hello : HelloChallenge) (acl : PeerAcl)
      → (reject_if
            (hello.service_id != acl.service_id
              || hello.boot_epoch != acl.boot_epoch
              || hello.application_key_id != acl.application_key_id)
            (reject unauthenticated_peer)
          ≡ ok tt)
        ↔ ((hello.service_id ≡ acl.service_id)
            × (hello.boot_epoch ≡ acl.boot_epoch)
            × (hello.application_key_id ≡ acl.application_key_id))
  same_peer_iff hello acl = ground (
    arith,
    token_beq_iff hello.service_id acl.service_id,
    hex_beq_iff hello.boot_epoch acl.boot_epoch,
    token_beq_iff hello.application_key_id acl.application_key_id,
  )

  -- A hello is accepted exactly if its version is supported, it names the pinned service, boot
  -- epoch and key, and its 64-byte signature over the domain and the hello without signature
  -- verifies under the pinned public key.
  pub verify_hello_iff :
      (hello : HelloChallenge) (acl : PeerAcl) (versions : ProtocolVersionRange)
      → (verify_hello x to_vec hello acl versions ≡ ok tt)
        ↔ HelloVerified x to_vec hello acl versions
  unfolding verify_hello
  verify_hello_iff hello acl versions =
      let ranged : (map_err rejected (require versions hello.protocol) ≡ ok tt)
          ↔ InRange versions hello.protocol =
        ground (arith, require_iff versions hello.protocol) in
      let signature_iff =
        verify_signature_iff x acl.application_public_key hello.signature
          (map_err rejected (hello_message x to_vec hello)) in
      (
        λ h.
            let (v, h1) = (>>-eq-ok _ _).0 h in
            let (p, q) = (>>-eq-ok _ _).0 h1 in
            let (message, spoken, signed) = signature_iff.0 q in
            let same = (same_peer_iff hello acl).0 p in
            record {
              version = ranged.0 v;
              service = same.0;
              boot = same.1;
              key_id = same.2;
              message = message;
              spoken = ground (arith, spoken);
              signed = signed;
            },
        λ a. (>>-eq-ok _ _).1 (
          ranged.1 a.version,
          (>>-eq-ok _ _).1 (
            (same_peer_iff hello acl).1 (a.service, a.boot, a.key_id),
            signature_iff.1 (a.message, ap (map_err rejected) a.spoken, a.signed),
          ),
        ),
      )

  -- The hello before it is signed.
  abbrev unsigned : LocalIdentity → Digest32 → ProtocolVersion → HelloChallenge
  unsigned identity challenge protocol = record {
    service_id = identity.service_id;
    boot_epoch = identity.boot_epoch;
    protocol = protocol;
    challenge = challenge;
    application_key_id = identity.application_key_id;
    signature = base64_from_bytes x [];
  }

  -- For crypto and base64 that work as documented: a hello that is signed with an identity for
  -- a challenge and a supported version carries both, and is accepted under any entry that
  -- pins the identity.
  pub signed_hello_accepted :
      IsSigner x
      → IsBase64 x
      → (identity : LocalIdentity) (challenge : Digest32) (protocol : ProtocolVersion)
        {hello : HelloChallenge}
      → signed_hello x to_vec identity challenge protocol ≡ ok hello
      → (acl : PeerAcl) (versions : ProtocolVersionRange) → IsPinned x identity acl
      → InRange versions protocol
      → (verify_hello x to_vec hello acl versions ≡ ok tt)
        × (hello.challenge ≡ challenge)
        × (hello.protocol ≡ protocol)
  unfolding signed_hello hello_message
  signed_hello_accepted signer base64 identity challenge protocol {hello} h acl versions pinned v =
      let (message, m, e) =
        >>=-eq-ok (hello_message x to_vec (unsigned identity challenge protocol)) _ h in
      let signed : HelloChallenge = record (unsigned identity challenge protocol) {
        signature = base64_from_bytes x (x.sign identity.signing_key message);
      } in
      let verified : HelloVerified x to_vec signed acl versions = record {
        version = v;
        service = pinned.service;
        boot = pinned.boot;
        key_id = pinned.key_id;
        message = message;
        spoken = m;
        signed = rw pinned.public_key (sign-Signs x signer base64 identity.signing_key message);
      } in
      subst
        (λ (k : HelloChallenge).
          (verify_hello x to_vec k acl versions ≡ ok tt)
          × (k.challenge ≡ challenge)
          × (k.protocol ≡ protocol))
        (ok_injective e) ((verify_hello_iff signed acl versions).1 verified, refl, refl)
