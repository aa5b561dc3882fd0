-- ===== src/LocalTransport/Identity/Entries.antt =====
-- What the texts of an identity file and of the edge manifest stand for
-- (crates/bloom-triad-local-transport/src/lib.rs).
use bloom_service_runtime.Prelude.{
  Bytes, codes, length, All, all_iff, list_beq, list_beq_iff, Option, some, ok, >>=-eq-ok,
  ok_injective, ◌≡◌, ◌⊎◌, ◌↔◌, inl, inr, refl, subst, sym, ap, ◌∙◌, arith, true, nat_eq, list_eq,
}
use bloom_service_runtime.TrustedTime.Source.{
  Platform, linux, macos, other, TrustedTimeSource, linux_system_clock, macos_managed_timed,
  for_current_platform,
}
use bloom_service_runtime.RpcWire.External.{External, is_lower_hex}
use bloom_service_runtime.RpcWire.Token.{Token, token_new}
use bloom_service_runtime.RpcWire.Token.Accepts.{IsToken, token_new_exact}
use bloom_service_runtime.RpcWire.Hex.{BootEpoch, hex_new}
use bloom_service_runtime.LocalTransport.Identity.{
  LocalIdentity, PeerAcl, ManifestPeer, EdgeManifest, IdentityFile, SecurityFiles, decode_32,
  decode_security_file, pinned_peer, into_acl, into_identity,
}

-- A text of hexadecimal digits for these 32 bytes.
pub record IsKeyText (x : External) (text bytes : Bytes) : Type 0 where
  pub decoded : x.hex_decode text ≡ some bytes
  pub sized : length bytes ≡ 32

pub decode_32_iff :
    (x : External) (text bytes : Bytes) → (decode_32 x text ≡ ok bytes) ↔ IsKeyText x text bytes
unfolding decode_32
decode_32_iff x text bytes = ground arith

-- A token of this text.
pub record IsTokenOf (text : Bytes) (token : Token) : Type 0 where
  pub same : token.text ≡ text
  pub valid : IsToken text

token_new_iff : (text : Bytes) (token : Token) → (token_new text ≡ ok token) ↔ IsTokenOf text token
token_new_iff text token = elim (token_new_exact text) [
  | inl (made, valid) ↦ (
    λ h. record { same = ap (λ (t : Token). t.text) (ok_injective (sym h ∙ made)); valid = valid },
    λ t. made ∙ ap (λ (value : Bytes). ok (record { text = value })) (sym t.same),
  )
  | inr (made, invalid) ↦ (λ h. cc (h, made), λ t. absurd (invalid t.valid))
]

-- A boot epoch of this text: 32 lowercase hexadecimal digits.
pub record IsEpochOf (text : Bytes) (epoch : BootEpoch) : Type 0 where
  pub same : epoch.text ≡ text
  pub sized : length text ≡ 32
  pub lower : All (λ b. is_lower_hex b ≡ true) text

epoch_new_iff :
    (text : Bytes) (epoch : BootEpoch) → (hex_new 16 text ≡ ok epoch) ↔ IsEpochOf text epoch
unfolding hex_new
epoch_new_iff text epoch = ground (arith, all_iff is_lower_hex text)

-- The peer that an entry of the manifest describes.
pub record IsAclOf (x : External) (peer : ManifestPeer) (acl : PeerAcl) : Type 0 where
  pub uid : acl.effective_uid ≡ peer.effective_uid
  pub service : IsTokenOf peer.service_id acl.service_id
  pub epoch : IsEpochOf peer.boot_epoch acl.boot_epoch
  pub key_id : IsTokenOf peer.application_key_id acl.application_key_id
  pub public_key : IsKeyText x peer.application_public_key_hex acl.application_public_key

-- The identity that an identity file describes.
pub record IsIdentityOf (x : External) (file : IdentityFile) (identity : LocalIdentity)
    : Type 0 where
  pub service : IsTokenOf file.service_id identity.service_id
  pub epoch : IsEpochOf file.boot_epoch identity.boot_epoch
  pub key_id : IsTokenOf file.application_key_id identity.application_key_id
  pub seed : IsKeyText x file.private_key_seed_hex identity.signing_key

pub into_acl_iff :
    (x : External) (peer : ManifestPeer) (acl : PeerAcl)
    → (into_acl x peer ≡ ok acl) ↔ IsAclOf x peer acl
unfolding into_acl
into_acl_iff x peer acl = (
  λ h.
      let (service, a, h1) = >>=-eq-ok (token_new peer.service_id) _ h in
      let (epoch, b, h2) = >>=-eq-ok (hex_new 16 peer.boot_epoch) _ h1 in
      let (key_id, c, h3) = >>=-eq-ok (token_new peer.application_key_id) _ h2 in
      let (key, d, h4) = >>=-eq-ok (decode_32 x peer.application_public_key_hex) _ h3 in
      subst (IsAclOf x peer) (ok_injective h4) (record {
        uid = refl;
        service = (token_new_iff peer.service_id service).0 a;
        epoch = (epoch_new_iff peer.boot_epoch epoch).0 b;
        key_id = (token_new_iff peer.application_key_id key_id).0 c;
        public_key = (decode_32_iff x peer.application_public_key_hex key).0 d;
      }),
  λ a. rw (
    (token_new_iff peer.service_id acl.service_id).1 a.service,
    (epoch_new_iff peer.boot_epoch acl.boot_epoch).1 a.epoch,
    (token_new_iff peer.application_key_id acl.application_key_id).1 a.key_id,
    (decode_32_iff x peer.application_public_key_hex acl.application_public_key).1 a.public_key,
    ← a.uid,
  ),
)

pub into_identity_iff :
    (x : External) (file : IdentityFile) (identity : LocalIdentity)
    → (into_identity x file ≡ ok identity) ↔ IsIdentityOf x file identity
unfolding into_identity
into_identity_iff x file identity = (
  λ h.
      let (seed, a, h1) = >>=-eq-ok (decode_32 x file.private_key_seed_hex) _ h in
      let (service, b, h2) = >>=-eq-ok (token_new file.service_id) _ h1 in
      let (epoch, c, h3) = >>=-eq-ok (hex_new 16 file.boot_epoch) _ h2 in
      let (key_id, d, h4) = >>=-eq-ok (token_new file.application_key_id) _ h3 in
      subst (IsIdentityOf x file) (ok_injective h4) (record {
        service = (token_new_iff file.service_id service).0 b;
        epoch = (epoch_new_iff file.boot_epoch epoch).0 c;
        key_id = (token_new_iff file.application_key_id key_id).0 d;
        seed = (decode_32_iff x file.private_key_seed_hex seed).0 a;
      }),
  λ a. rw (
    (decode_32_iff x file.private_key_seed_hex identity.signing_key).1 a.seed,
    (token_new_iff file.service_id identity.service_id).1 a.service,
    (epoch_new_iff file.boot_epoch identity.boot_epoch).1 a.epoch,
    (token_new_iff file.application_key_id identity.application_key_id).1 a.key_id,
  ),
)

-- The entry of the manifest for a service. Only the session may be missing.
pub data IsEntry (manifest : EdgeManifest) (service : Bytes) (peer : ManifestPeer) : Type 0 where
  of_machine :
      service ≡ codes "bloom-machine" → manifest.machine ≡ peer → IsEntry manifest service peer
  of_broker :
      service ≡ codes "bloom-broker" → manifest.broker ≡ peer → IsEntry manifest service peer
  of_signer :
      service ≡ codes "bloom-signer" → manifest.signer ≡ peer → IsEntry manifest service peer
  of_session :
      service ≡ codes "bloom-session" → manifest.session ≡ some peer → IsEntry manifest service peer

entry_cases :
    (manifest : EdgeManifest) (service : Bytes) (peer : ManifestPeer)
    → pinned_peer manifest service ≡ ok peer
    → ((service ≡ codes "bloom-machine") × (manifest.machine ≡ peer))
      ⊎ ((service ≡ codes "bloom-broker") × (manifest.broker ≡ peer))
      ⊎ ((service ≡ codes "bloom-signer") × (manifest.signer ≡ peer))
      ⊎ ((service ≡ codes "bloom-session") × (manifest.session ≡ some peer))
unfolding pinned_peer
entry_cases manifest service peer h = ground (
  arith,
  h,
  list_beq_iff service (codes "bloom-machine"),
  list_beq_iff service (codes "bloom-broker"),
  list_beq_iff service (codes "bloom-signer"),
  list_beq_iff service (codes "bloom-session"),
)

pinned_peer-IsEntry :
    (manifest : EdgeManifest) (service : Bytes) (peer : ManifestPeer)
    → pinned_peer manifest service ≡ ok peer
    → IsEntry manifest service peer
pinned_peer-IsEntry manifest service peer h = elim (entry_cases manifest service peer h) [
  | inl (s, p) ↦ of_machine s p
  | inr (inl (s, p)) ↦ of_broker s p
  | inr (inr (inl (s, p))) ↦ of_signer s p
  | inr (inr (inr (s, p))) ↦ of_session s p
]

IsEntry-pinned_peer :
    (manifest : EdgeManifest) (service : Bytes) (peer : ManifestPeer)
    → IsEntry manifest service peer
    → pinned_peer manifest service ≡ ok peer
unfolding pinned_peer list_beq
IsEntry-pinned_peer manifest service peer (of_machine s p) = rw (s, p)
IsEntry-pinned_peer manifest service peer (of_broker s p) = rw (s, p)
IsEntry-pinned_peer manifest service peer (of_signer s p) = rw (s, p)
IsEntry-pinned_peer manifest service peer (of_session s p) = rw (s, p)

pub pinned_peer_iff :
    (manifest : EdgeManifest) (service : Bytes) (peer : ManifestPeer)
    → (pinned_peer manifest service ≡ ok peer) ↔ IsEntry manifest service peer
pinned_peer_iff manifest service peer =
    (pinned_peer-IsEntry manifest service peer, IsEntry-pinned_peer manifest service peer)

-- A name of the trusted time source of this platform.
abbrev pub IsTimeSource : Platform → Bytes → Type 0
IsTimeSource linux id = (id ≡ codes "linux-system-clock") ⊎ (id ≡ codes "linux-chrony-nts")
IsTimeSource macos id = id ≡ codes "macos-managed-timed"
IsTimeSource other id = ⊥

pub for_current_platform_iff :
    (platform : Platform) (id : Bytes)
    → ((source : TrustedTimeSource) × (for_current_platform platform id ≡ ok source))
      ↔ IsTimeSource platform id
unfolding for_current_platform
for_current_platform_iff linux id = (
  λ (source, h). ground (
    arith,
    h,
    list_beq_iff id (codes "linux-system-clock"),
    list_beq_iff id (codes "linux-chrony-nts"),
  ),
  λ named. (
    linux_system_clock,
    ground (
      arith,
      named,
      list_beq_iff id (codes "linux-system-clock"),
      list_beq_iff id (codes "linux-chrony-nts"),
    ),
  ),
)
for_current_platform_iff macos id = (
  λ (source, h). ground (arith, h, list_beq_iff id (codes "macos-managed-timed")),
  λ named.
      (macos_managed_timed, ground (arith, named, list_beq_iff id (codes "macos-managed-timed"))),
)
for_current_platform_iff other id = (λ (source, h). cc h, λ h. absurd h)

-- What a file is read as.
pub record IsReadAs {A : Type 0} (files : SecurityFiles) (from_slice : Bytes → Option A)
    (path : Bytes) (a : A) : Type 0 where
  pub contents : Bytes
  pub read : files.read path ≡ some contents
  pub parsed : from_slice contents ≡ some a

pub decode_security_file_iff :
    {A : Type 0} (x : External) (files : SecurityFiles) (from_slice : Bytes → Option A)
    (path : Bytes) (a : A)
    → (decode_security_file x files from_slice path ≡ ok a) ↔ IsReadAs files from_slice path a
unfolding decode_security_file
decode_security_file_iff x files from_slice path a = ground arith
