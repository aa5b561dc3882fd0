-- ===== src/LocalTransport/Identity.antt =====
-- Identities and the edge manifest (crates/bloom-triad-local-transport/src/lib.rs).
pub mod Entries
pub mod Pinned
pub mod Load
mod Examples
use bloom_service_runtime.Prelude.{
  ℕ, ◌/◌, ◌%◌, Bytes, codes, length, Bool, true, false, not, ◌||◌, Option, none, some, Result, ok,
  err, ◌>>=◌, ◌>>◌, ok_or, reject_if, map_err, ◌==◌, ◌!=◌, nat_eq, list_eq, if◌then◌else◌,
}
use bloom_service_runtime.FileSystem.{Metadata, is_file, is_symlink}
use bloom_service_runtime.TrustedTime.Source.{
  Platform, TrustedTimeSource, TrustedTimeError, for_current_platform,
}
use bloom_service_runtime.RpcWire.Error.{
  WireError, wire_error, unauthenticated_peer, unsupported_version,
}
use bloom_service_runtime.RpcWire.External.{External}
use bloom_service_runtime.RpcWire.Token.{Token, token_new, token_eq}
use bloom_service_runtime.RpcWire.Hex.{BootEpoch, hex_new, hex_eq}
use bloom_service_runtime.RpcWire.Envelope.{AuthenticatedPeer}

-- A signing key is its seed of 32 bytes.
pub record LocalIdentity : Type 0 where
  pub service_id : Token
  pub boot_epoch : BootEpoch
  pub application_key_id : Token
  pub signing_key : Bytes

pub record PeerAcl : Type 0 where
  pub effective_uid : ℕ
  pub service_id : Token
  pub boot_epoch : BootEpoch
  pub application_key_id : Token
  pub application_public_key : Bytes

pub record ManifestPeer : Type 0 where
  pub effective_uid : ℕ
  pub service_id : Bytes
  pub boot_epoch : Bytes
  pub application_key_id : Bytes
  pub application_public_key_hex : Bytes

pub record EdgeManifest : Type 0 where
  pub schema : Bytes
  pub trusted_time_source : Bytes
  pub machine : ManifestPeer
  pub broker : ManifestPeer
  pub signer : ManifestPeer
  pub revoke_client : ManifestPeer
  pub session : Option ManifestPeer
  pub session_socket_gid : Option ℕ

pub record IdentityFile : Type 0 where
  pub service_id : Bytes
  pub boot_epoch : Bytes
  pub application_key_id : Bytes
  pub private_key_seed_hex : Bytes

abbrev pub unauthenticated : WireError
unauthenticated = wire_error unauthenticated_peer

-- `hex::decode(text)` and `try_into` an array of 32 bytes
unfoldable pub decode_32 : External → Bytes → Result Bytes WireError
decode_32 x text = do
  bytes ← ok_or (x.hex_decode text) unauthenticated
  reject_if (length bytes != 32) unauthenticated
  ok bytes

unfoldable pub into_acl : External → ManifestPeer → Result PeerAcl WireError
into_acl x peer = do
  service_id ← token_new peer.service_id
  boot_epoch ← hex_new 16 peer.boot_epoch
  application_key_id ← token_new peer.application_key_id
  application_public_key ← decode_32 x peer.application_public_key_hex
  ok (record {
    effective_uid = peer.effective_uid;
    service_id = service_id;
    boot_epoch = boot_epoch;
    application_key_id = application_key_id;
    application_public_key = application_public_key;
  })

unfoldable pub into_identity : External → IdentityFile → Result LocalIdentity WireError
into_identity x file = do
  seed ← decode_32 x file.private_key_seed_hex
  service_id ← token_new file.service_id
  boot_epoch ← hex_new 16 file.boot_epoch
  application_key_id ← token_new file.application_key_id
  ok (record {
    service_id = service_id;
    boot_epoch = boot_epoch;
    application_key_id = application_key_id;
    signing_key = seed;
  })

unfoldable pub authenticated_for : PeerAcl → Token → AuthenticatedPeer
authenticated_for acl audience = record {
  effective_uid = acl.effective_uid;
  service_id = acl.service_id;
  boot_epoch = acl.boot_epoch;
  audience = audience;
  application_key_id = acl.application_key_id;
  application_public_key = acl.application_public_key;
}

-- The entry of the manifest for one of the four services.
unfoldable pub pinned_peer : EdgeManifest → Bytes → Result ManifestPeer WireError
pinned_peer manifest expected_service_id =
    if expected_service_id == codes "bloom-machine"
    then ok manifest.machine
    else if expected_service_id == codes "bloom-broker"
    then ok manifest.broker
    else if expected_service_id == codes "bloom-signer"
    then ok manifest.signer
    else if expected_service_id == codes "bloom-session"
    then ok_or manifest.session unauthenticated
    else err unauthenticated

-- What the system answers: the metadata and the contents of a path, and serde_json's reading of
-- the two kinds of file.
pub record SecurityFiles : Type 0 where
  pub metadata : Bytes → Option Metadata
  pub read : Bytes → Option Bytes
  pub identity_from_slice : Bytes → Option IdentityFile
  pub manifest_from_slice : Bytes → Option EdgeManifest

module _ (x : External) (files : SecurityFiles) where
  unfoldable pub decode_security_file :
      {A : Type 0} → (Bytes → Option A) → Bytes → Result A WireError
  decode_security_file from_slice path = do
    bytes ← ok_or (files.read path) unauthenticated
    ok_or (from_slice bytes) unauthenticated

  unfoldable pub decode_identity_and_manifest :
      Platform → Bytes → Bytes → Bytes → Result (LocalIdentity × EdgeManifest) WireError
  decode_identity_and_manifest platform identity_path manifest_path expected_service_id = do
    identity_file ← decode_security_file files.identity_from_slice identity_path
    manifest ← decode_security_file files.manifest_from_slice manifest_path
    reject_if (manifest.schema != codes "bloom.edge-manifest.1") (wire_error unsupported_version)
    source ←
        map_err (λ _. unauthenticated) (for_current_platform platform manifest.trusted_time_source)
    identity ← into_identity x identity_file
    reject_if (identity.service_id.text != expected_service_id) unauthenticated
    peer ← pinned_peer manifest expected_service_id
    pinned ← into_acl x peer
    reject_if
        (pinned.service_id != identity.service_id
          || pinned.boot_epoch != identity.boot_epoch
          || pinned.application_key_id != identity.application_key_id
          || pinned.application_public_key != x.public_key identity.signing_key)
        unauthenticated
    ok (identity, manifest)

  -- `mode & 0o077` is the remainder by 64.
  unfoldable pub require_private_identity_permissions : Bytes → Result (Unit {0}) WireError
  require_private_identity_permissions path = do
    metadata ← ok_or (files.metadata path) unauthenticated
    reject_if
        (not (is_file metadata.file_type)
          || is_symlink metadata.file_type
          || metadata.mode % 64 != 0)
        unauthenticated

  -- `mode & 0o022`: the write bits of the group and of the others.
  unfoldable pub require_root_manifest_permissions : Bytes → Result (Unit {0}) WireError
  require_root_manifest_permissions path = do
    metadata ← ok_or (files.metadata path) unauthenticated
    reject_if
        (not (is_file metadata.file_type)
          || is_symlink metadata.file_type
          || metadata.uid != 0
          || ((metadata.mode / 16) % 2 != 0 || (metadata.mode / 2) % 2 != 0))
        unauthenticated

  unfoldable pub load_identity_and_manifest :
      Platform → Bytes → Bytes → Bytes → Result (LocalIdentity × EdgeManifest) WireError
  load_identity_and_manifest platform identity_path manifest_path expected_service_id = do
    require_private_identity_permissions identity_path
    require_root_manifest_permissions manifest_path
    decode_identity_and_manifest platform identity_path manifest_path expected_service_id
