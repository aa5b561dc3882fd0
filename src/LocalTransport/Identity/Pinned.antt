-- ===== src/LocalTransport/Identity/Pinned.antt =====
-- What a loaded identity is worth (crates/bloom-triad-local-transport/src/lib.rs).
use bloom_service_runtime.Prelude.{
  ◌/◌, ◌%◌, Bytes, codes, some, Result, ok, err, ◌>>◌, reject_if, ◌≡◌, ◌↔◌, refl, arith,
  list_beq_iff, nat_eq, list_eq, ◌||◌, ◌!=◌,
}
use bloom_service_runtime.FileSystem.{Metadata, regular}
use bloom_service_runtime.TrustedTime.Source.{Platform}
use bloom_service_runtime.RpcWire.Error.{WireError, wire_error, unauthenticated_peer}
use bloom_service_runtime.RpcWire.External.{External}
use bloom_service_runtime.RpcWire.Token.{token_beq_iff, token_eq}
use bloom_service_runtime.RpcWire.Hex.{hex_beq_iff, hex_eq}
use bloom_service_runtime.LocalTransport.Identity.{
  LocalIdentity, PeerAcl, ManifestPeer, EdgeManifest, IdentityFile, SecurityFiles,
  decode_identity_and_manifest, require_private_identity_permissions,
  require_root_manifest_permissions, load_identity_and_manifest,
}
use bloom_service_runtime.LocalTransport.Identity.Entries.{
  IsEntry, IsAclOf, IsIdentityOf, IsTimeSource, IsReadAs, pinned_peer_iff, into_acl_iff,
  into_identity_iff, for_current_platform_iff, decode_security_file_iff,
}

after_guards :
    {A : Type 0} (m k : Result (Unit {0}) WireError) (r : A)
    → (m >> k) ≡ ok tt
    → (m >> (k >> ok r)) ≡ ok r
after_guards (ok u) (ok v) r h = refl
after_guards (ok u) (err e) r h = absurd (cc h)
after_guards (err e) k r h = absurd (cc h)

-- The manifest pins this identity, for the service that was asked for.
pub record Pins (x : External) (manifest : EdgeManifest) (expected : Bytes)
    (identity : LocalIdentity) : Type 0 where
  pub service : identity.service_id.text ≡ expected
  pub peer : ManifestPeer
  pub acl : PeerAcl
  pub found : IsEntry manifest expected peer
  pub read : IsAclOf x peer acl
  pub service_id : acl.service_id ≡ identity.service_id
  pub boot_epoch : acl.boot_epoch ≡ identity.boot_epoch
  pub key_id : acl.application_key_id ≡ identity.application_key_id
  pub public_key : acl.application_public_key ≡ x.public_key identity.signing_key

-- Nobody but the owner has a right to the identity, and the manifest is root's and writable by
-- nobody else. Neither is a symbolic link.
pub record IsGuarded (files : SecurityFiles) (identity_path manifest_path : Bytes) : Type 0 where
  pub identity_metadata : Metadata
  pub manifest_metadata : Metadata
  pub inspected_identity : files.metadata identity_path ≡ some identity_metadata
  pub inspected_manifest : files.metadata manifest_path ≡ some manifest_metadata
  pub identity_file : identity_metadata.file_type ≡ regular
  pub identity_private : identity_metadata.mode % 64 ≡ 0
  pub manifest_file : manifest_metadata.file_type ≡ regular
  pub manifest_owner : manifest_metadata.uid ≡ 0
  pub group_write : manifest_metadata.mode / 16 % 2 ≡ 0
  pub other_write : manifest_metadata.mode / 2 % 2 ≡ 0

module _ (x : External) (files : SecurityFiles) (platform : Platform)
    (identity_path manifest_path expected : Bytes) (identity : LocalIdentity)
    (manifest : EdgeManifest) where
  -- All that a loaded identity and manifest guarantee.
  pub record Loaded : Type 0 where
    pub guarded : IsGuarded files identity_path manifest_path
    pub file : IdentityFile
    pub identity_read : IsReadAs files files.identity_from_slice identity_path file
    pub manifest_read : IsReadAs files files.manifest_from_slice manifest_path manifest
    pub schema : manifest.schema ≡ codes "bloom.edge-manifest.1"
    pub time : IsTimeSource platform manifest.trusted_time_source
    pub decoded : IsIdentityOf x file identity
    pub pins : Pins x manifest expected identity

  pub root_only_iff :
      ((require_private_identity_permissions x files identity_path
          >> require_root_manifest_permissions x files manifest_path)
        ≡ ok tt)
      ↔ IsGuarded files identity_path manifest_path
  unfolding require_private_identity_permissions require_root_manifest_permissions
  root_only_iff = ground arith

  pub pinned_iff :
      (acl : PeerAcl)
      → (reject_if
            (acl.service_id != identity.service_id
              || acl.boot_epoch != identity.boot_epoch
              || acl.application_key_id != identity.application_key_id
              || acl.application_public_key != x.public_key identity.signing_key)
            (wire_error unauthenticated_peer)
          ≡ ok tt)
        ↔ ((acl.service_id ≡ identity.service_id)
            × (acl.boot_epoch ≡ identity.boot_epoch)
            × (acl.application_key_id ≡ identity.application_key_id)
            × (acl.application_public_key ≡ x.public_key identity.signing_key))
  pinned_iff acl = ground (
    arith,
    token_beq_iff acl.service_id identity.service_id,
    hex_beq_iff acl.boot_epoch identity.boot_epoch,
    token_beq_iff acl.application_key_id identity.application_key_id,
    list_beq_iff acl.application_public_key (x.public_key identity.signing_key),
  )

  pub loads :
      Loaded
      → load_identity_and_manifest x files platform identity_path manifest_path expected
        ≡ ok (identity, manifest)
  unfolding load_identity_and_manifest decode_identity_and_manifest
  loads a =
      let g = root_only_iff.1 a.guarded in
      let (source, time) =
        (for_current_platform_iff platform manifest.trusted_time_source).1 a.time in
      rw
        (
          (decode_security_file_iff x files files.identity_from_slice identity_path a.file).1
              a.identity_read,
          (decode_security_file_iff x files files.manifest_from_slice manifest_path manifest).1
              a.manifest_read,
          (list_beq_iff manifest.schema (codes "bloom.edge-manifest.1")).1 a.schema,
          time,
          (into_identity_iff x a.file identity).1 a.decoded,
          (list_beq_iff identity.service_id.text expected).1 a.pins.service,
          (pinned_peer_iff manifest expected a.pins.peer).1 a.pins.found,
          (into_acl_iff x a.pins.peer a.pins.acl).1 a.pins.read,
          (pinned_iff a.pins.acl).1
              (a.pins.service_id, a.pins.boot_epoch, a.pins.key_id, a.pins.public_key),
        )
        (after_guards (require_private_identity_permissions x files identity_path)
          (require_root_manifest_permissions x files manifest_path) (identity, manifest) g)
