-- ===== src/LocalTransport/Identity/Load.antt =====
-- When `load_identity_and_manifest` succeeds (crates/bloom-triad-local-transport/src/lib.rs).
use bloom_service_runtime.Prelude.{
  Bytes, codes, Result, ok, ◌>>=◌, ◌>>◌, >>=-eq-ok, map_err-eq-ok, >>-eq-ok, ok_injective,
  reject_if, map_err, ◌≡◌, ◌↔◌, arith, list_beq_iff, nat_eq, list_eq, subst, ◌||◌, ◌!=◌,
}
use bloom_service_runtime.TrustedTime.Source.{Platform, for_current_platform}
use bloom_service_runtime.RpcWire.Error.{
  WireError, wire_error, unauthenticated_peer, unsupported_version,
}
use bloom_service_runtime.RpcWire.External.{External}
use bloom_service_runtime.RpcWire.Token.{token_eq}
use bloom_service_runtime.RpcWire.Hex.{hex_eq}
use bloom_service_runtime.LocalTransport.Identity.{
  LocalIdentity, EdgeManifest, IdentityFile, SecurityFiles, decode_security_file,
  decode_identity_and_manifest, pinned_peer, into_acl, into_identity,
  require_private_identity_permissions, require_root_manifest_permissions,
  load_identity_and_manifest,
}
use bloom_service_runtime.LocalTransport.Identity.Pinned.{
  Pins, IsGuarded, Loaded, root_only_iff, pinned_iff, loads,
}
use bloom_service_runtime.LocalTransport.Identity.Entries.{
  pinned_peer_iff, into_acl_iff, into_identity_iff, for_current_platform_iff,
  decode_security_file_iff,
}

-- The end of `decode_identity_and_manifest`, from the manifest's entry on, and from the schema on.
abbrev after_identity :
    External
    → Bytes
    → LocalIdentity
    → EdgeManifest
    → Result (LocalIdentity × EdgeManifest) WireError
after_identity x expected i m = do
  peer ← pinned_peer m expected
  acl ← into_acl x peer
  reject_if
      (acl.service_id != i.service_id
        || acl.boot_epoch != i.boot_epoch
        || acl.application_key_id != i.application_key_id
        || acl.application_public_key != x.public_key i.signing_key)
      (wire_error unauthenticated_peer)
  ok (i, m)

abbrev after_files :
    External
    → Platform
    → Bytes
    → IdentityFile
    → EdgeManifest
    → Result (LocalIdentity × EdgeManifest) WireError
after_files x platform expected file m = do
  reject_if (m.schema != codes "bloom.edge-manifest.1") (wire_error unsupported_version)
  source ←
      map_err (λ _. wire_error unauthenticated_peer)
        (for_current_platform platform m.trusted_time_source)
  i ← into_identity x file
  reject_if (i.service_id.text != expected) (wire_error unauthenticated_peer)
  after_identity x expected i m

module _ (x : External) (files : SecurityFiles) (platform : Platform)
    (identity_path manifest_path expected : Bytes) where
  pinned_by :
      (i : LocalIdentity) (m : EdgeManifest) {r : LocalIdentity × EdgeManifest}
      → i.service_id.text ≡ expected
      → after_identity x expected i m ≡ ok r
      → Pins x m expected i × ((i, m) ≡ r)
  pinned_by i m service h =
      let (peer, g, h1) = >>=-eq-ok (pinned_peer m expected) _ h in
      let (acl, k, h2) = >>=-eq-ok (into_acl x peer) _ h1 in
      let (z, l, h3) = >>=-eq-ok (reject_if _ _) _ h2 in
      let same = (pinned_iff x files platform identity_path manifest_path expected i m acl).0 l in
      (
        record {
          service = service;
          peer = peer;
          acl = acl;
          found = (pinned_peer_iff m expected peer).0 g;
          read = (into_acl_iff x peer acl).0 k;
          service_id = same.0;
          boot_epoch = same.1;
          key_id = same.2;
          public_key = same.3;
        },
        ok_injective h3,
      )

  moved :
      (i : LocalIdentity) (m : EdgeManifest) (identity : LocalIdentity) (manifest : EdgeManifest)
      → ◌≡◌ {A = LocalIdentity × EdgeManifest} (i, m) (identity, manifest)
      → Loaded x files platform identity_path manifest_path expected i m
      → Loaded x files platform identity_path manifest_path expected identity manifest
  moved i m identity manifest pair found =
      subst
        (λ (r : LocalIdentity × EdgeManifest).
          Loaded x files platform identity_path manifest_path expected r.0 r.1)
        pair found

  loaded_by :
      (file : IdentityFile) (m : EdgeManifest) (identity : LocalIdentity) (manifest : EdgeManifest)
      → IsGuarded files identity_path manifest_path
      → decode_security_file x files files.identity_from_slice identity_path ≡ ok file
      → decode_security_file x files files.manifest_from_slice manifest_path ≡ ok m
      → after_files x platform expected file m ≡ ok (identity, manifest)
      → Loaded x files platform identity_path manifest_path expected identity manifest
  loaded_by file m identity manifest guarded a b h =
      let (w, c, h1) =
        >>=-eq-ok
          (reject_if (m.schema != codes "bloom.edge-manifest.1") (wire_error unsupported_version)) _
          h in
      let (source, d, h2) =
        >>=-eq-ok
          (map_err (λ _. wire_error unauthenticated_peer)
            (for_current_platform platform m.trusted_time_source))
          _ h1 in
      let (i, e, h3) = >>=-eq-ok (into_identity x file) _ h2 in
      let (y, f, h4) =
        >>=-eq-ok (reject_if (i.service_id.text != expected) (wire_error unauthenticated_peer)) _
          h3 in
      let (pins, pair) =
        pinned_by i m ((list_beq_iff i.service_id.text expected).0 (ground (arith, f))) h4 in
      moved i m identity manifest pair (record {
        guarded = guarded;
        file = file;
        identity_read =
            (decode_security_file_iff x files files.identity_from_slice identity_path file).0 a;
        manifest_read =
            (decode_security_file_iff x files files.manifest_from_slice manifest_path m).0 b;
        schema = (list_beq_iff m.schema (codes "bloom.edge-manifest.1")).0 (ground (arith, c));
        time =
            (for_current_platform_iff platform m.trusted_time_source).0
              (source, map_err-eq-ok _ _ d);
        decoded = (into_identity_iff x file i).0 e;
        pins = pins;
      })

  loaded :
      (identity : LocalIdentity) (manifest : EdgeManifest)
      → load_identity_and_manifest x files platform identity_path manifest_path expected
        ≡ ok (identity, manifest)
      → Loaded x files platform identity_path manifest_path expected identity manifest
  unfolding load_identity_and_manifest decode_identity_and_manifest
  loaded identity manifest h =
      let (u, p, h1) = >>=-eq-ok (require_private_identity_permissions x files identity_path) _ h in
      let (v, q, h2) = >>=-eq-ok (require_root_manifest_permissions x files manifest_path) _ h1 in
      let (file, a, h3) =
        >>=-eq-ok (decode_security_file x files files.identity_from_slice identity_path) _ h2 in
      let (m, b, h4) =
        >>=-eq-ok (decode_security_file x files files.manifest_from_slice manifest_path) _ h3 in
      loaded_by file m identity manifest
        ((root_only_iff x files platform identity_path manifest_path expected identity manifest).0
          ((>>-eq-ok _ _).1 (p, q)))
        a b h4

  -- An identity and a manifest are loaded exactly if the identity file and the manifest are
  -- regular files, no other user has a right to the first, and the second is root's and
  -- writable by nobody else; both are read and parse; the manifest has the known schema and a
  -- time source of this platform; the identity has the service ID, the boot epoch and the key ID
  -- of the file, which are well-formed, and its 32-byte seed, and is for the service that was
  -- asked for; and the manifest's entry of that service, which is well-formed with a 32-byte key,
  -- names the same service, boot epoch and key ID and the public key of the seed.
  pub load_iff :
      (identity : LocalIdentity) (manifest : EdgeManifest)
      → (load_identity_and_manifest x files platform identity_path manifest_path expected
          ≡ ok (identity, manifest))
        ↔ Loaded x files platform identity_path manifest_path expected identity manifest
  load_iff identity manifest = (
    loaded identity manifest,
    loads x files platform identity_path manifest_path expected identity manifest,
  )
