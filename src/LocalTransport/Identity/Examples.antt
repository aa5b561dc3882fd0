-- ===== src/LocalTransport/Identity/Examples.antt =====
-- Loading an identity over the sample instance of the external crates.
use bloom_service_runtime.Prelude.{
  ℕ, Bytes, codes, none, some, [], ◌∷◌, ◌++◌, ok, err, ◌≡◌, ◌↔◌, refl, list_beq, all, list_eq,
  nat_eq,
}
use bloom_service_runtime.FileSystem.{Metadata, regular}
use bloom_service_runtime.TrustedTime.Source.{linux, for_current_platform}
use bloom_service_runtime.RpcWire.Error.{wire_error, unauthenticated_peer}
use bloom_service_runtime.RpcWire.External.Sample.{
  sample, encode, decode, cons?, digit, undigit, pad,
}
use bloom_service_runtime.RpcWire.Token.{token_new}
use bloom_service_runtime.RpcWire.Hex.{hex_new}
use bloom_service_runtime.LocalTransport.Identity.{
  LocalIdentity, ManifestPeer, EdgeManifest, IdentityFile, SecurityFiles, decode_32, into_acl,
  into_identity, pinned_peer, decode_security_file, decode_identity_and_manifest,
  require_private_identity_permissions, require_root_manifest_permissions,
  load_identity_and_manifest,
}
use bloom_service_runtime.LocalTransport.Identity.Pinned.{Loaded}
use bloom_service_runtime.LocalTransport.Identity.Load.{load_iff}

abbrev boot : Bytes
boot = codes "01010101010101010101010101010101"

abbrev key : Bytes
key = codes "0101010101010101010101010101010101010101010101010101010101010101"

-- The entry of a service, and the UID that it runs under.
abbrev peer : ℕ → Bytes → Bytes → ManifestPeer
peer uid service key_id = record {
  effective_uid = uid;
  service_id = service;
  boot_epoch = boot;
  application_key_id = key_id;
  application_public_key_hex = key;
}

abbrev manifest : EdgeManifest
manifest = record {
  schema = codes "bloom.edge-manifest.1";
  trusted_time_source = codes "linux-chrony-nts";
  machine = peer 501 (codes "bloom-machine") (codes "machine-app-1");
  broker = peer 502 (codes "bloom-broker") (codes "broker-app-1");
  signer = peer 503 (codes "bloom-signer") (codes "signer-app-1");
  revoke_client = peer 504 (codes "bloom-revoke") (codes "revoke-app-1");
  session = none;
  session_socket_gid = none;
}

abbrev file : IdentityFile
file = record {
  service_id = codes "bloom-signer";
  boot_epoch = boot;
  application_key_id = codes "signer-app-1";
  private_key_seed_hex = key;
}

abbrev metadata : ℕ → Metadata
metadata mode = record {
  file_type = regular;
  uid = 0;
  gid = 0;
  mode = mode;
  nlink = 1;
  device = 1;
  inode = 1;
  modified = (0, 0);
  changed = (0, 0);
}

abbrev files : ℕ → SecurityFiles
files mode = record {
  metadata = λ path. some (metadata mode);
  read = λ path. some path;
  identity_from_slice = λ bytes. some file;
  manifest_from_slice = λ bytes. some manifest;
}

abbrev eight : Bytes
eight = 1 ∷ 1 ∷ 1 ∷ 1 ∷ 1 ∷ 1 ∷ 1 ∷ 1 ∷ []

abbrev identity : LocalIdentity
identity = record {
  service_id = record { text = codes "bloom-signer" };
  boot_epoch = record { text = boot };
  application_key_id = record { text = codes "signer-app-1" };
  signing_key = eight ++ eight ++ eight ++ eight;
}

-- A key file that the group may read is refused, and so is the file of another service.
test_load :
    (load_identity_and_manifest sample (files 0o100600) linux [] [] (codes "bloom-signer")
      ≡ ok (identity, manifest))
    × (load_identity_and_manifest sample (files 0o100640) linux [] [] (codes "bloom-signer")
        ≡ err (wire_error unauthenticated_peer))
    × (load_identity_and_manifest sample (files 0o100600) linux [] [] (codes "bloom-session")
        ≡ err (wire_error unauthenticated_peer))
unfolding load_identity_and_manifest decode_identity_and_manifest decode_security_file
    require_private_identity_permissions require_root_manifest_permissions into_identity into_acl
    decode_32 pinned_peer for_current_platform token_new hex_new all list_beq encode decode cons?
    digit undigit pad
test_load = (refl, refl, refl)

load_iff_example :
    (load_identity_and_manifest sample (files 0o100600) linux [] [] (codes "bloom-signer")
      ≡ ok (identity, manifest))
    ↔ Loaded sample (files 0o100600) linux [] [] (codes "bloom-signer") identity manifest
load_iff_example =
    load_iff sample (files 0o100600) linux [] [] (codes "bloom-signer") identity manifest
