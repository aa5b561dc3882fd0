-- ===== src/LocalTransport/Developer.antt =====
-- The checks of the developer mode, behind the feature triad-dev-harness
-- (crates/bloom-triad-local-transport/src/lib.rs). A path is its names, the innermost first, so its
-- parent is the rest of the list. The answers of the file system are those of one moment.
pub mod Enclosed
mod Examples
use bloom_service_runtime.Prelude.{
  ℕ, ◌%◌, Bytes, Bool, true, false, not, ◌&&◌, ◌||◌, Option, none, some, List, [], ◌∷◌, Result, ok,
  err, ◌>>=◌, ◌>>◌, ok_or, reject_if, ◌==◌, ◌!=◌, nat_eq, list_eq, if◌then◌else◌,
}
use bloom_service_runtime.FileSystem.{Metadata, is_file, is_dir, is_symlink, permissions}
use bloom_service_runtime.RpcWire.External.{External}
use bloom_service_runtime.TrustedTime.Source.{Platform}
use bloom_service_runtime.LocalTransport.Identity.{
  LocalIdentity, EdgeManifest, SecurityFiles, decode_identity_and_manifest,
}
use bloom_service_runtime.RpcWire.Error.{WireError, wire_error, unauthenticated_peer}

pub record FilePath : Type 0 where
  pub absolute : Bool
  pub names : List Bytes

abbrev pub path_beq : FilePath → FilePath → Bool
path_beq a b = (not a.absolute && not b.absolute || a.absolute && b.absolute) && a.names == b.names

abbrev pub ends_with : List Bytes → List Bytes → Bool
ends_with [] root = [] == root
ends_with (name ∷ names) root = (name ∷ names) == root || ends_with names root

-- `symlink_metadata` and `canonicalize`
pub record DeveloperFiles : Type 0 where
  pub metadata : FilePath → Option Metadata
  pub canonicalize : FilePath → Option FilePath

abbrev pub starts_with : FilePath → FilePath → Bool
starts_with path root =
    (not path.absolute && not root.absolute || path.absolute && root.absolute)
    && ends_with path.names root.names

abbrev pub unsafe_file : FilePath → FilePath → Metadata → ℕ → Bool
unsafe_file canonical path metadata uid =
    not (path_beq canonical path)
    || not (is_file metadata.file_type)
    || is_symlink metadata.file_type
    || metadata.uid != uid
    || permissions metadata.mode != 0o600
    || metadata.nlink != 1

abbrev pub refused : WireError
refused = wire_error unauthenticated_peer

unfoldable pub require_developer_root_shape : Metadata → ℕ → Result (Unit {0}) WireError
require_developer_root_shape metadata uid =
    reject_if
      (not (is_dir metadata.file_type)
        || is_symlink metadata.file_type
        || metadata.uid != uid
        || permissions metadata.mode != 0o700)
      refused

module _ (files : DeveloperFiles) where
  unfoldable pub require_developer_root : FilePath → ℕ → Result FilePath WireError
  require_developer_root path uid = do
    reject_if (uid == 0) refused
    reject_if (not path.absolute) refused
    metadata ← ok_or (files.metadata path) refused
    require_developer_root_shape metadata uid
    canonical ← ok_or (files.canonicalize path) refused
    canonical_metadata ← ok_or (files.metadata canonical) refused
    require_developer_root_shape canonical_metadata uid
    reject_if
        (canonical_metadata.device != metadata.device || canonical_metadata.inode != metadata.inode)
        refused
    ok canonical

  -- One step of the `while` loop over the parents. `mode & 0o077` is the remainder by 64.
  unfoldable pub require_private_directory : FilePath → ℕ → Result (Unit {0}) WireError
  require_private_directory component uid = do
    metadata ← ok_or (files.metadata component) refused
    reject_if
        (not (is_dir metadata.file_type)
          || is_symlink metadata.file_type
          || metadata.uid != uid
          || metadata.mode % 64 != 0)
        refused

  -- The `while` loop, at the parent with these names, up to the root.
  unfoldable pub require_enclosed : FilePath → ℕ → Bool → List Bytes → Result (Unit {0}) WireError
  require_enclosed root uid absolute [] =
      if path_beq (record { absolute = absolute; names = [] }) root
      then ok tt
      else require_private_directory (record { absolute = absolute; names = [] }) uid >> err refused
  require_enclosed root uid absolute (name ∷ names) =
      let outer = require_enclosed root uid absolute names in
      if path_beq (record { absolute = absolute; names = name ∷ names }) root
      then ok tt
      else require_private_directory (record { absolute = absolute; names = name ∷ names }) uid
        >> outer

  -- The loop from `path.parent()` on.
  abbrev pub enclosing : FilePath → ℕ → Bool → List Bytes → Result (Unit {0}) WireError
  enclosing root uid absolute [] = err refused
  enclosing root uid absolute (name ∷ names) = require_enclosed root uid absolute names

  unfoldable pub require_developer_security_file :
      FilePath → FilePath → ℕ → Result (Unit {0}) WireError
  require_developer_security_file root path uid = do
    canonical ← ok_or (files.canonicalize path) refused
    reject_if (not (starts_with canonical root)) refused
    metadata ← ok_or (files.metadata path) refused
    reject_if (unsafe_file canonical path metadata uid) refused
    enclosing root uid path.absolute path.names

  unfoldable pub validate_developer_security_file :
      FilePath → FilePath → ℕ → Result (Unit {0}) WireError
  validate_developer_security_file developer_root path uid = do
    root ← require_developer_root developer_root uid
    require_developer_security_file root path uid

  -- `spelled` is the text of a path.
  unfoldable pub load_developer_identity_and_manifest :
      External
      → SecurityFiles
      → Platform
      → (FilePath → Bytes)
      → ℕ
      → FilePath
      → FilePath
      → FilePath
      → Bytes
      → Result (LocalIdentity × EdgeManifest) WireError
  load_developer_identity_and_manifest x security platform spelled uid developer_root identity_path
        manifest_path expected_service_id =
      do
        root ← require_developer_root developer_root uid
        require_developer_security_file root identity_path uid
        require_developer_security_file root manifest_path uid
        decode_identity_and_manifest x security platform (spelled identity_path)
            (spelled manifest_path) expected_service_id
