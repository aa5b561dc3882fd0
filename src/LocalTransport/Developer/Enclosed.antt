-- ===== src/LocalTransport/Developer/Enclosed.antt =====
-- What the developer mode lets through (crates/bloom-triad-local-transport/src/lib.rs).
use bloom_service_runtime.Prelude.{
  ℕ, ◌%◌, Bytes, Bool, true, false, not, ◌||◌, some, List, [], ◌∷◌, Result, ok, err, >>=-eq-ok,
  >>-eq-ok, ok_injective, ok_or, ok_or-eq-ok, reject_if, ◌==◌, ◌!=◌, nat_eq, list_eq, list_beq_iff,
  if◌then◌else◌, ◌≡◌, ◌≢◌, ◌↔◌, inl, inr, refl, arith, Bool-cases, sym, ap, ◌∙◌,
}
use bloom_service_runtime.FileSystem.{Metadata, regular, directory, permissions}
use bloom_service_runtime.RpcWire.External.{External}
use bloom_service_runtime.TrustedTime.Source.{Platform}
use bloom_service_runtime.LocalTransport.Identity.{
  LocalIdentity, EdgeManifest, SecurityFiles, decode_identity_and_manifest,
}
use bloom_service_runtime.RpcWire.Error.{WireError}
use bloom_service_runtime.LocalTransport.Developer.{
  FilePath, path_beq, starts_with, unsafe_file, DeveloperFiles, refused, require_private_directory,
  require_enclosed, enclosing, require_developer_root_shape, require_developer_root,
  require_developer_security_file, validate_developer_security_file,
  load_developer_identity_and_manifest,
}

else_branch :
    (b : Bool) (m : Result (Unit {0}) WireError)
    → b ≡ false
    → (if b then ok tt else m) ≡ ok tt
    → m ≡ ok tt
else_branch b m e h = ground (arith, e, h)

path_beq_iff : (a b : FilePath) → (path_beq a b ≡ true) ↔ (a ≡ b)
path_beq_iff a b = ground (arith, list_beq_iff a.names b.names)

module _ (files : DeveloperFiles) (uid : ℕ) where
  -- A directory of the user that nobody else has a right to.
  pub record IsPrivate (component : FilePath) : Type 0 where
    pub metadata : Metadata
    pub inspected : files.metadata component ≡ some metadata
    pub is_directory : metadata.file_type ≡ directory
    pub owner : metadata.uid ≡ uid
    pub mode : metadata.mode % 64 ≡ 0

  no_other_rights_iff :
      (component : FilePath)
      → (require_private_directory files component uid ≡ ok tt) ↔ IsPrivate component
  unfolding require_private_directory
  no_other_rights_iff component = ground arith

  -- A path at or below the root, on which every directory below the root is private.
  pub data Enclosed (root : FilePath) (absolute : Bool) : List Bytes → Type 0 where
    at_root :
        {names : List Bytes}
        → record { absolute = absolute; names = names } ≡ root
        → Enclosed root absolute names
    below :
        {name : Bytes} {names : List Bytes}
        → IsPrivate (record { absolute = absolute; names = name ∷ names })
        → Enclosed root absolute names
        → Enclosed root absolute (name ∷ names)

  enclosed :
      (root : FilePath) (absolute : Bool) (names : List Bytes)
      → require_enclosed files root uid absolute names ≡ ok tt
      → Enclosed root absolute names
  unfolding require_enclosed
  enclosed root absolute [] h =
      elim (Bool-cases (path_beq (record { absolute = absolute; names = [] }) root)) [
        | inl hit ↦ at_root ((path_beq_iff (record { absolute = absolute; names = [] }) root).0 hit)
        | inr miss ↦ absurd (
            cc
              ((>>-eq-ok
                  (require_private_directory files (record { absolute = absolute; names = [] }) uid)
                  (err refused)).0
                (else_branch _ _ miss h)).1)
      ]
  enclosed root absolute (name ∷ names) h =
      elim (Bool-cases (path_beq (record { absolute = absolute; names = name ∷ names }) root)) [
        | inl hit ↦
            at_root
              ((path_beq_iff (record { absolute = absolute; names = name ∷ names }) root).0 hit)
        | inr miss ↦
            let (p, q) =
              (>>-eq-ok
                  (require_private_directory files
                    (record { absolute = absolute; names = name ∷ names }) uid)
                  _).0
                (else_branch _ _ miss h) in
            below ((no_other_rights_iff (record { absolute = absolute; names = name ∷ names })).0 p)
              (enclosed root absolute names q)
      ]

  -- A file of the user with mode 0600 and one link, under its canonical name, in private
  -- directories below the root.
  pub record IsDeveloperFile (root path : FilePath) : Type 0 where
    pub canonical : files.canonicalize path ≡ some path
    pub metadata : Metadata
    pub inspected : files.metadata path ≡ some metadata
    pub is_regular : metadata.file_type ≡ regular
    pub owner : metadata.uid ≡ uid
    pub mode : permissions metadata.mode ≡ 0o600
    pub links : metadata.nlink ≡ 1
    pub name : Bytes
    pub parent : List Bytes
    pub named : path.names ≡ name ∷ parent
    pub inside : Enclosed root path.absolute parent

  enclosing_inv :
      (root : FilePath) (absolute : Bool) (names : List Bytes)
      → enclosing files root uid absolute names ≡ ok tt
      → (name : Bytes) × (parent : List Bytes) × (names ≡ name ∷ parent)
        × Enclosed root absolute parent
  enclosing_inv root absolute [] h = absurd (cc h)
  enclosing_inv root absolute (name ∷ names) h = (name, names, refl, enclosed root absolute names h)

  developer_file :
      (root path : FilePath)
      → require_developer_security_file files root path uid ≡ ok tt
      → IsDeveloperFile root path
  unfolding require_developer_security_file
  developer_file root path h =
      let (canonical, a, h1) = >>=-eq-ok (ok_or (files.canonicalize path) refused) _ h in
      let (u, b, h2) = >>=-eq-ok (reject_if (not (starts_with canonical root)) refused) _ h1 in
      let (metadata, c, h3) = >>=-eq-ok (ok_or (files.metadata path) refused) _ h2 in
      let (v, d, h4) =
        >>=-eq-ok (reject_if (unsafe_file canonical path metadata uid) refused) _ h3 in
      let (name, parent, named, inside) = enclosing_inv root path.absolute path.names h4 in
      let same : canonical ≡ path = (path_beq_iff canonical path).0 (ground (arith, d)) in
      record {
        canonical = ok_or-eq-ok _ _ a ∙ ap some same;
        metadata = metadata;
        inspected = ok_or-eq-ok _ _ c;
        is_regular = ground (arith, d);
        owner = ground (arith, d);
        mode = ground (arith, d);
        links = ground (arith, d);
        name = name;
        parent = parent;
        named = named;
        inside = inside;
      }

  -- The root: a directory of the user with mode 0700, under both the given and the canonical path.
  pub record IsDeveloperRoot (given root : FilePath) : Type 0 where
    pub user : uid ≢ 0
    pub absolute : given.absolute ≡ true
    pub canonical : files.canonicalize given ≡ some root
    pub metadata : Metadata
    pub inspected : files.metadata root ≡ some metadata
    pub is_directory : metadata.file_type ≡ directory
    pub owner : metadata.uid ≡ uid
    pub mode : permissions metadata.mode ≡ 0o700

  developer_root :
      (given root : FilePath)
      → require_developer_root files given uid ≡ ok root
      → IsDeveloperRoot given root
  unfolding require_developer_root require_developer_root_shape
  developer_root given root h =
      let (u, a, h1) = >>=-eq-ok (reject_if (uid == 0) refused) _ h in
      let (v, b, h2) = >>=-eq-ok (reject_if (not given.absolute) refused) _ h1 in
      let (metadata, c, h3) = >>=-eq-ok (ok_or (files.metadata given) refused) _ h2 in
      let (w, d, h4) = >>=-eq-ok (require_developer_root_shape metadata uid) _ h3 in
      let (canonical, e, h5) = >>=-eq-ok (ok_or (files.canonicalize given) refused) _ h4 in
      let (there, f, h6) = >>=-eq-ok (ok_or (files.metadata canonical) refused) _ h5 in
      let (y, g, h7) = >>=-eq-ok (require_developer_root_shape there uid) _ h6 in
      let (z, k, h8) =
        >>=-eq-ok
          (reject_if (there.device != metadata.device || there.inode != metadata.inode) refused) _
          h7 in
      let same : canonical ≡ root = ok_injective h8 in
      record {
        user = ground (arith, a);
        absolute = ground (arith, b);
        canonical = ok_or-eq-ok _ _ e ∙ ap some same;
        metadata = there;
        inspected = ap files.metadata (sym same) ∙ ok_or-eq-ok _ _ f;
        is_directory = ground (arith, g);
        owner = ground (arith, g);
        mode = ground (arith, g);
      }

  -- The developer mode accepts a file only if it is run by a user other than root, the developer
  -- root is an absolute path to a directory of that user with mode 0700, and the file is a
  -- regular file of that user with mode 0600 and one link, under its canonical name, inside
  -- that root, where no other user has a right to any directory on the way.
  pub validate_developer_security_file_sound :
      (given path : FilePath)
      → validate_developer_security_file files given path uid ≡ ok tt
      → (root : FilePath) × IsDeveloperRoot given root × IsDeveloperFile root path
  unfolding validate_developer_security_file
  validate_developer_security_file_sound given path h =
      let (root, a, h1) = >>=-eq-ok (require_developer_root files given uid) _ h in
      (root, developer_root given root a, developer_file root path h1)

  -- The developer mode loads an identity and a manifest only from two files that it accepts below
  -- one developer root, and what it loads is what these files decode to.
  pub load_developer_identity_and_manifest_sound :
      (x : External) (security : SecurityFiles) (platform : Platform) (spelled : FilePath → Bytes)
      (given identity_path manifest_path : FilePath) (expected : Bytes)
      {loaded : LocalIdentity × EdgeManifest}
      → load_developer_identity_and_manifest files x security platform spelled uid given
          identity_path manifest_path expected
        ≡ ok loaded
      → (root : FilePath) × IsDeveloperRoot given root
        × IsDeveloperFile root identity_path
        × IsDeveloperFile root manifest_path
        × (decode_identity_and_manifest x security platform
              (spelled identity_path)
              (spelled manifest_path)
              expected
            ≡ ok loaded)
  unfolding load_developer_identity_and_manifest
  load_developer_identity_and_manifest_sound x security platform spelled given identity_path
        manifest_path expected h =
      let (root, a, h1) = >>=-eq-ok (require_developer_root files given uid) _ h in
      let (_, b, h2) =
        >>=-eq-ok (require_developer_security_file files root identity_path uid) _ h1 in
      let (_, c, h3) =
        >>=-eq-ok (require_developer_security_file files root manifest_path uid) _ h2 in
      (
        root,
        developer_root given root a,
        developer_file root identity_path b,
        developer_file root manifest_path c,
        h3,
      )
