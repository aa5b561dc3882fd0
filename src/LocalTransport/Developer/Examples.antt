-- ===== src/LocalTransport/Developer/Examples.antt =====
-- A developer root with a file two levels below it.
use bloom_service_runtime.Prelude.{
  ℕ, codes, true, some, [], ◌∷◌, ok, err, ◌==◌, nat_eq, list_eq, list_beq, if◌then◌else◌, ◌≡◌, refl,
  length,
}
use bloom_service_runtime.FileSystem.{FileType, Metadata, regular, directory}
use bloom_service_runtime.LocalTransport.Developer.{
  FilePath, DeveloperFiles, refused, require_private_directory, require_enclosed,
  require_developer_root_shape, require_developer_root, require_developer_security_file,
  validate_developer_security_file,
}
use bloom_service_runtime.LocalTransport.Developer.Enclosed.{
  IsDeveloperRoot, IsDeveloperFile, validate_developer_security_file_sound,
}

abbrev root : FilePath
root = record { absolute = true; names = codes "dev" ∷ [] }

abbrev path : FilePath
path = record { absolute = true; names = codes "key" ∷ codes "keys" ∷ codes "dev" ∷ [] }

abbrev owned : FileType → ℕ → Metadata
owned file_type mode = record {
  file_type = file_type;
  uid = 501;
  gid = 20;
  mode = mode;
  nlink = 1;
  device = 1;
  inode = 1;
  modified = (0, 0);
  changed = (0, 0);
}

-- The file has three names, and the mode of the directory between it and the root is given.
abbrev files : ℕ → DeveloperFiles
files between = record {
  metadata = λ p.
      if length p.names == 3
      then some (owned regular 0o600)
      else if length p.names == 2
      then some (owned directory between)
      else some (owned directory 0o700);
  canonicalize = λ p. some p;
}

test_validate :
    (validate_developer_security_file (files 0o750) root path 501 ≡ err refused)
    × (validate_developer_security_file (files 0o700) root path 0 ≡ err refused)
unfolding validate_developer_security_file require_developer_security_file require_developer_root
    require_developer_root_shape require_enclosed require_private_directory list_beq
test_validate = (refl, refl)

validated : validate_developer_security_file (files 0o700) root path 501 ≡ ok tt
unfolding validate_developer_security_file require_developer_security_file require_developer_root
    require_developer_root_shape require_enclosed require_private_directory list_beq
validated = refl

validate_developer_security_file_sound_example :
    (r : FilePath) × IsDeveloperRoot (files 0o700) 501 root r
    × IsDeveloperFile (files 0o700) 501 r path
validate_developer_security_file_sound_example =
    validate_developer_security_file_sound (files 0o700) 501 root path validated
