-- ===== src/FileSystem.antt =====
-- What `std::fs::symlink_metadata` tells of a path, as the crates read it. `mode & 0o7777` is the
-- remainder by 4096.
use bloom_service_runtime.Prelude.{ℕ, ◌%◌, Bool, true, false, nat_eq}

pub data FileType : Type 0 where
  regular directory symlink socket special : FileType

pub record Metadata : Type 0 where
  pub file_type : FileType
  pub uid : ℕ
  pub gid : ℕ
  pub mode : ℕ
  pub nlink : ℕ
  pub device : ℕ
  pub inode : ℕ
  pub modified : ℕ × ℕ
  pub changed : ℕ × ℕ

abbrev pub is_file : FileType → Bool
is_file regular = true
is_file _ = false

abbrev pub is_dir : FileType → Bool
is_dir directory = true
is_dir _ = false

abbrev pub is_symlink : FileType → Bool
is_symlink symlink = true
is_symlink _ = false

abbrev pub is_socket : FileType → Bool
is_socket socket = true
is_socket _ = false

-- `mode & 0o7777`
abbrev pub permissions : ℕ → ℕ
permissions mode = mode % 4096
