-- ===== src/AuditCheckpoint/Scan/Quiet.antt =====
-- The reads of the checkpoint store change neither its files nor its cache.
use bloom_service_runtime.Prelude.{ℕ, zero, suc, Bytes, List, [], ◌∷◌, if-keeps, ◌==◌}
use bloom_service_runtime.RpcWire.External.{External}
use bloom_service_runtime.RpcWire.Audit.{SignedJournalHead}
use bloom_service_runtime.AuditCheckpoint.Disk.{
  root_metadata, read_dir, read_entry, sync_root, stamp_eq,
}
use bloom_service_runtime.AuditCheckpoint.Disk.Honest.{
  IsQuiet, IsQuiet->>=, IsQuiet-lift, IsQuiet-syscall, Grows-refl,
}
use bloom_service_runtime.AuditCheckpoint.Entries.{RecordCodec, Store}
use bloom_service_runtime.AuditCheckpoint.Scan.{
  root_stamp, scan_entry, scan_entries, scan_once, scan_attempts, scan_records,
  validate_exact_record, validate_exact_existing, validate_cached_record,
}

pub IsQuiet-root_metadata : IsQuiet root_metadata
unfolding root_metadata
IsQuiet-root_metadata = IsQuiet-syscall _ Grows-refl

pub IsQuiet-read_dir : IsQuiet read_dir
unfolding read_dir
IsQuiet-read_dir = IsQuiet-syscall _ Grows-refl

pub IsQuiet-read_entry : (name : Bytes) → IsQuiet (read_entry name)
unfolding read_entry
IsQuiet-read_entry name = IsQuiet-syscall _ Grows-refl

pub IsQuiet-sync_root : IsQuiet sync_root
unfolding sync_root
IsQuiet-sync_root =
    IsQuiet->>= _ _ (IsQuiet-syscall _ Grows-refl) (λ _. IsQuiet-syscall _ Grows-refl)

module _ (x : External) (codec : RecordCodec) (store : Store x) where
  pub IsQuiet-root_stamp : IsQuiet (root_stamp x codec store)
  unfolding root_stamp
  IsQuiet-root_stamp = IsQuiet->>= _ _ IsQuiet-root_metadata λ m.
      IsQuiet->>= _ _ (IsQuiet-lift _)
        λ _. IsQuiet->>= _ _ IsQuiet-root_metadata λ m'. IsQuiet-lift _

  pub IsQuiet-scan_entry : (name : Bytes) → IsQuiet (scan_entry x codec store name)
  unfolding scan_entry
  IsQuiet-scan_entry name = IsQuiet->>= _ _ (IsQuiet-read_entry name) λ e.
      IsQuiet->>= _ _ (IsQuiet-lift _)
        λ _. IsQuiet->>= _ _ (IsQuiet-read_entry name) λ f. IsQuiet-lift _

  pub IsQuiet-scan_entries : (names : List Bytes) → IsQuiet (scan_entries x codec store names)
  unfolding scan_entries
  IsQuiet-scan_entries [] = IsQuiet-lift _
  IsQuiet-scan_entries (name ∷ names) =
      IsQuiet->>= _ _ (IsQuiet-scan_entry name)
        λ r. IsQuiet->>= _ _ (IsQuiet-scan_entries names) λ records. IsQuiet-lift _

  pub IsQuiet-scan_once : IsQuiet (scan_once x codec store)
  unfolding scan_once
  IsQuiet-scan_once = IsQuiet->>= _ _ IsQuiet-root_stamp λ before.
      IsQuiet->>= _ _ IsQuiet-read_dir λ names.
        IsQuiet->>= _ _ (IsQuiet-scan_entries names) λ records.
          IsQuiet->>= _ _ (IsQuiet-lift _)
            λ sorted. IsQuiet->>= _ _ IsQuiet-root_stamp λ stamp. IsQuiet-lift _

  IsQuiet-scan_attempts : (n : ℕ) → IsQuiet (scan_attempts x codec store n)
  unfolding scan_attempts
  IsQuiet-scan_attempts zero = IsQuiet-lift _
  IsQuiet-scan_attempts (suc n) =
      IsQuiet->>= _ _ IsQuiet-scan_once
        λ s. if-keeps IsQuiet (s.0 == s.1.root_stamp) (IsQuiet-lift _) (IsQuiet-scan_attempts n)

  pub IsQuiet-scan_records : IsQuiet (scan_records x codec store)
  unfolding scan_records
  IsQuiet-scan_records = IsQuiet-scan_attempts 3

  pub IsQuiet-validate_exact_record :
      (name bytes : Bytes) (head : SignedJournalHead)
      → IsQuiet (validate_exact_record x codec store name bytes head)
  unfolding validate_exact_record
  IsQuiet-validate_exact_record name bytes head = IsQuiet->>= _ _ (IsQuiet-read_entry name) λ e.
      IsQuiet->>= _ _ (IsQuiet-lift _)
        λ _. IsQuiet->>= _ _ (IsQuiet-read_entry name) λ f. IsQuiet-lift _

  pub IsQuiet-validate_exact_existing :
      (name bytes : Bytes) (head : SignedJournalHead)
      → IsQuiet (validate_exact_existing x codec store name bytes head)
  unfolding validate_exact_existing
  IsQuiet-validate_exact_existing name bytes head =
      IsQuiet->>= _ _ (IsQuiet-validate_exact_record name bytes head) λ _. IsQuiet-sync_root

  pub IsQuiet-validate_cached_record :
      (head : SignedJournalHead) → IsQuiet (validate_cached_record x codec store head)
  unfolding validate_cached_record
  IsQuiet-validate_cached_record head =
      IsQuiet->>= _ _ (IsQuiet-lift _) λ bytes. IsQuiet-validate_exact_record _ bytes head
