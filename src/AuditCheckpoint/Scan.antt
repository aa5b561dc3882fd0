-- ===== src/AuditCheckpoint/Scan.antt =====
-- `scan_records` of the checkpoint store, the checks of one file, and the latest heads of a scan.
pub mod Quiet
pub mod Collected
pub mod Complete
pub mod Found
pub mod Exact
use bloom_service_runtime.Prelude.{
  ℕ, zero, suc, Bytes, Option, none, some, List, [], ◌∷◌, err, reject_if, ◌==◌, insert,
  if◌then◌else◌,
}
use bloom_service_runtime.RpcWire.External.{External}
use bloom_service_runtime.RpcWire.Token.{Token, token_eq}
use bloom_service_runtime.RpcWire.Audit.{SignedJournalHead}
use bloom_service_runtime.AuditCheckpoint.Record.{
  CheckpointError, CheckpointRecord, failed, malformed, checkpoint_filename,
}
use bloom_service_runtime.AuditCheckpoint.Chain.{Latest, verify_record_chains}
use bloom_service_runtime.AuditCheckpoint.Entries.{
  RecordCodec, Store, validate_root, stamp_of, unsafe_entry, record_bytes, check_scanned,
  check_exact,
}
use bloom_service_runtime.AuditCheckpoint.Disk.{
  Action, RootStamp, ◌>>=◌, ◌>>◌, pure, lift, put_cache, root_metadata, read_dir, read_entry,
  sync_root, stamp_eq,
}

pub record ScannedRecords : Type 0 where
  pub records : List CheckpointRecord
  pub root_stamp : RootStamp

-- `collect` of the records into a map: the last one of a service stays.
unfoldable pub collect : Latest → List CheckpointRecord → Latest
unfolding insert
collect latest [] = latest
collect latest (r ∷ records) = collect (insert r.peer_head.service_id r.peer_head latest) records

-- `.rev().find(...)`: the head of the last record of the service.
unfoldable pub last_of : Token → List CheckpointRecord → Option SignedJournalHead
last_of service_id [] = none
last_of service_id (r ∷ records) = elim (last_of service_id records) [
  | some head ↦ some head
  | none ↦ if r.peer_head.service_id == service_id then some r.peer_head else none
]

module _ (x : External) (codec : RecordCodec) (store : Store x) where
  unfoldable pub root_stamp : Action CheckpointError RootStamp
  unfolding root_metadata validate_root
  root_stamp = do
    validated ← root_metadata
    lift (validate_root validated store.expected_uid)
    metadata ← root_metadata
    pure (stamp_of metadata)

  -- One entry of the directory: its metadata and its bytes are two calls.
  unfoldable pub scan_entry : Bytes → Action CheckpointError CheckpointRecord
  unfolding read_entry check_scanned
  scan_entry name = do
    entry ← read_entry name
    lift (reject_if (unsafe_entry entry) (failed malformed))
    file ← read_entry name
    lift (check_scanned x codec store name file.contents)

  unfoldable pub scan_entries : List Bytes → Action CheckpointError (List CheckpointRecord)
  unfolding scan_entry
  scan_entries [] = pure []
  scan_entries (name ∷ names) = do
    r ← scan_entry name
    records ← scan_entries names
    pure (r ∷ records)

  -- One attempt: the sorted records, with the stamps before and after.
  unfoldable pub scan_once : Action CheckpointError (RootStamp × ScannedRecords)
  unfolding root_stamp read_dir scan_entries verify_record_chains
  scan_once = do
    before ← root_stamp
    names ← read_dir
    records ← scan_entries names
    sorted ← lift (verify_record_chains x store.handovers records)
    after ← root_stamp
    pure (before, record { records = sorted; root_stamp = after })

  scan_attempts : ℕ → Action CheckpointError ScannedRecords
  unfolding scan_once
  scan_attempts zero = lift (err (failed malformed))
  scan_attempts (suc attempts) =
      let again = scan_attempts attempts in
      do
        (before, scanned) ← scan_once
        (if before == scanned.root_stamp then pure scanned else again)

  -- `for _ in 0..3`
  unfoldable pub scan_records : Action CheckpointError ScannedRecords
  unfolding scan_attempts
  scan_records = scan_attempts 3

  unfoldable pub replace_cached_state :
      List CheckpointRecord → RootStamp → Action CheckpointError (Unit {0})
  unfolding collect
  replace_cached_state records stamp =
      put_cache (record { root_stamp = stamp; latest = collect [] records })

  unfoldable pub validate_exact_record :
      Bytes → Bytes → SignedJournalHead → Action CheckpointError (Unit {0})
  unfolding read_entry check_exact
  validate_exact_record name expected_bytes expected_head = do
    entry ← read_entry name
    lift (reject_if (unsafe_entry entry) (failed malformed))
    file ← read_entry name
    lift (check_exact x codec store name expected_bytes file.contents expected_head)

  unfoldable pub validate_exact_existing :
      Bytes → Bytes → SignedJournalHead → Action CheckpointError (Unit {0})
  unfolding validate_exact_record sync_root
  validate_exact_existing name expected_bytes expected_head = do
    validate_exact_record name expected_bytes expected_head
    sync_root

  unfoldable pub validate_cached_record : SignedJournalHead → Action CheckpointError (Unit {0})
  unfolding record_bytes validate_exact_record
  validate_cached_record head = do
    expected_bytes ← lift (record_bytes x codec store head)
    validate_exact_record (checkpoint_filename x head) expected_bytes head
