-- ===== src/AuditCheckpoint/Publish.antt =====
-- `prepare_publication`, `publish_prepared` and `finalize_publication` of the checkpoint store.
pub mod Quiet
use bloom_service_runtime.Prelude.{
  Result, ok, err, ℕ, Bytes, not, reject_if, nat_eq, insert, if◌then◌else◌,
}
use bloom_service_runtime.RpcWire.External.{External}
use bloom_service_runtime.RpcWire.Token.{token_eq}
use bloom_service_runtime.RpcWire.Audit.{SignedJournalHead, head_eq}
use bloom_service_runtime.AuditCheckpoint.Record.{
  Stop, CheckpointError, AppendOutcome, failed, invalid_root, checkpoint_filename,
}
use bloom_service_runtime.AuditCheckpoint.Entries.{RecordCodec, Store, record_bytes}
use bloom_service_runtime.AuditCheckpoint.Scan.{
  root_stamp, scan_records, replace_cached_state, validate_exact_record, validate_exact_existing,
}
use bloom_service_runtime.AuditCheckpoint.Disk.{
  World, Action, RootStamp, ◌>>=◌, ◌>>◌, pure, lift, get_cache, put_cache, next_counter, sync_root,
  create_temporary, write_temporary, remove_temporary, discard_temporary, hard_link, stamp_eq,
}

pub data Publication : Type 0 where
  published already_present : Publication

-- The number of the temporary file, the name in the root, and the contents.
pub record PreparedPublication : Type 0 where
  pub temporary : ℕ
  pub path : Bytes
  pub bytes : Bytes

-- The `Drop` of a prepared publication, where it goes out of scope.
abbrev pub dropping {ℓ} : {E : Type ℓ} {A : Type 0} → ℕ → Action E A → Action E A
dropping {E = E} n m w = let (r, w') = m w in (r, (discard_temporary {E = E} n w').1)

-- A failure to write removes the temporary file.
abbrev pub keep_or_remove :
    ℕ
    → Result (Unit {0}) (Stop CheckpointError) × World
    → Result (Unit {0}) (Stop CheckpointError) × World
keep_or_remove n (ok u, w) = (ok u, w)
keep_or_remove n (err e, w) = (err e, (discard_temporary {E = CheckpointError} n w).1)

module _ (x : External) (codec : RecordCodec) (store : Store x) where
  unfoldable pub write_or_remove : ℕ → Bytes → Action CheckpointError (Unit {0})
  unfolding write_temporary
  write_or_remove n bytes w = keep_or_remove n (write_temporary n bytes w)

  unfoldable pub prepare_publication :
      SignedJournalHead → Action CheckpointError PreparedPublication
  unfolding record_bytes create_temporary write_or_remove
  prepare_publication peer_head = do
    bytes ← lift (record_bytes x codec store peer_head)
    lift (reject_if (not store.has_parent) (failed invalid_root))
    temporary ← next_counter
    create_temporary temporary
    write_or_remove temporary bytes
    pure (record { temporary = temporary; path = checkpoint_filename x peer_head; bytes = bytes })

  unfoldable pub publish_prepared :
      PreparedPublication → SignedJournalHead → Action CheckpointError Publication
  unfolding hard_link remove_temporary sync_root validate_exact_existing
  publish_prepared prepared peer_head = do
    link_made ← hard_link prepared.temporary prepared.path
    (if link_made
        then remove_temporary prepared.temporary >> sync_root >> pure published
        else validate_exact_existing x codec store prepared.path prepared.bytes peer_head
          >> pure Publication.already_present)

  unfoldable pub rescan : Action CheckpointError (Unit {0})
  unfolding scan_records replace_cached_state
  rescan = do
    scanned ← scan_records x codec store
    replace_cached_state x codec store scanned.records scanned.root_stamp

  unfoldable pub retain : SignedJournalHead → RootStamp → Action CheckpointError (Unit {0})
  unfolding insert
  retain peer_head stamp = do
    state ← get_cache
    put_cache
        (record { root_stamp = stamp; latest = insert peer_head.service_id peer_head state.latest })

  unfoldable pub finalize_publication :
      SignedJournalHead → PreparedPublication → Publication → Action CheckpointError AppendOutcome
  unfolding rescan retain
  finalize_publication peer_head prepared Publication.already_present =
      rescan >> pure AppendOutcome.already_present
  finalize_publication peer_head prepared published = do
    validate_exact_record x codec store prepared.path prepared.bytes peer_head
    stamp ← root_stamp x codec store
    retain peer_head stamp
    pure AppendOutcome.appended
