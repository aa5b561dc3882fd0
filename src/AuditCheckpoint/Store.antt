-- ===== src/AuditCheckpoint/Store.antt =====
-- `CheckpointStore`: the append of a peer's head, and the latest head of a service.
pub mod Retained
pub mod Published
pub mod Kept
pub mod Recorded
pub mod Accepted
pub mod Live
pub mod Latest
pub mod Runs
use bloom_service_runtime.Prelude.{
  Bool, true, false, not, ◌&&◌, Option, none, some, Result, ok, err, ok_or, reject_if, ◌==◌, ◌!=◌,
  nat_eq, lookup, if◌then◌else◌,
}
use Prim.Native.Nat.{Ordering, compare}
use bloom_service_runtime.RpcWire.External.{External}
use bloom_service_runtime.RpcWire.Token.{Token, token_eq}
use bloom_service_runtime.RpcWire.Audit.{SignedJournalHead, head_eq}
use bloom_service_runtime.AuditCheckpoint.Record.{
  CheckpointError, CheckpointHeadMetadata, CheckpointDecision, CheckpointDecisionOutcome,
  CheckpointAppendError, AppendOutcome, Stop, failed, panicked, malformed, sequence_conflict,
  sequence_rollback, checkpoint_error_outcome, head_metadata, sequence_of, outcome_of,
}
use bloom_service_runtime.AuditCheckpoint.Keys.{
  verify_live_head, valid_handover, valid_equal_sequence_handover,
}
use bloom_service_runtime.AuditCheckpoint.Entries.{RecordCodec, Store}
use bloom_service_runtime.AuditCheckpoint.Scan.{
  root_stamp, scan_records, replace_cached_state, last_of, validate_cached_record,
}
use bloom_service_runtime.AuditCheckpoint.Publish.{
  PreparedPublication, dropping, prepare_publication, publish_prepared, rescan,
  finalize_publication,
}
use bloom_service_runtime.AuditCheckpoint.Disk.{
  Action, World, ◌>>=◌, ◌>>◌, pure, lift, annotate, get_cache, syscall, fixed, stamp_eq,
}

-- A panic while `operation` is held poisons it.
abbrev pub poison {ℓ κ} :
    {E : Type ℓ} {A : Type κ} → Result A (Stop E) × World → Result A (Stop E) × World
poison (ok a, w) = (ok a, w)
poison (err (failed e), w) = (err (failed e), w)
poison (err panicked, w) = (err panicked, record w { poisoned = true })

-- `self.operation.lock()`, its failure, and what runs under it.
abbrev pub locked {ℓ κ} : {E : Type ℓ} {A : Type κ} → E → Action E A → Action E A
locked refusal m w = if w.poisoned then (err (failed refusal), w) else poison (m w)

-- `flock`: a call that may fail or wait for another process.
unfoldable pub lock_directory : Action CheckpointError (Unit {0})
unfolding syscall
lock_directory = syscall (fixed tt)

module _ (x : External) (codec : RecordCodec) (store : Store x) where
  -- The head against the one that is retained.
  unfoldable pub check_sequence :
      SignedJournalHead → SignedJournalHead → Result (Unit {0}) (Stop CheckpointError)
  unfolding valid_handover valid_equal_sequence_handover
  check_sequence latest peer_head =
      if latest.key_id != peer_head.key_id
        && not (valid_handover x store.handovers latest peer_head)
      then err (failed sequence_conflict)
      else elim (compare (sequence_of peer_head) (sequence_of latest)) [
        | Ordering.lt ↦ err (failed sequence_rollback)
        | Ordering.eq ↦
            reject_if (not (valid_equal_sequence_handover x store.handovers latest peer_head))
              (failed sequence_conflict)
        | Ordering.gt ↦ ok tt
      ]

  -- The latest head of a service, from the cache if the root has the stamp that the cache has.
  unfoldable pub reconciled_latest : Token → Action CheckpointError (Option SignedJournalHead)
  unfolding root_stamp rescan lookup
  reconciled_latest service_id = do
    stamp ← root_stamp x codec store
    state ← get_cache
    (if state.root_stamp == stamp then pure tt else rescan x codec store)
    current ← get_cache
    pure (lookup service_id current.latest)

  abbrev pub validate_latest : Option SignedJournalHead → Action CheckpointError (Unit {0})
  validate_latest none = pure tt
  validate_latest (some head) = validate_cached_record x codec store head

  abbrev pub check_latest :
      Option SignedJournalHead → SignedJournalHead → Result (Unit {0}) (Stop CheckpointError)
  check_latest none peer_head = ok tt
  check_latest (some latest) peer_head = check_sequence latest peer_head

  abbrev pub is_latest : Option SignedJournalHead → SignedJournalHead → Bool
  is_latest none peer_head = false
  is_latest (some latest) peer_head = latest == peer_head

  -- `retained.map(CheckpointHeadMetadata::from)`. A head that is given here was verified before,
  -- so that its sequence can be read.
  abbrev metadata_of : Option SignedJournalHead → Option CheckpointHeadMetadata
  metadata_of none = none
  metadata_of (some head) = head_metadata head

  unfoldable pub decision :
      CheckpointHeadMetadata
      → Option SignedJournalHead
      → CheckpointDecisionOutcome
      → CheckpointDecision
  decision attempted retained outcome = record {
    recipient_service_id = some store.recipient_service_id;
    attempted = attempted;
    retained = metadata_of retained;
    outcome = outcome;
  }

  unfoldable pub failure :
      CheckpointHeadMetadata → Option SignedJournalHead → CheckpointError → CheckpointAppendError
  unfolding decision
  failure attempted retained source = record {
    source = source;
    decision = decision attempted retained (checkpoint_error_outcome source);
  }

  -- The end of `append_diagnosed`, from a prepared publication on.
  unfoldable pub publish_and_finalize :
      CheckpointHeadMetadata
      → SignedJournalHead
      → PreparedPublication
      → Action CheckpointAppendError CheckpointDecision
  unfolding publish_prepared finalize_publication decision
  publish_and_finalize attempted peer_head prepared = do
    publication ←
        annotate (failure attempted none) (publish_prepared x codec store prepared peer_head)
    outcome ←
        annotate (failure attempted none)
          (finalize_publication x codec store peer_head prepared publication)
    pure (decision attempted (some peer_head) (outcome_of outcome))

  -- The part of `append_diagnosed` that publishes a head.
  unfoldable pub publish :
      CheckpointHeadMetadata
      → Option SignedJournalHead
      → SignedJournalHead
      → Action CheckpointAppendError CheckpointDecision
  unfolding prepare_publication publish_and_finalize
  publish attempted latest peer_head = do
    prepared ← annotate (failure attempted latest) (prepare_publication x codec store peer_head)
    dropping prepared.temporary (publish_and_finalize attempted peer_head prepared)

  -- The decision on a head, from the retained one on.
  unfoldable pub decide :
      CheckpointHeadMetadata
      → SignedJournalHead
      → Option SignedJournalHead
      → Action CheckpointAppendError CheckpointDecision
  unfolding verify_live_head check_sequence publish decision
  decide attempted peer_head latest = do
    annotate (failure attempted none) (validate_latest latest)
    annotate (failure attempted latest) (lift (verify_live_head x store.peer_keys peer_head))
    (if is_latest latest peer_head
        then pure (decision attempted latest CheckpointDecisionOutcome.already_present)
        else annotate (failure attempted latest) (lift (check_latest latest peer_head))
          >> publish attempted latest peer_head)

  -- What runs under both locks.
  unfoldable pub append_locked :
      CheckpointHeadMetadata → SignedJournalHead → Action CheckpointAppendError CheckpointDecision
  unfolding lock_directory reconciled_latest decide
  append_locked attempted peer_head = do
    annotate (failure attempted none) lock_directory
    latest ← annotate (failure attempted none) (reconciled_latest peer_head.service_id)
    decide attempted peer_head latest

  unfoldable pub append_diagnosed :
      SignedJournalHead → Action CheckpointAppendError CheckpointDecision
  unfolding append_locked
  append_diagnosed peer_head = do
    attempted ← lift (ok_or (head_metadata peer_head) panicked)
    locked (failure attempted none malformed) (append_locked attempted peer_head)

  -- `none` is the `unreachable!` of `append`.
  abbrev success : CheckpointDecisionOutcome → Result AppendOutcome (Stop CheckpointError)
  success CheckpointDecisionOutcome.appended = ok AppendOutcome.appended
  success CheckpointDecisionOutcome.already_present = ok AppendOutcome.already_present
  success _ = err panicked

  unfoldable pub append : SignedJournalHead → Action CheckpointError AppendOutcome
  unfolding append_diagnosed
  append peer_head = do
    made ← annotate (λ (f : CheckpointAppendError). f.source) (append_diagnosed peer_head)
    lift (success made.outcome)

  unfoldable pub latest_locked : Token → Action CheckpointError (Option SignedJournalHead)
  unfolding lock_directory root_stamp scan_records replace_cached_state lookup last_of
  latest_locked service_id = do
    lock_directory
    stamp ← root_stamp x codec store
    state ← get_cache
    (if state.root_stamp == stamp
        then validate_latest (lookup service_id state.latest)
          >> pure (lookup service_id state.latest)
        else do
          scanned ← scan_records x codec store
          replace_cached_state x codec store scanned.records scanned.root_stamp
          pure (last_of service_id scanned.records))

  unfoldable pub latest : Token → Action CheckpointError (Option SignedJournalHead)
  unfolding latest_locked
  latest service_id = locked malformed (latest_locked service_id)
