-- ===== src/AuditCheckpoint/Store/Live.antt =====
-- What an accepted append of the checkpoint store has passed.
use bloom_service_runtime.Prelude.{nat_eq, Option, none, ok, ◌≡◌, lookup, ok_or}
use bloom_service_runtime.RpcWire.External.{External}
use bloom_service_runtime.RpcWire.Token.{token_eq}
use bloom_service_runtime.RpcWire.Audit.{SignedJournalHead, head_eq}
use bloom_service_runtime.AuditCheckpoint.Record.{
  CheckpointHeadMetadata, panicked, head_metadata, malformed,
}
use bloom_service_runtime.AuditCheckpoint.Keys.{verify_live_head}
use bloom_service_runtime.AuditCheckpoint.Disk.{World, lift, annotate, stamp_eq}
use bloom_service_runtime.AuditCheckpoint.Disk.Honest.{>>=-succeeds}
use bloom_service_runtime.AuditCheckpoint.Entries.{RecordCodec, Store}
use bloom_service_runtime.AuditCheckpoint.Store.{
  lock_directory, validate_latest, reconciled_latest, decide, append_locked, append_diagnosed,
  failure,
}
use bloom_service_runtime.AuditCheckpoint.Record.{CheckpointDecision}
use bloom_service_runtime.AuditCheckpoint.Store.Published.{annotate_ok}
use bloom_service_runtime.AuditCheckpoint.Store.Kept.{reconciled_latest-reads}
use bloom_service_runtime.AuditCheckpoint.Store.Accepted.{locked_ok}
use bloom_service_runtime.AuditCheckpoint.Keys.Signed.{IsLiveHead, verify_live_head_iff}

module _ (x : External) (codec : RecordCodec) (store : Store x) where
  -- The world in which the decision on a head is made.
  abbrev pub at_decision : SignedJournalHead → World → World
  at_decision head w = (reconciled_latest x codec store head.service_id (lock_directory w).1).1

  pub append_diagnosed_decides :
      (head : SignedJournalHead) (w : World) (d : CheckpointDecision)
      → (append_diagnosed x codec store head w).0 ≡ ok d
      → (attempted : CheckpointHeadMetadata) × (latest : Option SignedJournalHead) × (latest
          ≡ lookup head.service_id (at_decision head w).cache.latest)
        × ((decide x codec store attempted head latest (at_decision head w)).0 ≡ ok d)
  unfolding append_diagnosed append_locked
  append_diagnosed_decides head w d h =
      let (attempted, _, h1, _) = >>=-succeeds (lift (ok_or (head_metadata head) panicked)) _ w h in
      let f = failure x codec store attempted none in
      let (h2, _) =
        locked_ok x codec store (f malformed) (append_locked x codec store attempted head) w h1 in
      let (_, a, h3, _) = >>=-succeeds (annotate f lock_directory) _ w h2 in
      let v = (lock_directory w).1 in
      let reconcile = reconciled_latest x codec store head.service_id in
      let (latest, b, h4, _) = >>=-succeeds (annotate f reconcile) _ v h3 in
      (
        attempted,
        latest,
        reconciled_latest-reads x codec store head.service_id v latest
            (annotate_ok f reconcile v b),
        h4,
      )

  -- If an append of a head is accepted, whatever the schedule, then the service of the head is
  -- pinned, its key is the live key of that service, and its signature of 64 bytes verifies under
  -- that key over its message. A historical key appends nothing.
  pub append_requires-IsLiveHead :
      (head : SignedJournalHead) (w : World) (d : CheckpointDecision)
      → (append_diagnosed x codec store head w).0 ≡ ok d
      → IsLiveHead x store.peer_keys head
  unfolding decide
  append_requires-IsLiveHead head w d h =
      let (attempted, latest, read, decided) = append_diagnosed_decides head w d h in
      let f = failure x codec store attempted latest in
      let v = at_decision head w in
      let validate = validate_latest x codec store latest in
      let check = lift (verify_live_head x store.peer_keys head) in
      let (_, _, h1, _) =
        >>=-succeeds (annotate (failure x codec store attempted none) validate) _ v decided in
      let (_, c, _, _) = >>=-succeeds (annotate f check) _ (validate v).1 h1 in
      (verify_live_head_iff x store.peer_keys head).0 (annotate_ok f check (validate v).1 c)
