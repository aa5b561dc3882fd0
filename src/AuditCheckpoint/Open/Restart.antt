-- ===== src/AuditCheckpoint/Open/Restart.antt =====
-- A checkpoint store that is opened on a root with the record of a head retains that head.
use bloom_service_runtime.Prelude.{ℕ, ◌≤◌, Bool, List, [], ok, ◌≡◌, sym, subst, ◌∙◌}
use bloom_service_runtime.RpcWire.External.{External}
use bloom_service_runtime.RpcWire.Token.{Token}
use bloom_service_runtime.RpcWire.Audit.{SignedJournalHead}
use bloom_service_runtime.AuditCheckpoint.Record.{CheckpointError, CheckpointDecision, sequence_of}
use bloom_service_runtime.AuditCheckpoint.Keys.{ApplicationKeyHandover, PinnedAuditKey}
use bloom_service_runtime.AuditCheckpoint.Disk.{
  Action, Disk, World, lift, syscall, fixed, root_metadata,
}
use bloom_service_runtime.AuditCheckpoint.Disk.Honest.{
  Grows-refl, IsHonest, IsQuiet-syscall, >>=-succeeds,
}
use bloom_service_runtime.AuditCheckpoint.Entries.{RecordCodec, Store, validate_root, pinned_store}
use bloom_service_runtime.AuditCheckpoint.Publish.{rescan}
use bloom_service_runtime.AuditCheckpoint.Scan.{root_stamp, scan_records, replace_cached_state}
use bloom_service_runtime.AuditCheckpoint.Scan.Quiet.{IsQuiet-root_metadata, IsQuiet-root_stamp}
use bloom_service_runtime.AuditCheckpoint.Scan.Exact.{HasHead}
use bloom_service_runtime.AuditCheckpoint.Scan.Found.{scan_records-Found}
use bloom_service_runtime.AuditCheckpoint.Store.{append_diagnosed}
use bloom_service_runtime.AuditCheckpoint.Store.Retained.{
  IsRetained, Found-IsRetained, Grows-HasHead,
}
use bloom_service_runtime.AuditCheckpoint.Store.Runs.{Operation, run, accepted_head-IsRetained}
use bloom_service_runtime.AuditCheckpoint.Open.{load_cache, open_with_history}

module _ (x : External) (codec : RecordCodec) where
  load_cache-IsRetained :
      (store : Store x) (head : SignedJournalHead) (service_id : Token) (n : ℕ) (w : World)
      (store' : Store x)
      → IsHonest w.schedule
      → HasHead x codec w.disk head
      → head.service_id ≡ service_id
      → n ≤ sequence_of head
      → (load_cache x codec store w).0 ≡ ok store'
      → IsRetained x codec service_id n (load_cache x codec store w).1
  unfolding load_cache rescan replace_cached_state
  load_cache-IsRetained store head service_id n w store' honest held service reached h =
      let (stamp, _, h1, w1) = >>=-succeeds (root_stamp x codec store) _ w h in
      let on1 = (IsQuiet-root_stamp x codec store).onward w honest in
      let v1 = (root_stamp x codec store w).1 in
      let opened : Action CheckpointError (Unit {0}) = syscall (fixed tt) in
      let (_, _, h2, w2) = >>=-succeeds opened _ v1 h1 in
      let on2 = (IsQuiet-syscall (fixed tt) Grows-refl).onward v1 on1.honest in
      let v2 = (opened v1).1 in
      let v3 : World = record v2 { cache = record { root_stamp = stamp; latest = [] } } in
      let (_, e, _, w3) = >>=-succeeds (rescan x codec store) _ v3 h2 in
      let (scanned, f, _, w4) = >>=-succeeds (scan_records x codec store) _ v3 e in
      subst (IsRetained x codec service_id n) (sym (w1 ∙ w2 ∙ w3 ∙ w4)) (
        Found-IsRetained x codec service_id n store v3 (scan_records x codec store v3).1 scanned
          head (scan_records-Found x codec store v3 scanned on2.honest f)
          (Grows-HasHead on2.grown (Grows-HasHead on1.grown held)) service reached
          scanned.root_stamp)

  open_with_history-IsRetained :
      (head : SignedJournalHead) (service_id : Token) (n : ℕ) (has_parent : Bool) (uid : ℕ)
      (recipient : Token) (current historical : List (PinnedAuditKey x))
      (handovers : List ApplicationKeyHandover) (w : World) (store : Store x)
      → IsHonest w.schedule
      → HasHead x codec w.disk head
      → head.service_id ≡ service_id
      → n ≤ sequence_of head
      → (open_with_history x codec has_parent uid recipient current historical handovers w).0
        ≡ ok store
      → IsRetained x codec service_id n
          (open_with_history x codec has_parent uid recipient current historical handovers w).1
  unfolding open_with_history
  open_with_history-IsRetained head service_id n has_parent uid recipient current historical
        handovers w store honest held service reached h =
      let (metadata, _, h1, w1) = >>=-succeeds root_metadata _ w h in
      let on = IsQuiet-root_metadata.onward w honest in
      let v = (root_metadata w).1 in
      let (_, _, h2, w2) = >>=-succeeds (lift (validate_root metadata uid)) _ v h1 in
      let (opened, _, h3, w3) =
        >>=-succeeds (lift (pinned_store x has_parent uid recipient current historical handovers)) _
          v h2 in
      subst (IsRetained x codec service_id n) (sym (w1 ∙ w2 ∙ w3)) (
        load_cache-IsRetained opened head service_id n v store on.honest
          (Grows-HasHead on.grown held) service reached h3)

  -- Let an append of a head be accepted, and let any calls of the store follow, whichever calls of
  -- the file system fail, and whatever files other processes add, if none changes or removes a
  -- file of the root, then and during what follows. If a store is then opened on the directory that is left, by another process, with any keys and
  -- handovers, and the opening succeeds, then the cache of that store has a head of the service
  -- whose sequence is not lower, and the root holds its record: a restart loses no accepted head.
  pub accepted_head_survives_restart :
      (store : Store x) (head : SignedJournalHead) (w : World) (d : CheckpointDecision)
      (operations : List Operation) (has_parent : Bool) (uid : ℕ) (recipient : Token)
      (current historical : List (PinnedAuditKey x)) (handovers : List ApplicationKeyHandover)
      (fresh : World) (reopened : Store x)
      → IsHonest w.schedule
      → (append_diagnosed x codec store head w).0 ≡ ok d
      → fresh.disk ≡ (run x codec store operations (append_diagnosed x codec store head w).1).disk
      → IsHonest fresh.schedule
      → (open_with_history x codec has_parent uid recipient current historical handovers fresh).0
        ≡ ok reopened
      → IsRetained x codec head.service_id
          (sequence_of head)
          (open_with_history x codec has_parent uid recipient current historical handovers fresh).1
  accepted_head_survives_restart store head w d operations has_parent uid recipient current
        historical handovers fresh reopened honest h same honest' k =
      let kept = accepted_head-IsRetained x codec store head w d operations honest h in
      open_with_history-IsRetained kept.head head.service_id (sequence_of head) has_parent uid
        recipient current historical handovers fresh reopened honest'
        (subst (λ (e : Disk). HasHead x codec e kept.head) (sym same) kept.on_disk) kept.of_service
        kept.reached k
