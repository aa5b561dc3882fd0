-- ===== src/AuditCheckpoint/Store/Accepted.antt =====
-- `append_diagnosed` accepts a head only if it retains it; the whole operation.
use bloom_service_runtime.Prelude.{
  nat_eq, Bool, true, false, Option, none, some, Result, ok, err, ◌≡◌, refl, sym, subst, ◌∙◌, ap,
  arith, lookup, ◌==◌, if◌then◌else◌, ok_or,
}
use bloom_service_runtime.RpcWire.External.{External}
use bloom_service_runtime.RpcWire.Token.{Token, token_eq}
use bloom_service_runtime.RpcWire.Audit.{SignedJournalHead, head_eq}
use bloom_service_runtime.AuditCheckpoint.Record.{
  CheckpointError, CheckpointHeadMetadata, CheckpointAppendError, CheckpointDecisionOutcome, Stop,
  failed, panicked, sequence_of, head_metadata, malformed,
}
use bloom_service_runtime.AuditCheckpoint.Keys.{verify_live_head}
use bloom_service_runtime.AuditCheckpoint.Disk.{
  Action, World, CheckpointState, ◌>>◌, pure, lift, annotate, stamp_eq,
}
use bloom_service_runtime.AuditCheckpoint.Disk.Honest.{IsHonest, >>=-succeeds}
use bloom_service_runtime.AuditCheckpoint.Entries.{RecordCodec, Store}
use bloom_service_runtime.AuditCheckpoint.Scan.{
  root_stamp, scan_records, validate_cached_record, replace_cached_state,
}
use bloom_service_runtime.AuditCheckpoint.Scan.Quiet.{IsQuiet-scan_records, IsQuiet-root_stamp}
use bloom_service_runtime.AuditCheckpoint.Scan.Exact.{HasHead}
use bloom_service_runtime.AuditCheckpoint.Publish.{rescan, prepare_publication}
use bloom_service_runtime.AuditCheckpoint.Publish.Quiet.{IsQuiet-prepare_publication}
use bloom_service_runtime.AuditCheckpoint.Store.{
  lock_directory, locked, poison, check_latest, is_latest, validate_latest, reconciled_latest,
  publish, publish_and_finalize, decide, append_locked, append_diagnosed, failure, decision,
}
use bloom_service_runtime.RpcWire.Audit.{head_beq_iff}
use bloom_service_runtime.AuditCheckpoint.Record.{CheckpointDecision}
use bloom_service_runtime.AuditCheckpoint.Disk.Honest.{
  IsQuiet-StaysHonest, StaysHonest, StaysHonest->>=, StaysHonest-cached,
}
use bloom_service_runtime.Prelude.{if-keeps}
use bloom_service_runtime.AuditCheckpoint.Scan.Exact.{validate_cached_record-HasHead}
use bloom_service_runtime.AuditCheckpoint.Store.Published.{
  annotate_ok, IsQuiet-lock_directory, IsQuiet-validate_latest, dropping-IsGood,
}
use bloom_service_runtime.AuditCheckpoint.Store.Kept.{reconciled_latest-reads}
use bloom_service_runtime.AuditCheckpoint.Store.Recorded.{Recorded, publish_and_finalize-Recorded}

module _ (x : External) (codec : RecordCodec) (store : Store x) where
  publish-Recorded :
      (attempted : CheckpointHeadMetadata) (latest : Option SignedJournalHead)
      (head : SignedJournalHead) (w : World) (d : CheckpointDecision)
      → IsHonest w.schedule
      → (publish x codec store attempted latest head w).0 ≡ ok d
      → Recorded x codec store head (publish x codec store attempted latest head w).1
  unfolding publish
  publish-Recorded attempted latest head w d honest h =
      let prepare = prepare_publication x codec store head in
      let (prepared, a, h1, w1) =
        >>=-succeeds (annotate (failure x codec store attempted latest) prepare) _ w h in
      let on = (IsQuiet-prepare_publication x codec store head).onward w honest in
      let finish = publish_and_finalize x codec store attempted head prepared in
      subst (Recorded x codec store head) (sym w1) (
        dropping-IsGood x codec store head.service_id (sequence_of head) prepared.temporary finish
          (prepare w).1
          (publish_and_finalize-Recorded x codec store attempted head prepared (prepare w).1 d
            on.honest h1))

  -- The retained head, where it is the one that is appended.
  present-Recorded :
      (head : SignedJournalHead) (latest : Option SignedJournalHead) (w : World)
      → IsHonest w.schedule
      → latest ≡ lookup head.service_id w.cache.latest
      → (validate_latest x codec store latest w).0 ≡ ok tt
      → is_latest x codec store latest head ≡ true
      → Recorded x codec store head (validate_latest x codec store latest w).1
  present-Recorded head none w honest read h same = cc
  present-Recorded head (some latest) w honest read h same =
      let on = (IsQuiet-validate_latest x codec store (some latest)).onward w honest in
      let eq : latest ≡ head = (head_beq_iff latest head).0 same in
      let v = (validate_cached_record x codec store latest w).1 in
      record {
        honest = on.honest;
        retained = record {
          head = head;
          found =
              ap (λ (c : CheckpointState). lookup head.service_id c.latest) on.cached
              ∙ sym read
              ∙ ap (λ (k : SignedJournalHead). some k) eq;
          reached = omega arith;
          of_service = refl;
          on_disk =
              subst (HasHead x codec v.disk) eq
                (validate_cached_record-HasHead x codec store latest w h);
        };
      }

  decide-Recorded :
      (attempted : CheckpointHeadMetadata) (head : SignedJournalHead)
      (latest : Option SignedJournalHead) (w : World) (d : CheckpointDecision)
      → IsHonest w.schedule
      → latest ≡ lookup head.service_id w.cache.latest
      → (decide x codec store attempted head latest w).0 ≡ ok d
      → Recorded x codec store head (decide x codec store attempted head latest w).1
  unfolding decide
  decide-Recorded attempted head latest w d honest read h =
      let validate = validate_latest x codec store latest in
      let on = (IsQuiet-validate_latest x codec store latest).onward w honest in
      let v = (validate w).1 in
      let f = failure x codec store attempted latest in
      let (_, a, h1, w1) =
        >>=-succeeds (annotate (failure x codec store attempted none) validate) _ w h in
      let valid = annotate_ok (failure x codec store attempted none) validate w a in
      let (_, b, h2, w2) =
        >>=-succeeds (annotate f (lift (verify_live_head x store.peer_keys head))) _ v h1 in
      subst (Recorded x codec store head) (sym (w1 ∙ w2)) (
        branch (is_latest x codec store latest head) v on.honest
          (λ same. present-Recorded head latest w honest read valid same) h2)
    where
      present : Action CheckpointAppendError CheckpointDecision
      present =
          pure {E = CheckpointAppendError}
            (decision x codec store attempted latest CheckpointDecisionOutcome.already_present)

      absent : Action CheckpointAppendError CheckpointDecision
      absent =
          annotate (failure x codec store attempted latest)
            (lift (check_latest x codec store latest head))
          >> publish x codec store attempted latest head

      branch :
          (b : Bool) (v : World)
          → IsHonest v.schedule
          → (b ≡ true → Recorded x codec store head v)
          → ((if b then present else absent) v).0 ≡ ok d
          → Recorded x codec store head ((if b then present else absent) v).1
      branch true v ok_v there k = there refl
      branch false v ok_v there k =
          let (_, c, k1, v1) =
            >>=-succeeds
              (annotate (failure x codec store attempted latest)
                (lift (check_latest x codec store latest head)))
              _ v k in
          subst (Recorded x codec store head) (sym v1)
            (publish-Recorded attempted latest head v d ok_v k1)

  StaysHonest-rescan : StaysHonest (rescan x codec store)
  unfolding rescan replace_cached_state
  StaysHonest-rescan =
      StaysHonest->>= _ _
        (IsQuiet-StaysHonest (scan_records x codec store) (IsQuiet-scan_records x codec store))
        λ s. StaysHonest-cached _ (λ w. refl)

  StaysHonest-reconciled_latest :
      (service : Token) → StaysHonest (reconciled_latest x codec store service)
  unfolding reconciled_latest
  StaysHonest-reconciled_latest service =
      StaysHonest->>= _ _
        (IsQuiet-StaysHonest (root_stamp x codec store) (IsQuiet-root_stamp x codec store))
        λ stamp. record {
          stays = λ v k.
              (StaysHonest->>=
                  (if v.cache.root_stamp == stamp
                    then pure {E = CheckpointError} tt
                    else rescan x codec store)
                  (λ _ u. (ok (lookup service u.cache.latest), u))
                  (if-keeps StaysHonest (v.cache.root_stamp == stamp)
                    (StaysHonest-cached _ (λ w. refl)) StaysHonest-rescan)
                  (λ _. StaysHonest-cached _ (λ w. refl))).stays
                v k;
        }

  append_locked-Recorded :
      (attempted : CheckpointHeadMetadata) (head : SignedJournalHead) (w : World)
      (d : CheckpointDecision)
      → IsHonest w.schedule
      → (append_locked x codec store attempted head w).0 ≡ ok d
      → Recorded x codec store head (append_locked x codec store attempted head w).1
  unfolding append_locked
  append_locked-Recorded attempted head w d honest h =
      let f = failure x codec store attempted none in
      let reconcile = reconciled_latest x codec store head.service_id in
      let (_, a, h1, w1) = >>=-succeeds (annotate f lock_directory) _ w h in
      let v = (lock_directory w).1 in
      let on = IsQuiet-lock_directory.onward w honest in
      let (latest, b, h2, w2) = >>=-succeeds (annotate f reconcile) _ v h1 in
      let read =
        reconciled_latest-reads x codec store head.service_id v latest
          (annotate_ok f reconcile v b) in
      subst (Recorded x codec store head) (sym (w1 ∙ w2)) (
        decide-Recorded attempted head latest (reconcile v).1 d
          ((StaysHonest-reconciled_latest head.service_id).stays v on.honest) read h2)

  -- Under the lock: it was not poisoned, and the action succeeded.
  pub locked_ok :
      {E A : Type 0} (refusal : E) (m : Action E A) (w : World) {a : A}
      → (locked refusal m w).0 ≡ ok a
      → ((m w).0 ≡ ok a) × ((locked refusal m w).1 ≡ (m w).1)
  locked_ok {E} {A} refusal m w {a} h = either w.poisoned h
    where
      poison_ok :
          (p : Result A (Stop E) × World)
          → (poison p).0 ≡ ok a
          → (p.0 ≡ ok a) × ((poison p).1 ≡ p.1)
      poison_ok (ok b, v) k = (k, refl)
      poison_ok (err (failed e), v) k = cc
      poison_ok (err panicked, v) k = cc

      either :
          (b : Bool)
          → (if b then (err (failed refusal), w) else poison (m w)).0 ≡ ok a
          → ((m w).0 ≡ ok a) × ((if b then (err (failed refusal), w) else poison (m w)).1 ≡ (m w).1)
      either true k = cc
      either false k = poison_ok (m w) k

  pub append_diagnosed-Recorded :
      (head : SignedJournalHead) (w : World) (d : CheckpointDecision)
      → IsHonest w.schedule
      → (append_diagnosed x codec store head w).0 ≡ ok d
      → Recorded x codec store head (append_diagnosed x codec store head w).1
  unfolding append_diagnosed
  append_diagnosed-Recorded head w d honest h =
      let (attempted, a, h1, w1) =
        >>=-succeeds (lift (ok_or (head_metadata head) panicked)) _ w h in
      let (b, w2) =
        locked_ok (failure x codec store attempted none malformed)
          (append_locked x codec store attempted head) w h1 in
      subst (Recorded x codec store head) (sym (w1 ∙ w2))
        (append_locked-Recorded attempted head w d honest b)
