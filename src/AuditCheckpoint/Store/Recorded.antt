-- ===== src/AuditCheckpoint/Store/Recorded.antt =====
-- A head that `append_diagnosed` accepts is retained: the cache has it, and the root its record.
use bloom_service_runtime.Prelude.{
  nat_eq, Bool, true, false, none, ok, ◌≡◌, refl, sym, subst, ◌∙◌, ap, arith, if◌then◌else◌,
}
use bloom_service_runtime.RpcWire.External.{External}
use bloom_service_runtime.RpcWire.Token.{token_eq}
use bloom_service_runtime.RpcWire.Audit.{SignedJournalHead, head_eq}
use bloom_service_runtime.AuditCheckpoint.Record.{
  CheckpointError, CheckpointHeadMetadata, sequence_of,
}
use bloom_service_runtime.AuditCheckpoint.Disk.{Action, World, ◌>>◌, pure, annotate, stamp_eq}
use bloom_service_runtime.AuditCheckpoint.Disk.Honest.{IsHonest, >>=-succeeds}
use bloom_service_runtime.AuditCheckpoint.Entries.{RecordCodec, Store}
use bloom_service_runtime.AuditCheckpoint.Scan.{
  root_stamp, scan_records, validate_exact_record, replace_cached_state,
}
use bloom_service_runtime.AuditCheckpoint.Scan.Quiet.{
  IsQuiet-scan_records, IsQuiet-root_stamp, IsQuiet-validate_exact_record,
}
use bloom_service_runtime.AuditCheckpoint.Scan.Exact.{HasHead, validate_exact_record-HasHead}
use bloom_service_runtime.AuditCheckpoint.Publish.{
  Publication, published, PreparedPublication, rescan, retain, publish_prepared,
  finalize_publication,
}
use bloom_service_runtime.AuditCheckpoint.Publish.Quiet.{IsQuiet-publish_prepared}
use bloom_service_runtime.AuditCheckpoint.Store.{publish_and_finalize, failure}
use bloom_service_runtime.AuditCheckpoint.Store.Retained.{IsGood, Grows-HasHead}
use bloom_service_runtime.AuditCheckpoint.Record.{CheckpointDecision, AppendOutcome}
use bloom_service_runtime.AuditCheckpoint.Disk.{hard_link, remove_temporary, sync_root}
use bloom_service_runtime.Prelude.{lookup-insert_self}
use bloom_service_runtime.AuditCheckpoint.Scan.{validate_exact_existing}
use bloom_service_runtime.AuditCheckpoint.Scan.Quiet.{IsQuiet-sync_root}
use bloom_service_runtime.AuditCheckpoint.Scan.Found.{scan_records-Found}
use bloom_service_runtime.AuditCheckpoint.Publish.Quiet.{IsQuiet-hard_link}
use bloom_service_runtime.AuditCheckpoint.Store.Retained.{Found-IsRetained}
use bloom_service_runtime.AuditCheckpoint.Store.Published.{annotate_ok}

module _ (x : External) (codec : RecordCodec) (store : Store x) where
  -- The head itself is retained, or a later one of its service.
  abbrev pub Recorded : SignedJournalHead → World → Type 0
  Recorded head = IsGood x codec head.service_id (sequence_of head)

  -- A name that was taken has been checked to hold this head.
  publish_prepared-HasHead :
      (prepared : PreparedPublication) (head : SignedJournalHead) (w : World)
      → IsHonest w.schedule
      → (publish_prepared x codec store prepared head w).0 ≡ ok Publication.already_present
      → HasHead x codec (publish_prepared x codec store prepared head w).1.disk head
  unfolding publish_prepared validate_exact_existing
  publish_prepared-HasHead prepared head w honest h =
      let link = hard_link prepared.temporary prepared.path in
      let (made, a, h1, w1) = >>=-succeeds link _ w h in
      let v = (link w).1 in
      let on = (IsQuiet-hard_link prepared.temporary prepared.path).onward w honest in
      subst (λ (k : World). HasHead x codec k.disk head) (sym w1) (branch made v on.honest h1)
    where
      removed : Action CheckpointError Publication
      removed =
          remove_temporary prepared.temporary >> sync_root >> pure {E = CheckpointError} published

      checked : Action CheckpointError Publication
      checked =
          validate_exact_existing x codec store prepared.path prepared.bytes head
          >> pure {E = CheckpointError} Publication.already_present

      branch :
          (b : Bool) (v : World)
          → IsHonest v.schedule
          → ((if b then removed else checked) v).0 ≡ ok Publication.already_present
          → HasHead x codec ((if b then removed else checked) v).1.disk head
      branch true v honest k =
          let (_, b, k1, _) =
            >>=-succeeds (remove_temporary prepared.temporary >> sync_root) _ v k in
          absurd (cc k1)
      branch false v honest k =
          let validate = validate_exact_record x codec store prepared.path prepared.bytes head in
          let (_, b, k1, w1) =
            >>=-succeeds (validate_exact_existing x codec store prepared.path prepared.bytes head) _
              v k in
          let (_, c, k2, w2) = >>=-succeeds validate (λ _. sync_root) v b in
          let on =
            (IsQuiet-validate_exact_record x codec store prepared.path prepared.bytes head).onward v
              honest in
          subst (λ (k : World). HasHead x codec k.disk head) (sym (w1 ∙ w2))
            (Grows-HasHead (IsQuiet-sync_root.onward (validate v).1 on.honest).grown
              (validate_exact_record-HasHead x codec store prepared.path prepared.bytes head v c))

  rescan-Recorded :
      (head : SignedJournalHead) (w : World)
      → IsHonest w.schedule
      → HasHead x codec w.disk head
      → (rescan x codec store w).0 ≡ ok tt
      → Recorded head (rescan x codec store w).1
  unfolding rescan replace_cached_state
  rescan-Recorded head w honest held h =
      let (scanned, a, h1, w1) = >>=-succeeds (scan_records x codec store) _ w h in
      let on = (IsQuiet-scan_records x codec store).onward w honest in
      subst (Recorded head) (sym w1) (record {
        honest = on.honest;
        retained =
            Found-IsRetained x codec head.service_id (sequence_of head) store w
              (scan_records x codec store w).1 scanned head
              (scan_records-Found x codec store w scanned honest a) held refl (omega arith)
              scanned.root_stamp;
      })

  finalize_publication-Recorded :
      (head : SignedJournalHead) (prepared : PreparedPublication) (made : Publication) (w : World)
      (outcome : AppendOutcome)
      → IsHonest w.schedule
      → (made ≡ Publication.already_present → HasHead x codec w.disk head)
      → (finalize_publication x codec store head prepared made w).0 ≡ ok outcome
      → Recorded head (finalize_publication x codec store head prepared made w).1
  unfolding finalize_publication retain
  finalize_publication-Recorded head prepared Publication.already_present w outcome honest held h =
      let (_, a, h1, w1) = >>=-succeeds (rescan x codec store) _ w h in
      subst (Recorded head) (sym w1) (rescan-Recorded head w honest (held refl) a)
  finalize_publication-Recorded head prepared published w outcome honest held h =
      let check = validate_exact_record x codec store prepared.path prepared.bytes head in
      let (_, a, h1, w1) = >>=-succeeds check _ w h in
      let on =
        (IsQuiet-validate_exact_record x codec store prepared.path prepared.bytes head).onward w
          honest in
      let v = (check w).1 in
      let (stamp, b, h2, w2) = >>=-succeeds (root_stamp x codec store) _ v h1 in
      let on2 = (IsQuiet-root_stamp x codec store).onward v on.honest in
      let u = (root_stamp x codec store v).1 in
      subst (Recorded head) (sym (w1 ∙ w2)) (record {
        honest = on2.honest;
        retained = record {
          head = head;
          found = lookup-insert_self head.service_id head u.cache.latest;
          reached = omega arith;
          of_service = refl;
          on_disk =
              Grows-HasHead on2.grown
                (validate_exact_record-HasHead x codec store prepared.path prepared.bytes head w a);
        };
      })

  pub publish_and_finalize-Recorded :
      (attempted : CheckpointHeadMetadata) (head : SignedJournalHead)
      (prepared : PreparedPublication) (w : World) (d : CheckpointDecision)
      → IsHonest w.schedule
      → (publish_and_finalize x codec store attempted head prepared w).0 ≡ ok d
      → Recorded head (publish_and_finalize x codec store attempted head prepared w).1
  unfolding publish_and_finalize
  publish_and_finalize-Recorded attempted head prepared w d honest h =
      let made = publish_prepared x codec store prepared head in
      let f = failure x codec store attempted none in
      let (publication, a, h1, w1) = >>=-succeeds (annotate f made) _ w h in
      let made_ok = annotate_ok f made w a in
      let v = (made w).1 in
      let on = (IsQuiet-publish_prepared x codec store prepared head).onward w honest in
      let finalize = finalize_publication x codec store head prepared publication in
      let (outcome, b, h2, w2) = >>=-succeeds (annotate f finalize) _ v h1 in
      subst (Recorded head) (sym (w1 ∙ w2)) (
        finalize_publication-Recorded head prepared publication v outcome on.honest
          (λ same.
            publish_prepared-HasHead prepared head w honest
              (made_ok ∙ ap (λ (p : Publication). ok p) same))
          (annotate_ok f finalize v b))
