-- ===== src/AuditCheckpoint/Scan/Found.antt =====
-- What `scan_records` finds, and what the cache holds after it.
use bloom_service_runtime.Prelude.{
  ℕ, zero, suc, Bytes, Bool, true, false, List, [], ◌∷◌, map, ok, ◌≡◌, sym, subst, ◌∙◌, ap, ◌==◌,
  >>=-eq-ok, ok_injective, if◌then◌else◌, list_eq, nat_eq,
}
use bloom_service_runtime.RpcWire.External.{External}
use bloom_service_runtime.RpcWire.Token.{token_eq}
use bloom_service_runtime.AuditCheckpoint.Record.{
  CheckpointError, CheckpointRecord, checkpoint_filename,
}
use bloom_service_runtime.AuditCheckpoint.Chain.{verify_chains, verify_record_chains, sort_records}
use bloom_service_runtime.AuditCheckpoint.Chain.Sorted.{Member, Member-sort_records}
use bloom_service_runtime.AuditCheckpoint.Disk.{
  Action, Disk, World, Turn, fails, after, Entry, RootStamp, taken, read_dir, syscall, lift,
  stamp_eq, pure,
}
use bloom_service_runtime.AuditCheckpoint.Disk.Honest.{IsHonest, Onward, Onward-trans, >>=-succeeds}
use bloom_service_runtime.AuditCheckpoint.Entries.{RecordCodec, Store}
use bloom_service_runtime.AuditCheckpoint.Scan.{
  ScannedRecords, root_stamp, scan_entries, scan_once, scan_attempts, scan_records,
}
use bloom_service_runtime.AuditCheckpoint.Scan.Quiet.{
  IsQuiet-read_dir, IsQuiet-root_stamp, IsQuiet-scan_entries, IsQuiet-scan_once,
}
use bloom_service_runtime.AuditCheckpoint.Scan.Complete.{
  IsStored, Grows-IsStored, scan_entries-reads, lookup-Member,
}

read_dir-reads :
    (w : World) (names : List Bytes)
    → (read_dir w).0 ≡ ok names
    → names ≡ map (λ (p : Bytes × Entry). p.0) (read_dir w).1.disk.entries
unfolding read_dir syscall
read_dir-reads w names h = at_turn w.schedule h
  where
    at_turn :
        (s : List Turn)
        → (taken (λ (d : Disk). (ok (map (λ (p : Bytes × Entry). p.0) d.entries), d)) s w).0
          ≡ ok names
        → names
          ≡ map
              (λ (p : Bytes × Entry). p.0)
              (taken
                (λ (d : Disk). (ok (map (λ (p : Bytes × Entry). p.0) d.entries), d))
                s
                w).1.disk.entries
    at_turn [] k = sym (ok_injective k)
    at_turn (fails ∷ rest) k = cc
    at_turn (after change ∷ rest) k = sym (ok_injective k)

module _ (x : External) (codec : RecordCodec) (store : Store x) where
  -- A scan that succeeds: it found all that was there, and the records chain.
  pub record Found (w w' : World) (rs : List CheckpointRecord) : Type 0 where
    pub stored : (r : CheckpointRecord) → Member r rs → IsStored x codec w'.disk r
    pub complete : (r : CheckpointRecord) → IsStored x codec w.disk r → Member r rs
    pub chained : verify_chains x store.handovers [] [] rs ≡ ok tt

  pub verify_record_chains_lem :
      (records sorted : List CheckpointRecord)
      → verify_record_chains x store.handovers records ≡ ok sorted
      → (sorted ≡ sort_records x store.handovers records)
        × (verify_chains x store.handovers [] [] sorted ≡ ok tt)
  unfolding verify_record_chains
  verify_record_chains_lem records sorted h =
      let (u, a, h1) =
        >>=-eq-ok (verify_chains x store.handovers [] [] (sort_records x store.handovers records)) _
          h in
      let same : sort_records x store.handovers records ≡ sorted = ok_injective h1 in
      (
        sym same,
        subst (λ (k : List CheckpointRecord). verify_chains x store.handovers [] [] k ≡ ok tt) same
            a,
      )

  -- Either attempt.
  chosen :
      (b : Bool) (w v : World) (first scanned : ScannedRecords)
      (again : Action CheckpointError ScannedRecords)
      → Found w v first.records
      → ((again v).0 ≡ ok scanned → Found w (again v).1 scanned.records)
      → ((if b then pure {E = CheckpointError} first else again) v).0 ≡ ok scanned
      → Found w ((if b then pure {E = CheckpointError} first else again) v).1 scanned.records
  chosen true w v first scanned again seen later h =
      subst (λ (k : ScannedRecords). Found w v k.records) (ok_injective h) seen
  chosen false w v first scanned again seen later h = later h

  scan_once-Found :
      (w : World) (before : RootStamp) (scanned : ScannedRecords)
      → IsHonest w.schedule
      → (scan_once x codec store w).0 ≡ ok (before, scanned)
      → Found w (scan_once x codec store w).1 scanned.records
  unfolding scan_once
  scan_once-Found w before scanned honest h =
      let (b, e0, h0, w0) = >>=-succeeds (root_stamp x codec store) _ w h in
      let on0 = (IsQuiet-root_stamp x codec store).onward w honest in
      let v1 = (root_stamp x codec store w).1 in
      let (names, e1, h1, w1) = >>=-succeeds read_dir _ v1 h0 in
      let on1 = IsQuiet-read_dir.onward v1 on0.honest in
      let v2 = (read_dir v1).1 in
      let (records, e2, h2, w2) = >>=-succeeds (scan_entries x codec store names) _ v2 h1 in
      let on2 = (IsQuiet-scan_entries x codec store names).onward v2 on1.honest in
      let v3 = (scan_entries x codec store names v2).1 in
      let (sorted, e3, h3, w3) =
        >>=-succeeds (lift (verify_record_chains x store.handovers records)) _ v3 h2 in
      let (stamp, e4, h4, w4) = >>=-succeeds (root_stamp x codec store) _ v3 h3 in
      let on4 = (IsQuiet-root_stamp x codec store).onward v3 on2.honest in
      let end = w0 ∙ w1 ∙ w2 ∙ w3 ∙ w4 in
      let (sorting, chained) = verify_record_chains_lem records sorted e3 in
      let (stored, complete) = scan_entries-reads x codec store names v2 records on1.honest e2 in
      let same : sorted ≡ scanned.records =
        ap (λ (p : RootStamp × ScannedRecords). p.1.records) (ok_injective h4) in
      let sorted_from : scanned.records ≡ sort_records x store.handovers records =
        sym same ∙ sorting in
      let start = Onward-trans on0 on1 in
      record {
        stored = λ r m.
            subst (λ (v : World). IsStored x codec v.disk r) (sym end)
              (Grows-IsStored on4.grown (
                stored r (
                  (Member-sort_records x store.handovers r records).1
                    (subst (Member r) sorted_from m))));
        complete = λ r s.
            let at = start.grown.keeps _ _ s.found in
            subst (Member r) (sym sorted_from) (
              (Member-sort_records x store.handovers r records).0 (
                complete (checkpoint_filename x r.peer_head) s.entry r
                  (subst (Member (checkpoint_filename x r.peer_head))
                    (sym (read_dir-reads v1 names e1)) (lookup-Member _ s.entry v2.disk.entries at))
                  at s.holds));
        chained =
            subst (λ (k : List CheckpointRecord). verify_chains x store.handovers [] [] k ≡ ok tt)
              same chained;
      }

  Found-later :
      {u v w : World} {rs : List CheckpointRecord} → Onward u v → Found v w rs → Found u w rs
  Found-later on f = record {
    stored = f.stored;
    complete = λ r s. f.complete r (Grows-IsStored on.grown s);
    chained = f.chained;
  }

  scan_attempts-Found :
      (n : ℕ) (w : World) (scanned : ScannedRecords)
      → IsHonest w.schedule
      → (scan_attempts x codec store n w).0 ≡ ok scanned
      → Found w (scan_attempts x codec store n w).1 scanned.records
  unfolding scan_attempts
  scan_attempts-Found zero w scanned honest h = cc
  scan_attempts-Found (suc n) w scanned honest h =
      let (s, e, h1, end) = >>=-succeeds (scan_once x codec store) _ w h in
      let w1 = (scan_once x codec store w).1 in
      let on = (IsQuiet-scan_once x codec store).onward w honest in
      let seen = scan_once-Found w s.0 s.1 honest e in
      let again = scan_attempts-Found n w1 scanned on.honest in
      subst (λ (v : World). Found w v scanned.records) (sym end)
        (chosen (s.0 == s.1.root_stamp) w w1 s.1 scanned (scan_attempts x codec store n) seen
          (λ k. Found-later on (again k)) h1)

  pub scan_records-Found :
      (w : World) (scanned : ScannedRecords)
      → IsHonest w.schedule
      → (scan_records x codec store w).0 ≡ ok scanned
      → Found w (scan_records x codec store w).1 scanned.records
  unfolding scan_records
  scan_records-Found w scanned honest h = scan_attempts-Found 3 w scanned honest h
