-- ===== src/AuditCheckpoint/Store/Latest.antt =====
-- `latest` of the checkpoint store: it keeps what is retained of a service, and answers with it.
use bloom_service_runtime.Prelude.{
  ℕ, ◌≤◌, nat_eq, Option, some, [], Result, ok, err, ◌≡◌, refl, sym, ◌∙◌, ap, lookup, ◌==◌,
  ok_injective,
}
use bloom_service_runtime.RpcWire.External.{External}
use bloom_service_runtime.RpcWire.Token.{Token, token_eq}
use bloom_service_runtime.RpcWire.Audit.{SignedJournalHead, head_eq}
use bloom_service_runtime.AuditCheckpoint.Record.{CheckpointError, Stop, sequence_of, malformed}
use bloom_service_runtime.AuditCheckpoint.Disk.{Action, World, chain, ◌>>=◌, ◌>>◌, pure, stamp_eq}
use bloom_service_runtime.AuditCheckpoint.Disk.Honest.{IsQuiet}
use bloom_service_runtime.AuditCheckpoint.Entries.{RecordCodec, Store}
use bloom_service_runtime.AuditCheckpoint.Scan.{root_stamp, scan_records, replace_cached_state}
use bloom_service_runtime.AuditCheckpoint.Scan.Quiet.{IsQuiet-scan_records, IsQuiet-root_stamp}
use bloom_service_runtime.AuditCheckpoint.Store.{lock_directory, validate_latest}
use bloom_service_runtime.AuditCheckpoint.Store.Retained.{
  IsRetained, IsGood, IsQuiet-IsGood, Onward-IsGood,
}
use bloom_service_runtime.Prelude.{if-keeps}
use bloom_service_runtime.AuditCheckpoint.Scan.{ScannedRecords}
use bloom_service_runtime.AuditCheckpoint.Scan.Found.{scan_records-Found}
use bloom_service_runtime.AuditCheckpoint.Store.Retained.{Found-IsRetained}
use bloom_service_runtime.AuditCheckpoint.Store.Published.{
  IsQuiet-lock_directory, IsQuiet-validate_latest,
}
use bloom_service_runtime.AuditCheckpoint.Scan.{last_of, collect}
use bloom_service_runtime.AuditCheckpoint.Scan.Collected.{collect-last_of_all}
use bloom_service_runtime.AuditCheckpoint.Store.{latest_locked, latest}
use bloom_service_runtime.AuditCheckpoint.Store.Kept.{locked-IsGood}
use bloom_service_runtime.AuditCheckpoint.Store.Accepted.{locked_ok}

module _ (x : External) (codec : RecordCodec) (store : Store x) where
  -- A head that is found for a service, at or after a sequence.
  abbrev pub Reaches : ℕ → Option SignedJournalHead → Type 0
  Reaches n o = (head : SignedJournalHead) × (o ≡ some head) × (n ≤ sequence_of head)

  -- The answer from the cache.
  cached : Token → World → Action CheckpointError (Option SignedJournalHead)
  cached service w =
      validate_latest x codec store (lookup service w.cache.latest)
      >> pure {E = CheckpointError} (lookup service w.cache.latest)

  -- The answer from a scan.
  scanned_latest : Token → Action CheckpointError (Option SignedJournalHead)
  scanned_latest service = scan_records x codec store >>= λ s.
      replace_cached_state x codec store s.records s.root_stamp
      >> pure {E = CheckpointError} (last_of service s.records)

  module _ (service_id : Token) (n : ℕ) where
    abbrev Good : World → Type 0
    Good = IsGood x codec service_id n

    record Answers (asked : Token)
        (p : Result (Option SignedJournalHead) (Stop CheckpointError) × World) : Type 0 where
      good : Good p.1
      reaches : asked ≡ service_id → (o : Option SignedJournalHead) → p.0 ≡ ok o → Reaches n o

    scanned_latest-Answers :
        (asked : Token) (w : World) → Good w → Answers asked (scanned_latest asked w)
    unfolding scanned_latest replace_cached_state
    scanned_latest-Answers asked w g =
        let scan = scan_records x codec store in
        let on = (IsQuiet-scan_records x codec store).onward w g.honest in
        from_scan (scan w) (Onward-IsGood x codec service_id n on g) λ s h.
          Found-IsRetained x codec service_id n store w (scan w).1 s g.retained.head
            (scan_records-Found x codec store w s g.honest h) g.retained.on_disk
            g.retained.of_service g.retained.reached s.root_stamp
      where
        from_scan :
            (p : Result ScannedRecords (Stop CheckpointError) × World)
            → Good p.1
            → ((s : ScannedRecords)
                → p.0 ≡ ok s
                → IsRetained x codec service_id n (record p.1 {
                  cache = record { root_stamp = s.root_stamp; latest = collect [] s.records };
                }))
            → Answers asked (
                chain p (λ s.
                  replace_cached_state x codec store s.records s.root_stamp
                  >> pure {E = CheckpointError} (last_of asked s.records)))
        from_scan (err e, v) k retained = record { good = k; reaches = λ same o h. cc }
        from_scan (ok s, v) k retained =
            let kept = retained s refl in
            record {
              good = record { honest = k.honest; retained = kept };
              reaches = λ same o h. (
                kept.head,
                sym (ok_injective h)
                    ∙ sym (collect-last_of_all s.records asked)
                    ∙ ap (λ (t : Token). lookup t (collect [] s.records)) same
                    ∙ kept.found,
                kept.reached,
              );
            }

    cached-Answers : (asked : Token) (w : World) → Good w → Answers asked (cached asked w w)
    unfolding cached
    cached-Answers asked w g =
        let validate = validate_latest x codec store (lookup asked w.cache.latest) in
        let valid =
          IsQuiet-IsGood x codec service_id n validate w
            (IsQuiet-validate_latest x codec store (lookup asked w.cache.latest)) g in
        from_check (validate w) valid
      where
        from_check :
            (p : Result (Unit {0}) (Stop CheckpointError) × World)
            → Good p.1
            → Answers asked
                (chain p (λ _. pure {E = CheckpointError} (lookup asked w.cache.latest)))
        from_check (err e, v) k = record { good = k; reaches = λ same o h. cc }
        from_check (ok _, v) k = record {
          good = k;
          reaches = λ same o h. (
            g.retained.head,
            sym (ok_injective h)
                ∙ ap (λ (t : Token). lookup t w.cache.latest) same
                ∙ g.retained.found,
            g.retained.reached,
          );
        }

    -- From a step that changes no file and no cache on.
    after_quiet :
        {A : Type 0} (asked : Token) (m : Action CheckpointError A)
        (next : A → Action CheckpointError (Option SignedJournalHead)) (w : World)
        → IsQuiet m
        → Good w
        → ((a : A) (v : World) → Good v → Answers asked (next a v))
        → Answers asked ((m >>= next) w)
    after_quiet {A} asked m next w quiet g h =
        from_first (m w) (IsQuiet-IsGood x codec service_id n m w quiet g)
      where
        from_first :
            (p : Result A (Stop CheckpointError) × World) → Good p.1 → Answers asked (chain p next)
        from_first (ok a, v) k = h a v k
        from_first (err e, v) k = record { good = k; reaches = λ same o e'. cc }

    latest_locked-Answers :
        (asked : Token) (w : World) → Good w → Answers asked (latest_locked x codec store asked w)
    unfolding latest_locked cached scanned_latest
    latest_locked-Answers asked w g =
        after_quiet asked lock_directory _ w IsQuiet-lock_directory g λ _ v k.
          after_quiet asked (root_stamp x codec store) _ v (IsQuiet-root_stamp x codec store) k
            λ stamp u j.
              if-keeps
                (λ (m : Action CheckpointError (Option SignedJournalHead)). Answers asked (m u))
                (u.cache.root_stamp == stamp) (cached-Answers asked u j)
                (scanned_latest-Answers asked u j)

    -- `latest` keeps what is retained; asked for the service, it answers with a head that is not
    -- behind, or fails.
    pub latest-IsGood : (asked : Token) (w : World) → Good w → Good (latest x codec store asked w).1
    unfolding latest
    latest-IsGood asked w g =
        locked-IsGood x codec store service_id n malformed (latest_locked x codec store asked) w g
          (latest_locked-Answers asked w g).good

    pub latest-Reaches :
        (w : World) (o : Option SignedJournalHead)
        → Good w
        → (latest x codec store service_id w).0 ≡ ok o
        → Reaches n o
    unfolding latest
    latest-Reaches w o g h =
        (latest_locked-Answers service_id w g).reaches refl o
          (locked_ok x codec store malformed (latest_locked x codec store service_id) w h).0
