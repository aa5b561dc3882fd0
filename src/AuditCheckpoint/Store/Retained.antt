-- ===== src/AuditCheckpoint/Store/Retained.antt =====
-- What the checkpoint store retains of a service, and the actions that keep it.
use bloom_service_runtime.Prelude.{
  ℕ, ◌≤◌, some, [], Result, ok, err, ◌≡◌, refl, sym, ◌∙◌, ap, arith, lookup,
}
use bloom_service_runtime.RpcWire.External.{External}
use bloom_service_runtime.RpcWire.Token.{Token, token_eq}
use bloom_service_runtime.RpcWire.Audit.{SignedJournalHead}
use bloom_service_runtime.AuditCheckpoint.Record.{Stop, sequence_of}
use bloom_service_runtime.AuditCheckpoint.Disk.{
  Action, Disk, World, RootStamp, CheckpointState, chain, stamp_eq,
}
use bloom_service_runtime.AuditCheckpoint.Disk.Honest.{Grows, IsHonest, Onward, IsQuiet}
use bloom_service_runtime.AuditCheckpoint.Entries.{RecordCodec, Store}
use bloom_service_runtime.AuditCheckpoint.Scan.{
  ScannedRecords, collect, scan_records, replace_cached_state,
}
use bloom_service_runtime.AuditCheckpoint.Scan.Quiet.{IsQuiet-scan_records}
use bloom_service_runtime.AuditCheckpoint.Scan.Complete.{Grows-IsStored}
use bloom_service_runtime.AuditCheckpoint.Scan.Collected.{collect_covers}
use bloom_service_runtime.AuditCheckpoint.Scan.Found.{Found, scan_records-Found}
use bloom_service_runtime.AuditCheckpoint.Scan.Exact.{HasHead}
use bloom_service_runtime.AuditCheckpoint.Publish.{rescan}

pub Grows-HasHead :
    {x : External} {codec : RecordCodec} {d e : Disk} {head : SignedJournalHead}
    → Grows d e
    → HasHead x codec d head
    → HasHead x codec e head
Grows-HasHead g h = record {
  kept = h.kept;
  of_head = h.of_head;
  stored = Grows-IsStored g h.stored;
}

module _ (x : External) (codec : RecordCodec) (service_id : Token) (n : ℕ) where
  -- The cache has a head of the service, at or after this sequence, and the root holds its record.
  pub record IsRetained (w : World) : Type 0 where
    pub head : SignedJournalHead
    pub found : lookup service_id w.cache.latest ≡ some head
    pub reached : n ≤ sequence_of head
    pub of_service : head.service_id ≡ service_id
    pub on_disk : HasHead x codec w.disk head

  pub record IsGood (w : World) : Type 0 where
    pub honest : IsHonest w.schedule
    pub retained : IsRetained w

  pub Onward-IsGood : {v w : World} → Onward v w → IsGood v → IsGood w
  Onward-IsGood on g = record {
    honest = on.honest;
    retained = record {
      head = g.retained.head;
      found = ap (λ (c : CheckpointState). lookup service_id c.latest) on.cached ∙ g.retained.found;
      reached = g.retained.reached;
      of_service = g.retained.of_service;
      on_disk = Grows-HasHead on.grown g.retained.on_disk;
    };
  }

  pub IsQuiet-IsGood {ℓ κ} :
      {E : Type ℓ} {A : Type κ} (m : Action E A) (w : World) → IsQuiet m → IsGood w → IsGood (m w).1
  IsQuiet-IsGood m w q g = Onward-IsGood (q.onward w g.honest) g

  -- A chain of actions, by what the first one gave.
  pub IsGood-chain {ℓ κ} :
      {E : Type ℓ} {A B : Type κ} (p : Result A (Stop E) × World) (next : A → Action E B)
      → IsGood p.1
      → ((a : A) → p.0 ≡ ok a → IsGood (next a p.1).1)
      → IsGood (chain p next).1
  IsGood-chain (ok a, w) next g h = h a refl
  IsGood-chain (err e, w) next g h = g

  -- A head of the service that the root held is in the cache after a scan, or a later one.
  pub Found-IsRetained :
      (store : Store x) (v w : World) (scanned : ScannedRecords) (head : SignedJournalHead)
      → Found x codec store v w scanned.records
      → HasHead x codec v.disk head
      → head.service_id ≡ service_id
      → n ≤ sequence_of head
      → (stamp : RootStamp)
      → IsRetained
          (record w { cache = record { root_stamp = stamp; latest = collect [] scanned.records } })
  Found-IsRetained store v w scanned head f h service reached stamp =
      let covered =
        collect_covers x store.handovers [] [] scanned.records h.kept f.chained
          (f.complete h.kept h.stored) in
      let of : h.kept.peer_head.service_id ≡ service_id =
        ap (λ (k : SignedJournalHead). k.service_id) h.of_head ∙ service in
      let (r, member, same, named) = covered.origin_of in
      let sequence : sequence_of h.kept.peer_head ≡ sequence_of head = ap sequence_of h.of_head in
      record {
        head = covered.head;
        found = ap (λ (s : Token). lookup s (collect [] scanned.records)) (sym of) ∙ covered.found;
        reached = omega (arith, covered.reached, sequence);
        of_service = ap (λ (k : SignedJournalHead). k.service_id) (sym same) ∙ named ∙ of;
        on_disk = record { kept = r; of_head = same; stored = f.stored r member };
      }

  module _ (store : Store x) where
    pub rescan-IsGood : (w : World) → IsGood w → IsGood (rescan x codec store w).1
    unfolding rescan replace_cached_state
    rescan-IsGood w g =
        let scanned_good =
          IsQuiet-IsGood (scan_records x codec store) w (IsQuiet-scan_records x codec store) g in
        IsGood-chain (scan_records x codec store w) _ scanned_good λ scanned h. record {
          honest = scanned_good.honest;
          retained =
              Found-IsRetained store w (scan_records x codec store w).1 scanned g.retained.head
                (scan_records-Found x codec store w scanned g.honest h) g.retained.on_disk
                g.retained.of_service g.retained.reached scanned.root_stamp;
        }
