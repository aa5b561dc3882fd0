-- ===== src/AuditCheckpoint/Scan/Complete.antt =====
-- A scan of the checkpoint store finds every file that was there when it began.
use bloom_service_runtime.Prelude.{
  Bytes, Option, none, some, List, [], ◌∷◌, map, ok, ◌≡◌, sym, subst, ◌∙◌, ap, arith, ◌!=◌, ◌||◌,
  lookup, list_eq, nat_eq, list_beq_iff, >>=-eq-ok, ok_or, ok_or-eq-ok, reject_if, ok_injective,
  some_injective, Bool-cases, inl, inr, list_beq,
}
use bloom_service_runtime.RpcWire.External.{External}
use bloom_service_runtime.RpcWire.Token.{token_eq}
use bloom_service_runtime.AuditCheckpoint.Record.{
  CheckpointRecord, failed, malformed, checkpoint_filename, checkpoint_schema,
}
use bloom_service_runtime.AuditCheckpoint.Keys.{verify_retained_head}
use bloom_service_runtime.AuditCheckpoint.Chain.Sorted.{Member, here, there}
use bloom_service_runtime.AuditCheckpoint.Disk.{
  Disk, World, Turn, fails, after, Entry, found, taken, read_entry, syscall, lift, stamp_eq,
}
use bloom_service_runtime.AuditCheckpoint.Disk.Honest.{Grows, IsHonest, Onward-trans, >>=-succeeds}
use bloom_service_runtime.AuditCheckpoint.Entries.{RecordCodec, Store, check_scanned, unsafe_entry}
use bloom_service_runtime.AuditCheckpoint.Scan.{scan_entry, scan_entries}
use bloom_service_runtime.AuditCheckpoint.Scan.Quiet.{
  IsQuiet-read_entry, IsQuiet-scan_entry, IsQuiet-scan_entries,
}

-- A file of the root that is named for a head and holds a record of it.
pub record IsStored (x : External) (codec : RecordCodec) (d : Disk) (r : CheckpointRecord)
    : Type 0 where
  pub entry : Entry
  pub found : lookup (checkpoint_filename x r.peer_head) d.entries ≡ some entry
  pub holds : codec.from_slice entry.contents ≡ some r

pub Grows-IsStored :
    {x : External} {codec : RecordCodec} {d e : Disk} {r : CheckpointRecord}
    → Grows d e
    → IsStored x codec d r
    → IsStored x codec e r
Grows-IsStored g s = record { entry = s.entry; found = g.keeps _ _ s.found; holds = s.holds }

found_some : (o : Option Entry) (e : Entry) → found o ≡ ok e → o ≡ some e
found_some none e h = cc
found_some (some _) e h = cc

pub read_entry-reads :
    (name : Bytes) (w : World) (e : Entry)
    → (read_entry name w).0 ≡ ok e
    → lookup name (read_entry name w).1.disk.entries ≡ some e
unfolding read_entry syscall
read_entry-reads name w e h = at_turn w.schedule h
  where
    at_turn :
        (s : List Turn)
        → (taken (λ (d : Disk). (found (lookup name d.entries), d)) s w).0 ≡ ok e
        → lookup name (taken (λ (d : Disk). (found (lookup name d.entries), d)) s w).1.disk.entries
          ≡ some e
    at_turn [] k = found_some _ e k
    at_turn (fails ∷ rest) k = cc
    at_turn (after change ∷ rest) k = found_some _ e k

read_in :
    (r : CheckpointRecord) (rest : List CheckpointRecord) (name : Bytes) (names : List Bytes)
    (other : Bytes) (s : CheckpointRecord)
    → Member other (name ∷ names)
    → (name ≡ other → s ≡ r)
    → (Member other names → Member s rest)
    → Member s (r ∷ rest)
read_in r rest name names other s (here e) first later = here (sym (first e))
read_in r rest name names other s (there m) first later = there (later m)

pub lookup-Member :
    (name : Bytes) (e : Entry) (entries : List (Bytes × Entry))
    → lookup name entries ≡ some e
    → Member name (map (λ (p : Bytes × Entry). p.0) entries)
unfolding lookup
lookup-Member name e [] h = cc
lookup-Member name e ((n, f) ∷ entries) h = elim (Bool-cases (list_beq n name)) [
  | inl same ↦ here ((list_beq_iff n name).0 same)
  | inr other ↦ there (lookup-Member name e entries (rw other at h))
]

module _ (x : External) (codec : RecordCodec) (store : Store x) where
  check_scanned_lem :
      (name bytes : Bytes) (r : CheckpointRecord)
      → check_scanned x codec store name bytes ≡ ok r
      → (codec.from_slice bytes ≡ some r) × (name ≡ checkpoint_filename x r.peer_head)
  unfolding check_scanned
  check_scanned_lem name bytes r h =
      let (r', a, h1) = >>=-eq-ok (ok_or (codec.from_slice bytes) (failed malformed)) _ h in
      let (canonical, b, h2) = >>=-eq-ok (ok_or (codec.to_vec r') (failed malformed)) _ h1 in
      let (_, c, h3) = >>=-eq-ok (reject_if (canonical != bytes) (failed malformed)) _ h2 in
      let (_, d, h4) =
        >>=-eq-ok
          (reject_if
            (r'.schema.text != checkpoint_schema
              || r'.recipient_service_id != store.recipient_service_id)
            (failed malformed))
          _ h3 in
      let (_, e, h5) = >>=-eq-ok (verify_retained_head x store.peer_keys r'.peer_head) _ h4 in
      let (_, f, h6) =
        >>=-eq-ok (reject_if (name != checkpoint_filename x r'.peer_head) (failed malformed)) _
          h5 in
      let same : r' ≡ r = ok_injective h6 in
      let named : name ≡ checkpoint_filename x r'.peer_head =
        (list_beq_iff name (checkpoint_filename x r'.peer_head)).0 (ground (arith, f)) in
      (
        ok_or-eq-ok _ _ a ∙ ap some same,
        named ∙ ap (λ (k : CheckpointRecord). checkpoint_filename x k.peer_head) same,
      )

  -- The record of an entry is the one that was in the file, and is stored under its name.
  scan_entry-reads :
      (name : Bytes) (w : World) (r : CheckpointRecord)
      → IsHonest w.schedule
      → (scan_entry x codec store name w).0 ≡ ok r
      → IsStored x codec (scan_entry x codec store name w).1.disk r
        × ((e : Entry) (s : CheckpointRecord)
            → lookup name w.disk.entries ≡ some e
            → codec.from_slice e.contents ≡ some s
            → s ≡ r)
  unfolding scan_entry
  scan_entry-reads name w r honest h =
      let (e, a, h1, w1) = >>=-succeeds (read_entry name) _ w h in
      let (_, b, h2, w2) =
        >>=-succeeds (lift (reject_if (unsafe_entry e) (failed malformed))) _ (read_entry name w).1
          h1 in
      let second = (read_entry name w).1 in
      let (file, c, h3, w3) = >>=-succeeds (read_entry name) _ second h2 in
      let (held, named) = check_scanned_lem name file.contents r h3 in
      let there = read_entry-reads name second file c in
      let end = w1 ∙ w2 ∙ w3 in
      let first_on = (IsQuiet-read_entry name).onward w honest in
      let second_on = (IsQuiet-read_entry name).onward second first_on.honest in
      (
        record {
          entry = file;
          found =
              ap (λ (v : World). lookup (checkpoint_filename x r.peer_head) v.disk.entries) end
              ∙ ap (λ (n : Bytes). lookup n (read_entry name second).1.disk.entries) (sym named)
              ∙ there;
          holds = held;
        },
        λ e0 s at holds.
            let kept = (Onward-trans first_on second_on).grown.keeps name e0 at in
            let same : e0 ≡ file = some_injective (sym kept ∙ there) in
            some_injective
              (sym holds ∙ ap (λ (k : Entry). codec.from_slice k.contents) same ∙ held),
      )

  IsStored-in :
      (r : CheckpointRecord) (rest : List CheckpointRecord) (d : Disk)
      → IsStored x codec d r
      → ((s : CheckpointRecord) → Member s rest → IsStored x codec d s)
      → (s : CheckpointRecord) → Member s (r ∷ rest)
      → IsStored x codec d s
  IsStored-in r rest d first later s (here e) = subst (IsStored x codec d) e first
  IsStored-in r rest d first later s (there m) = later s m

  -- The records of a scan are stored, and it reads each record that was stored.
  pub scan_entries-reads :
      (names : List Bytes) (w : World) (rs : List CheckpointRecord)
      → IsHonest w.schedule
      → (scan_entries x codec store names w).0 ≡ ok rs
      → ((r : CheckpointRecord)
          → Member r rs
          → IsStored x codec (scan_entries x codec store names w).1.disk r)
        × ((name : Bytes) (e : Entry) (s : CheckpointRecord)
            → Member name names
            → lookup name w.disk.entries ≡ some e
            → codec.from_slice e.contents ≡ some s
            → Member s rs)
  unfolding scan_entries
  scan_entries-reads [] w rs honest h =
      let none_read : [] ≡ rs = ok_injective h in
      (λ r m. elim (subst (Member r) (sym none_read) m) [ ], λ name e s m at holds. elim m [ ])
  scan_entries-reads (name ∷ names) w rs honest h =
      let (r, a, h1, w1) = >>=-succeeds (scan_entry x codec store name) _ w h in
      let next = (scan_entry x codec store name w).1 in
      let (rest, b, h2, w2) = >>=-succeeds (scan_entries x codec store names) _ next h1 in
      let on = (IsQuiet-scan_entry x codec store name).onward w honest in
      let on_rest = (IsQuiet-scan_entries x codec store names).onward next on.honest in
      let (stored, unique) = scan_entry-reads name w r honest a in
      let (later, complete) = scan_entries-reads names next rest on.honest b in
      let all_read : r ∷ rest ≡ rs = ok_injective h2 in
      let end = w1 ∙ w2 in
      (
        λ s m.
            subst (λ (v : World). IsStored x codec v.disk s) (sym end)
              (IsStored-in r rest (scan_entries x codec store names next).1.disk
                (Grows-IsStored on_rest.grown stored) later s (subst (Member s) (sym all_read) m)),
        λ other e s m at holds. subst (Member s) all_read (
            read_in r rest name names other s m
              (λ k. unique e s (ap (λ (n : Bytes). lookup n w.disk.entries) k ∙ at) holds)
              (λ n. complete other e s n (on.grown.keeps other e at) holds)),
      )
