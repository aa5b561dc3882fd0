-- ===== src/AuditCheckpoint/Scan/Exact.antt =====
-- A file of the checkpoint store that passes `validate_exact_record` is stored for its head.
use bloom_service_runtime.Prelude.{
  Bytes, ◌||◌, ok, ◌≡◌, ◌∙◌, sym, ap, arith, ◌!=◌, list_eq, nat_eq, list_beq_iff, >>=-eq-ok, ok_or,
  ok_or-eq-ok, reject_if, lookup, some, subst,
}
use bloom_service_runtime.RpcWire.External.{External}
use bloom_service_runtime.RpcWire.Token.{token_eq}
use bloom_service_runtime.RpcWire.Audit.{SignedJournalHead, head_eq, head_beq_iff}
use bloom_service_runtime.AuditCheckpoint.Record.{
  CheckpointRecord, failed, malformed, sequence_conflict, checkpoint_filename, checkpoint_schema,
}
use bloom_service_runtime.AuditCheckpoint.Disk.{Disk, World, read_entry, lift}
use bloom_service_runtime.AuditCheckpoint.Disk.Honest.{>>=-succeeds}
use bloom_service_runtime.AuditCheckpoint.Entries.{
  RecordCodec, Store, record_bytes, check_exact, unsafe_entry,
}
use bloom_service_runtime.AuditCheckpoint.Scan.{validate_exact_record, validate_cached_record}
use bloom_service_runtime.AuditCheckpoint.Scan.Complete.{IsStored, read_entry-reads}

-- The root holds a record of this head, under its name.
pub record HasHead (x : External) (codec : RecordCodec) (d : Disk) (head : SignedJournalHead)
    : Type 0 where
  pub kept : CheckpointRecord
  pub of_head : kept.peer_head ≡ head
  pub stored : IsStored x codec d kept

module _ (x : External) (codec : RecordCodec) (store : Store x) where
  check_exact_lem :
      (name expected bytes : Bytes) (head : SignedJournalHead)
      → check_exact x codec store name expected bytes head ≡ ok tt
      → (r : CheckpointRecord) × (codec.from_slice bytes ≡ some r)
        × (r.peer_head ≡ head)
        × (name ≡ checkpoint_filename x head)
  unfolding check_exact
  check_exact_lem name expected bytes head h =
      let (_, a, h1) = >>=-eq-ok (reject_if (bytes != expected) (failed sequence_conflict)) _ h in
      let (r, b, h2) = >>=-eq-ok (ok_or (codec.from_slice bytes) (failed malformed)) _ h1 in
      let (canonical, c, h3) = >>=-eq-ok (ok_or (codec.to_vec r) (failed malformed)) _ h2 in
      let (_, d, h4) =
        >>=-eq-ok
          (reject_if
            (canonical != bytes
              || r.schema.text != checkpoint_schema
              || r.recipient_service_id != store.recipient_service_id
              || r.peer_head != head
              || name != checkpoint_filename x head)
            (failed sequence_conflict))
          _ h3 in
      (
        r,
        ok_or-eq-ok _ _ b,
        (head_beq_iff r.peer_head head).0 (ground (arith, d)),
        (list_beq_iff name (checkpoint_filename x head)).0 (ground (arith, d)),
      )

  pub validate_exact_record-HasHead :
      (name bytes : Bytes) (head : SignedJournalHead) (w : World)
      → (validate_exact_record x codec store name bytes head w).0 ≡ ok tt
      → HasHead x codec (validate_exact_record x codec store name bytes head w).1.disk head
  unfolding validate_exact_record
  validate_exact_record-HasHead name bytes head w h =
      let (e, a, h1, w1) = >>=-succeeds (read_entry name) _ w h in
      let (_, b, h2, w2) =
        >>=-succeeds (lift (reject_if (unsafe_entry e) (failed malformed))) _ (read_entry name w).1
          h1 in
      let second = (read_entry name w).1 in
      let (file, c, h3, w3) = >>=-succeeds (read_entry name) _ second h2 in
      let (r, held, same, named) = check_exact_lem name bytes file.contents head h3 in
      let there = read_entry-reads name second file c in
      let end = w1 ∙ w2 ∙ w3 in
      let full_name : checkpoint_filename x r.peer_head ≡ name =
        ap (checkpoint_filename x) same ∙ sym named in
      record {
        kept = r;
        of_head = same;
        stored = record {
          entry = file;
          found =
              ap (λ (v : World). lookup (checkpoint_filename x r.peer_head) v.disk.entries) end
              ∙ ap (λ (n : Bytes). lookup n (read_entry name second).1.disk.entries) full_name
              ∙ there;
          holds = held;
        };
      }

  pub validate_cached_record-HasHead :
      (head : SignedJournalHead) (w : World)
      → (validate_cached_record x codec store head w).0 ≡ ok tt
      → HasHead x codec (validate_cached_record x codec store head w).1.disk head
  unfolding validate_cached_record
  validate_cached_record-HasHead head w h =
      let (bytes, a, h1, w1) = >>=-succeeds (lift (record_bytes x codec store head)) _ w h in
      subst (λ (v : World). HasHead x codec v.disk head) (sym w1)
        (validate_exact_record-HasHead (checkpoint_filename x head) bytes head w h1)
