-- ===== src/AuditCheckpoint/Publish/Quiet.antt =====
-- The preparation and the publication of a head only add files to the root.
use bloom_service_runtime.Prelude.{
  ℕ, not, reject_if, Bytes, Option, none, some, List, Result, ok, err, ◌≡◌, refl, list_eq, nat_eq,
  lookup, lookup-insert_new, if-keeps,
}
use bloom_service_runtime.RpcWire.External.{External}
use bloom_service_runtime.RpcWire.Audit.{SignedJournalHead}
use bloom_service_runtime.AuditCheckpoint.Record.{
  CheckpointError, Stop, failed, invalid_root, checkpoint_filename,
}
use bloom_service_runtime.AuditCheckpoint.Disk.{
  Disk, World, Entry, next_counter, create_temporary, write_temporary, remove_temporary,
  discard_temporary, linked, link_found, hard_link,
}
use bloom_service_runtime.AuditCheckpoint.Disk.Honest.{
  Grows, Grows-refl, IsQuiet, IsQuiet->>=, IsQuiet-lift, IsQuiet-syscall, Onward, Onward-trans,
}
use bloom_service_runtime.AuditCheckpoint.Entries.{RecordCodec, Store, record_bytes}
use bloom_service_runtime.AuditCheckpoint.Scan.Quiet.{
  IsQuiet-sync_root, IsQuiet-validate_exact_existing,
}
use bloom_service_runtime.AuditCheckpoint.Publish.{
  PreparedPublication, write_or_remove, prepare_publication, publish_prepared, keep_or_remove,
}

-- A free name hides no file.
Grows-link_found :
    (held : Option Entry) (temporary : Option Bytes) (name : Bytes) (d : Disk)
    → lookup name d.entries ≡ held
    → Grows d (link_found held temporary name d).1
unfolding link_found
Grows-link_found (some _) temporary name d e = Grows-refl d
Grows-link_found none none name d e = Grows-refl d
Grows-link_found none (some bytes) name d e = record {
  keeps = λ other entry h. lookup-insert_new name other _ entry d.entries e h;
}

pub IsQuiet-hard_link : (n : ℕ) (name : Bytes) → IsQuiet (hard_link n name)
unfolding hard_link linked
IsQuiet-hard_link n name = IsQuiet-syscall (linked n name) (λ d. Grows-link_found _ _ name d refl)

same_entries :
    (d : Disk) (temporaries : List (ℕ × Bytes)) → Grows d (record d { temporaries = temporaries })
same_entries d temporaries = record { keeps = λ name entry h. h }

IsQuiet-create_temporary : (n : ℕ) → IsQuiet (create_temporary n)
unfolding create_temporary
IsQuiet-create_temporary n = IsQuiet-syscall _ λ d.
    if-keeps (λ (r : Result (Unit {0}) (Stop CheckpointError) × Disk). Grows d r.1) _ (Grows-refl d)
      (same_entries d _)

IsQuiet-write_temporary : (n : ℕ) (bytes : Bytes) → IsQuiet (write_temporary n bytes)
unfolding write_temporary
IsQuiet-write_temporary n bytes =
    IsQuiet->>= _ _ (IsQuiet-syscall _ λ d. same_entries d _) λ _. IsQuiet-syscall _ Grows-refl

IsQuiet-remove_temporary : (n : ℕ) → IsQuiet (remove_temporary n)
unfolding remove_temporary
IsQuiet-remove_temporary n = IsQuiet-syscall _ λ d.
    if-keeps (λ (r : Result (Unit {0}) (Stop CheckpointError) × Disk). Grows d r.1) _
      (same_entries d _) (Grows-refl d)

IsQuiet-next_counter : IsQuiet {E = CheckpointError} next_counter
IsQuiet-next_counter = record {
  onward = λ w h. record { honest = h; grown = Grows-refl w.disk; cached = refl };
}

pub IsQuiet-discard_temporary {ℓ} : {E : Type ℓ} (n : ℕ) → IsQuiet (discard_temporary {E = E} n)
unfolding discard_temporary
IsQuiet-discard_temporary n = record { onward = λ w h. (IsQuiet-remove_temporary n).onward w h }

module _ (x : External) (codec : RecordCodec) (store : Store x) where
  IsQuiet-write_or_remove :
      (n : ℕ) (bytes : Bytes) → IsQuiet (write_or_remove x codec store n bytes)
  unfolding write_or_remove
  IsQuiet-write_or_remove n bytes = record {
    onward = λ w h.
        or_removed w (write_temporary n bytes w) ((IsQuiet-write_temporary n bytes).onward w h);
  }
    where
      or_removed :
          (w : World) (p : Result (Unit {0}) (Stop CheckpointError) × World)
          → Onward w p.1
          → Onward w (keep_or_remove n p).1
      or_removed w (ok u, w') k = k
      or_removed w (err e, w') k =
          Onward-trans k ((IsQuiet-discard_temporary {E = CheckpointError} n).onward w' k.honest)

  pub IsQuiet-prepare_publication :
      (head : SignedJournalHead) → IsQuiet (prepare_publication x codec store head)
  unfolding prepare_publication
  IsQuiet-prepare_publication head =
      IsQuiet->>= _ _ (IsQuiet-lift (record_bytes x codec store head)) λ bytes.
        IsQuiet->>= _ _ (IsQuiet-lift (reject_if (not store.has_parent) (failed invalid_root))) λ _.
          IsQuiet->>= _ _ IsQuiet-next_counter λ n.
            IsQuiet->>= _ _ (IsQuiet-create_temporary n) λ _.
              IsQuiet->>= _ _ (IsQuiet-write_or_remove n bytes) λ _.
                IsQuiet-lift
                  (ok (record { temporary = n; path = checkpoint_filename x head; bytes = bytes }))

  pub IsQuiet-publish_prepared :
      (prepared : PreparedPublication) (head : SignedJournalHead)
      → IsQuiet (publish_prepared x codec store prepared head)
  unfolding publish_prepared
  IsQuiet-publish_prepared prepared head = IsQuiet->>= _ _ (IsQuiet-hard_link _ _) λ made.
      if-keeps IsQuiet made
        (IsQuiet->>= _ _ (IsQuiet->>= _ _ (IsQuiet-remove_temporary _) (λ _. IsQuiet-sync_root))
          (λ _. IsQuiet-lift _))
        (IsQuiet->>= _ _ (IsQuiet-validate_exact_existing x codec store _ _ head)
          (λ _. IsQuiet-lift _))
