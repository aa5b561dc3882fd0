-- ===== src/AuditCheckpoint/Entries.antt =====
-- The configuration of a `CheckpointStore`, and its checks of the root, of an entry and of a
-- record, on what was read.
use bloom_service_runtime.Prelude.{
  List, [], ℕ, Bytes, Bool, not, ◌||◌, Option, Result, ok, err, ok_or, reject_if, ◌>>=◌, ◌>>◌, ◌!=◌,
  nat_eq, list_eq, if◌then◌else◌,
}
use bloom_service_runtime.FileSystem.{Metadata, is_file, is_dir, is_symlink, permissions}
use bloom_service_runtime.RpcWire.Error.{WireError}
use bloom_service_runtime.RpcWire.External.{External}
use bloom_service_runtime.RpcWire.Token.{Token, token_new, token_eq}
use bloom_service_runtime.RpcWire.Audit.{SignedJournalHead, head_eq}
use bloom_service_runtime.AuditCheckpoint.Record.{
  CheckpointError, CheckpointRecord, Stop, failed, invalid_root, wrong_owner, insecure_permissions,
  malformed, sequence_conflict, checkpoint_schema, checkpoint_filename,
}
use bloom_service_runtime.AuditCheckpoint.Keys.{
  ApplicationKeyHandover, PinnedAuditKey, pin_current, pin_historical, add_handovers, PeerKeys,
  Handovers, verify_retained_head,
}
use bloom_service_runtime.AuditCheckpoint.Disk.{RootStamp, Entry}

-- serde_json and serde_jcs at a record.
pub record RecordCodec : Type 0 where
  pub to_vec : CheckpointRecord → Option Bytes
  pub from_slice : Bytes → Option CheckpointRecord

pub record Store (x : External) : Type 0 where
  -- whether the path of the root has a parent
  pub has_parent : Bool
  pub expected_uid : ℕ
  pub recipient_service_id : Token
  pub peer_keys : PeerKeys x
  pub handovers : Handovers x

unfoldable pub validate_root : Metadata → ℕ → Result (Unit {0}) (Stop CheckpointError)
validate_root metadata expected_uid =
    if not (is_dir metadata.file_type) || is_symlink metadata.file_type
    then err (failed invalid_root)
    else if metadata.uid != expected_uid
    then err (failed (wrong_owner expected_uid metadata.uid))
    else reject_if (permissions metadata.mode != 0o700) (failed insecure_permissions)

abbrev pub stamp_of : Metadata → RootStamp
stamp_of m = record {
  device = m.device;
  inode = m.inode;
  mode = m.mode;
  uid = m.uid;
  modified = m.modified;
  changed = m.changed;
}

abbrev pub unsafe_entry : Entry → Bool
unsafe_entry e = not (is_file e.file_type) || is_symlink e.file_type || permissions e.mode != 0o600

abbrev malformed_token : Result Token WireError → Result Token (Stop CheckpointError)
malformed_token (ok token) = ok token
malformed_token (err e) = err (failed malformed)

module _ (x : External) (codec : RecordCodec) (store : Store x) where
  -- The record that is written for a head, with its bytes.
  unfoldable pub record_bytes : SignedJournalHead → Result Bytes (Stop CheckpointError)
  unfolding token_new
  record_bytes head = do
    schema ← malformed_token (token_new checkpoint_schema)
    ok_or
        (codec.to_vec (record {
          schema = schema;
          recipient_service_id = store.recipient_service_id;
          peer_head = head;
        }))
        (failed malformed)

  -- What `scan_records` checks of the bytes that it read under a name.
  unfoldable pub check_scanned : Bytes → Bytes → Result CheckpointRecord (Stop CheckpointError)
  unfolding verify_retained_head
  check_scanned name bytes = do
    r ← ok_or (codec.from_slice bytes) (failed malformed)
    canonical ← ok_or (codec.to_vec r) (failed malformed)
    reject_if (canonical != bytes) (failed malformed)
    reject_if
        (r.schema.text != checkpoint_schema || r.recipient_service_id != store.recipient_service_id)
        (failed malformed)
    verify_retained_head x store.peer_keys r.peer_head
    reject_if (name != checkpoint_filename x r.peer_head) (failed malformed)
    ok r

  -- What `validate_exact_record` checks of the bytes that it read under a name.
  unfoldable pub check_exact :
      Bytes → Bytes → Bytes → SignedJournalHead → Result (Unit {0}) (Stop CheckpointError)
  unfolding verify_retained_head
  check_exact name expected_bytes bytes expected_head = do
    reject_if (bytes != expected_bytes) (failed sequence_conflict)
    r ← ok_or (codec.from_slice bytes) (failed malformed)
    canonical ← ok_or (codec.to_vec r) (failed malformed)
    reject_if
        (canonical != bytes
          || r.schema.text != checkpoint_schema
          || r.recipient_service_id != store.recipient_service_id
          || r.peer_head != expected_head
          || name != checkpoint_filename x expected_head)
        (failed sequence_conflict)
    verify_retained_head x store.peer_keys r.peer_head

-- The maps that `open_with_history` collects, in a store.
unfoldable pub pinned_store :
    (x : External)
    → Bool
    → ℕ
    → Token
    → List (PinnedAuditKey x)
    → List (PinnedAuditKey x)
    → List ApplicationKeyHandover
    → Result (Store x) (Stop CheckpointError)
unfolding pin_current pin_historical add_handovers
pinned_store x has_parent expected_uid recipient current historical handovers = do
  pinned ← pin_current x [] current
  peer_keys ← pin_historical x pinned historical
  handover_map ← add_handovers x peer_keys [] handovers
  ok (record {
    has_parent = has_parent;
    expected_uid = expected_uid;
    recipient_service_id = recipient;
    peer_keys = peer_keys;
    handovers = handover_map;
  })
