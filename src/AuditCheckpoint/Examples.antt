-- ===== src/AuditCheckpoint/Examples.antt =====
-- A checkpoint store over the sample crates, with a codec of records whose fields are separated by
-- zero bytes, and runs of it.
use bloom_service_runtime.Prelude.{
  ◌↔◌, ℕ, Bytes, codes, true, false, Option, none, some, List, [], ◌∷◌, ◌++◌, Result, ok, err, ◌≡◌,
  refl, ◌==◌, nat_eq, list_eq, lookup, insert, remove, list_beq, if◌then◌else◌, ◌≤◌, ◌↔◌,
}
use bloom_service_runtime.FileSystem.{Metadata, directory}
use bloom_service_runtime.RpcWire.External.Sample.{
  sample, encode, decode, cons?, digit, undigit, pad,
}
use bloom_service_runtime.RpcWire.Token.{Token, token_eq}
use bloom_service_runtime.RpcWire.Hex.{hex_from_bytes}
use bloom_service_runtime.RpcWire.Decimal.{decimal_u64_get}
use bloom_service_runtime.RpcWire.Base64.{base64_to_bytes}
use bloom_service_runtime.RpcWire.Signature.{signature_bytes}
use bloom_service_runtime.RpcWire.Audit.{
  SignedJournalHead, head_eq, head_message, signature_message,
}
use bloom_service_runtime.AuditCheckpoint.Record.{checkpoint_schema}
use bloom_service_runtime.AuditCheckpoint.Keys.Signed.{IsLiveHead, verify_live_head_iff}
use bloom_service_runtime.AuditCheckpoint.Chain.{verify_record_chains, check_step}
use bloom_service_runtime.AuditCheckpoint.Chain.Follows.{Follows, accepted_history_links}
use bloom_service_runtime.AuditCheckpoint.Store.Live.{append_requires-IsLiveHead}
use bloom_service_runtime.AuditCheckpoint.Open.{open_with_history}
use bloom_service_runtime.AuditCheckpoint.Open.Restart.{accepted_head_survives_restart}
use bloom_service_runtime.AuditCheckpoint.Keys.{
  PinnedAuditKey, verify_live_head, valid_equal_sequence_handover,
}
use bloom_service_runtime.AuditCheckpoint.Record.{
  CheckpointRecord, CheckpointDecision, CheckpointDecisionOutcome, CheckpointAppendError, Stop,
  checkpoint_filename, sequence_of, head_metadata,
}
use bloom_service_runtime.AuditCheckpoint.Record.{
  CheckpointHeadMetadata, CheckpointError, failed, sequence_rollback,
}
use bloom_service_runtime.AuditCheckpoint.Disk.Honest.{IsHonest, Grows-refl}
use bloom_service_runtime.AuditCheckpoint.Store.Retained.{IsRetained}
use bloom_service_runtime.AuditCheckpoint.Store.Latest.{Reaches}
use bloom_service_runtime.AuditCheckpoint.Disk.{World, after, discard_temporary}
use bloom_service_runtime.AuditCheckpoint.Entries.{RecordCodec, Store, stamp_of}
use bloom_service_runtime.AuditCheckpoint.Store.{append_diagnosed, latest, failure}
use bloom_service_runtime.AuditCheckpoint.Scan.{validate_cached_record}
use bloom_service_runtime.AuditCheckpoint.Store.Runs.{
  Operation, appends, reads, run, accepted_head-IsRetained, append_never_rolls_back,
  latest_never_rolls_back,
}

-- The parts of a text between its zero bytes.
abbrev onto_first : ℕ → List Bytes → List Bytes
onto_first b [] = (b ∷ []) ∷ []
onto_first b (part ∷ parts) = (b ∷ part) ∷ parts

split : Bytes → List Bytes
split [] = [] ∷ []
split (b ∷ bs) = let parts = split bs in if b == 0 then [] ∷ parts else onto_first b parts

abbrev from_parts : List Bytes → Option CheckpointRecord
from_parts (schema ∷ recipient ∷ service ∷ sequence ∷ hash ∷ key ∷ signature ∷ []) = some (record {
  schema = record { text = schema };
  recipient_service_id = record { text = recipient };
  peer_head = record {
    service_id = record { text = service };
    sequence = record { text = sequence };
    head_hash = record { text = hash };
    key_id = record { text = key };
    signature = record { encoded = signature };
  };
})
from_parts _ = none

abbrev codec : RecordCodec
unfolding split
codec = record {
  to_vec = λ r. some (
      r.schema.text
      ++ (0
          ∷ (r.recipient_service_id.text
              ++ (0
                  ∷ (r.peer_head.service_id.text
                      ++ (0
                          ∷ (r.peer_head.sequence.text
                              ++ (0
                                  ∷ (r.peer_head.head_hash.text
                                      ++ (0
                                          ∷ (r.peer_head.key_id.text
                                              ++ (0 ∷ r.peer_head.signature.encoded))))))))))));
  from_slice = λ bytes. from_parts (split bytes);
}

abbrev token : Bytes → Token
token text = record { text = text }

abbrev broker : Token
broker = token (codes "broker")

abbrev peer_key : Bytes
unfolding pad
peer_key = pad 32 (codes "seed")

abbrev store : Store sample
unfolding encode decode cons? digit undigit pad
store = record {
  has_parent = true;
  expected_uid = 7;
  recipient_service_id = token (codes "signer");
  peer_keys =
      (
        broker,
        record { current_key_id = token (codes "k1"); keys = (token (codes "k1"), peer_key) ∷ [] },
      )
      ∷ [];
  handovers = [];
}

-- A head of the broker with this sequence, which the sample signature accepts.
abbrev head_at : Bytes → SignedJournalHead
unfolding encode digit pad
head_at sequence = record {
  service_id = broker;
  sequence = record { text = sequence };
  head_hash = record {
    text = codes "0000000000000000000000000000000000000000000000000000000000000000";
  };
  key_id = token (codes "k1");
  signature = record {
    encoded =
        encode (pad 64 (peer_key ++ (codes "bloom-audit-journal-head/v1" ++ (0 ∷ codes "brok"))));
  };
}

abbrev root : Metadata
root = record {
  file_type = directory;
  uid = 7;
  gid = 7;
  mode = 0o40700;
  nlink = 2;
  device = 1;
  inode = 2;
  modified = (100, 0);
  changed = (100, 0);
}

abbrev opened : World
opened = record {
  disk = record { root = root; entries = []; temporaries = []; now = (200, 5) };
  schedule = after (λ d. d) ∷ [];
  counter = 0;
  cache = record { root_stamp = stamp_of root; latest = [] };
  poisoned = false;
}

abbrev five : SignedJournalHead
unfolding encode digit pad
five = head_at (codes "5")

abbrev seven : SignedJournalHead
unfolding encode digit pad
seven = head_at (codes "7")

abbrev nine : SignedJournalHead
unfolding encode digit pad
nine = head_at (codes "9")

abbrev three : SignedJournalHead
unfolding encode digit pad
three = head_at (codes "3")

abbrev accepted : SignedJournalHead → ℕ → CheckpointDecision
accepted head sequence =
    let metadata : CheckpointHeadMetadata = record {
      service_id = head.service_id;
      key_id = head.key_id;
      sequence = sequence;
      head_digest = head.head_hash.text;
    } in
    record {
      recipient_service_id = some store.recipient_service_id;
      attempted = metadata;
      retained = some metadata;
      outcome = CheckpointDecisionOutcome.appended;
    }

append_five : (append_diagnosed sample codec store five opened).0 ≡ ok (accepted five 5)
unfolding append_diagnosed latest run encode decode cons? digit undigit pad signature_bytes
    base64_to_bytes signature_message head_message decimal_u64_get hex_from_bytes list_beq lookup
    insert remove checkpoint_filename sequence_of head_metadata split
append_five = refl

-- A lower head is refused, and the retained one is read, in between.
abbrev calls : List Operation
unfolding encode digit pad
calls = appends seven ∷ appends three ∷ reads (broker) ∷ []

abbrev later : World
unfolding run
later = run sample codec store calls (append_diagnosed sample codec store five opened).1

append_nine : (append_diagnosed sample codec store nine later).0 ≡ ok (accepted nine 9)
unfolding append_diagnosed latest run encode decode cons? digit undigit pad signature_bytes
    base64_to_bytes signature_message head_message decimal_u64_get hex_from_bytes list_beq lookup
    insert remove checkpoint_filename sequence_of head_metadata split discard_temporary
    validate_cached_record
append_nine = refl

latest_seven : (latest sample codec store (broker) later).0 ≡ ok (some seven)
unfolding append_diagnosed latest run encode decode cons? digit undigit pad signature_bytes
    base64_to_bytes signature_message head_message decimal_u64_get hex_from_bytes list_beq lookup
    insert remove checkpoint_filename sequence_of head_metadata split discard_temporary
    validate_cached_record
latest_seven = refl

abbrev source_of : Result CheckpointDecision (Stop CheckpointAppendError) → Option CheckpointError
source_of (err (failed e)) = some e.source
source_of _ = none

append_three :
    source_of (append_diagnosed sample codec store three later).0 ≡ some sequence_rollback
unfolding append_diagnosed latest run encode decode cons? digit undigit pad signature_bytes
    base64_to_bytes signature_message head_message decimal_u64_get hex_from_bytes list_beq lookup
    insert remove checkpoint_filename sequence_of head_metadata split discard_temporary
    validate_cached_record failure
append_three = refl

honest : IsHonest opened.schedule
honest = (Grows-refl, tt)

accepted_head-IsRetained_example :
    IsRetained sample codec
      (broker)
      (sequence_of five)
      (run sample codec store calls (append_diagnosed sample codec store five opened).1)
unfolding five
accepted_head-IsRetained_example =
    accepted_head-IsRetained sample codec store five opened (accepted five 5) calls honest
      append_five

append_never_rolls_back_example : sequence_of five ≤ sequence_of nine
unfolding run five nine
append_never_rolls_back_example =
    append_never_rolls_back sample codec store five nine opened (accepted five 5) (accepted nine 9)
      calls honest refl append_five append_nine

latest_never_rolls_back_example : Reaches sample codec store (sequence_of five) (some seven)
unfolding run five
latest_never_rolls_back_example =
    latest_never_rolls_back sample codec store five opened (accepted five 5) calls (some seven)
      honest append_five latest_seven

verify_live_head_iff_example :
    (verify_live_head sample store.peer_keys five ≡ ok tt) ↔ IsLiveHead sample store.peer_keys five
verify_live_head_iff_example = verify_live_head_iff sample store.peer_keys five

append_requires-IsLiveHead_example : IsLiveHead sample store.peer_keys five
append_requires-IsLiveHead_example =
    append_requires-IsLiveHead sample codec store five opened (accepted five 5) append_five

abbrev record_of : SignedJournalHead → CheckpointRecord
record_of head = record {
  schema = token checkpoint_schema;
  recipient_service_id = token (codes "signer");
  peer_head = head;
}

sorted_records :
    verify_record_chains sample [] (record_of seven ∷ record_of five ∷ [])
    ≡ ok (record_of five ∷ record_of seven ∷ [])
unfolding verify_record_chains check_step five seven sequence_of decimal_u64_get lookup insert
    list_beq head_at valid_equal_sequence_handover
sorted_records = refl

accepted_history_links_example : Follows sample [] five seven
unfolding five seven
accepted_history_links_example =
    accepted_history_links sample [] (record_of seven ∷ record_of five ∷ []) (record_of five)
      (record_of seven) [] [] [] sorted_records refl tt

-- The directory that the calls leave, for a new process.
abbrev fresh : World
unfolding later
fresh = record opened { disk = later.disk; schedule = [] }

abbrev pins : List (PinnedAuditKey sample)
unfolding peer_key encode decode cons? digit undigit pad
pins = (record { service_id = broker; key_id = token (codes "k1"); verifying_key = peer_key }) ∷ []

reopened :
    (open_with_history sample codec true 7 (token (codes "signer")) pins [] [] fresh).0 ≡ ok store
unfolding open_with_history append_diagnosed run encode decode cons? digit undigit pad
    signature_bytes base64_to_bytes signature_message head_message decimal_u64_get hex_from_bytes
    list_beq lookup insert remove checkpoint_filename sequence_of head_metadata split
    discard_temporary validate_cached_record store peer_key valid_equal_sequence_handover latest
reopened = refl

accepted_head_survives_restart_example :
    IsRetained sample codec broker
      (sequence_of five)
      (open_with_history sample codec true 7 (token (codes "signer")) pins [] [] fresh).1
unfolding fresh five
accepted_head_survives_restart_example =
    accepted_head_survives_restart sample codec store five opened (accepted five 5) calls true 7
      (token (codes "signer")) pins [] [] fresh store honest append_five refl tt reopened
