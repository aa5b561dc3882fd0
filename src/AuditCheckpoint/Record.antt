-- ===== src/AuditCheckpoint/Record.antt =====
-- The errors, the records and the evidence of the checkpoint store, and the file name of a head.
use bloom_service_runtime.Prelude.{
  ℕ, zero, suc, ◌+◌, ◌/◌, ◌%◌, Bytes, codes, Option, none, some, Result, err, [], ◌∷◌, ◌++◌,
}
use bloom_service_runtime.RpcWire.External.{External}
use bloom_service_runtime.RpcWire.Token.{Token}
use bloom_service_runtime.RpcWire.Hex.{hex_from_bytes}
use bloom_service_runtime.RpcWire.Decimal.{decimal_u64_get}
use bloom_service_runtime.RpcWire.Audit.{SignedJournalHead}

-- The text of `Malformed` and the cause of `Io` are left out.
pub data CheckpointError : Type 0 where
  invalid_root : CheckpointError
  wrong_owner : (expected_uid actual_uid : ℕ) → CheckpointError
  insecure_permissions malformed sequence_rollback sequence_conflict : CheckpointError
  invalid_signature unpinned_peer io : CheckpointError

-- How an operation stops early: with an error, or with the panic of an `expect` in a wire type.
pub data Stop {ℓ} (E : Type ℓ) : Type ℓ where
  failed : E → Stop E
  panicked : Stop E

abbrev pub fail {ℓ} : {A : Type ℓ} → CheckpointError → Result A (Stop CheckpointError)
fail e = err (failed e)

abbrev pub checkpoint_schema : Bytes
checkpoint_schema = codes "bloom.audit-checkpoint/1"

pub record CheckpointRecord : Type 0 where
  pub schema : Token
  pub recipient_service_id : Token
  pub peer_head : SignedJournalHead

pub data AppendOutcome : Type 0 where
  appended already_present : AppendOutcome

pub record CheckpointHeadMetadata : Type 0 where
  pub service_id : Token
  pub key_id : Token
  pub sequence : ℕ
  pub head_digest : Bytes

-- `sequence.get()`. Where it is `none` the source panics: each operation asks `head_metadata` or
-- `signature_message` first, which stop there.
unfoldable pub sequence_of : SignedJournalHead → ℕ
sequence_of head = elim (decimal_u64_get head.sequence) [ none ↦ 0 | some n ↦ n ]

-- `CheckpointHeadMetadata::from`; `none` is the panic of `sequence.get()`.
unfoldable pub head_metadata : SignedJournalHead → Option CheckpointHeadMetadata
head_metadata head = elim (decimal_u64_get head.sequence) [
  | none ↦ none
  | some sequence ↦ some (record {
    service_id = head.service_id;
    key_id = head.key_id;
    sequence = sequence;
    head_digest = head.head_hash.text;
  })
]

pub data CheckpointDecisionOutcome : Type 0 where
  appended already_present sequence_rollback sequence_conflict : CheckpointDecisionOutcome
  invalid_signature unpinned_peer storage_or_configuration_failure : CheckpointDecisionOutcome

unfoldable pub checkpoint_error_outcome : CheckpointError → CheckpointDecisionOutcome
checkpoint_error_outcome sequence_rollback = CheckpointDecisionOutcome.sequence_rollback
checkpoint_error_outcome sequence_conflict = CheckpointDecisionOutcome.sequence_conflict
checkpoint_error_outcome invalid_signature = CheckpointDecisionOutcome.invalid_signature
checkpoint_error_outcome unpinned_peer = CheckpointDecisionOutcome.unpinned_peer
checkpoint_error_outcome _ = storage_or_configuration_failure

-- The decision on an outcome of `append`.
abbrev pub outcome_of : AppendOutcome → CheckpointDecisionOutcome
outcome_of AppendOutcome.appended = CheckpointDecisionOutcome.appended
outcome_of AppendOutcome.already_present = CheckpointDecisionOutcome.already_present

pub record CheckpointDecision : Type 0 where
  pub recipient_service_id : Option Token
  pub attempted : CheckpointHeadMetadata
  pub retained : Option CheckpointHeadMetadata
  pub outcome : CheckpointDecisionOutcome

pub record CheckpointAppendError : Type 0 where
  pub source : CheckpointError
  pub decision : CheckpointDecision

-- The last digits of a number, as many as `width`.
unfoldable pub padded_digits : ℕ → ℕ → Bytes
padded_digits zero n = []
padded_digits (suc width) n = padded_digits width (n / 10) ++ (b'0' + n % 10) ∷ []

-- `{service_name}-{:020}-{key_name}.jcs`: a `u64` has at most 20 digits.
unfoldable pub checkpoint_filename : External → SignedJournalHead → Bytes
unfolding padded_digits
checkpoint_filename x head =
    let service_name = hex_from_bytes 32 x (x.sha256 head.service_id.text) in
    let key_name = hex_from_bytes 32 x (x.sha256 head.key_id.text) in
    service_name.text
    ++ (codes "-"
        ++ (padded_digits 20 (sequence_of head) ++ (codes "-" ++ (key_name.text ++ codes ".jcs"))))
