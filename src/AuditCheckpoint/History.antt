-- ===== src/AuditCheckpoint/History.antt =====
-- `AuthorityEdgeHistory`: the retired keys and the handovers that packaging provides.
use bloom_service_runtime.Prelude.{
  ℕ, ◌%◌, ◌/◌, Bytes, codes, length, Bool, false, not, ◌||◌, Option, List, [], ◌∷◌, Result, ok, err,
  ok_or, reject_if, ◌>>=◌, ◌>>◌, ◌==◌, ◌!=◌, nat_eq, list_eq, if◌then◌else◌,
}
use bloom_service_runtime.FileSystem.{Metadata, is_file, is_symlink}
use bloom_service_runtime.RpcWire.Error.{WireError}
use bloom_service_runtime.RpcWire.External.{External}
use bloom_service_runtime.RpcWire.Token.{Token, token_new, token_eq}
use bloom_service_runtime.AuditCheckpoint.Record.{CheckpointError, malformed, io}
use bloom_service_runtime.AuditCheckpoint.Keys.{ApplicationKeyHandover, PinnedAuditKey}

pub record AuthorityEdgeHistoricalKey : Type 0 where
  pub service_id : Bytes
  pub key_id : Bytes
  pub public_key_hex : Bytes

pub record AuthorityEdgeHistory : Type 0 where
  pub schema : Bytes
  pub historical_keys : List AuthorityEdgeHistoricalKey
  pub handovers : List ApplicationKeyHandover

abbrev pub history_schema : Bytes
history_schema = codes "bloom.authority-edge-application-history.1"

abbrev pub empty : AuthorityEdgeHistory
empty = record { schema = history_schema; historical_keys = []; handovers = [] }

-- `mode & 0o022 != 0`: the bits 4 and 1.
abbrev others_write : ℕ → Bool
others_write mode = mode / 16 % 2 == 1 || mode / 2 % 2 == 1

-- The metadata and the bytes of the file, and serde_json at a document, are the answers of the
-- system.
unfoldable pub load_trusted :
    (Bytes → Option AuthorityEdgeHistory)
    → Option Metadata
    → Option Bytes
    → ℕ
    → Result AuthorityEdgeHistory CheckpointError
load_trusted from_slice inspected contents expected_uid = do
  metadata ← ok_or inspected io
  reject_if
      (not (is_file metadata.file_type)
        || is_symlink metadata.file_type
        || metadata.uid != expected_uid
        || metadata.nlink != 1
        || others_write metadata.mode)
      malformed
  bytes ← ok_or contents io
  document ← ok_or (from_slice bytes) malformed
  reject_if (document.schema != history_schema) malformed
  ok document

abbrev malformed_token : Result Token WireError → Result Token CheckpointError
malformed_token (ok token) = ok token
malformed_token (err e) = err malformed

-- `services.iter().any(...)`
unfoldable pub names_service : List Token → Bytes → Bool
names_service [] name = false
names_service (service ∷ services) name = service.text == name || names_service services name

module _ (x : External) where
  unfoldable pub historical_pin :
      AuthorityEdgeHistoricalKey → Result (PinnedAuditKey x) CheckpointError
  unfolding token_new
  historical_pin entry = do
    bytes ← ok_or (x.hex_decode entry.public_key_hex) malformed
    reject_if (length bytes != 32) malformed
    service_id ← malformed_token (token_new entry.service_id)
    key_id ← malformed_token (token_new entry.key_id)
    verifying_key ← ok_or (x.verifying_key bytes) malformed
    ok (record { service_id = service_id; key_id = key_id; verifying_key = verifying_key })

  -- The chain of `filter`, `map` and `collect` stops at the first error.
  unfoldable pub historical_pins :
      List Token
      → List AuthorityEdgeHistoricalKey
      → Result (List (PinnedAuditKey x)) CheckpointError
  unfolding names_service historical_pin
  historical_pins services [] = ok []
  historical_pins services (entry ∷ entries) =
      let rest = historical_pins services entries in
      if names_service services entry.service_id
      then (historical_pin entry >>= λ pin. rest >>= λ pins. ok (pin ∷ pins))
      else rest

  unfoldable pub historical_pins_for :
      AuthorityEdgeHistory → List Token → Result (List (PinnedAuditKey x)) CheckpointError
  unfolding historical_pins
  historical_pins_for history services = historical_pins services history.historical_keys

-- `services.contains(...)`
unfoldable pub serves : List Token → Token → Bool
serves [] name = false
serves (service ∷ services) name = service == name || serves services name

unfoldable pub handovers_of : List Token → List ApplicationKeyHandover → List ApplicationKeyHandover
unfolding serves
handovers_of services [] = []
handovers_of services (handover ∷ handovers) =
    let rest = handovers_of services handovers in
    if serves services handover.service_id then handover ∷ rest else rest

unfoldable pub handovers_for : AuthorityEdgeHistory → List Token → List ApplicationKeyHandover
unfolding handovers_of
handovers_for history services = handovers_of services history.handovers
