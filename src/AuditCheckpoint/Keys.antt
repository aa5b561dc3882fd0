-- ===== src/AuditCheckpoint/Keys.antt =====
-- The pinned keys of the checkpoint store and their handovers: what
-- `CheckpointStore::open_with_history` collects, and the checks of a head against them.
pub mod Signed
use bloom_service_runtime.Prelude.{
  Bool, true, false, not, ◌&&◌, ◌||◌, Option, none, some, List, [], ◌∷◌, Result, ok, ◌>>=◌, ◌>>◌,
  ok_or, reject_if, map_err, ◌==◌, ◌!=◌, nat_eq, PartialEq, ◌≡◌, ◌↔◌, arith, lookup, insert,
  if◌then◌else◌,
}
use bloom_service_runtime.RpcWire.Error.{Failure, rejected}
use bloom_service_runtime.RpcWire.External.{External}
use bloom_service_runtime.RpcWire.Token.{Token, token_eq, token_beq_iff}
use bloom_service_runtime.RpcWire.Hex.{Digest32, hex_eq}
use bloom_service_runtime.RpcWire.Decimal.{DecimalU64, decimal_u64_eq}
use bloom_service_runtime.RpcWire.Signature.{signature_bytes}
use bloom_service_runtime.RpcWire.Audit.{SignedJournalHead, signature_message}
use bloom_service_runtime.AuditCheckpoint.Record.{
  CheckpointError, Stop, failed, panicked, fail, malformed, invalid_signature, unpinned_peer,
}

-- A handover authorizes `new_key_id` from the head of `old_key_id` that it names on.
pub record ApplicationKeyHandover : Type 0 where
  pub service_id : Token
  pub old_key_id : Token
  pub new_key_id : Token
  pub sequence : DecimalU64
  pub head_hash : Digest32

-- The key of `handovers`: a service and its new key.
abbrev pub pair_beq : Token × Token → Token × Token → Bool
pair_beq (a, b) (c, d) = a == c && b == d

pub pair_beq_iff : (p q : Token × Token) → (pair_beq p q ≡ true) ↔ (p ≡ q)
pair_beq_iff (a, b) (c, d) = ground (arith, token_beq_iff a c, token_beq_iff b d)

instance abbrev pub pair_eq : PartialEq (Token × Token)
pair_eq = record { same = pair_beq; same_iff = pair_beq_iff }

abbrev pub contains : Option ApplicationKeyHandover → Bool
contains none = false
contains (some _) = true

module _ (x : External) where
  pub record PinnedAuditKey : Type 0 where
    pub service_id : Token
    pub key_id : Token
    pub verifying_key : x.VerifyingKey

  pub record PeerKeySet : Type 0 where
    pub current_key_id : Token
    pub keys : List (Token × x.VerifyingKey)

  abbrev pub PeerKeys : Type 0
  PeerKeys = List (Token × PeerKeySet)

  abbrev pub Handovers : Type 0
  Handovers = List ((Token × Token) × ApplicationKeyHandover)

  abbrev pub has_key : PeerKeySet → Token → Bool
  has_key set key_id = elim (lookup key_id set.keys) [ none ↦ false | some _ ↦ true ]

  abbrev pub has_peer : PeerKeys → Token → Bool
  has_peer peers service_id = elim (lookup service_id peers) [ none ↦ false | some _ ↦ true ]

  -- The loop over `current_keys`.
  unfoldable pub pin_current :
      PeerKeys → List PinnedAuditKey → Result PeerKeys (Stop CheckpointError)
  unfolding lookup insert
  pin_current peers [] = ok peers
  pin_current peers (pinned ∷ rest) =
      let set : PeerKeySet = record {
        current_key_id = pinned.key_id;
        keys = (pinned.key_id, pinned.verifying_key) ∷ [];
      } in
      let after = pin_current (insert pinned.service_id set peers) rest in
      if has_peer peers pinned.service_id then fail malformed else after

  -- One round of the loop over `historical_keys`.
  unfoldable pub pin_history : PeerKeys → PinnedAuditKey → Result PeerKeys (Stop CheckpointError)
  unfolding lookup insert
  pin_history peers pinned = do
    set ← ok_or (lookup pinned.service_id peers) (failed malformed)
    reject_if (pinned.key_id == set.current_key_id || has_key set pinned.key_id) (failed malformed)
    ok (
        insert pinned.service_id
          (record set { keys = insert pinned.key_id pinned.verifying_key set.keys }) peers)

  unfoldable pub pin_historical :
      PeerKeys → List PinnedAuditKey → Result PeerKeys (Stop CheckpointError)
  unfolding pin_history
  pin_historical peers [] = ok peers
  pin_historical peers (pinned ∷ rest) = do
    peers' ← pin_history peers pinned
    pin_historical peers' rest

  -- One round of the loop over `handovers`.
  unfoldable pub add_handover :
      PeerKeys → Handovers → ApplicationKeyHandover → Result Handovers (Stop CheckpointError)
  unfolding lookup insert
  add_handover peers known handover = do
    set ← ok_or (lookup handover.service_id peers) (failed malformed)
    reject_if
        (handover.old_key_id == handover.new_key_id
          || not (has_key set handover.old_key_id)
          || not (has_key set handover.new_key_id))
        (failed malformed)
    reject_if (contains (lookup (handover.service_id, handover.new_key_id) known))
        (failed malformed)
    ok (insert (handover.service_id, handover.new_key_id) handover known)

  unfoldable pub add_handovers :
      PeerKeys → Handovers → List ApplicationKeyHandover → Result Handovers (Stop CheckpointError)
  unfolding add_handover
  add_handovers peers known [] = ok known
  add_handovers peers known (handover ∷ rest) = do
    known' ← add_handover peers known handover
    add_handovers peers known' rest

  -- `signature.decode().try_into()`: a failure of the conversion to 64 bytes is the error.
  abbrev pub signature_failure : Failure → Stop CheckpointError
  signature_failure (rejected _) = failed invalid_signature
  signature_failure Failure.panicked = panicked

  unfoldable pub verify_retained_head :
      PeerKeys → SignedJournalHead → Result (Unit {0}) (Stop CheckpointError)
  unfolding lookup
  verify_retained_head peers head = do
    set ← ok_or (lookup head.service_id peers) (failed unpinned_peer)
    verifying_key ← ok_or (lookup head.key_id set.keys) (failed unpinned_peer)
    bytes ← map_err signature_failure (signature_bytes x head.signature)
    message ← ok_or (signature_message head) panicked
    reject_if (not (x.verify verifying_key message bytes)) (failed invalid_signature)

  unfoldable pub verify_live_head :
      PeerKeys → SignedJournalHead → Result (Unit {0}) (Stop CheckpointError)
  unfolding lookup verify_retained_head
  verify_live_head peers head = do
    set ← ok_or (lookup head.service_id peers) (failed unpinned_peer)
    reject_if (set.current_key_id != head.key_id) (failed invalid_signature)
    verify_retained_head peers head

  abbrev hands_over : Option ApplicationKeyHandover → SignedJournalHead → Bool
  hands_over none old = false
  hands_over (some handover) old =
      handover.old_key_id == old.key_id
      && handover.sequence == old.sequence
      && handover.head_hash == old.head_hash

  unfoldable pub valid_handover : Handovers → SignedJournalHead → SignedJournalHead → Bool
  unfolding lookup
  valid_handover handovers old new =
      old.service_id == new.service_id
      && hands_over (lookup (new.service_id, new.key_id) handovers) old

  unfoldable pub valid_equal_sequence_handover :
      Handovers → SignedJournalHead → SignedJournalHead → Bool
  unfolding valid_handover
  valid_equal_sequence_handover handovers old new =
      old.sequence == new.sequence
      && old.head_hash == new.head_hash
      && valid_handover handovers old new
