-- ===== src/AuditCheckpoint/Chain.antt =====
-- `verify_record_chains` of the checkpoint store. `sort_by` on a slice is written out as the
-- insertion sort that the standard library runs on short slices; on longer ones any stable sort
-- gives the same result if the comparison is a total order.
pub mod Sorted
pub mod Follows
use bloom_service_runtime.Prelude.{
  ℕ, Bool, true, false, ◌&&◌, ◌||◌, Option, none, some, List, [], ◌∷◌, Result, ok, ◌>>=◌, ◌>>◌,
  ok_or, reject_if, ◌==◌, ◌!=◌, ltb, lookup, insert, if◌then◌else◌,
}
use Prim.Native.Nat.{Ordering, compare}
use mathlib.Core.List.{reverse}
use bloom_service_runtime.RpcWire.Token.{Token, token_eq}
use bloom_service_runtime.RpcWire.Hex.{hex_eq}
use bloom_service_runtime.RpcWire.Decimal.{decimal_u64_eq}
use bloom_service_runtime.RpcWire.Audit.{SignedJournalHead, head_eq}
use bloom_service_runtime.RpcWire.External.{External}
use bloom_service_runtime.AuditCheckpoint.Record.{
  CheckpointError, CheckpointRecord, Stop, failed, sequence_conflict, sequence_rollback,
  sequence_of,
}
use bloom_service_runtime.AuditCheckpoint.Keys.{Handovers, pair_eq, valid_equal_sequence_handover}

-- `Ord` of a text: lexicographic on its bytes.
unfoldable pub text_cmp : List ℕ → List ℕ → Ordering
text_cmp [] [] = Ordering.eq
text_cmp [] (b ∷ right) = Ordering.lt
text_cmp (a ∷ left) [] = Ordering.gt
text_cmp (a ∷ left) (b ∷ right) =
    let rest = text_cmp left right in
    elim (compare a b) [ Ordering.lt ↦ Ordering.lt | Ordering.gt ↦ Ordering.gt | _ ↦ rest ]

-- `then_with`
abbrev then_with : Ordering → Ordering → Ordering
then_with Ordering.eq next = next
then_with first next = first

abbrev is_less : Ordering → Bool
is_less Ordering.lt = true
is_less _ = false

-- The heads that each service has at the end.
abbrev pub Latest : Type 0
Latest = List (Token × SignedJournalHead)

abbrev pub Consumed : Type 0
Consumed = List ((Token × Token) × Unit {0})

abbrev pub was_consumed : Option (Unit {0}) → Bool
was_consumed none = false
was_consumed (some _) = true

module _ (x : External) (handovers : Handovers x) where
  unfoldable pub handover_order : SignedJournalHead → SignedJournalHead → Ordering
  unfolding text_cmp
  handover_order left right =
      if valid_equal_sequence_handover x handovers left right
      then Ordering.lt
      else if valid_equal_sequence_handover x handovers right left
      then Ordering.gt
      else text_cmp left.key_id.text right.key_id.text

  unfoldable pub record_order : SignedJournalHead → SignedJournalHead → Ordering
  unfolding text_cmp handover_order
  record_order left right =
      then_with (text_cmp left.service_id.text right.service_id.text)
        (then_with (compare (sequence_of left) (sequence_of right)) (handover_order left right))

  -- `sorted` holds the last record first.
  unfoldable pub insert_record : CheckpointRecord → List CheckpointRecord → List CheckpointRecord
  unfolding record_order
  insert_record r [] = r ∷ []
  insert_record r (s ∷ sorted) =
      let below = insert_record r sorted in
      if is_less (record_order r.peer_head s.peer_head) then s ∷ below else r ∷ s ∷ sorted

  unfoldable pub sort_onto : List CheckpointRecord → List CheckpointRecord → List CheckpointRecord
  unfolding insert_record
  sort_onto sorted [] = sorted
  sort_onto sorted (r ∷ records) = sort_onto (insert_record r sorted) records

  unfoldable pub sort_records : List CheckpointRecord → List CheckpointRecord
  unfolding sort_onto
  sort_records records = reverse (sort_onto [] records)

  -- A head by the key of the one before it.
  same_key_step :
      SignedJournalHead → SignedJournalHead → Consumed → Result Consumed (Stop CheckpointError)
  same_key_step previous head consumed = do
    reject_if (head.sequence == previous.sequence && head != previous) (failed sequence_conflict)
    ok consumed

  -- A head by another key.
  handover_step :
      SignedJournalHead → SignedJournalHead → Consumed → Result Consumed (Stop CheckpointError)
  unfolding lookup insert
  handover_step previous head consumed = do
    handover ← ok_or (lookup (head.service_id, head.key_id) handovers) (failed sequence_conflict)
    reject_if
        (was_consumed (lookup (head.service_id, head.key_id) consumed)
          || handover.old_key_id != previous.key_id
          || handover.sequence != previous.sequence
          || handover.head_hash != previous.head_hash
          || head.sequence == previous.sequence && head.head_hash != previous.head_hash)
        (failed sequence_conflict)
    ok (insert (head.service_id, head.key_id) tt consumed)

  -- The check of one head against the one before it; the handovers that are consumed come back.
  unfoldable pub check_step :
      SignedJournalHead → SignedJournalHead → Consumed → Result Consumed (Stop CheckpointError)
  unfolding same_key_step handover_step
  check_step previous head consumed = do
    reject_if (ltb (sequence_of head) (sequence_of previous)) (failed sequence_rollback)
    (if head.key_id == previous.key_id
        then same_key_step previous head consumed
        else handover_step previous head consumed)

  abbrev pub check_after :
      Option SignedJournalHead
      → SignedJournalHead
      → Consumed
      → Result Consumed (Stop CheckpointError)
  check_after none head consumed = ok consumed
  check_after (some previous) head consumed = check_step previous head consumed

  -- The loop over the sorted records.
  unfoldable pub verify_chains :
      Latest → Consumed → List CheckpointRecord → Result (Unit {0}) (Stop CheckpointError)
  unfolding check_step lookup insert
  verify_chains latest consumed [] = ok tt
  verify_chains latest consumed (r ∷ records) = do
    consumed' ← check_after (lookup r.peer_head.service_id latest) r.peer_head consumed
    verify_chains (insert r.peer_head.service_id r.peer_head latest) consumed' records

  -- The records come back sorted.
  unfoldable pub verify_record_chains :
      List CheckpointRecord → Result (List CheckpointRecord) (Stop CheckpointError)
  unfolding sort_records verify_chains
  verify_record_chains records =
      let sorted = sort_records records in verify_chains [] [] sorted >> ok sorted
