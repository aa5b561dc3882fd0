-- ===== src/AuditCheckpoint/Chain/Follows.antt =====
-- What two records of one service must satisfy that follow each other in a verified history.
use bloom_service_runtime.Prelude.{
  ◌≤◌, Bool, true, false, not, ◌&&◌, ◌||◌, Option, some, List, [], ◌∷◌, ◌++◌, ok, ◌≡◌, ◌≢◌, ◌⊎◌,
  inl, inr, refl, sym, subst, ◌∙◌, ap, arith, All, lookup, insert, lookup-insert,
  lookup-insert_self, >>=-eq-ok, ok_or, ok_or-eq-ok, reject_if, reject_if-eq-ok, ◌==◌, ◌!=◌, ltb,
  list_eq, nat_eq, if◌then◌else◌, ok_injective,
}
use bloom_service_runtime.RpcWire.External.{External}
use bloom_service_runtime.RpcWire.Token.{Token, token_eq, token_beq_iff}
use bloom_service_runtime.RpcWire.Hex.{hex_eq, hex_beq_iff}
use bloom_service_runtime.RpcWire.Decimal.{decimal_u64_eq, decimal_u64_beq_iff}
use bloom_service_runtime.RpcWire.Audit.{SignedJournalHead, head_eq, head_beq_iff}
use bloom_service_runtime.AuditCheckpoint.Record.{
  CheckpointRecord, failed, sequence_rollback, sequence_conflict, sequence_of,
}
use bloom_service_runtime.AuditCheckpoint.Keys.{ApplicationKeyHandover, Handovers, pair_eq}
use bloom_service_runtime.AuditCheckpoint.Chain.{
  Latest, Consumed, was_consumed, same_key_step, handover_step, check_step, check_after,
  verify_chains, verify_record_chains, sort_records,
}

-- The handover that packaging provides from one head to another.
pub record IsAuthorized (x : External) (handovers : Handovers x) (previous head : SignedJournalHead)
    : Type 0 where
  pub handover : ApplicationKeyHandover
  pub provided : lookup (head.service_id, head.key_id) handovers ≡ some handover
  pub from_key : handover.old_key_id ≡ previous.key_id
  pub at_sequence : handover.sequence ≡ previous.sequence
  pub at_hash : handover.head_hash ≡ previous.head_hash
  pub continues : (head.sequence ≢ previous.sequence) ⊎ (head.head_hash ≡ previous.head_hash)

-- The same key at another sequence, or the same head; or another key, by a handover.
pub data Link (x : External) (handovers : Handovers x) (previous head : SignedJournalHead)
    : Type 0 where
  same_key :
      head.key_id ≡ previous.key_id
      → (head.sequence ≢ previous.sequence) ⊎ (head ≡ previous)
      → Link x handovers previous head
  by_handover :
      head.key_id ≢ previous.key_id
      → IsAuthorized x handovers previous head
      → Link x handovers previous head

pub record Follows (x : External) (handovers : Handovers x) (previous head : SignedJournalHead)
    : Type 0 where
  pub order : sequence_of previous ≤ sequence_of head
  pub link : Link x handovers previous head

module _ (x : External) (handovers : Handovers x) where
  either_not : (p q : Bool) → (p && not q) ≡ false → (p ≡ false) ⊎ (q ≡ true)
  either_not true true h = inr refl
  either_not true false h = cc
  either_not false q h = inl refl

  same_key_step_sound :
      (previous head : SignedJournalHead) (consumed consumed' : Consumed)
      → same_key_step x handovers previous head consumed ≡ ok consumed'
      → (head.sequence ≢ previous.sequence) ⊎ (head ≡ previous)
  unfolding same_key_step
  same_key_step_sound previous head consumed consumed' h =
      let same = head.sequence == previous.sequence in
      let (u, a, _) =
        >>=-eq-ok (reject_if (same && head != previous) (failed sequence_conflict)) _ h in
      elim (either_not same (head == previous) ((reject_if-eq-ok _ _).0 a)) [
        | inl other ↦ inl λ e. cc ((decimal_u64_beq_iff head.sequence previous.sequence).1 e, other)
        | inr equal ↦ inr ((head_beq_iff head previous).0 equal)
      ]

  handover_step_sound :
      (previous head : SignedJournalHead) (consumed consumed' : Consumed)
      → handover_step x handovers previous head consumed ≡ ok consumed'
      → IsAuthorized x handovers previous head
  unfolding handover_step
  handover_step_sound previous head consumed consumed' h =
      let (handover, a, h1) =
        >>=-eq-ok
          (ok_or (lookup (head.service_id, head.key_id) handovers) (failed sequence_conflict)) _
          h in
      let same = head.sequence == previous.sequence in
      let (u, b, _) =
        >>=-eq-ok
          (reject_if
            (was_consumed (lookup (head.service_id, head.key_id) consumed)
              || handover.old_key_id != previous.key_id
              || handover.sequence != previous.sequence
              || handover.head_hash != previous.head_hash
              || same && head.head_hash != previous.head_hash)
            (failed sequence_conflict))
          _ h1 in
      record {
        handover = handover;
        provided = ok_or-eq-ok _ _ a;
        from_key = (token_beq_iff handover.old_key_id previous.key_id).0 (ground (arith, b));
        at_sequence =
            (decimal_u64_beq_iff handover.sequence previous.sequence).0 (ground (arith, b));
        at_hash = (hex_beq_iff handover.head_hash previous.head_hash).0 (ground (arith, b));
        continues =
            elim (either_not same (head.head_hash == previous.head_hash) (ground (arith, b))) [
              | inl other ↦
                  inl λ e. cc ((decimal_u64_beq_iff head.sequence previous.sequence).1 e, other)
              | inr equal ↦ inr ((hex_beq_iff head.head_hash previous.head_hash).0 equal)
            ];
      }

  Link-of :
      (previous head : SignedJournalHead) (consumed consumed' : Consumed) (b : Bool)
      → (head.key_id == previous.key_id) ≡ b
      → (if b
          then same_key_step x handovers previous head consumed
          else handover_step x handovers previous head consumed)
        ≡ ok consumed'
      → Link x handovers previous head
  Link-of previous head consumed consumed' true is h =
      same_key ((token_beq_iff head.key_id previous.key_id).0 is)
        (same_key_step_sound previous head consumed consumed' h)
  Link-of previous head consumed consumed' false is h =
      by_handover (λ e. cc ((token_beq_iff head.key_id previous.key_id).1 e, is))
        (handover_step_sound previous head consumed consumed' h)

  check_step_sound :
      (previous head : SignedJournalHead) (consumed consumed' : Consumed)
      → check_step x handovers previous head consumed ≡ ok consumed'
      → Follows x handovers previous head
  unfolding check_step
  check_step_sound previous head consumed consumed' h =
      let (u, a, h1) =
        >>=-eq-ok
          (reject_if (ltb (sequence_of head) (sequence_of previous)) (failed sequence_rollback)) _
          h in
      record {
        order = ground (arith, a);
        link = Link-of previous head consumed consumed' (head.key_id == previous.key_id) refl h1;
      }

  -- From a record on, none of whose service stands before the next one.
  after_head :
      (a b : CheckpointRecord) (latest : Latest) (consumed : Consumed)
      (mid post : List CheckpointRecord)
      → lookup b.peer_head.service_id latest ≡ some a.peer_head
      → All (λ (r : CheckpointRecord). r.peer_head.service_id ≢ b.peer_head.service_id) mid
      → verify_chains x handovers latest consumed (mid ++ b ∷ post) ≡ ok tt
      → Follows x handovers a.peer_head b.peer_head
  unfolding verify_chains
  after_head a b latest consumed [] post e apart h =
      let (consumed', c, _) =
        >>=-eq-ok
          (check_after x handovers (lookup b.peer_head.service_id latest) b.peer_head consumed) _
          h in
      check_step_sound a.peer_head b.peer_head consumed consumed' (
        subst
          (λ (o : Option SignedJournalHead).
            check_after x handovers o b.peer_head consumed ≡ ok consumed')
          e c)
  after_head a b latest consumed (r ∷ mid) post e apart h =
      let (consumed', c, h1) =
        >>=-eq-ok
          (check_after x handovers (lookup r.peer_head.service_id latest) r.peer_head consumed) _
          h in
      let next = insert r.peer_head.service_id r.peer_head latest in
      let kept : lookup b.peer_head.service_id next ≡ some a.peer_head = ground (
        arith,
        lookup-insert r.peer_head.service_id b.peer_head.service_id r.peer_head latest,
        token_beq_iff r.peer_head.service_id b.peer_head.service_id,
        apart.0,
        e,
      ) in
      after_head a b next consumed' mid post kept apart.1 h1

  from_prefix :
      (a b : CheckpointRecord) (latest : Latest) (consumed : Consumed)
      (pre mid post : List CheckpointRecord)
      → a.peer_head.service_id ≡ b.peer_head.service_id
      → All (λ (r : CheckpointRecord). r.peer_head.service_id ≢ b.peer_head.service_id) mid
      → verify_chains x handovers latest consumed (pre ++ a ∷ (mid ++ b ∷ post)) ≡ ok tt
      → Follows x handovers a.peer_head b.peer_head
  unfolding verify_chains
  from_prefix a b latest consumed [] mid post same apart h =
      let (consumed', _, h1) =
        >>=-eq-ok
          (check_after x handovers (lookup a.peer_head.service_id latest) a.peer_head consumed) _
          h in
      let next = insert a.peer_head.service_id a.peer_head latest in
      after_head a b next consumed' mid post
        (ap (λ (s : Token). lookup s next) (sym same)
          ∙ lookup-insert_self a.peer_head.service_id a.peer_head latest)
        apart h1
  from_prefix a b latest consumed (r ∷ pre) mid post same apart h =
      let (consumed', _, h1) =
        >>=-eq-ok
          (check_after x handovers (lookup r.peer_head.service_id latest) r.peer_head consumed) _
          h in
      from_prefix a b (insert r.peer_head.service_id r.peer_head latest) consumed' pre mid post same
        apart h1

  -- In a history that is accepted, let two records of one service stand with none of that service
  -- between them. Then the sequence does not fall from the first to the second. If the key is the
  -- same, the sequence differs or the heads are equal; if it is another, packaging provides a
  -- handover of that service to the new key, from the key, sequence and hash of the first head,
  -- and the second keeps that hash if it keeps the sequence.
  pub accepted_history_links :
      (records : List CheckpointRecord) (a b : CheckpointRecord)
      (pre mid post : List CheckpointRecord)
      → verify_record_chains x handovers records ≡ ok (pre ++ a ∷ (mid ++ b ∷ post))
      → a.peer_head.service_id ≡ b.peer_head.service_id
      → All (λ (r : CheckpointRecord). r.peer_head.service_id ≢ b.peer_head.service_id) mid
      → Follows x handovers a.peer_head b.peer_head
  unfolding verify_record_chains
  accepted_history_links records a b pre mid post h same apart =
      let sorted = sort_records x handovers records in
      let (_, c, h1) = >>=-eq-ok (verify_chains x handovers [] [] sorted) _ h in
      let eq : sorted ≡ pre ++ a ∷ (mid ++ b ∷ post) = ok_injective h1 in
      from_prefix a b [] [] pre mid post same apart
        (subst (λ (rs : List CheckpointRecord). verify_chains x handovers [] [] rs ≡ ok tt) eq c)
