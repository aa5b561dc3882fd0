-- ===== src/AuditCheckpoint/Scan/Collected.antt =====
-- The latest heads of a verified chain of records: none is behind a record of its service.
use bloom_service_runtime.Prelude.{
  ℕ, ◌≤◌, Option, none, some, List, [], ◌∷◌, ok, ◌≡◌, refl, sym, subst, ◌∙◌, ap, ◌⊎◌, inl, inr,
  arith, lookup, insert, lookup-insert, lookup-insert_self, >>=-eq-ok, reject_if, ltb, Bool-cases,
  list_beq, list_eq, nat_eq,
}
use bloom_service_runtime.RpcWire.External.{External}
use bloom_service_runtime.RpcWire.Token.{Token, token_eq, token_beq_iff}
use bloom_service_runtime.RpcWire.Audit.{SignedJournalHead}
use bloom_service_runtime.AuditCheckpoint.Record.{
  CheckpointRecord, failed, sequence_rollback, sequence_of,
}
use bloom_service_runtime.AuditCheckpoint.Keys.{Handovers}
use bloom_service_runtime.AuditCheckpoint.Chain.{
  Latest, Consumed, check_step, check_after, verify_chains,
}
use bloom_service_runtime.AuditCheckpoint.Chain.Sorted.{Member, here, there}
use bloom_service_runtime.AuditCheckpoint.Scan.{collect, last_of}

-- The latest head of a service in a map, at or after a sequence.
pub record LatestFrom (m : Latest) (service_id : Token) (n : ℕ)
    (origin : SignedJournalHead → Type 0) : Type 0 where
  pub head : SignedJournalHead
  pub found : lookup service_id m ≡ some head
  pub reached : n ≤ sequence_of head
  pub origin_of : origin head

-- The heads of a service among records.
abbrev pub HeadOf : List CheckpointRecord → Token → SignedJournalHead → Type 0
HeadOf rs service_id head =
    (r : CheckpointRecord) × Member r rs
    × (r.peer_head ≡ head)
    × (r.peer_head.service_id ≡ service_id)

module _ (x : External) (handovers : Handovers x) where
  check_step-rises :
      (previous head : SignedJournalHead) (consumed consumed' : Consumed)
      → check_step x handovers previous head consumed ≡ ok consumed'
      → sequence_of previous ≤ sequence_of head
  unfolding check_step
  check_step-rises previous head consumed consumed' h =
      let (u, e, _) =
        >>=-eq-ok
          (reject_if (ltb (sequence_of head) (sequence_of previous)) (failed sequence_rollback)) _
          h in
      ground (arith, e)

  -- What a service has before a record is checked, it does not fall behind.
  pub collect_rises :
      (latest : Latest) (consumed : Consumed) (rs : List CheckpointRecord) (service_id : Token)
      (old : SignedJournalHead)
      → verify_chains x handovers latest consumed rs ≡ ok tt
      → lookup service_id latest ≡ some old
      → LatestFrom
          (collect latest rs)
          service_id
          (sequence_of old)
          (λ head. (head ≡ old) ⊎ HeadOf rs service_id head)
  unfolding verify_chains collect
  collect_rises latest consumed [] service_id old h e = record {
    head = old;
    found = e;
    reached = omega arith;
    origin_of = inl refl;
  }
  collect_rises latest consumed (r ∷ rs) service_id old h e =
      let (consumed', checked, rest) =
        >>=-eq-ok
          (check_after x handovers (lookup r.peer_head.service_id latest) r.peer_head consumed) _
          h in
      let next = insert r.peer_head.service_id r.peer_head latest in
      elim (Bool-cases (list_beq r.peer_head.service_id.text service_id.text)) [
        | inl same ↦
            let eq : r.peer_head.service_id ≡ service_id =
              (token_beq_iff r.peer_head.service_id service_id).0 same in
            let known : lookup r.peer_head.service_id latest ≡ some old =
              ap (λ (s : Token). lookup s latest) eq ∙ e in
            let stepped =
              check_step-rises old r.peer_head consumed consumed' (rw known at checked) in
            let after =
              collect_rises next consumed' rs service_id r.peer_head rest
                (lookup-insert _ service_id _ latest ∙ rw same) in
            record {
              head = after.head;
              found = after.found;
              reached = omega (arith, stepped, after.reached);
              origin_of = elim after.origin_of [
                | inl k ↦ inr (r, here refl, sym k, eq)
                | inr k ↦ inr (k.0, there k.1, k.2, k.3)
              ];
            }
        | inr other ↦
            let after =
              collect_rises next consumed' rs service_id old rest
                (lookup-insert _ service_id _ latest ∙ rw other e) in
            record {
              head = after.head;
              found = after.found;
              reached = after.reached;
              origin_of = elim after.origin_of [
                | inl k ↦ inl k
                | inr k ↦ inr (k.0, there k.1, k.2, k.3)
              ];
            }
      ]

  -- The latest head of a service is that of a record, and no record of the service is ahead of it.
  pub collect_covers :
      (latest : Latest) (consumed : Consumed) (rs : List CheckpointRecord) (r : CheckpointRecord)
      → verify_chains x handovers latest consumed rs ≡ ok tt
      → Member r rs
      → LatestFrom
          (collect latest rs)
          r.peer_head.service_id
          (sequence_of r.peer_head)
          (HeadOf rs r.peer_head.service_id)
  unfolding verify_chains collect
  collect_covers latest consumed [] r h m = elim m [ ]
  collect_covers latest consumed (s ∷ rs) r h (here e) =
      let (consumed', checked, rest) =
        >>=-eq-ok
          (check_after x handovers (lookup s.peer_head.service_id latest) s.peer_head consumed) _
          h in
      let after =
        collect_rises (insert s.peer_head.service_id s.peer_head latest) consumed' rs
          s.peer_head.service_id s.peer_head rest
          (lookup-insert_self s.peer_head.service_id _ latest) in
      subst
        (λ (k : CheckpointRecord).
          LatestFrom (collect latest (s ∷ rs)) k.peer_head.service_id (sequence_of k.peer_head)
            (HeadOf (s ∷ rs) k.peer_head.service_id))
        e
        (record {
          head = after.head;
          found = after.found;
          reached = after.reached;
          origin_of = elim after.origin_of [
            | inl k ↦ (s, here refl, sym k, refl)
            | inr k ↦ (k.0, there k.1, k.2, k.3)
          ];
        })
  collect_covers latest consumed (s ∷ rs) r h (there m) =
      let (consumed', checked, rest) =
        >>=-eq-ok
          (check_after x handovers (lookup s.peer_head.service_id latest) s.peer_head consumed) _
          h in
      let after =
        collect_covers (insert s.peer_head.service_id s.peer_head latest) consumed' rs r rest m in
      record {
        head = after.head;
        found = after.found;
        reached = after.reached;
        origin_of =
            (after.origin_of.0, there after.origin_of.1, after.origin_of.2, after.origin_of.3);
      }

-- The last head of a service in a list is the one that the map of the list holds.
abbrev pub or_else {ℓ} : {A : Type ℓ} → Option A → Option A → Option A
or_else (some a) other = some a
or_else none other = other

pub collect-last_of :
    (latest : Latest) (rs : List CheckpointRecord) (service_id : Token)
    → lookup service_id (collect latest rs)
      ≡ or_else (last_of service_id rs) (lookup service_id latest)
unfolding collect last_of
collect-last_of latest [] service_id = refl
collect-last_of latest (r ∷ rs) service_id = ground (
  arith,
  collect-last_of (insert r.peer_head.service_id r.peer_head latest) rs service_id,
  lookup-insert r.peer_head.service_id service_id r.peer_head latest,
)

pub collect-last_of_all :
    (rs : List CheckpointRecord) (service_id : Token)
    → lookup service_id (collect [] rs) ≡ last_of service_id rs
unfolding lookup
collect-last_of_all rs service_id =
    collect-last_of [] rs service_id ∙ unchanged (last_of service_id rs)
  where
    unchanged : (o : Option SignedJournalHead) → or_else o none ≡ o
    unchanged none = refl
    unchanged (some h) = refl
