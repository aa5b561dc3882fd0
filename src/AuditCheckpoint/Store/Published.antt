-- ===== src/AuditCheckpoint/Store/Published.antt =====
-- Publishing a head that is not behind keeps what the checkpoint store retains of a service.
use bloom_service_runtime.Prelude.{
  ℕ, ◌≤◌, nat_eq, Option, none, some, Result, ok, err, ◌≡◌, ◌∙◌, arith, lookup-insert, Bool-cases,
  inl, inr, list_beq,
}
use bloom_service_runtime.RpcWire.External.{External}
use bloom_service_runtime.RpcWire.Token.{Token, token_eq, token_beq_iff}
use bloom_service_runtime.RpcWire.Audit.{SignedJournalHead, head_eq}
use bloom_service_runtime.AuditCheckpoint.Record.{
  CheckpointHeadMetadata, Stop, failed, panicked, sequence_of,
}
use bloom_service_runtime.AuditCheckpoint.Disk.{
  Action, World, RootStamp, annotate, map_failure, stamp_eq, discard_temporary,
}
use bloom_service_runtime.AuditCheckpoint.Disk.Honest.{
  Grows-refl, IsQuiet, IsQuiet-lift, IsQuiet-syscall,
}
use bloom_service_runtime.AuditCheckpoint.Entries.{RecordCodec, Store}
use bloom_service_runtime.AuditCheckpoint.Scan.{root_stamp, validate_exact_record}
use bloom_service_runtime.AuditCheckpoint.Scan.Quiet.{
  IsQuiet-root_stamp, IsQuiet-validate_exact_record, IsQuiet-validate_cached_record,
}
use bloom_service_runtime.AuditCheckpoint.Scan.Exact.{HasHead, validate_exact_record-HasHead}
use bloom_service_runtime.AuditCheckpoint.Publish.{
  Publication, published, PreparedPublication, dropping, rescan, retain, prepare_publication,
  publish_prepared, finalize_publication,
}
use bloom_service_runtime.AuditCheckpoint.Publish.Quiet.{
  IsQuiet-discard_temporary, IsQuiet-prepare_publication, IsQuiet-publish_prepared,
}
use bloom_service_runtime.AuditCheckpoint.Store.{
  lock_directory, check_sequence, validate_latest, publish, publish_and_finalize, failure,
}
use bloom_service_runtime.AuditCheckpoint.Store.Retained.{
  IsGood, IsQuiet-IsGood, IsGood-chain, rescan-IsGood, Grows-HasHead,
}

pub annotate_ok {ℓ κ ι} :
    {E : Type ℓ} {F : Type κ} {A : Type ι} (f : E → F) (m : Action E A) (w : World) {a : A}
    → (annotate f m w).0 ≡ ok a
    → (m w).0 ≡ ok a
annotate_ok {E = E} {A = A} f m w {a} h = from_result (m w).0 h
  where
    from_result : (r : Result A (Stop E)) → map_failure f r ≡ ok a → r ≡ ok a
    from_result (ok b) k = cc
    from_result (err (failed e)) k = cc
    from_result (err panicked) k = cc

pub IsQuiet-lock_directory : IsQuiet lock_directory
unfolding lock_directory
IsQuiet-lock_directory = IsQuiet-syscall _ Grows-refl

module _ (x : External) (codec : RecordCodec) (store : Store x) where
  pub check_sequence-le :
      (latest head : SignedJournalHead)
      → check_sequence x codec store latest head ≡ ok tt
      → sequence_of latest ≤ sequence_of head
  unfolding check_sequence
  check_sequence-le latest head h = ground arith

  pub IsQuiet-validate_latest :
      (latest : Option SignedJournalHead) → IsQuiet (validate_latest x codec store latest)
  IsQuiet-validate_latest none = IsQuiet-lift _
  IsQuiet-validate_latest (some head) = IsQuiet-validate_cached_record x codec store head

  module _ (service_id : Token) (n : ℕ) where
    abbrev pub Good : World → Type 0
    Good = IsGood x codec service_id n

    -- If it is a head of the service, it is not behind.
    abbrev pub IsAhead : SignedJournalHead → Type 0
    IsAhead head = head.service_id ≡ service_id → n ≤ sequence_of head

    retain-IsGood :
        (head : SignedJournalHead) (stamp : RootStamp) (w : World)
        → IsAhead head
        → HasHead x codec w.disk head
        → Good w
        → Good (retain x codec store head stamp w).1
    unfolding retain
    retain-IsGood head stamp w ahead held g = record {
      honest = g.honest;
      retained = elim (Bool-cases (list_beq head.service_id.text service_id.text)) [
        | inl same ↦
            let eq = (token_beq_iff head.service_id service_id).0 same in
            record {
              head = head;
              found = lookup-insert head.service_id service_id _ w.cache.latest ∙ rw same;
              reached = ahead eq;
              of_service = eq;
              on_disk = held;
            }
        | inr other ↦ record {
          head = g.retained.head;
          found =
              lookup-insert head.service_id service_id _ w.cache.latest ∙ rw other g.retained.found;
          reached = g.retained.reached;
          of_service = g.retained.of_service;
          on_disk = g.retained.on_disk;
        }
      ];
    }

    finalize_publication-IsGood :
        (head : SignedJournalHead) (prepared : PreparedPublication) (made : Publication) (w : World)
        → IsAhead head
        → Good w
        → Good (finalize_publication x codec store head prepared made w).1
    unfolding finalize_publication
    finalize_publication-IsGood head prepared Publication.already_present w ahead g =
        IsGood-chain x codec service_id n (rescan x codec store w) _
          (rescan-IsGood x codec service_id n store w g)
          λ _ _. rescan-IsGood x codec service_id n store w g
    finalize_publication-IsGood head prepared published w ahead g =
        let check = validate_exact_record x codec store prepared.path prepared.bytes head in
        let checked =
          IsQuiet-IsGood x codec service_id n check w
            (IsQuiet-validate_exact_record x codec store _ _ head) g in
        let quiet = IsQuiet-root_stamp x codec store in
        let stamped =
          IsQuiet-IsGood x codec service_id n (root_stamp x codec store) (check w).1 quiet
            checked in
        IsGood-chain x codec service_id n (check w) _ checked λ u passed.
          IsGood-chain x codec service_id n (root_stamp x codec store (check w).1) _ stamped
            λ stamp _.
              retain-IsGood head stamp (root_stamp x codec store (check w).1).1 ahead
                (Grows-HasHead (quiet.onward (check w).1 checked.honest).grown (
                  validate_exact_record-HasHead x codec store prepared.path prepared.bytes head w
                    passed))
                stamped

    pub dropping-IsGood {ℓ} :
        {E : Type ℓ} {A : Type 0} (k : ℕ) (m : Action E A) (w : World)
        → Good (m w).1
        → Good (dropping k m w).1
    dropping-IsGood {E = E} k m w g =
        IsQuiet-IsGood x codec service_id n (discard_temporary {E = E} k) (m w).1
          (IsQuiet-discard_temporary k) g

    publish_and_finalize-IsGood :
        (attempted : CheckpointHeadMetadata) (head : SignedJournalHead)
        (prepared : PreparedPublication) (w : World)
        → IsAhead head
        → Good w
        → Good (publish_and_finalize x codec store attempted head prepared w).1
    unfolding publish_and_finalize
    publish_and_finalize-IsGood attempted head prepared w ahead g =
        let made = publish_prepared x codec store prepared head in
        let made_good =
          IsQuiet-IsGood x codec service_id n made w
            (IsQuiet-publish_prepared x codec store prepared head) g in
        IsGood-chain x codec service_id n (annotate (failure x codec store attempted none) made w) _
          made_good
          λ publication _.
            let final =
              finalize_publication-IsGood head prepared publication (made w).1 ahead made_good in
            IsGood-chain x codec service_id n
              (annotate (failure x codec store attempted none)
                (finalize_publication x codec store head prepared publication) (made w).1)
              _ final (λ outcome _. final)

    pub publish-IsGood :
        (attempted : CheckpointHeadMetadata) (latest : Option SignedJournalHead)
        (head : SignedJournalHead) (w : World)
        → IsAhead head
        → Good w
        → Good (publish x codec store attempted latest head w).1
    unfolding publish
    publish-IsGood attempted latest head w ahead g =
        let prepare = prepare_publication x codec store head in
        let prepared_good =
          IsQuiet-IsGood x codec service_id n prepare w
            (IsQuiet-prepare_publication x codec store head) g in
        IsGood-chain x codec service_id n
          (annotate (failure x codec store attempted latest) prepare w) _ prepared_good
          λ prepared _.
            dropping-IsGood prepared.temporary
              (publish_and_finalize x codec store attempted head prepared) (prepare w).1
              (publish_and_finalize-IsGood attempted head prepared (prepare w).1 ahead
                prepared_good)
