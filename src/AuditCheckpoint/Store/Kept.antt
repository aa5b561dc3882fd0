-- ===== src/AuditCheckpoint/Store/Kept.antt =====
-- `append_diagnosed` keeps what the checkpoint store retains of a service, whatever it answers.
use bloom_service_runtime.Prelude.{
  ℕ, ◌≤◌, nat_eq, Bool, true, false, Option, none, some, Result, ok, err, ◌≡◌, refl, sym, ◌∙◌, ap,
  arith, lookup, ◌==◌, if◌then◌else◌, ok_injective, some_injective, ok_or,
}
use bloom_service_runtime.RpcWire.External.{External}
use bloom_service_runtime.RpcWire.Token.{Token, token_eq}
use bloom_service_runtime.RpcWire.Audit.{SignedJournalHead, head_eq}
use bloom_service_runtime.AuditCheckpoint.Record.{
  CheckpointError, CheckpointHeadMetadata, CheckpointAppendError, CheckpointDecisionOutcome, Stop,
  failed, panicked, sequence_of, head_metadata, malformed,
}
use bloom_service_runtime.AuditCheckpoint.Keys.{verify_live_head}
use bloom_service_runtime.AuditCheckpoint.Disk.{
  Action, World, CheckpointState, ◌>>◌, pure, lift, annotate, stamp_eq,
}
use bloom_service_runtime.AuditCheckpoint.Disk.Honest.{Grows-refl, >>=-succeeds}
use bloom_service_runtime.AuditCheckpoint.Entries.{RecordCodec, Store}
use bloom_service_runtime.AuditCheckpoint.Scan.{root_stamp}
use bloom_service_runtime.AuditCheckpoint.Scan.Quiet.{IsQuiet-root_stamp}
use bloom_service_runtime.AuditCheckpoint.Publish.{rescan}
use bloom_service_runtime.AuditCheckpoint.Store.{
  lock_directory, locked, poison, check_latest, is_latest, validate_latest, reconciled_latest,
  publish, decide, append_locked, append_diagnosed, failure, decision,
}
use bloom_service_runtime.AuditCheckpoint.Store.Retained.{
  IsGood, IsQuiet-IsGood, IsGood-chain, Onward-IsGood, rescan-IsGood,
}
use bloom_service_runtime.AuditCheckpoint.Store.Published.{
  annotate_ok, IsQuiet-lock_directory, check_sequence-le, IsQuiet-validate_latest, publish-IsGood,
}

module _ (x : External) (codec : RecordCodec) (store : Store x) where
  -- The head that is read is that of the cache.
  pub reconciled_latest-reads :
      (service : Token) (w : World) (latest : Option SignedJournalHead)
      → (reconciled_latest x codec store service w).0 ≡ ok latest
      → latest ≡ lookup service (reconciled_latest x codec store service w).1.cache.latest
  unfolding reconciled_latest
  reconciled_latest-reads service w latest h =
      let (stamp, a, h1, w1) = >>=-succeeds (root_stamp x codec store) _ w h in
      let v = (root_stamp x codec store w).1 in
      let (_, b, h2, w2) =
        >>=-succeeds
          (if v.cache.root_stamp == stamp
            then pure {E = CheckpointError} tt
            else rescan x codec store)
          _ v h1 in
      sym (ok_injective h2) ∙ ap (λ (k : World). lookup service k.cache.latest) (sym (w1 ∙ w2))

  module _ (service_id : Token) (n : ℕ) where
    abbrev Good : World → Type 0
    Good = IsGood x codec service_id n

    abbrev pub IsAhead : SignedJournalHead → Type 0
    IsAhead head = head.service_id ≡ service_id → n ≤ sequence_of head

    pub reconciled_latest-IsGood :
        (service : Token) (w : World) → Good w → Good (reconciled_latest x codec store service w).1
    unfolding reconciled_latest
    reconciled_latest-IsGood service w g =
        let quiet = IsQuiet-root_stamp x codec store in
        let w1 = (root_stamp x codec store w).1 in
        let stamped = IsQuiet-IsGood x codec service_id n (root_stamp x codec store) w quiet g in
        IsGood-chain x codec service_id n (root_stamp x codec store w) _ stamped λ stamp _.
          let synced = current_or_rescan (w1.cache.root_stamp == stamp) w1 stamped in
          IsGood-chain x codec service_id n
            ((if w1.cache.root_stamp == stamp
                then pure {E = CheckpointError} tt
                else rescan x codec store)
              w1)
            _ synced (λ u _. synced)
      where
        current_or_rescan :
            (b : Bool) (v : World)
            → Good v
            → Good ((if b then pure {E = CheckpointError} tt else rescan x codec store) v).1
        current_or_rescan true v k = k
        current_or_rescan false v k = rescan-IsGood x codec service_id n store v k

    -- A head that is checked against the retained one is not behind it.
    pub check_latest-IsAhead :
        (head : SignedJournalHead) (latest : Option SignedJournalHead) (w : World)
        → Good w
        → latest ≡ lookup head.service_id w.cache.latest
        → check_latest x codec store latest head ≡ ok tt
        → IsAhead head
    check_latest-IsAhead head none w g read h service =
        let absent : none ≡ lookup service_id w.cache.latest =
          read ∙ ap (λ (s : Token). lookup s w.cache.latest) service in
        absurd (cc (absent, g.retained.found))
    check_latest-IsAhead head (some latest) w g read h service =
        let same : latest ≡ g.retained.head =
          some_injective
            (read ∙ ap (λ (s : Token). lookup s w.cache.latest) service ∙ g.retained.found) in
        let order = check_sequence-le x codec store latest head h in
        omega (arith, g.retained.reached, ap sequence_of same, order)

    decide-IsGood :
        (attempted : CheckpointHeadMetadata) (head : SignedJournalHead)
        (latest : Option SignedJournalHead) (w : World)
        → Good w
        → latest ≡ lookup head.service_id w.cache.latest
        → Good (decide x codec store attempted head latest w).1
    unfolding decide
    decide-IsGood attempted head latest w g read =
        let validate = validate_latest x codec store latest in
        let on = (IsQuiet-validate_latest x codec store latest).onward w g.honest in
        let v = (validate w).1 in
        let valid = Onward-IsGood x codec service_id n on g in
        let still : latest ≡ lookup head.service_id v.cache.latest =
          read ∙ ap (λ (c : CheckpointState). lookup head.service_id c.latest) (sym on.cached) in
        IsGood-chain x codec service_id n
          (annotate (failure x codec store attempted none) validate w) _ valid
          λ _ _.
            IsGood-chain x codec service_id n
              (annotate (failure x codec store attempted latest)
                (lift (verify_live_head x store.peer_keys head)) v)
              _ valid
              λ _ _. present_or_published (is_latest x codec store latest head) v valid still
      where
        present_or_published :
            (b : Bool) (v : World)
            → Good v
            → latest ≡ lookup head.service_id v.cache.latest
            → Good
                ((if b
                    then pure {E = CheckpointAppendError} (
                        decision x codec store attempted latest
                          CheckpointDecisionOutcome.already_present)
                    else annotate
                        (failure x codec store attempted latest)
                        (lift (check_latest x codec store latest head))
                      >> publish x codec store attempted latest head)
                  v).1
        present_or_published true v k still = k
        present_or_published false v k still =
            IsGood-chain x codec service_id n
              (annotate (failure x codec store attempted latest)
                (lift (check_latest x codec store latest head)) v)
              _ k
              λ u passed.
                publish-IsGood x codec store service_id n attempted latest head v
                  (check_latest-IsAhead head latest v k still (
                    annotate_ok (failure x codec store attempted latest)
                      (lift (check_latest x codec store latest head)) v passed))
                  k

    append_locked-IsGood :
        (attempted : CheckpointHeadMetadata) (head : SignedJournalHead) (w : World)
        → Good w
        → Good (append_locked x codec store attempted head w).1
    unfolding append_locked
    append_locked-IsGood attempted head w g =
        let v = (lock_directory w).1 in
        let locked_good =
          IsQuiet-IsGood x codec service_id n lock_directory w IsQuiet-lock_directory g in
        let reconcile = reconciled_latest x codec store head.service_id in
        let reconciled = reconciled_latest-IsGood head.service_id v locked_good in
        IsGood-chain x codec service_id n
          (annotate (failure x codec store attempted none) lock_directory w) _ locked_good
          λ _ _.
            IsGood-chain x codec service_id n
              (annotate (failure x codec store attempted none) reconcile v) _ reconciled
              λ latest h. decide-IsGood attempted head latest (reconcile v).1 reconciled (
                reconciled_latest-reads head.service_id v latest
                  (annotate_ok (failure x codec store attempted none) reconcile v h))

    pub locked-IsGood {ℓ κ} :
        {E : Type ℓ} {A : Type κ} (refusal : E) (m : Action E A) (w : World)
        → Good w
        → Good (m w).1
        → Good (locked refusal m w).1
    locked-IsGood {E = E} {A = A} refusal m w g after = either w.poisoned
      where
        poisoned : (p : Result A (Stop E) × World) → Good p.1 → Good (poison p).1
        poisoned (ok a, v) k = k
        poisoned (err (failed e), v) k = k
        poisoned (err panicked, v) k =
            Onward-IsGood x codec service_id n
              (record { honest = k.honest; grown = Grows-refl v.disk; cached = refl }) k

        either : (b : Bool) → Good (if b then (err (failed refusal), w) else poison (m w)).1
        either true = g
        either false = poisoned (m w) after

    pub append_diagnosed-IsGood :
        (head : SignedJournalHead) (w : World)
        → Good w
        → Good (append_diagnosed x codec store head w).1
    unfolding append_diagnosed
    append_diagnosed-IsGood head w g =
        IsGood-chain x codec service_id n (lift (ok_or (head_metadata head) panicked) w) _ g
          λ attempted _.
            locked-IsGood (failure x codec store attempted none malformed)
              (append_locked x codec store attempted head) w g
              (append_locked-IsGood attempted head w g)
