-- ===== src/AuditCheckpoint/Store/Runs.antt =====
-- Runs of the checkpoint store: what is retained of a service does not fall behind.
use bloom_service_runtime.Prelude.{
  ℕ, ◌≤◌, nat_eq, Bool, true, false, Option, none, some, List, [], ◌∷◌, ok, ◌≡◌, refl, sym, subst,
  ◌∙◌, ap, arith, lookup, if◌then◌else◌, some_injective,
}
use bloom_service_runtime.RpcWire.External.{External}
use bloom_service_runtime.RpcWire.Token.{Token, token_eq}
use bloom_service_runtime.RpcWire.Audit.{SignedJournalHead, head_eq}
use bloom_service_runtime.AuditCheckpoint.Record.{
  CheckpointHeadMetadata, CheckpointAppendError, CheckpointDecisionOutcome, sequence_of,
}
use bloom_service_runtime.AuditCheckpoint.Keys.{verify_live_head}
use bloom_service_runtime.AuditCheckpoint.Disk.{World, ◌>>◌, pure, lift, annotate, stamp_eq}
use bloom_service_runtime.AuditCheckpoint.Disk.Honest.{IsHonest, >>=-succeeds}
use bloom_service_runtime.AuditCheckpoint.Entries.{RecordCodec, Store}
use bloom_service_runtime.AuditCheckpoint.Store.{
  lock_directory, check_latest, is_latest, validate_latest, publish, decide, append_diagnosed,
  failure, decision,
}
use bloom_service_runtime.AuditCheckpoint.Store.Retained.{IsRetained, IsGood, IsQuiet-IsGood}
use bloom_service_runtime.RpcWire.Audit.{head_beq_iff}
use bloom_service_runtime.AuditCheckpoint.Record.{CheckpointDecision}
use bloom_service_runtime.AuditCheckpoint.Store.Published.{
  annotate_ok, IsQuiet-lock_directory, IsQuiet-validate_latest,
}
use bloom_service_runtime.AuditCheckpoint.Store.{latest}
use bloom_service_runtime.AuditCheckpoint.Store.Kept.{
  append_diagnosed-IsGood, reconciled_latest-IsGood, check_latest-IsAhead,
}
use bloom_service_runtime.AuditCheckpoint.Store.Accepted.{append_diagnosed-Recorded}
use bloom_service_runtime.AuditCheckpoint.Store.Live.{append_diagnosed_decides, at_decision}
use bloom_service_runtime.AuditCheckpoint.Store.Latest.{latest-IsGood, latest-Reaches, Reaches}

-- A call of the store, by this process.
pub data Operation : Type 0 where
  appends : SignedJournalHead → Operation
  reads : Token → Operation

module _ (x : External) (codec : RecordCodec) (store : Store x) where
  unfoldable pub run : List Operation → World → World
  run [] w = w
  run (appends head ∷ operations) w = run operations (append_diagnosed x codec store head w).1
  run (reads service ∷ operations) w = run operations (latest x codec store service w).1

  run-IsGood :
      (service_id : Token) (n : ℕ) (operations : List Operation) (w : World)
      → IsGood x codec service_id n w
      → IsGood x codec service_id n (run operations w)
  unfolding run
  run-IsGood service_id n [] w g = g
  run-IsGood service_id n (appends head ∷ operations) w g =
      run-IsGood service_id n operations _
        (append_diagnosed-IsGood x codec store service_id n head w g)
  run-IsGood service_id n (reads service ∷ operations) w g =
      run-IsGood service_id n operations _ (latest-IsGood x codec store service_id n service w g)

  -- An append that is accepted is not behind what is retained of its service.
  decide-le :
      (attempted : CheckpointHeadMetadata) (n : ℕ) (head : SignedJournalHead)
      (latest : Option SignedJournalHead) (w : World) (d : CheckpointDecision)
      → IsGood x codec head.service_id n w
      → latest ≡ lookup head.service_id w.cache.latest
      → (decide x codec store attempted head latest w).0 ≡ ok d
      → n ≤ sequence_of head
  unfolding decide
  decide-le attempted n head latest w d g read h =
      let validate = validate_latest x codec store latest in
      let f = failure x codec store attempted latest in
      let on = (IsQuiet-validate_latest x codec store latest).onward w g.honest in
      let (_, a, h1, w1) =
        >>=-succeeds (annotate (failure x codec store attempted none) validate) _ w h in
      let (_, b, h2, w2) =
        >>=-succeeds (annotate f (lift (verify_live_head x store.peer_keys head))) _ (validate w).1
          h1 in
      branch (is_latest x codec store latest head) (validate w).1 refl h2
    where
      -- The head is the retained one.
      same_head :
          (o : Option SignedJournalHead)
          → o ≡ lookup head.service_id w.cache.latest
          → is_latest x codec store o head ≡ true
          → n ≤ sequence_of head
      same_head none r k = cc
      same_head (some old) r k =
          let first : old ≡ head = (head_beq_iff old head).0 k in
          let second : old ≡ g.retained.head = some_injective (r ∙ g.retained.found) in
          omega (arith, g.retained.reached, ap sequence_of first, ap sequence_of second)

      branch :
          (b : Bool) (v : World)
          → is_latest x codec store latest head ≡ b
          → ((if b
                then pure {E = CheckpointAppendError} (
                    decision x codec store attempted latest
                      CheckpointDecisionOutcome.already_present)
                else annotate
                    (failure x codec store attempted latest)
                    (lift (check_latest x codec store latest head))
                  >> publish x codec store attempted latest head)
              v).0
            ≡ ok d
          → n ≤ sequence_of head
      branch true v is k = same_head latest read is
      branch false v is k =
          let check = lift (check_latest x codec store latest head) in
          let (_, c, k1, _) =
            >>=-succeeds (annotate (failure x codec store attempted latest) check) _ v k in
          check_latest-IsAhead x codec store head.service_id n head latest w g read
            (annotate_ok (failure x codec store attempted latest) check v c) refl

  append_diagnosed-le :
      (n : ℕ) (head : SignedJournalHead) (w : World) (d : CheckpointDecision)
      → IsGood x codec head.service_id n w
      → (append_diagnosed x codec store head w).0 ≡ ok d
      → n ≤ sequence_of head
  append_diagnosed-le n head w d g h =
      let (attempted, latest, read, decided) = append_diagnosed_decides x codec store head w d h in
      let v = (lock_directory w).1 in
      let at_lock =
        IsQuiet-IsGood x codec head.service_id n lock_directory w IsQuiet-lock_directory g in
      decide-le attempted n head latest (at_decision x codec store head w) d
        (reconciled_latest-IsGood x codec store head.service_id n head.service_id v at_lock) read
        decided

  run_after_append :
      (head : SignedJournalHead) (w : World) (d : CheckpointDecision) (operations : List Operation)
      → IsHonest w.schedule
      → (append_diagnosed x codec store head w).0 ≡ ok d
      → IsGood x codec head.service_id
          (sequence_of head)
          (run operations (append_diagnosed x codec store head w).1)
  run_after_append head w d operations honest h =
      run-IsGood head.service_id (sequence_of head) operations _
        (append_diagnosed-Recorded x codec store head w d honest h)

  -- Let an append of a head be accepted, and let any calls of the store follow, whichever calls
  -- of the file system fail, and whatever files other processes add, if none changes or removes
  -- a file of the root. Then the cache has a head of the service whose sequence is not lower,
  -- and the root holds its record.
  pub accepted_head-IsRetained :
      (head : SignedJournalHead) (w : World) (d : CheckpointDecision) (operations : List Operation)
      → IsHonest w.schedule
      → (append_diagnosed x codec store head w).0 ≡ ok d
      → IsRetained x codec head.service_id
          (sequence_of head)
          (run operations (append_diagnosed x codec store head w).1)
  accepted_head-IsRetained head w d operations honest h =
      (run_after_append head w d operations honest h).retained

  -- Let an append of a head be accepted, and let any calls of the store follow, whichever calls
  -- of the file system fail, and whatever files other processes add, if none changes or removes
  -- a file of the root. Then a later append for that service is accepted only if its sequence is
  -- not lower.
  pub append_never_rolls_back :
      (head later : SignedJournalHead) (w : World) (d d' : CheckpointDecision)
      (operations : List Operation)
      → IsHonest w.schedule
      → later.service_id ≡ head.service_id
      → (append_diagnosed x codec store head w).0 ≡ ok d
      → (append_diagnosed x codec store later
          (run operations (append_diagnosed x codec store head w).1)).0
        ≡ ok d'
      → sequence_of head ≤ sequence_of later
  append_never_rolls_back head later w d d' operations honest same h k =
      let v = run operations (append_diagnosed x codec store head w).1 in
      append_diagnosed-le (sequence_of head) later v d'
        (subst (λ (s : Token). IsGood x codec s (sequence_of head) v) (sym same)
          (run_after_append head w d operations honest h))
        k

  -- Let an append of a head be accepted, and let any calls of the store follow, whichever calls
  -- of the file system fail, and whatever files other processes add, if none changes or removes
  -- a file of the root. Then `latest`, if it succeeds for that service, answers with a head, and
  -- the sequence of that head is not lower.
  pub latest_never_rolls_back :
      (head : SignedJournalHead) (w : World) (d : CheckpointDecision) (operations : List Operation)
      (o : Option SignedJournalHead)
      → IsHonest w.schedule
      → (append_diagnosed x codec store head w).0 ≡ ok d
      → (latest x codec store head.service_id
          (run operations (append_diagnosed x codec store head w).1)).0
        ≡ ok o
      → Reaches x codec store (sequence_of head) o
  latest_never_rolls_back head w d operations o honest h k =
      latest-Reaches x codec store head.service_id (sequence_of head) _ o
        (run_after_append head w d operations honest h) k
