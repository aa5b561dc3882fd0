-- ===== src/LocalTransport/Quota/Endpoint.antt =====
-- An endpoint under its quota: requests arrive and mutations finish in any order
-- (crates/bloom-triad-local-transport/src/lib.rs).
use bloom_service_runtime.Prelude.{
  ℕ, suc, ◌+◌, ◌≤◌, ◌<◌, Bool, true, false, List, [], ◌∷◌, Result, ok, err, if◌then◌else◌, nat_eq,
  u64_max, ◌≡◌, arith, ◌⊎◌, inl, inr, Bool-cases, if-keeps,
}
use bloom_service_runtime.RpcWire.Error.{WireError, wire_error, service_unavailable}
use bloom_service_runtime.LocalTransport.Quota.{
  SlidingAdmission, Mutex, locked_admit, EndpointQuota, EndpointAdmission, quota_new, admit,
  release, read_only_admission, mutation_admission,
}
use bloom_service_runtime.LocalTransport.Quota.Window.{
  within, IsSliding, sliding_admit-keeps, sliding_admit-counts,
}

-- The quota of an endpoint, with what happened so far: the mutations in flight, the times of the
-- admitted requests and of the admitted mutations, newest first, and the latest time.
pub record Endpoint : Type 0 where
  pub quota : EndpointQuota
  pub in_flight : ℕ
  pub requests : List ℕ
  pub mutations : List ℕ
  pub latest : ℕ

abbrev pub untouched : EndpointQuota → Endpoint
untouched quota = record { quota = quota; in_flight = 0; requests = []; mutations = []; latest = 0 }

-- A request that is admitted or refused at a time that is not before the latest, and the end of
-- a mutation in flight.
pub data Step (w : Endpoint) : Endpoint → Type 0 where
  admitted :
      (is_read_only : Bool) (now : ℕ) (admission : EndpointAdmission) (after : EndpointQuota)
      → w.latest ≤ now
      → now < u64_max
      → admit w.quota is_read_only now ≡ (ok admission, after)
      → Step w (record {
        quota = after;
        in_flight = if admission.mutation_permit then suc w.in_flight else w.in_flight;
        requests = now ∷ w.requests;
        mutations = if is_read_only then w.mutations else now ∷ w.mutations;
        latest = now;
      })
  refused :
      (is_read_only : Bool) (now : ℕ) (error : WireError) (after : EndpointQuota)
      → w.latest ≤ now
      → now < u64_max
      → admit w.quota is_read_only now ≡ (err error, after)
      → Step w (record w { quota = after; latest = now })
  finished :
      (others : ℕ)
      → w.in_flight ≡ suc others
      → Step w (record w { quota = release w.quota mutation_admission; in_flight = others })

pub data Reachable (start : Endpoint) : Endpoint → Type 0 where
  here : Reachable start start
  next : {w v : Endpoint} → Reachable start w → Step w v → Reachable start v

module _ (quota : EndpointQuota) (now : ℕ) where
  -- What an admission leaves behind. A request always goes through the request window, whatever
  -- becomes of it; the journal window is used by mutations with a free permit only, and the
  -- permit is back if that window refuses.
  pub admit_leaves :
      (is_read_only : Bool) {result : Result EndpointAdmission WireError} {after : EndpointQuota}
      → admit quota is_read_only now ≡ (result, after)
      → (after.request_rate ≡ (locked_admit quota.request_rate now).1)
        × (((result ≡ ok read_only_admission)
              × (is_read_only ≡ true)
              × ((locked_admit quota.request_rate now).0 ≡ ok tt)
              × (after.journal_rate ≡ quota.journal_rate)
              × (after.mutation_slots ≡ quota.mutation_slots))
            ⊎ ((result ≡ ok mutation_admission)
                × (is_read_only ≡ false)
                × ((locked_admit quota.request_rate now).0 ≡ ok tt)
                × ((locked_admit quota.journal_rate now).0 ≡ ok tt)
                × (after.journal_rate ≡ (locked_admit quota.journal_rate now).1)
                × (suc after.mutation_slots ≡ quota.mutation_slots))
            ⊎ (((e : WireError) × (result ≡ err e))
                × ((after.journal_rate ≡ quota.journal_rate)
                    ⊎ (after.journal_rate ≡ (locked_admit quota.journal_rate now).1))
                × (after.mutation_slots ≡ quota.mutation_slots)))
  unfolding admit
  admit_leaves is_read_only h = ground arith

IsSliding-later :
    {maximum window : ℕ} {rate : SlidingAdmission} {next now : ℕ} {times : List ℕ}
    → IsSliding maximum window rate next times
    → next ≤ now
    → IsSliding maximum window rate now times
IsSliding-later i later = record {
  limit = i.limit;
  width = i.width;
  bound = i.bound;
  covers = λ after h. i.covers after (omega arith);
}

module _ {maximum window : ℕ} (mutex : Mutex) {next : ℕ} {times : List ℕ}
    (i : IsSliding maximum window mutex.content next times) (now : ℕ) (later : next ≤ now)
    (small : now < u64_max) where
  locked_admit-keeps : IsSliding maximum window (locked_admit mutex now).1.content now times
  unfolding locked_admit
  locked_admit-keeps =
      if-keeps
        (λ (r : Result (Unit {0}) WireError × Mutex).
          IsSliding maximum window r.1.content now times)
        mutex.poisoned {x = (err (wire_error service_unavailable), mutex)} (IsSliding-later i later)
        (sliding_admit-keeps i now small later)

  locked_admit-counts :
      (locked_admit mutex now).0 ≡ ok tt
      → IsSliding maximum window (locked_admit mutex now).1.content now (now ∷ times)
  unfolding locked_admit
  locked_admit-counts h = elim (Bool-cases mutex.poisoned) [
    | inl p ↦ absurd (ground (arith, p, h))
    | inr p ↦ rw p (sliding_admit-counts i now small later (ground (arith, p, h)))
  ]

-- The invariant of an endpoint under a quota.
module _ (slots max_requests request_window max_journal journal_window : ℕ) where
  record IsWithin (w : Endpoint) : Type 0 where
    permits : w.quota.mutation_slots + w.in_flight ≡ slots
    requests :
        IsSliding max_requests request_window w.quota.request_rate.content w.latest w.requests
    mutations :
        IsSliding max_journal journal_window w.quota.journal_rate.content w.latest w.mutations

  Step-keeps : (w v : Endpoint) → Step w v → IsWithin w → IsWithin v
  unfolding release
  Step-keeps w _ (admitted is_read_only now admission after later small h) i =
      let (rate, cases) = admit_leaves w.quota now is_read_only h in
      elim cases [
        | inl (a, b, c, d, e) ↦ record {
          permits = ground (arith, i.permits, a, e);
          requests =
              rw rate (locked_admit-counts w.quota.request_rate i.requests now later small c);
          mutations = rw (b, d) (IsSliding-later i.mutations later);
        }
        | inr (inl (a, b, c, d, e, f)) ↦ record {
          permits = ground (arith, i.permits, a, f);
          requests =
              rw rate (locked_admit-counts w.quota.request_rate i.requests now later small c);
          mutations =
              rw (b, e) (locked_admit-counts w.quota.journal_rate i.mutations now later small d);
        }
        | inr (inr ((e, a), b, c)) ↦ absurd (cc a)
      ]
  Step-keeps w _ (refused is_read_only now error after later small h) i =
      let (rate, cases) = admit_leaves w.quota now is_read_only h in
      elim cases [
        | inl r ↦ absurd (cc r.0)
        | inr (inl r) ↦ absurd (cc r.0)
        | inr (inr (a, inl b, c)) ↦ record {
          permits = ground (arith, i.permits, c);
          requests = rw rate (locked_admit-keeps w.quota.request_rate i.requests now later small);
          mutations = rw b (IsSliding-later i.mutations later);
        }
        | inr (inr (a, inr b, c)) ↦ record {
          permits = ground (arith, i.permits, c);
          requests = rw rate (locked_admit-keeps w.quota.request_rate i.requests now later small);
          mutations = rw b (locked_admit-keeps w.quota.journal_rate i.mutations now later small);
        }
      ]
  Step-keeps w _ (finished others h) i = record {
    permits = omega (arith, i.permits, h);
    requests = i.requests;
    mutations = i.mutations;
  }

  Reachable-keeps : (start w : Endpoint) → Reachable start w → IsWithin start → IsWithin w
  Reachable-keeps start _ here i = i
  Reachable-keeps start v (next {w} r s) i = Step-keeps w v s (Reachable-keeps start w r i)

  untouched-IsWithin :
      {quota : EndpointQuota}
      → quota_new slots max_requests request_window max_journal journal_window ≡ ok quota
      → IsWithin (untouched quota)
  unfolding quota_new within
  untouched-IsWithin made = record {
    permits = ground (arith, made);
    requests = record {
      limit = ground (arith, made);
      width = ground (arith, made);
      bound = λ start. omega arith;
      covers = λ now h. ground (arith, made);
    };
    mutations = record {
      limit = ground (arith, made);
      width = ground (arith, made);
      bound = λ start. omega arith;
      covers = λ now h. ground (arith, made);
    };
  }

  -- For an endpoint whose quota is made with these values, however requests arrive, at times
  -- that do not decrease and lie below the largest u64, and mutations end: the permits that are
  -- free and the mutations in flight together are the configured number, so no more mutations
  -- than that are in flight, and no request window and no journal window, wherever it starts,
  -- holds more admitted requests or admitted mutations than its configured number.
  pub quota_bounds :
      {quota : EndpointQuota}
      → quota_new slots max_requests request_window max_journal journal_window ≡ ok quota
      → {w : Endpoint} → Reachable (untouched quota) w
      → (start : ℕ)
      → (w.quota.mutation_slots + w.in_flight ≡ slots)
        × (within request_window start w.requests ≤ max_requests)
        × (within journal_window start w.mutations ≤ max_journal)
  quota_bounds {quota} made {w} r start =
      let i = Reachable-keeps (untouched quota) w r (untouched-IsWithin made) in
      (i.permits, i.requests.bound start, i.mutations.bound start)
