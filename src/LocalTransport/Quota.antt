-- ===== src/LocalTransport/Quota.antt =====
-- `EndpointQuota` and its two sliding windows
-- (crates/bloom-triad-local-transport/src/lib.rs). A mutex is its content and whether it is
-- poisoned, a semaphore is the number of its free permits, and an operation returns its result
-- with the new state.
pub mod Window
pub mod Exact
pub mod Endpoint
mod Examples
use bloom_service_runtime.Prelude.{
  ℕ, suc, ◌+◌, ◌-◌, ◌^◌, Bool, true, false, ◌||◌, List, [], ◌∷◌, ◌++◌, length, Result, ok, err,
  reject_if, saturating_add, leb, ltb, ◌==◌, nat_eq, if◌then◌else◌,
}
use bloom_service_runtime.RpcWire.Error.{
  WireError, wire_error, Failure, panicked, reject, malformed_frame, quota_exceeded,
  service_unavailable,
}

pub record SlidingAdmission : Type 0 where
  pub maximum : ℕ
  pub window_ms : ℕ
  pub accepted_at_ms : List ℕ

pub record Mutex : Type 0 where
  pub poisoned : Bool
  pub content : SlidingAdmission

pub record EndpointQuota : Type 0 where
  pub mutation_slots : ℕ
  pub request_rate : Mutex
  pub journal_rate : Mutex

-- Whether the admission holds a permit of the semaphore.
pub record EndpointAdmission : Type 0 where
  pub mutation_permit : Bool

abbrev pub new_mutex : ℕ → ℕ → Mutex
new_mutex maximum window_ms = record {
  poisoned = false;
  content = record { maximum = maximum; window_ms = window_ms; accepted_at_ms = [] };
}

-- `Semaphore::MAX_PERMITS` of tokio, which documents it as `usize::MAX >> 3`. `Semaphore::new`
-- panics above it.
abbrev pub semaphore_max_permits : ℕ
semaphore_max_permits = 2 ^ 61 - 1

unfoldable pub quota_new : ℕ → ℕ → ℕ → ℕ → ℕ → Result EndpointQuota Failure
quota_new maximum_in_flight_mutations maximum_requests request_window_ms maximum_journal
      journal_window_ms =
    if maximum_in_flight_mutations == 0
      || maximum_requests == 0
      || request_window_ms == 0
      || maximum_journal == 0
      || journal_window_ms == 0
    then err (reject malformed_frame)
    else if ltb semaphore_max_permits maximum_in_flight_mutations
    then err panicked
    else ok (record {
      mutation_slots = maximum_in_flight_mutations;
      request_rate = new_mutex maximum_requests request_window_ms;
      journal_rate = new_mutex maximum_journal journal_window_ms;
    })

-- The `while` loop of `SlidingAdmission::admit`.
unfoldable pub expire : ℕ → ℕ → List ℕ → List ℕ
expire window_ms now_ms [] = []
expire window_ms now_ms (accepted ∷ rest) =
    let kept = expire window_ms now_ms rest in
    if leb (saturating_add accepted window_ms) now_ms then kept else accepted ∷ rest

unfoldable pub sliding_admit : SlidingAdmission → ℕ → Result (Unit {0}) WireError × SlidingAdmission
sliding_admit rate now_ms =
    let kept = expire rate.window_ms now_ms rate.accepted_at_ms in
    if leb rate.maximum (length kept)
    then (err (wire_error quota_exceeded), record rate { accepted_at_ms = kept })
    else (ok tt, record rate { accepted_at_ms = kept ++ (now_ms ∷ []) })

-- `lock()` and `admit`
unfoldable pub locked_admit : Mutex → ℕ → Result (Unit {0}) WireError × Mutex
locked_admit mutex now_ms =
    let (result, content) = sliding_admit mutex.content now_ms in
    if mutex.poisoned
    then (err (wire_error service_unavailable), mutex)
    else (result, record mutex { content = content })

abbrev read_only_admission : EndpointAdmission
read_only_admission = record { mutation_permit = false }

abbrev mutation_admission : EndpointAdmission
mutation_admission = record { mutation_permit = true }

-- A permit that is taken and then dropped on an early return is back in the semaphore. The two
-- locks, which the source takes one after the other, are one step here.
unfoldable pub admit : EndpointQuota → Bool → ℕ → Result EndpointAdmission WireError × EndpointQuota
admit quota is_read_only observed_at_ms =
    let (requested, request_rate) = locked_admit quota.request_rate observed_at_ms in
    let (journaled, journal_rate) = locked_admit quota.journal_rate observed_at_ms in
    let counted = record quota { request_rate = request_rate } in
    elim requested [
      | err e ↦ (err e, counted)
      | ok u ↦
          if is_read_only
          then (ok read_only_admission, counted)
          else if quota.mutation_slots == 0
          then (err (wire_error quota_exceeded), counted)
          else elim journaled [
            | err e ↦ (err e, record counted { journal_rate = journal_rate })
            | ok v ↦ (
              ok mutation_admission,
              record counted {
                mutation_slots = quota.mutation_slots - 1;
                journal_rate = journal_rate;
              },
            )
          ]
    ]

-- Dropping an admission gives its permit back.
unfoldable pub release : EndpointQuota → EndpointAdmission → EndpointQuota
release quota admission =
    if admission.mutation_permit
    then record quota { mutation_slots = suc quota.mutation_slots }
    else quota
