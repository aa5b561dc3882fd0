-- ===== src/TrustedTime/Durable/Runs.antt =====
-- A service that persists each decision of `evaluate_durable_clock` with the reading's anchor and
-- the boot's epoch, as the tests of crates/bloom-trusted-time/src/lib.rs do.
use bloom_service_runtime.Prelude.{
  ℕ, ◌+◌, ◌≤◌, Bytes, false, some, List, [], ◌∷◌, Result, ok, err, ◌>>=◌, >>=-eq-ok, ◌≡◌, ◌≢◌,
  arith, list_eq, nat_eq, eq_refl,
}
use bloom_service_runtime.TrustedTime.Sampler.{PlatformTimeReading}
use bloom_service_runtime.TrustedTime.Durable.{
  PersistedClockState, DurableClockDecision, DurableClockError,
  persisted_anchor_is_from_different_boot, elapsed_since_persisted_anchor, evaluate_durable_clock,
}
use bloom_service_runtime.TrustedTime.Durable.Floor.{floor_never_decreases, forward_bounded}

-- One boot: its epoch does not change during the run.
module _ (epoch : Bytes) (step : ℕ) where
  abbrev pub persist : DurableClockDecision → PlatformTimeReading → PersistedClockState
  persist d r = record {
    last_effective_ms = d.effective_now_ms;
    monotonic_anchor_ns = r.monotonic_anchor_ns;
    boot_epoch = some epoch;
  }

  unfoldable pub observe :
      PersistedClockState → List PlatformTimeReading → Result PersistedClockState DurableClockError
  observe p [] = ok p
  observe p (r ∷ rs) =
      evaluate_durable_clock (some p) r (some epoch) step >>= λ d. observe (persist d r) rs

  -- The elapsed times that the run measures, and one forward step for each reading.
  pub allowance : PersistedClockState → List PlatformTimeReading → ℕ
  allowance p [] = 0
  allowance p (r ∷ rs) = elim (evaluate_durable_clock (some p) r (some epoch) step) [
    | err _ ↦ 0
    | ok d ↦ elapsed_since_persisted_anchor p (some epoch) r + step + allowance (persist d r) rs
  ]

  abbrev pub InBoot : PersistedClockState → Type 0
  InBoot p = persisted_anchor_is_from_different_boot p (some epoch) ≡ false

  persist-InBoot : (d : DurableClockDecision) (r : PlatformTimeReading) → InBoot (persist d r)
  unfolding persisted_anchor_is_from_different_boot
  persist-InBoot d r = rw (eq_refl epoch)

  -- Over any run of readings within one boot, from a started state, the persisted effective time
  -- never falls, and it advances by at most the elapsed times that were measured and one forward
  -- step for each reading, whatever the wall clock says.
  pub observe_bounded :
      (p : PersistedClockState) (rs : List PlatformTimeReading) {q : PersistedClockState}
      → p.last_effective_ms ≢ 0
      → InBoot p
      → observe p rs ≡ ok q
      → (p.last_effective_ms ≤ q.last_effective_ms)
        × (q.last_effective_ms ≤ p.last_effective_ms + allowance p rs)
  unfolding observe allowance
  observe_bounded p [] started same h = ground arith
  observe_bounded p (r ∷ rs) started same h =
      let (d, e, rest) = >>=-eq-ok (evaluate_durable_clock (some p) r (some epoch) step) _ h in
      let low = floor_never_decreases (some p) r (some epoch) step e in
      let high = forward_bounded p r (some epoch) step started same e in
      let (up, within) = observe_bounded (persist d r) rs (omega arith) (persist-InBoot d r) rest in
      rw (e, allowance) (omega arith)
