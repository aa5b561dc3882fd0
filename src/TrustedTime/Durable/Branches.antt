-- ===== src/TrustedTime/Durable/Branches.antt =====
-- What decides each outcome of `evaluate_durable_clock`
-- (crates/bloom-trusted-time/src/lib.rs).
use bloom_service_runtime.Prelude.{
  ℕ, ◌+◌, ◌≤◌, min, Bytes, true, false, Option, none, some, ok, ◌≡◌, ◌≢◌, ◌↔◌, ◌⊎◌, arith, u64_max,
  refl, nat_eq, list_beq_iff,
}
use bloom_service_runtime.TrustedTime.Sampler.{PlatformTimeReading}
use bloom_service_runtime.TrustedTime.Durable.{
  same_epoch, different_epoch, PersistedClockState, healthy, persisted_anchor_matches_current_boot,
  persisted_anchor_is_from_different_boot, elapsed_since_persisted_anchor, evaluate_durable_clock,
}

-- The reading of a boot that is known to be another one than the persisted state's.
abbrev pub Rebooted : PersistedClockState → Option Bytes → Type 0
Rebooted p current = persisted_anchor_is_from_different_boot p current ≡ true

different_epoch_iff :
    (e f : Option Bytes)
    → (different_epoch e f ≡ true)
      ↔ ((a : Bytes) × (b : Bytes) × (e ≡ some a) × (f ≡ some b) × (a ≢ b))
different_epoch_iff none f = ground arith
different_epoch_iff (some a) none = ground arith
different_epoch_iff (some a) (some b) = (
  λ h. (a, b, refl, refl, ground (arith, list_beq_iff a b)),
  λ (c, d, p, q, n). ground (arith, list_beq_iff a b),
)

same_epoch_iff :
    (e f : Option Bytes) → (same_epoch e f ≡ true) ↔ ((a : Bytes) × (e ≡ some a) × (f ≡ some a))
same_epoch_iff none f = ground arith
same_epoch_iff (some a) none = ground arith
same_epoch_iff (some a) (some b) = (
  λ h. (a, refl, ground (arith, list_beq_iff a b)),
  λ (c, p, q). ground (arith, list_beq_iff a b),
)

-- A reboot is confirmed exactly when both epochs are known and differ, and the anchors are
-- compared exactly when both are known and equal: an unknown epoch on either side does neither.
pub unknown_epoch_fails_closed :
    (p : PersistedClockState) (current : Option Bytes)
    → (Rebooted p current
        ↔ ((a : Bytes) × (b : Bytes) × (p.boot_epoch ≡ some a) × (current ≡ some b) × (a ≢ b)))
      × ((persisted_anchor_matches_current_boot p current ≡ true)
          ↔ ((a : Bytes) × (p.boot_epoch ≡ some a) × (current ≡ some a)))
unfolding persisted_anchor_is_from_different_boot persisted_anchor_matches_current_boot
unknown_epoch_fails_closed p current =
    (different_epoch_iff p.boot_epoch current, same_epoch_iff p.boot_epoch current)

-- The anchors contribute only within one boot: if the epochs are not known to be equal, then
-- whatever anchors the state and the reading hold, the decision is the same.
pub foreign_anchor_unread :
    (p : PersistedClockState) (r : PlatformTimeReading) (current : Option Bytes) (step a b : ℕ)
    → persisted_anchor_matches_current_boot p current ≡ false
    → evaluate_durable_clock
        (some (record p { monotonic_anchor_ns = a }))
        (record r { monotonic_anchor_ns = b })
        current
        step
      ≡ evaluate_durable_clock (some p) r current step
unfolding evaluate_durable_clock elapsed_since_persisted_anchor
    persisted_anchor_matches_current_boot persisted_anchor_is_from_different_boot
foreign_anchor_unread p r current step a b h = ground arith

module _ (p : PersistedClockState) (utc : ℕ) (reading : PlatformTimeReading)
    (current : Option Bytes) (step : ℕ) (sampled : reading.utc_ms ≡ some utc)
    (started : p.last_effective_ms ≢ 0) where
  -- Against a started state, with a wall-clock sample: the observation is healthy exactly when
  -- the durable floor plus the elapsed time is a `u64`, the wall clock is not behind the floor,
  -- and the boot is a confirmed other one or the wall clock is at most the forward step ahead
  -- of the floor plus the elapsed time (a sum that saturates).
  pub healthy_iff :
      (evaluate_durable_clock (some p) reading current step
        ≡ ok (record { effective_now_ms = utc; condition = healthy }))
      ↔ ((p.last_effective_ms + elapsed_since_persisted_anchor p current reading ≤ u64_max)
          × (p.last_effective_ms ≤ utc)
          × (Rebooted p current
              ⊎ (utc
                  ≤ min
                      (p.last_effective_ms
                        + elapsed_since_persisted_anchor p current reading
                        + step)
                      u64_max)))
  unfolding evaluate_durable_clock
  healthy_iff = ground arith
