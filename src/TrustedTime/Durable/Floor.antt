-- ===== src/TrustedTime/Durable/Floor.antt =====
-- Bounds on the effective time that `evaluate_durable_clock`
-- (crates/bloom-trusted-time/src/lib.rs) decides.
use bloom_service_runtime.Prelude.{
  ℕ, ◌+◌, ◌≤◌, Bytes, false, Option, none, some, ok, ◌≡◌, ◌≢◌, arith,
}
use bloom_service_runtime.TrustedTime.Sampler.{PlatformTimeReading}
use bloom_service_runtime.TrustedTime.Durable.{
  PersistedClockState, DurableClockDecision, persisted_anchor_is_from_different_boot,
  elapsed_since_persisted_anchor, floor_of, evaluate_durable_clock,
}

-- Whatever the reading, the epochs and the forward step, a decision never puts the effective
-- time below the persisted floor (0 if nothing was persisted).
pub floor_never_decreases :
    (previous : Option PersistedClockState) (reading : PlatformTimeReading) (current : Option Bytes)
    (step : ℕ) {d : DurableClockDecision}
    → evaluate_durable_clock previous reading current step ≡ ok d
    → floor_of previous ≤ d.effective_now_ms
unfolding evaluate_durable_clock
floor_never_decreases none reading current step h = ground arith
floor_never_decreases (some p) reading current step h = ground arith

-- Against a started state, unless another boot is confirmed, one decision moves the effective
-- time forward by at most the elapsed time and the forward step, whatever the wall clock says.
pub forward_bounded :
    (p : PersistedClockState) (reading : PlatformTimeReading) (current : Option Bytes) (step : ℕ)
    {d : DurableClockDecision}
    → p.last_effective_ms ≢ 0
    → persisted_anchor_is_from_different_boot p current ≡ false
    → evaluate_durable_clock (some p) reading current step ≡ ok d
    → d.effective_now_ms
      ≤ p.last_effective_ms + elapsed_since_persisted_anchor p current reading + step
unfolding evaluate_durable_clock
forward_bounded p reading current step started same h = ground arith
