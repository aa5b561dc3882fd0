-- ===== src/TrustedTime/Durable.antt =====
-- The durable clock guard of crates/bloom-trusted-time/src/lib.rs: a reading checked against the
-- persisted clock state. A boot epoch is its 16 bytes.
pub mod Branches
pub mod Floor
pub mod Runs
mod Examples
use bloom_service_runtime.Prelude.{
  ℕ, ◌-◌, ◌/◌, max, Bytes, Bool, true, false, not, ◌&&◌, Option, none, some, Result, ok, err, ◌>>=◌,
  ok_or, checked_add, checked_sub, saturating_add, ◌==◌, ◌!=◌, nat_eq, list_eq, ltb, if◌then◌else◌,
}
use bloom_service_runtime.TrustedTime.Sampler.{PlatformTimeReading}

-- One hour, in milliseconds.
abbrev pub max_forward_step_ms : ℕ
max_forward_step_ms = 3_600_000

pub record PersistedClockState : Type 0 where
  pub last_effective_ms : ℕ
  pub monotonic_anchor_ns : ℕ
  pub boot_epoch : Option Bytes

pub data DurableClockCondition : Type 0 where
  healthy untrusted rollback_frozen forward_jump_rejected : DurableClockCondition

pub record DurableClockDecision : Type 0 where
  pub effective_now_ms : ℕ
  pub condition : DurableClockCondition

pub data DurableClockError : Type 0 where
  arithmetic_overflow : DurableClockError

abbrev pub same_epoch : Option Bytes → Option Bytes → Bool
same_epoch (some persisted) (some current) = persisted == current
same_epoch _ _ = false

abbrev pub different_epoch : Option Bytes → Option Bytes → Bool
different_epoch (some persisted) (some current) = persisted != current
different_epoch _ _ = false

unfoldable pub persisted_anchor_matches_current_boot : PersistedClockState → Option Bytes → Bool
persisted_anchor_matches_current_boot previous current = same_epoch previous.boot_epoch current

unfoldable pub persisted_anchor_is_from_different_boot : PersistedClockState → Option Bytes → Bool
persisted_anchor_is_from_different_boot previous current =
    different_epoch previous.boot_epoch current

unfoldable pub elapsed_since_persisted_anchor :
    PersistedClockState → Option Bytes → PlatformTimeReading → ℕ
elapsed_since_persisted_anchor previous current reading =
    if persisted_anchor_matches_current_boot previous current && previous.monotonic_anchor_ns != 0
    then elim (checked_sub reading.monotonic_anchor_ns previous.monotonic_anchor_ns) [
      | some anchor_elapsed_ns ↦ max (anchor_elapsed_ns / 1_000_000) reading.monotonic_elapsed_ms
      | none ↦ reading.monotonic_elapsed_ms
    ]
    else reading.monotonic_elapsed_ms

abbrev pub decide : ℕ → DurableClockCondition → Result DurableClockDecision DurableClockError
decide now condition = ok (record { effective_now_ms = now; condition = condition })

abbrev pub floor_of : Option PersistedClockState → ℕ
floor_of none = 0
floor_of (some state) = state.last_effective_ms

-- `evaluate_durable_clock` from the point where a wall-clock sample and a state are there.
unfoldable pub evaluate_sample :
    PersistedClockState
    → ℕ
    → PlatformTimeReading
    → Option Bytes
    → ℕ
    → Result DurableClockDecision DurableClockError
evaluate_sample previous utc_ms reading current max_forward_step =
    if previous.last_effective_ms == 0 then decide utc_ms healthy else do
      monotonic_now ←
          ok_or
            (checked_add previous.last_effective_ms
              (elapsed_since_persisted_anchor previous current reading))
            arithmetic_overflow
      if ltb utc_ms previous.last_effective_ms
          then decide previous.last_effective_ms rollback_frozen
          else if not (persisted_anchor_is_from_different_boot previous current)
              && ltb (saturating_add monotonic_now max_forward_step) utc_ms
          then decide monotonic_now forward_jump_rejected
          else decide utc_ms healthy

unfoldable pub evaluate_durable_clock :
    Option PersistedClockState
    → PlatformTimeReading
    → Option Bytes
    → ℕ
    → Result DurableClockDecision DurableClockError
unfolding evaluate_sample
evaluate_durable_clock previous reading current max_forward_step = elim reading.utc_ms [
  | none ↦ decide (floor_of previous) untrusted
  | some utc_ms ↦ elim previous [
    | none ↦ decide utc_ms healthy
    | some state ↦ evaluate_sample state utc_ms reading current max_forward_step
  ]
]
