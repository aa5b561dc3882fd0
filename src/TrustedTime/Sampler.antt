-- ===== src/TrustedTime/Sampler.antt =====
-- `PlatformTimeSampler` of crates/bloom-trusted-time/src/lib.rs: the state that turns absolute
-- anchors into elapsed milliseconds, and one sample.
pub mod Exact
mod Examples
use bloom_service_runtime.Prelude.{
  Bytes, ℕ, ◌+◌, ◌*◌, ◌/◌, ◌%◌, ◌^◌, Bool, true, false, ◌||◌, Option, none, some, Result, ok, err,
  ◌>>=◌, ok_or, checked_add, checked_sub, checked_mul, to_u64, ℤ, nonnegative, ◌==◌, nat_eq, leb,
  if◌then◌else◌,
}
use bloom_service_runtime.TrustedTime.Source.{
  TrustedTimeError, wall_clock_range, state_poisoned, TrustedTimeSource, Platform,
  for_current_platform,
}

pub record PlatformTimeReading : Type 0 where
  pub utc_ms : Option ℕ
  pub monotonic_anchor_ns : ℕ
  pub monotonic_elapsed_ms : ℕ

pub record SampleState : Type 0 where
  pub prior_anchor_ns : ℕ
  pub fractional_ns : ℕ

-- The two `checked_` steps of the elapsed time.
unfoldable pub elapsed_ns : SampleState → ℕ → Option ℕ
elapsed_ns prior anchor_ns = elim (checked_sub anchor_ns prior.prior_anchor_ns) [
  | none ↦ none
  | some elapsed ↦ checked_add elapsed prior.fractional_ns
]

-- An early return leaves `*state` as it was.
unfoldable pub advance_sample_state :
    Option SampleState → ℕ → Result ℕ TrustedTimeError × Option SampleState
unfolding elapsed_ns
advance_sample_state none anchor_ns =
    (ok 0, some (record { prior_anchor_ns = anchor_ns; fractional_ns = 0 }))
advance_sample_state (some prior) anchor_ns = elim (elapsed_ns prior anchor_ns) [
  | none ↦ (err wall_clock_range, some prior)
  | some elapsed ↦ (
    ok (elapsed / 1_000_000),
    some (record { prior_anchor_ns = anchor_ns; fractional_ns = elapsed % 1_000_000 }),
  )
]

-- `timespec_ns`: Linux's `CLOCK_BOOTTIME` reading in nanoseconds.
unfoldable pub timespec_ns : ℤ → ℤ → Result ℕ TrustedTimeError
timespec_ns seconds nanoseconds = do
  s ← ok_or (nonnegative seconds) wall_clock_range
  n ← ok_or (nonnegative nanoseconds) wall_clock_range
  value ← ok_or (checked_mul s 1_000_000_000) wall_clock_range
  ok_or (checked_add value n) wall_clock_range

-- macOS: `info` is what `mach_timebase_info` wrote, if it succeeded, and `ticks` what
-- `mach_continuous_time` returned. The product is a `u128`.
unfoldable pub continuous_ticks_ns : Option (ℕ × ℕ) → ℕ → Result ℕ TrustedTimeError
continuous_ticks_ns none ticks = err wall_clock_range
continuous_ticks_ns (some (numer, denom)) ticks =
    if denom == 0
    then err wall_clock_range
    else if leb (2 ^ 128) (ticks * numer)
    then err wall_clock_range
    else ok_or (to_u64 (ticks * numer / denom)) wall_clock_range

pub record PlatformTimeSampler : Type 0 where
  pub source : TrustedTimeSource
  pub sample_state : Option SampleState

unfoldable pub new : Platform → Bytes → Result PlatformTimeSampler TrustedTimeError
new platform source_id = do
  source ← for_current_platform platform source_id
  ok (record { source = source; sample_state = none })

-- What the platform answers during one sample: whether the state's lock is poisoned, the reading
-- of `continuous_time_ns`, and the wall clock as milliseconds since the epoch (`none` if it
-- stands before the epoch).
pub record Environment : Type 0 where
  pub poisoned : Bool
  pub continuous_time_ns : Result ℕ TrustedTimeError
  pub wall_clock_ms : Option ℕ

-- The part of `sample` under the lock: the anchor and the elapsed time.
sample_anchor :
    Environment → Option SampleState → Result (ℕ × ℕ) TrustedTimeError × Option SampleState
sample_anchor env state =
    if env.poisoned then (err state_poisoned, state) else elim env.continuous_time_ns [
      | err e ↦ (err e, state)
      | ok anchor ↦
          let (elapsed, state') = advance_sample_state state anchor in
          (elapsed >>= λ ms. ok (anchor, ms), state')
    ]

-- `sample`, with the state that it leaves in the sampler.
unfoldable pub sample :
    Environment
    → PlatformTimeSampler
    → Result PlatformTimeReading TrustedTimeError × PlatformTimeSampler
unfolding sample_anchor advance_sample_state
sample env sampler =
    let (monotonic, state') = sample_anchor env sampler.sample_state in
    (
      do
        (anchor, elapsed_ms) ← monotonic
        millis ← ok_or env.wall_clock_ms wall_clock_range
        utc ← ok_or (to_u64 millis) wall_clock_range
        ok (record {
          utc_ms = some utc;
          monotonic_anchor_ns = anchor;
          monotonic_elapsed_ms = elapsed_ms;
        }),
      record sampler { sample_state = state' },
    )
