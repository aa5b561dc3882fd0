-- ===== src/TrustedTime/Durable/Examples.antt =====
-- Runs of the clock guard on inputs like those of the crate's tests, and the theorems at them.
use bloom_service_runtime.Prelude.{
  ◌+◌, ◌≤◌, min, Bytes, false, some, [], ◌∷◌, ok, ◌≡◌, ◌↔◌, ◌⊎◌, refl, arith, u64_max, list_beq,
}
use bloom_service_runtime.TrustedTime.Sampler.{PlatformTimeReading}
use bloom_service_runtime.TrustedTime.Durable.{
  PersistedClockState, healthy, forward_jump_rejected, max_forward_step_ms, evaluate_durable_clock,
  elapsed_since_persisted_anchor, persisted_anchor_is_from_different_boot,
  persisted_anchor_matches_current_boot,
}
use bloom_service_runtime.TrustedTime.Durable.Branches.{Rebooted, healthy_iff}
use bloom_service_runtime.TrustedTime.Durable.Floor.{floor_never_decreases, forward_bounded}
use bloom_service_runtime.TrustedTime.Durable.Runs.{observe, allowance, observe_bounded}

abbrev epoch_a : Bytes
epoch_a = 0xa1 ∷ []

abbrev epoch_b : Bytes
epoch_b = 0xb2 ∷ []

abbrev state : PersistedClockState
state = record {
  last_effective_ms = 10_000;
  monotonic_anchor_ns = 1_000_000_000;
  boot_epoch = some epoch_a;
}

abbrev reading : PlatformTimeReading
reading = record {
  utc_ms = some 10_001;
  monotonic_anchor_ns = 1_002_000_000;
  monotonic_elapsed_ms = 2;
}

abbrev far : PlatformTimeReading
far = record reading { utc_ms = some 9_000_000 }

abbrev behind : PlatformTimeReading
behind = record reading { utc_ms = some 9_999 }

test_healthy :
    evaluate_durable_clock (some state) reading (some epoch_a) max_forward_step_ms
    ≡ ok (record { effective_now_ms = 10_001; condition = healthy })
unfolding evaluate_durable_clock elapsed_since_persisted_anchor
    persisted_anchor_matches_current_boot persisted_anchor_is_from_different_boot list_beq
test_healthy = refl

test_jump :
    evaluate_durable_clock (some state) far (some epoch_a) max_forward_step_ms
    ≡ ok (record { effective_now_ms = 10_002; condition = forward_jump_rejected })
unfolding evaluate_durable_clock elapsed_since_persisted_anchor
    persisted_anchor_matches_current_boot persisted_anchor_is_from_different_boot list_beq
test_jump = refl

test_reboot :
    evaluate_durable_clock (some state) far (some epoch_b) max_forward_step_ms
    ≡ ok (record { effective_now_ms = 9_000_000; condition = healthy })
unfolding evaluate_durable_clock elapsed_since_persisted_anchor
    persisted_anchor_matches_current_boot persisted_anchor_is_from_different_boot list_beq
test_reboot = refl

same_boot : persisted_anchor_is_from_different_boot state (some epoch_a) ≡ false
unfolding persisted_anchor_is_from_different_boot list_beq
same_boot = refl

other_boot : persisted_anchor_matches_current_boot state (some epoch_b) ≡ false
unfolding persisted_anchor_matches_current_boot list_beq
other_boot = refl

healthy_iff_example :
    (evaluate_durable_clock (some state) reading (some epoch_a) 60
      ≡ ok (record { effective_now_ms = 10_001; condition = healthy }))
    ↔ ((10_000 + elapsed_since_persisted_anchor state (some epoch_a) reading ≤ u64_max)
        × (10_000 ≤ 10_001)
        × (Rebooted state (some epoch_a)
            ⊎ (10_001
                ≤ min
                    (10_000 + elapsed_since_persisted_anchor state (some epoch_a) reading + 60)
                    u64_max)))
healthy_iff_example = healthy_iff state 10_001 reading (some epoch_a) 60 refl (omega arith)

floor_never_decreases_example : 10_000 ≤ 10_002
floor_never_decreases_example =
    floor_never_decreases (some state) far (some epoch_a) max_forward_step_ms test_jump

forward_bounded_example :
    10_002 ≤ 10_000 + elapsed_since_persisted_anchor state (some epoch_a) far + max_forward_step_ms
forward_bounded_example =
    forward_bounded state far (some epoch_a) max_forward_step_ms (omega arith) same_boot test_jump

abbrev after : PersistedClockState
after = record {
  last_effective_ms = 10_003;
  monotonic_anchor_ns = 1_003_000_000;
  boot_epoch = some epoch_a;
}

abbrev later : PlatformTimeReading
later = record {
  utc_ms = some 10_003;
  monotonic_anchor_ns = 1_003_000_000;
  monotonic_elapsed_ms = 1;
}

test_observe : observe epoch_a 60 state (reading ∷ behind ∷ later ∷ []) ≡ ok after
unfolding observe evaluate_durable_clock elapsed_since_persisted_anchor
    persisted_anchor_matches_current_boot persisted_anchor_is_from_different_boot list_beq
test_observe = refl

observe_bounded_example :
    (10_000 ≤ 10_003)
    × (10_003 ≤ 10_000 + allowance epoch_a 60 state (reading ∷ behind ∷ later ∷ []))
observe_bounded_example =
    observe_bounded epoch_a 60 state (reading ∷ behind ∷ later ∷ []) (omega arith) same_boot
      test_observe
