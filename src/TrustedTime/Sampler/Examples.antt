-- ===== src/TrustedTime/Sampler/Examples.antt =====
-- Runs of the sampler on the inputs of the crate's tests, and the theorems at such inputs.
use bloom_service_runtime.Prelude.{
  none, some, [], ◌∷◌, ok, err, ◌≡◌, refl, arith, pos, negsuc, codes, list_beq,
}
use bloom_service_runtime.TrustedTime.Source.{
  linux, linux_system_clock, wall_clock_range, for_current_platform,
}
use bloom_service_runtime.TrustedTime.Sampler.{SampleState, timespec_ns, continuous_ticks_ns}
use bloom_service_runtime.TrustedTime.Sampler.Exact.{total_ms, total_ms_exact}

abbrev carried : SampleState
carried = record { prior_anchor_ns = 1_000_900_000; fractional_ns = 900_000 }

test_timespec : timespec_ns (pos 2) (pos 5) ≡ ok 2_000_000_005
unfolding timespec_ns
test_timespec = refl

test_timespec_negative : timespec_ns (negsuc 0) (pos 5) ≡ err wall_clock_range
unfolding timespec_ns
test_timespec_negative = refl

test_ticks : continuous_ticks_ns (some (125, 3)) 24 ≡ ok 1000
unfolding continuous_ticks_ns
test_ticks = refl

total_ms_exact_example : total_ms none (10 ∷ 900_010 ∷ 1_800_010 ∷ 2_700_010 ∷ []) ≡ ok 2
total_ms_exact_example = total_ms_exact 10 (900_010 ∷ 1_800_010 ∷ 2_700_010 ∷ []) (omega arith)

test_legacy : for_current_platform linux (codes "linux-system-clock") ≡ ok linux_system_clock
unfolding for_current_platform list_beq
test_legacy = refl
