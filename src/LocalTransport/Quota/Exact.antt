-- ===== src/LocalTransport/Quota/Exact.antt =====
-- The sliding window against a window that never forgets an admission
-- (crates/bloom-triad-local-transport/src/lib.rs).
use bloom_service_runtime.Prelude.{
  ℕ, ◌+◌, ◌≤◌, ◌<◌, List, [], ◌∷◌, ◌++◌, All, All-append, All-weaken, if-keeps, length, Result, ok,
  err, leb, ltb, if◌then◌else◌, u64_max, saturating_add, ◌≡◌, refl, arith,
}
use bloom_service_runtime.RpcWire.Error.{WireError, wire_error, quota_exceeded}
use bloom_service_runtime.LocalTransport.Quota.{SlidingAdmission, expire, sliding_admit}
use bloom_service_runtime.LocalTransport.Quota.Window.{recent, recent-append, recent-expire}

-- Times in order, from `next` on.
abbrev pub Observed : ℕ → List ℕ → Type 0
Observed next [] = Unit {0}
Observed next (now ∷ times) = (next ≤ now) × (now < u64_max) × Observed now times

abbrev Sorted : List ℕ → Type 0
Sorted [] = Unit {0}
Sorted (x ∷ xs) = All (λ y. x ≤ y) xs × Sorted xs

-- The results of admissions at these times.
unfoldable pub outcomes : SlidingAdmission → List ℕ → List (Result (Unit {0}) WireError)
outcomes rate [] = []
outcomes rate (now ∷ times) =
    let (result, after) = sliding_admit rate now in result ∷ outcomes after times

-- The same from the full log of admissions: one is made if fewer than the maximum are recent.
unfoldable pub logged_outcomes : ℕ → ℕ → List ℕ → List ℕ → List (Result (Unit {0}) WireError)
logged_outcomes maximum window log [] = []
logged_outcomes maximum window log (now ∷ times) =
    let refused = err (wire_error quota_exceeded) ∷ logged_outcomes maximum window log times in
    let made = ok tt ∷ logged_outcomes maximum window (now ∷ log) times in
    if ltb (recent window now log) maximum then made else refused

later_times_count :
    (window now x : ℕ) (xs : List ℕ)
    → now < x + window
    → All (λ y. x ≤ y) xs
    → recent window now xs ≡ length xs
unfolding recent
later_times_count window now x [] h s = refl
later_times_count window now x (y ∷ xs) h s =
    ground (arith, later_times_count window now x xs h s.1)

length-expire :
    (window now : ℕ) (xs : List ℕ)
    → now < u64_max
    → Sorted xs
    → length (expire window now xs) ≡ recent window now xs
unfolding recent expire
length-expire window now [] h s = refl
length-expire window now (x ∷ xs) h s =
    ground (arith, length-expire window now xs h s.1, later_times_count window now x xs)

expire-Sorted : (window now : ℕ) (xs : List ℕ) → Sorted xs → Sorted (expire window now xs)
unfolding expire
expire-Sorted window now [] s = tt
expire-Sorted window now (x ∷ xs) s =
    if-keeps Sorted (leb (saturating_add x window) now) {y = x ∷ xs}
      (expire-Sorted window now xs s.1) s

expire-All :
    (P : ℕ → Type 0) (window now : ℕ) (xs : List ℕ) → All P xs → All P (expire window now xs)
unfolding expire
expire-All P window now [] h = tt
expire-All P window now (x ∷ xs) h =
    if-keeps (All P) (leb (saturating_add x window) now) {y = x ∷ xs}
      (expire-All P window now xs h.1) h

append-Sorted :
    (xs : List ℕ) (now : ℕ) → Sorted xs → All (λ y. y ≤ now) xs → Sorted (xs ++ now ∷ [])
append-Sorted [] now s b = (tt, tt)
append-Sorted (x ∷ xs) now s b =
    (All-append _ xs (now ∷ []) s.0 (b.0, tt), append-Sorted xs now s.1 b.1)

-- The window stands for the log.
record Stands (rate : SlidingAdmission) (next : ℕ) (log : List ℕ) : Type 0 where
  sorted : Sorted rate.accepted_at_ms
  past : All (λ y. y ≤ next) rate.accepted_at_ms
  counts :
      (now : ℕ)
      → next ≤ now
      → recent rate.window_ms now log ≡ recent rate.window_ms now rate.accepted_at_ms

module _ (rate : SlidingAdmission) (next : ℕ) (log : List ℕ) (i : Stands rate next log) (now : ℕ)
    (later : next ≤ now) (small : now < u64_max) where
  abbrev kept : List ℕ
  kept = expire rate.window_ms now rate.accepted_at_ms

  length-kept : length kept ≡ recent rate.window_ms now log
  length-kept = omega (
    arith,
    i.counts now later,
    length-expire rate.window_ms now rate.accepted_at_ms small i.sorted,
  )

  kept_past : All (λ y. y ≤ now) kept
  kept_past =
      expire-All _ rate.window_ms now rate.accepted_at_ms
        (All-weaken _ _ rate.accepted_at_ms (λ y h. omega arith) i.past)

  kept_counts :
      (after : ℕ) → now ≤ after → recent rate.window_ms after log ≡ recent rate.window_ms after kept
  kept_counts after h = omega (
    arith,
    i.counts after (omega arith),
    recent-expire rate.window_ms now after rate.accepted_at_ms small h,
  )

  refused : Stands (record rate { accepted_at_ms = kept }) now log
  refused = record {
    sorted = expire-Sorted rate.window_ms now rate.accepted_at_ms i.sorted;
    past = kept_past;
    counts = kept_counts;
  }

  made : Stands (record rate { accepted_at_ms = kept ++ now ∷ [] }) now (now ∷ log)
  unfolding recent
  made = record {
    sorted =
        append-Sorted kept now (expire-Sorted rate.window_ms now rate.accepted_at_ms i.sorted)
          kept_past;
    past = All-append _ kept (now ∷ []) kept_past (omega arith, tt);
    counts = λ after h.
        ground (arith, kept_counts after h, recent-append rate.window_ms after kept (now ∷ []));
  }

refines :
    (times : List ℕ) (rate : SlidingAdmission) (next : ℕ) (log : List ℕ)
    → Stands rate next log
    → Observed next times
    → outcomes rate times ≡ logged_outcomes rate.maximum rate.window_ms log times
unfolding outcomes logged_outcomes sliding_admit
refines [] rate next log i o = refl
refines (now ∷ times) rate next log i o =
    let full = length-kept rate next log i now o.0 o.1 in
    let on_refusal = refines times _ now log (refused rate next log i now o.0 o.1) o.2 in
    let on_success = refines times _ now (now ∷ log) (made rate next log i now o.0 o.1) o.2 in
    ground (arith, full, on_refusal, on_success)

-- For admissions at times that do not decrease and lie below the largest u64, the sliding window
-- admits and refuses exactly as a window over the full log does: an admission succeeds if and
-- only if fewer than the maximum of the earlier successful ones have the present moment in the
-- window that starts at them.
pub sliding_admit_exact :
    (maximum window : ℕ) (times : List ℕ)
    → Observed 0 times
    → outcomes (record { maximum = maximum; window_ms = window; accepted_at_ms = [] }) times
      ≡ logged_outcomes maximum window [] times
sliding_admit_exact maximum window times o =
    refines times _ 0 [] (record { sorted = tt; past = tt; counts = λ now h. refl }) o
