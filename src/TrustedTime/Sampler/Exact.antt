-- ===== src/TrustedTime/Sampler/Exact.antt =====
-- The sampler loses no time: what `advance_sample_state` of crates/bloom-trusted-time/src/lib.rs
-- reports over any run of samples.
use bloom_service_runtime.Prelude.{
  ℕ, ◌+◌, ◌-◌, ◌*◌, ◌/◌, ◌%◌, ◌≤◌, ◌<◌, Option, none, some, List, [], ◌∷◌, Result, ok, err, ◌>>=◌,
  ◌≡◌, ◌⊎◌, inl, inr, arith, IsU64, ap,
}
use native.Mathlib.Decide.{dec_le}
use bloom_service_runtime.TrustedTime.Source.{TrustedTimeError, wall_clock_range}
use bloom_service_runtime.TrustedTime.Sampler.{SampleState, advance_sample_state}

-- What holds of the state between two samples: the carried fraction is less than a millisecond,
-- and no more than the time since the first anchor.
pub record IsCarry (s : SampleState) : Type 0 where
  pub below : s.fractional_ns < 1_000_000
  pub within : s.fractional_ns ≤ s.prior_anchor_ns

abbrev pub IsCarried : Option SampleState → Type 0
IsCarried none = Unit
IsCarried (some s) = IsCarry s

-- Every call keeps the invariant of the carried fraction, whether it succeeds or fails.
pub advance-IsCarried :
    (state : Option SampleState) (anchor : ℕ)
    → IsCarried state
    → IsCarried (advance_sample_state state anchor).1
unfolding advance_sample_state
advance-IsCarried none anchor h = omega arith
advance-IsCarried (some s) anchor h = ground arith

advance_forward :
    (s : SampleState) (anchor : ℕ)
    → IsCarry s
    → IsU64 anchor
    → s.prior_anchor_ns ≤ anchor
    → (ms : ℕ) × (rest : ℕ) × (advance_sample_state (some s) anchor
        ≡ (ok ms, some (record { prior_anchor_ns = anchor; fractional_ns = rest })))
      × (ms * 1_000_000 + rest ≡ anchor - s.prior_anchor_ns + s.fractional_ns)
      × (rest < 1_000_000)
unfolding advance_sample_state
advance_forward s anchor c h le = (
  (anchor - s.prior_anchor_ns + s.fractional_ns) / 1_000_000,
  (anchor - s.prior_anchor_ns + s.fractional_ns) % 1_000_000,
  ground arith,
  omega arith,
  omega arith,
)

-- From a state that the sampler can be in, at a 64-bit anchor: an anchor that has not gone
-- backwards succeeds, so the overflow check never fires, with the whole milliseconds of the
-- elapsed time and the fraction kept; an anchor that has gone backwards is an error and leaves
-- the state as it was.
pub advance_exact :
    (s : SampleState) (anchor : ℕ)
    → IsCarry s
    → IsU64 anchor
    → ((s.prior_anchor_ns ≤ anchor)
        × ((ms : ℕ) × (rest : ℕ) × (advance_sample_state (some s) anchor
              ≡ (ok ms, some (record { prior_anchor_ns = anchor; fractional_ns = rest })))
            × (ms * 1_000_000 + rest ≡ anchor - s.prior_anchor_ns + s.fractional_ns)
            × (rest < 1_000_000)))
      ⊎ ((anchor < s.prior_anchor_ns)
          × (advance_sample_state (some s) anchor ≡ (err wall_clock_range, some s)))
unfolding advance_sample_state
advance_exact s anchor c h = elim (dec_le s.prior_anchor_ns anchor) [
  | yes le ↦ inl (le, advance_forward s anchor c h le)
  | no gt ↦ inr (omega arith, ground arith)
]

-- The milliseconds that a run of samples reports, up to the first error.
pub total_ms : Option SampleState → List ℕ → Result ℕ TrustedTimeError
total_ms state [] = ok 0
total_ms state (a ∷ bs) =
    let (r, state') = advance_sample_state state a in
    let rest = total_ms state' bs in r >>= λ ms. rest >>= λ more. ok (ms + more)

abbrev pub last_from : ℕ → List ℕ → ℕ
last_from a [] = a
last_from a (b ∷ bs) = last_from b bs

-- The anchors do not go backwards, and each is a `u64`.
abbrev pub Ascends : ℕ → List ℕ → Type 0
Ascends a [] = Unit
Ascends a (b ∷ bs) = (a ≤ b) × IsU64 b × Ascends b bs

last-le : (a : ℕ) (bs : List ℕ) → Ascends a bs → a ≤ last_from a bs
last-le a [] h = omega arith
last-le a (b ∷ bs) h = omega (arith, last-le b bs h.2)

total_from :
    (s : SampleState) (bs : List ℕ)
    → IsCarry s
    → Ascends s.prior_anchor_ns bs
    → total_ms (some s) bs
      ≡ ok ((last_from s.prior_anchor_ns bs - s.prior_anchor_ns + s.fractional_ns) / 1_000_000)
unfolding total_ms
total_from s [] c h = ground arith
total_from s (a ∷ bs) c h =
    let (ms, rest, e, whole, small) = advance_forward s a c h.1 h.0 in
    let s' : SampleState = record { prior_anchor_ns = a; fractional_ns = rest } in
    let fits : rest ≤ a = omega arith in
    rw e (
      rw (total_from s' bs (record { below = small; within = fits }) h.2)
        (ap ok (omega (arith, last-le a bs h.2))))

-- The first sample of a run reports 0. However often the sampler is read after that, at 64-bit
-- anchors that do not go backwards, no call fails and the reported milliseconds add up to the
-- whole milliseconds from the first anchor to the last: no fraction is lost or counted twice.
pub total_ms_exact :
    (first : ℕ) (anchors : List ℕ)
    → Ascends first anchors
    → total_ms none (first ∷ anchors) ≡ ok ((last_from first anchors - first) / 1_000_000)
unfolding total_ms advance_sample_state
total_ms_exact first anchors h =
    let s : SampleState = record { prior_anchor_ns = first; fractional_ns = 0 } in
    rw (total_from s anchors (omega arith) h) (ap ok (omega arith))
