-- ===== src/LocalTransport/Quota/Window.antt =====
-- How many admissions fall into one window (crates/bloom-triad-local-transport/src/lib.rs).
use bloom_service_runtime.Prelude.{
  ℕ, suc, ◌+◌, ◌≤◌, ◌<◌, ◌&&◌, List, [], ◌∷◌, ◌++◌, length, ok, leb, ltb, if◌then◌else◌, u64_max,
  ◌≡◌, refl, ap, arith,
}
use bloom_service_runtime.LocalTransport.Quota.{SlidingAdmission, expire, sliding_admit}

-- How many of these times lie in the window that starts at `start`.
unfoldable pub within : ℕ → ℕ → List ℕ → ℕ
within window start [] = 0
within window start (a ∷ times) =
    let rest = within window start times in
    if leb start a && ltb a (start + window) then suc rest else rest

-- How many of these times have the present moment in the window that starts at them.
unfoldable pub recent : ℕ → ℕ → List ℕ → ℕ
recent window now [] = 0
recent window now (a ∷ times) =
    let rest = recent window now times in if ltb now (a + window) then suc rest else rest

pub recent-append :
    (window now : ℕ) (xs ys : List ℕ)
    → recent window now (xs ++ ys) ≡ recent window now xs + recent window now ys
unfolding recent
recent-append window now [] ys = omega arith
recent-append window now (x ∷ xs) ys = ground (arith, recent-append window now xs ys)

recent-short : (window now : ℕ) (xs : List ℕ) → recent window now xs ≤ length xs
unfolding recent
recent-short window now [] = omega arith
recent-short window now (x ∷ xs) = ground (arith, recent-short window now xs)

-- Expiry drops no time that is recent, now or later.
pub recent-expire :
    (window now later : ℕ) (xs : List ℕ)
    → now < u64_max
    → now ≤ later
    → recent window later (expire window now xs) ≡ recent window later xs
unfolding recent expire
recent-expire window now later [] h k = refl
recent-expire window now later (x ∷ xs) h k = ground (arith, recent-expire window now later xs h k)

-- Every time of a window that now belongs to is recent.
within-recent :
    (window start now : ℕ) (xs : List ℕ)
    → now < start + window
    → within window start xs ≤ recent window now xs
unfolding within recent
within-recent window start now [] h = omega arith
within-recent window start now (x ∷ xs) h = ground (arith, within-recent window start now xs h)

-- A sliding window that has admitted these times, newest first, the last of them before `next`.
pub record IsSliding (maximum window : ℕ) (rate : SlidingAdmission) (next : ℕ) (times : List ℕ)
    : Type 0 where
  pub limit : rate.maximum ≡ maximum
  pub width : rate.window_ms ≡ window
  pub bound : (start : ℕ) → within window start times ≤ maximum
  pub covers :
      (now : ℕ) → next ≤ now → recent window now times ≤ recent window now rate.accepted_at_ms

module _ {maximum window : ℕ} {rate : SlidingAdmission} {next : ℕ} {times : List ℕ}
    (i : IsSliding maximum window rate next times) (now : ℕ) (small : now < u64_max)
    (later : next ≤ now) where
  covered :
      (after : ℕ)
      → now ≤ after
      → recent window after times
        ≤ recent window after (expire rate.window_ms now rate.accepted_at_ms)
  covered after h = omega (
    arith,
    i.covers after (omega arith),
    ap (λ w. recent window after (expire w now rate.accepted_at_ms)) i.width,
    recent-expire window now after rate.accepted_at_ms small h,
  )

  -- An admission keeps the window, whether it succeeds and is not counted, or fails.
  pub sliding_admit-keeps : IsSliding maximum window (sliding_admit rate now).1 now times
  unfolding sliding_admit
  sliding_admit-keeps =
      let kept = expire rate.window_ms now rate.accepted_at_ms in
      record {
        limit = ground (arith, i.limit);
        width = ground (arith, i.width);
        bound = i.bound;
        covers =
            λ after h. ground (arith, covered after h, recent-append window after kept (now ∷ []));
      }

  -- A successful admission is counted.
  pub sliding_admit-counts :
      (sliding_admit rate now).0 ≡ ok tt
      → IsSliding maximum window (sliding_admit rate now).1 now (now ∷ times)
  unfolding sliding_admit within recent
  sliding_admit-counts h =
      let kept = expire rate.window_ms now rate.accepted_at_ms in
      record {
        limit = ground (arith, i.limit);
        width = ground (arith, i.width);
        bound = λ start. ground (
          arith,
          i.limit,
          i.bound start,
          within-recent window start now times,
          covered now (omega arith),
          recent-short window now kept,
        );
        covers = λ after h'.
            ground (arith, covered after h', recent-append window after kept (now ∷ []));
      }
