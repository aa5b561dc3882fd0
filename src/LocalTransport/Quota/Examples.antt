-- ===== src/LocalTransport/Quota/Examples.antt =====
-- The theorems about quotas at concrete inputs, like those of the crate's tests.
use bloom_service_runtime.Prelude.{◌+◌, ◌≤◌, false, [], ◌∷◌, ok, err, ◌≡◌, refl, arith}
use bloom_service_runtime.RpcWire.Error.{wire_error, quota_exceeded}
use bloom_service_runtime.LocalTransport.Quota.{
  EndpointQuota, quota_new, expire, sliding_admit, locked_admit, admit, mutation_admission,
}
use bloom_service_runtime.LocalTransport.Quota.Window.{within}
use bloom_service_runtime.LocalTransport.Quota.Exact.{
  outcomes, logged_outcomes, sliding_admit_exact,
}
use bloom_service_runtime.LocalTransport.Quota.Endpoint.{
  Endpoint, untouched, admitted, refused, Reachable, here, next, quota_bounds,
}

test_outcomes :
    outcomes (record { maximum = 1; window_ms = 10; accepted_at_ms = [] }) (5 ∷ 14 ∷ 15 ∷ [])
    ≡ ok tt ∷ err (wire_error quota_exceeded) ∷ ok tt ∷ []
unfolding outcomes sliding_admit expire
test_outcomes = refl

sliding_admit_exact_example :
    outcomes (record { maximum = 1; window_ms = 10; accepted_at_ms = [] }) (5 ∷ 14 ∷ 15 ∷ [])
    ≡ logged_outcomes 1 10 [] (5 ∷ 14 ∷ 15 ∷ [])
sliding_admit_exact_example = sliding_admit_exact 1 10 (5 ∷ 14 ∷ 15 ∷ []) (omega arith)

abbrev fresh : EndpointQuota
fresh = record {
  mutation_slots = 1;
  request_rate = record {
    poisoned = false;
    content = record { maximum = 3; window_ms = 100; accepted_at_ms = [] };
  };
  journal_rate = record {
    poisoned = false;
    content = record { maximum = 2; window_ms = 100; accepted_at_ms = [] };
  };
}

test_new : quota_new 1 3 100 2 100 ≡ ok fresh
unfolding quota_new
test_new = refl

-- A mutation is admitted, and while it is in flight a second one is refused.
abbrev one : Endpoint
unfolding admit locked_admit sliding_admit expire
one = record {
  quota = (admit fresh false 10).1;
  in_flight = 1;
  requests = 10 ∷ [];
  mutations = 10 ∷ [];
  latest = 10;
}

abbrev two : Endpoint
unfolding admit locked_admit sliding_admit expire
two = record one { quota = (admit one.quota false 20).1; latest = 20 }

run : Reachable (untouched fresh) two
unfolding one two admit locked_admit sliding_admit expire
run =
    next
      (next here (
        admitted false 10 mutation_admission (admit fresh false 10).1 (omega arith) (omega arith)
          refl))
      (refused false 20 (wire_error quota_exceeded) (admit one.quota false 20).1 (omega arith)
        (omega arith) refl)

quota_bounds_example :
    (two.quota.mutation_slots + two.in_flight ≡ 1)
    × (within 100 0 two.requests ≤ 3)
    × (within 100 0 two.mutations ≤ 2)
quota_bounds_example = quota_bounds 1 3 100 2 100 test_new run 0
