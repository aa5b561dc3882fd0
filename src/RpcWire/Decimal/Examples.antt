-- ===== src/RpcWire/Decimal/Examples.antt =====
-- Decimal texts of the crate's tests, and the theorems at such inputs.
use bloom_service_runtime.Prelude.{codes, all, some, ok, err, ◌≡◌, ◌⊎◌, refl}
use bloom_service_runtime.RpcWire.Error.{wire_error, malformed_frame}
use bloom_service_runtime.RpcWire.Decimal.{
  decimal_u64_parse, decimal_u64_get, decimal_u256_parse, is_canonical_decimal, decimal_leq,
  u256_max_text,
}
use bloom_service_runtime.RpcWire.Decimal.Value.{decimal_value}
use bloom_service_runtime.RpcWire.Decimal.U64.{IsU64Text, u64_parse_exact}
use bloom_service_runtime.RpcWire.Decimal.U256.{IsU256Text, u256_parse_exact}

test_u64 :
    (decimal_u64_parse (codes "18446744073709551615")
      ≡ ok (record { text = codes "18446744073709551615" }))
    × (decimal_u64_parse (codes "00") ≡ err (wire_error malformed_frame))
    × (decimal_u64_parse (codes "+1") ≡ err (wire_error malformed_frame))
    × (decimal_u64_parse (codes "18446744073709551616") ≡ err (wire_error malformed_frame))
unfolding decimal_u64_parse all
test_u64 = (refl, refl, refl, refl)

test_u256 :
    (decimal_u256_parse u256_max_text ≡ ok (record { text = u256_max_text }))
    × (decimal_u256_parse
          (codes "115792089237316195423570985008687907853269984665640564039457584007913129639936")
        ≡ err (wire_error malformed_frame))
unfolding decimal_u256_parse is_canonical_decimal decimal_leq all
test_u256 = (refl, refl)

u64_parse_exact_example :
    (IsU64Text (codes "00")
      × (decimal_u64_parse (codes "00") ≡ ok (record { text = codes "00" }))
      × (decimal_u64_get (record { text = codes "00" }) ≡ some (decimal_value (codes "00"))))
    ⊎ ((IsU64Text (codes "00") → ⊥)
        × (decimal_u64_parse (codes "00") ≡ err (wire_error malformed_frame)))
u64_parse_exact_example = u64_parse_exact (codes "00")

u256_parse_exact_example :
    (IsU256Text (codes "17")
      × (decimal_u256_parse (codes "17") ≡ ok (record { text = codes "17" })))
    ⊎ ((IsU256Text (codes "17") → ⊥)
        × (decimal_u256_parse (codes "17") ≡ err (wire_error malformed_frame)))
u256_parse_exact_example = u256_parse_exact (codes "17")
