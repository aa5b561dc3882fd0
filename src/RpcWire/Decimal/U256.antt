-- ===== src/RpcWire/Decimal/U256.antt =====
-- `DecimalU256` of crates/bloom-rpc-wire/src/ids.rs.
use bloom_service_runtime.Prelude.{
  ◌-◌, ◌^◌, ◌≤◌, ◌<◌, Bytes, all, length, true, ok, err, ◌≡◌, ◌⊎◌, ◌↔◌, refl, inl, inr, arith,
  Bool-cases,
}
use bloom_service_runtime.RpcWire.Error.{wire_error, malformed_frame}
use bloom_service_runtime.RpcWire.Decimal.{
  is_canonical_decimal, decimal_leq, u256_max_text, decimal_u256_parse,
}
use bloom_service_runtime.RpcWire.Decimal.Value.{Digits, Leads, decimal_value, decimal_leq_iff}
use bloom_service_runtime.RpcWire.Decimal.Print.{canonical_iff}

max_text_value : decimal_value u256_max_text ≡ 2 ^ 256 - 1
unfolding decimal_value
max_text_value = refl

max_text_canonical : is_canonical_decimal u256_max_text ≡ true
unfolding is_canonical_decimal all
max_text_canonical = refl

-- Decimal digits without a needless leading zero, whose value is below 2 ^ 256.
pub record IsU256Text (value : Bytes) : Type 0 where
  pub digits : Digits value
  pub leads : Leads value
  pub small : decimal_value value < 2 ^ 256

leq_max :
    (value : Bytes)
    → Digits value
    → Leads value
    → (decimal_leq value u256_max_text ≡ true) ↔ (decimal_value value < 2 ^ 256)
leq_max value digits leads =
    let (max_digits, max_leads) = (canonical_iff u256_max_text).0 max_text_canonical in
    let compared = decimal_leq_iff value u256_max_text digits max_digits leads max_leads in
    (
      λ h. omega (arith, compared.0 h, max_text_value),
      λ h. compared.1 (omega (arith, max_text_value)),
    )

leq-length : (value : Bytes) → decimal_leq value u256_max_text ≡ true → length value ≤ 78
unfolding decimal_leq
leq-length value h = ground arith

-- A text is accepted exactly if it consists of decimal digits without a needless leading zero
-- and stands for a number below 2 ^ 256, so the comparison of texts decides the comparison of
-- numbers; the accepted value keeps the text. Any other text is refused as a malformed frame.
pub u256_parse_exact :
    (value : Bytes)
    → (IsU256Text value × (decimal_u256_parse value ≡ ok (record { text = value })))
      ⊎ ((IsU256Text value → ⊥) × (decimal_u256_parse value ≡ err (wire_error malformed_frame)))
unfolding decimal_u256_parse
u256_parse_exact value = elim (Bool-cases (is_canonical_decimal value)) [
  | inr other ↦ inr (λ t. cc (other, (canonical_iff value).1 (t.digits, t.leads)), ground arith)
  | inl canonical ↦
      let (digits, leads) = (canonical_iff value).0 canonical in
      elim (Bool-cases (decimal_leq value u256_max_text)) [
        | inl small ↦ inl (
          record { digits = digits; leads = leads; small = (leq_max value digits leads).0 small },
          ground (arith, leq-length value small),
        )
        | inr large ↦ inr (λ t. cc (large, (leq_max value digits leads).1 t.small), ground arith)
      ]
]
