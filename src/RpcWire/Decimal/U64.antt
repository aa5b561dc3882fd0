-- ===== src/RpcWire/Decimal/U64.antt =====
-- `DecimalU64` of crates/bloom-rpc-wire/src/ids.rs.
use bloom_service_runtime.Prelude.{
  ℕ, ◌<◌, Bytes, false, some, ok, err, ◌≡◌, ◌⊎◌, inl, inr, arith, IsU64, u64_max, Bool-cases, ◌∙◌,
  ap,
}
use native.Mathlib.Decide.{dec_le}
use bloom_service_runtime.RpcWire.Error.{wire_error, malformed_frame}
use bloom_service_runtime.RpcWire.Decimal.{
  is_canonical_decimal, u128_max, print_digits, decimal_u64_new, decimal_u64_parse, decimal_u64_get,
}
use bloom_service_runtime.RpcWire.Decimal.Value.{Digits, Leads, decimal_value, value-injective}
use bloom_service_runtime.RpcWire.Decimal.Print.{
  canonical_iff, print_digits-value, print_digits-Leads, parse_unsigned-canonical,
}

-- Decimal digits without a needless leading zero, whose value is a `u64`.
pub record IsU64Text (value : Bytes) : Type 0 where
  pub digits : Digits value
  pub leads : Leads value
  pub small : IsU64 (decimal_value value)

IsU64Text-new : (n : ℕ) → IsU64 n → IsU64Text (decimal_u64_new n).text
unfolding decimal_u64_new
IsU64Text-new n h =
    let (value, digits) = print_digits-value 19 n (omega arith) in
    record { digits = digits; leads = print_digits-Leads 19 n (omega arith); small = rw value h }

new_has_value : (n : ℕ) → IsU64 n → decimal_value (decimal_u64_new n).text ≡ n
unfolding decimal_u64_new
new_has_value n h = (print_digits-value 19 n (omega arith)).0

new-value : (value : Bytes) → IsU64Text value → (decimal_u64_new (decimal_value value)).text ≡ value
unfolding decimal_u64_new
new-value value t =
    let n = decimal_value value in
    let (same, digits) = print_digits-value 19 n (omega (arith, t.small)) in
    value-injective (print_digits 20 n) value digits t.digits
      (print_digits-Leads 19 n (omega (arith, t.small))) t.leads same

pub get-IsU64Text :
    (value : Bytes)
    → IsU64Text value
    → decimal_u64_get (record { text = value }) ≡ some (decimal_value value)
unfolding decimal_u64_get
get-IsU64Text value t =
    ground (arith, parse_unsigned-canonical u64_max value t.digits t.leads, t.small)

parse-IsU64Text :
    (value : Bytes) → IsU64Text value → decimal_u64_parse value ≡ ok (record { text = value })
unfolding decimal_u64_parse
parse-IsU64Text value t = ground (
  arith,
  (canonical_iff value).1 (t.digits, t.leads),
  parse_unsigned-canonical u128_max value t.digits t.leads,
  t.small,
  new-value value t,
)

parse-noncanonical :
    (value : Bytes)
    → is_canonical_decimal value ≡ false
    → decimal_u64_parse value ≡ err (wire_error malformed_frame)
unfolding decimal_u64_parse
parse-noncanonical value h = ground arith

parse-large :
    (value : Bytes)
    → Digits value
    → Leads value
    → u64_max < decimal_value value
    → decimal_u64_parse value ≡ err (wire_error malformed_frame)
unfolding decimal_u64_parse
parse-large value digits leads large =
    ground (arith, parse_unsigned-canonical u128_max value digits leads)

-- A text is accepted exactly if it consists of decimal digits without a needless leading zero
-- and stands for a number below 2 ^ 64. The accepted value keeps the text, and `get` cannot
-- panic on it and gives that number. Any other text is refused as a malformed frame.
pub u64_parse_exact :
    (value : Bytes)
    → (IsU64Text value
        × (decimal_u64_parse value ≡ ok (record { text = value }))
        × (decimal_u64_get (record { text = value }) ≡ some (decimal_value value)))
      ⊎ ((IsU64Text value → ⊥) × (decimal_u64_parse value ≡ err (wire_error malformed_frame)))
u64_parse_exact value = elim (Bool-cases (is_canonical_decimal value)) [
  | inr other ↦
      inr (
        λ t. cc (other, (canonical_iff value).1 (t.digits, t.leads)),
        parse-noncanonical value other,
      )
  | inl canonical ↦
      let (digits, leads) = (canonical_iff value).0 canonical in
      elim (dec_le (decimal_value value) u64_max) [
        | yes small ↦
            let t : IsU64Text value = record { digits = digits; leads = leads; small = small } in
            inl (t, parse-IsU64Text value t, get-IsU64Text value t)
        | no large ↦ inr (λ t. large t.small, parse-large value digits leads (omega arith))
      ]
]

-- The text of a `u64` is accepted by the parser, and `get` gives the number back.
pub u64_roundtrip :
    (n : ℕ)
    → IsU64 n
    → (decimal_u64_parse (decimal_u64_new n).text ≡ ok (decimal_u64_new n))
      × (decimal_u64_get (decimal_u64_new n) ≡ some n)
u64_roundtrip n h =
    let t = IsU64Text-new n h in
    let same = new_has_value n h in (parse-IsU64Text _ t, get-IsU64Text _ t ∙ ap some same)
