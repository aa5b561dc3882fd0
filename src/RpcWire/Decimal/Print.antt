-- ===== src/RpcWire/Decimal/Print.antt =====
-- What the standard library's decimal `to_string` and `parse` do
-- (as used in crates/bloom-rpc-wire/src/ids.rs).
use native.Mathlib.Nat.{pow-suc}
use bloom_service_runtime.Prelude.{
  ℕ, zero, suc, ◌+◌, ◌-◌, ◌*◌, ◌/◌, ◌%◌, ◌^◌, ◌≤◌, ◌<◌, Bytes, all, length, length-append, true,
  none, some, [], ◌∷◌, ◌++◌, ◌≡◌, ◌↔◌, arith, ltb, leb, if◌then◌else◌, Bool-cases, inl, inr,
}
use bloom_service_runtime.RpcWire.Decimal.{
  is_digit, is_canonical_decimal, parse_digits, parse_unsigned, print_digits,
}
use bloom_service_runtime.RpcWire.Decimal.Value.{Digits, Leads, decimal_value}

each_digit_checked : (bs : Bytes) → (all is_digit bs ≡ true) ↔ Digits bs
unfolding all
each_digit_checked [] = ground arith
each_digit_checked (b ∷ bs) = ground (arith, each_digit_checked bs)

-- The canonical texts.
pub canonical_iff : (bs : Bytes) → (is_canonical_decimal bs ≡ true) ↔ (Digits bs × Leads bs)
unfolding is_canonical_decimal
canonical_iff [] = ground arith
canonical_iff (b ∷ []) = ground (arith, each_digit_checked (b ∷ []))
canonical_iff (b ∷ c ∷ bs) = ground (arith, each_digit_checked (b ∷ c ∷ bs))

carry : (n d p v : ℕ) → n * (p * 10) + (d * p + v) ≡ (n * 10 + d) * p + v
carry n d p v = grind arith

grows : (n p v : ℕ) → 0 < p → n ≤ n * p + v
grows n p v h = grind arith

pow_pos : (k : ℕ) → 0 < 10 ^ k
pow_pos zero = omega arith
pow_pos (suc k) = omega (arith, pow-suc 10 k, pow_pos k)

-- The accumulator loop computes the value, or finds that it passes the limit.
pub parse_digits-value :
    (limit n : ℕ) (bs : Bytes)
    → Digits bs
    → n ≤ limit
    → parse_digits limit n bs ≡ (
        if leb (n * 10 ^ length bs + decimal_value bs) limit
        then some (n * 10 ^ length bs + decimal_value bs)
        else none)
unfolding parse_digits decimal_value
parse_digits-value limit n [] h k = ground arith
parse_digits-value limit n (b ∷ bs) h k =
    let n' = n * 10 + (b - b'0') in
    rw (pow-suc 10 (length bs)) (
      rw (carry n (b - b'0') (10 ^ length bs) (decimal_value bs)) (
        ground (
          arith,
          parse_digits-value limit n' bs h.1,
          grows n' (10 ^ length bs) (decimal_value bs) (pow_pos (length bs)),
        )))

length-snoc : (bs : Bytes) (b : ℕ) → length (bs ++ b ∷ []) ≡ suc (length bs)
length-snoc bs b = omega (arith, length-append {0} bs (b ∷ []))

carry_out : (d p v e : ℕ) → d * (p * 10) + (v * 10 + e) ≡ (d * p + v) * 10 + e
carry_out d p v e = grind arith

pub decimal_value-append :
    (bs : Bytes) (b : ℕ) → decimal_value (bs ++ b ∷ []) ≡ decimal_value bs * 10 + (b - b'0')
unfolding decimal_value
decimal_value-append [] b = ground arith
decimal_value-append (c ∷ bs) b =
    rw (length-snoc bs b, pow-suc 10 (length bs), decimal_value-append bs b)
      (carry_out (c - b'0') (10 ^ length bs) (decimal_value bs) (b - b'0'))

Digits-append : (bs : Bytes) (b : ℕ) → Digits bs → (b'0' ≤ b) × (b ≤ b'9') → Digits (bs ++ b ∷ [])
Digits-append [] b h d = (d, tt)
Digits-append (c ∷ bs) b h d = (h.0, Digits-append bs b h.1 d)

-- With enough digits allowed, the printed text stands for the number.
pub print_digits-value :
    (fuel n : ℕ)
    → n < 10 ^ suc fuel
    → (decimal_value (print_digits (suc fuel) n) ≡ n) × Digits (print_digits (suc fuel) n)
unfolding print_digits decimal_value
print_digits-value zero n h = ground arith
print_digits-value (suc fuel) n h = elim (Bool-cases (ltb n 10)) [
  | inl small ↦ ground arith
  | inr large ↦
      let fits : n / 10 < 10 ^ suc fuel = omega (arith, pow-suc 10 (suc fuel)) in
      let (value, digits) = print_digits-value fuel (n / 10) fits in
      let rest = print_digits (suc fuel) (n / 10) in
      rw (large, print_digits)
        (
          unfold print_digits in
              rw (decimal_value-append rest (b'0' + n % 10), value) (omega arith),
          Digits-append rest (b'0' + n % 10) digits (omega arith),
        )
]

-- The head of a text that stands for a positive number is no zero, and stays the head.
abbrev Heads : Bytes → Type 0
Heads [] = ⊥
Heads (b ∷ bs) = b'0' < b

Heads-append : (bs cs : Bytes) → Heads bs → Heads (bs ++ cs)
Heads-append [] cs h = absurd h
Heads-append (b ∷ bs) cs h = h

no_zero_in_front : (bs : Bytes) → Heads bs → Leads bs
no_zero_in_front [] h = h
no_zero_in_front (b ∷ []) h = tt
no_zero_in_front (b ∷ c ∷ bs) h = omega arith

print_digits-Heads : (fuel n : ℕ) → 0 < n → n < 10 ^ suc fuel → Heads (print_digits (suc fuel) n)
unfolding print_digits
print_digits-Heads zero n pos h = ground arith
print_digits-Heads (suc fuel) n pos h = elim (Bool-cases (ltb n 10)) [
  | inl small ↦ ground arith
  | inr large ↦
      let fits : n / 10 < 10 ^ suc fuel = omega (arith, pow-suc 10 (suc fuel)) in
      rw (large, print_digits)
        (Heads-append (print_digits (suc fuel) (n / 10)) _
          (print_digits-Heads fuel (n / 10) (ground arith) fits))
]

pub print_digits-Leads : (fuel n : ℕ) → n < 10 ^ suc fuel → Leads (print_digits (suc fuel) n)
unfolding print_digits
print_digits-Leads fuel zero h = tt
print_digits-Leads fuel (suc n) h =
    no_zero_in_front _ (print_digits-Heads fuel (suc n) (omega arith) h)

-- `parse` of a canonical text gives its value, unless that passes the limit of the type.
pub parse_unsigned-canonical :
    (limit : ℕ) (bs : Bytes)
    → Digits bs
    → Leads bs
    → parse_unsigned limit bs
      ≡ (if leb (decimal_value bs) limit then some (decimal_value bs) else none)
unfolding parse_unsigned
parse_unsigned-canonical limit [] h lead = absurd lead
parse_unsigned-canonical limit (b ∷ bs) h lead =
    ground (arith, parse_digits-value limit 0 (b ∷ bs) h (omega arith))
