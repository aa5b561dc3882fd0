-- ===== src/RpcWire/Decimal.antt =====
-- The decimal texts of crates/bloom-rpc-wire/src/ids.rs. `to_string` and `parse` of the standard
-- library are written out.
pub mod Value
pub mod Print
pub mod U64
pub mod U256
mod Examples
use bloom_service_runtime.Prelude.{
  ℕ, zero, suc, ◌+◌, ◌-◌, ◌*◌, ◌/◌, ◌%◌, ◌^◌, Bytes, codes, all, length, Bool, true, false, not,
  ◌&&◌, ◌||◌, Option, none, some, Result, ok, err, ◌>>=◌, ok_or, [], ◌∷◌, ◌++◌, ◌≡◌, ◌↔◌, arith,
  ltb, leb, ◌==◌, nat_eq, list_beq, list_beq_iff, PartialEq, u64_max, to_u64, if◌then◌else◌,
}
use bloom_service_runtime.RpcWire.Error.{WireError, wire_error, malformed_frame}

abbrev pub is_digit : ℕ → Bool
is_digit b = leb b'0' b && leb b b'9'

abbrev starts_with_zero : Bytes → Bool
starts_with_zero [] = false
starts_with_zero (b ∷ bs) = b == b'0'

abbrev is_empty : Bytes → Bool
is_empty [] = true
is_empty (b ∷ bs) = false

unfoldable pub is_canonical_decimal : Bytes → Bool
is_canonical_decimal value =
    not (is_empty value || ltb 1 (length value) && starts_with_zero value) && all is_digit value

-- The digits of `parse`, from the accumulator `n`; `none` is an invalid digit or an overflow of
-- the type with greatest value `limit`.
unfoldable pub parse_digits : ℕ → ℕ → Bytes → Option ℕ
parse_digits limit n [] = some n
parse_digits limit n (b ∷ bs) =
    let n' = n * 10 + (b - b'0') in
    let rest = parse_digits limit n' bs in if is_digit b && leb n' limit then rest else none

-- `str::parse` of an unsigned type, which takes a leading `+` too.
unfoldable pub parse_unsigned : ℕ → Bytes → Option ℕ
unfolding parse_digits
parse_unsigned limit [] = none
parse_unsigned limit (b ∷ bs) =
    if b == b'+'
    then (if is_empty bs then none else parse_digits limit 0 bs)
    else parse_digits limit 0 (b ∷ bs)

abbrev pub u128_max : ℕ
u128_max = 2 ^ 128 - 1

unfoldable pub parse_canonical_decimal : Bytes → Option ℕ
unfolding is_canonical_decimal parse_unsigned
parse_canonical_decimal value =
    if is_canonical_decimal value then parse_unsigned u128_max value else none

-- `to_string`, with at most `fuel` digits.
unfoldable pub print_digits : ℕ → ℕ → Bytes
print_digits zero n = []
print_digits (suc fuel) n =
    let rest = print_digits fuel (n / 10) in
    if ltb n 10 then (b'0' + n) ∷ [] else rest ++ (b'0' + n % 10) ∷ []

pub record DecimalU64 : Type 0 where
  pub text : Bytes

-- A `u64` has at most 20 digits.
unfoldable pub decimal_u64_new : ℕ → DecimalU64
unfolding print_digits
decimal_u64_new value = record { text = print_digits 20 value }

unfoldable pub decimal_u64_parse : Bytes → Result DecimalU64 WireError
unfolding parse_canonical_decimal decimal_u64_new
decimal_u64_parse value =
    ok_or
      (elim (parse_canonical_decimal value) [
        | none ↦ none
        | some number ↦ elim (to_u64 number) [ none ↦ none | some n ↦ some (decimal_u64_new n) ]
      ])
      (wire_error malformed_frame)

-- `none` is a panic of `expect`.
unfoldable pub decimal_u64_get : DecimalU64 → Option ℕ
unfolding parse_unsigned
decimal_u64_get d = parse_unsigned u64_max d.text

-- `left <= right` on texts is lexicographic on bytes.
unfoldable pub text_le : Bytes → Bytes → Bool
text_le [] right = true
text_le (a ∷ left) [] = false
text_le (a ∷ left) (b ∷ right) =
    if ltb a b then true else if ltb b a then false else text_le left right

unfoldable pub decimal_leq : Bytes → Bytes → Bool
unfolding text_le
decimal_leq left right =
    ltb (length left) (length right) || length left == length right && text_le left right

pub record DecimalU256 : Type 0 where
  pub text : Bytes

abbrev pub u256_max_text : Bytes
u256_max_text =
    codes "115792089237316195423570985008687907853269984665640564039457584007913129639935"

unfoldable pub decimal_u256_parse : Bytes → Result DecimalU256 WireError
decimal_u256_parse value =
    if leb (length value) 78 && is_canonical_decimal value && decimal_leq value u256_max_text
    then ok (record { text = value })
    else err (wire_error malformed_frame)

pub decimal_u64_beq_iff : (a b : DecimalU64) → (list_beq a.text b.text ≡ true) ↔ (a ≡ b)
decimal_u64_beq_iff a b = ground (arith, list_beq_iff a.text b.text)

instance abbrev pub decimal_u64_eq : PartialEq DecimalU64
decimal_u64_eq = record { same = λ a b. list_beq a.text b.text; same_iff = decimal_u64_beq_iff }
