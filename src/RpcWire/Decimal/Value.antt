-- ===== src/RpcWire/Decimal/Value.antt =====
-- The number that a text of digits stands for, and the order of such texts
-- (crates/bloom-rpc-wire/src/ids.rs).
use native.Mathlib.Nat.{pow-suc, pow-le-pow_right, le_trans}
use bloom_service_runtime.Prelude.{
  ℕ, ◌+◌, ◌-◌, ◌*◌, ◌^◌, ◌≤◌, ◌<◌, Bytes, All, length, true, false, [], ◌∷◌, ◌≡◌, ◌≢◌, ◌↔◌, arith,
  ltb, refl, sym, Bool, if◌then◌else◌,
}
use bloom_service_runtime.RpcWire.Decimal.{text_le, decimal_leq}

abbrev pub Digits : Bytes → Type 0
Digits = All (λ b. (b'0' ≤ b) × (b ≤ b'9'))

-- The value by place: the first digit counts 10 for each later one.
unfoldable pub decimal_value : Bytes → ℕ
decimal_value [] = 0
decimal_value (b ∷ bs) = (b - b'0') * 10 ^ length bs + decimal_value bs

place_bound : (d p v : ℕ) → d ≤ 9 → v < p → d * p + v < p * 10
place_bound d p v h k = grind arith

pub value-lt : (bs : Bytes) → Digits bs → decimal_value bs < 10 ^ length bs
unfolding decimal_value
value-lt [] h = omega arith
value-lt (b ∷ bs) h =
    rw (pow-suc 10 (length bs))
      (place_bound (b - b'0') (10 ^ length bs) (decimal_value bs) (omega arith) (value-lt bs h.1))

place_order : (d e p v w : ℕ) → d < e → v < p → d * p + v < e * p + w
place_order d e p v w h k = grind arith

digit_step :
    (a b p v w : ℕ) (t : Bool)
    → (b'0' ≤ a) × (b'0' ≤ b)
    → v < p
    → w < p
    → (t ≡ true) ↔ (v ≤ w)
    → ((if ltb a b then true else if ltb b a then false else t) ≡ true)
      ↔ ((a - b'0') * p + v ≤ (b - b'0') * p + w)
digit_step a b p v w t h hv hw later =
    ground (arith, place_order (a - b'0') (b - b'0') p v w, place_order (b - b'0') (a - b'0') p w v)

-- Texts of as many digits compare as their numbers do.
pub text_le_iff :
    (left right : Bytes)
    → Digits left
    → Digits right
    → length left ≡ length right
    → (text_le left right ≡ true) ↔ (decimal_value left ≤ decimal_value right)
unfolding text_le decimal_value
text_le_iff [] [] hl hr e = ground arith
text_le_iff [] (b ∷ right) hl hr e = absurd (omega arith)
text_le_iff (a ∷ left) [] hl hr e = absurd (omega arith)
text_le_iff (a ∷ left) (b ∷ right) hl hr e =
    let same : length right ≡ length left = omega arith in
    rw same (
      digit_step a b (10 ^ length left) (decimal_value left) (decimal_value right)
        (text_le left right) (hl.0.0, hr.0.0) (value-lt left hl.1)
        (rw same at (value-lt right hr.1)) (text_le_iff left right hl.1 hr.1 (sym same)))

-- No needless zero in front: a text of more than one digit starts with another digit than zero.
abbrev pub Leads : Bytes → Type 0
Leads [] = ⊥
Leads (b ∷ []) = Unit
Leads (b ∷ c ∷ bs) = b ≢ b'0'

place_low : (d p v : ℕ) → 0 < d → p ≤ d * p + v
place_low d p v h = grind arith

-- A text of more than one digit without a leading zero is at least the power of ten below it.
pub value-ge :
    (b c : ℕ) (bs : Bytes)
    → Digits (b ∷ c ∷ bs)
    → Leads (b ∷ c ∷ bs)
    → 10 ^ length (c ∷ bs) ≤ decimal_value (b ∷ c ∷ bs)
unfolding decimal_value
value-ge b c bs h lead = place_low (b - b'0') (10 ^ length (c ∷ bs)) _ (omega arith)

shorter-lt :
    (left right : Bytes)
    → Digits left
    → Digits right
    → Leads left
    → Leads right
    → length left < length right
    → decimal_value left < decimal_value right
shorter-lt left [] hl hr ll lr short = absurd lr
shorter-lt [] (b ∷ []) hl hr ll lr short = absurd ll
shorter-lt (a ∷ left) (b ∷ []) hl hr ll lr short = absurd (omega arith)
shorter-lt left (b ∷ c ∷ bs) hl hr ll lr short =
    le_trans (value-lt left hl)
      (le_trans (pow-le-pow_right (omega arith) (omega arith)) (value-ge b c bs hr lr))

-- `decimal_leq` compares the numbers of two texts without needless zeros.
pub decimal_leq_iff :
    (left right : Bytes)
    → Digits left
    → Digits right
    → Leads left
    → Leads right
    → (decimal_leq left right ≡ true) ↔ (decimal_value left ≤ decimal_value right)
unfolding decimal_leq
decimal_leq_iff left right hl hr ll lr = ground (
  arith,
  shorter-lt left right hl hr ll lr,
  shorter-lt right left hr hl lr ll,
  text_le_iff left right hl hr,
)

text_le_antisym :
    (left right : Bytes) → text_le left right ≡ true → text_le right left ≡ true → left ≡ right
unfolding text_le
text_le_antisym [] [] h k = refl
text_le_antisym [] (b ∷ right) h k = cc
text_le_antisym (a ∷ left) [] h k = cc
text_le_antisym (a ∷ left) (b ∷ right) h k = ground (arith, text_le_antisym left right)

-- Two such texts with one number are one text.
pub value-injective :
    (left right : Bytes)
    → Digits left
    → Digits right
    → Leads left
    → Leads right
    → decimal_value left ≡ decimal_value right
    → left ≡ right
value-injective left right hl hr ll lr e =
    let short = shorter-lt left right hl hr ll lr in
    let long = shorter-lt right left hr hl lr ll in
    let same : length left ≡ length right = ground arith in
    text_le_antisym left right ((text_le_iff left right hl hr same).1 (omega arith))
      ((text_le_iff right left hr hl (sym same)).1 (omega arith))
