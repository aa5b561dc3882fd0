-- ===== src/RpcWire/Token/Accepts.antt =====
-- Which texts are tokens (`Token::new` of crates/bloom-rpc-wire/src/ids.rs).
use bloom_service_runtime.Prelude.{
  ℕ, ◌≤◌, Bytes, All, all, length, true, ok, err, [], ◌∷◌, ◌≡◌, ◌≢◌, ◌⊎◌, ◌↔◌, arith, Bool-cases,
  inl, inr,
}
use bloom_service_runtime.RpcWire.Error.{wire_error, malformed_frame}
use bloom_service_runtime.RpcWire.Token.{token_byte, valid_token, token_new}

-- A lowercase ASCII letter, a digit, or one of `. _ - /`.
abbrev pub TokenByte : ℕ → Type 0
TokenByte b =
    ((b'a' ≤ b) × (b ≤ b'z'))
    ⊎ ((b'0' ≤ b) × (b ≤ b'9'))
    ⊎ (b ≡ b'.')
    ⊎ (b ≡ b'_')
    ⊎ (b ≡ b'-')
    ⊎ (b ≡ b'/')

abbrev StartsLower : Bytes → Type 0
StartsLower [] = ⊥
StartsLower (b ∷ bs) = (b'a' ≤ b) × (b ≤ b'z')

pub record IsToken (value : Bytes) : Type 0 where
  pub short : length value ≤ 64
  pub starts : StartsLower value
  pub bytes : All TokenByte value

token_byte_iff : (b : ℕ) → (token_byte b ≡ true) ↔ TokenByte b
unfolding token_byte
token_byte_iff b = ground arith

each_byte_checked : (bs : Bytes) → (all token_byte bs ≡ true) ↔ All TokenByte bs
unfolding all
each_byte_checked [] = ground arith
each_byte_checked (b ∷ bs) = ground (arith, token_byte_iff b, each_byte_checked bs)

valid_token_iff : (value : Bytes) → (valid_token value ≡ true) ↔ IsToken value
unfolding valid_token
valid_token_iff [] = ground arith
valid_token_iff (b ∷ bs) = ground (arith, each_byte_checked (b ∷ bs))

-- A text of 1 to 64 bytes that starts with a lowercase ASCII letter and holds only lowercase
-- letters, digits and `. _ - /` becomes the token of that text. Any other text is refused as a
-- malformed frame.
pub token_new_exact :
    (value : Bytes)
    → ((token_new value ≡ ok (record { text = value })) × IsToken value)
      ⊎ ((token_new value ≡ err (wire_error malformed_frame)) × (IsToken value → ⊥))
unfolding token_new
token_new_exact value = elim (Bool-cases (valid_token value)) [
  | inl valid ↦ inl (rw valid, (valid_token_iff value).0 valid)
  | inr invalid ↦ inr (rw invalid, λ t. cc (invalid, (valid_token_iff value).1 t))
]

-- A token holds no zero byte, so a zero byte can end it in a message.
pub IsToken-nonzero : {value : Bytes} → IsToken value → All (λ b. b ≢ 0) value
IsToken-nonzero {value} t = nonzero value t.bytes
  where
    nonzero : (bs : Bytes) → All TokenByte bs → All (λ b. b ≢ 0) bs
    nonzero [] h = tt
    nonzero (b ∷ bs) h = (omega (arith, h.0), nonzero bs h.1)
