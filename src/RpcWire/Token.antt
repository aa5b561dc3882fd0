-- ===== src/RpcWire/Token.antt =====
-- `Token` of crates/bloom-rpc-wire/src/ids.rs. Its text is private to the type, so a value comes
-- from `token_new` only.
pub mod Accepts
mod Examples
use bloom_service_runtime.Prelude.{
  ℕ, suc, ◌≤◌, ◌<◌, Bytes, All, all, all_iff, length, Bool, true, false, ◌&&◌, ◌||◌, Result, ok,
  err, [], ◌∷◌, ◌≡◌, ◌≢◌, ◌↔◌, refl, ap, arith, leb, ◌==◌, nat_eq, list_eq, list_beq, list_beq_iff,
  PartialEq, if◌then◌else◌,
}
use bloom_service_runtime.RpcWire.Error.{WireError, wire_error, malformed_frame}

abbrev pub token_max_bytes : ℕ
token_max_bytes = 64

pub record Token : Type 0 where
  pub text : Bytes

abbrev pub is_lower : ℕ → Bool
is_lower b = leb b'a' b && leb b b'z'

abbrev pub is_digit : ℕ → Bool
is_digit b = leb b'0' b && leb b b'9'

-- `'.' | '_' | '-' | '/'`, and the letters and digits
pub token_byte : ℕ → Bool
token_byte b = is_lower b || is_digit b || b == b'.' || b == b'_' || b == b'-' || b == b'/'

unfoldable pub valid_token : Bytes → Bool
unfolding token_byte all
valid_token [] = false
valid_token (b ∷ bs) =
    leb (length (b ∷ bs)) token_max_bytes && is_lower b && all token_byte (b ∷ bs)

unfoldable pub token_new : Bytes → Result Token WireError
unfolding valid_token
token_new value =
    if valid_token value then ok (record { text = value }) else err (wire_error malformed_frame)

pub token_beq_iff : (a b : Token) → (list_beq a.text b.text ≡ true) ↔ (a ≡ b)
token_beq_iff a b = ground (arith, list_beq_iff a.text b.text)

instance abbrev pub token_eq : PartialEq Token
token_eq = record { same = λ a b. list_beq a.text b.text; same_iff = token_beq_iff }
