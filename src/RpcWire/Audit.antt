-- ===== src/RpcWire/Audit.antt =====
-- `SignedJournalHead` of crates/bloom-rpc-wire/src/audit.rs.
pub mod Message
pub mod Sender
use bloom_service_runtime.Prelude.{
  ℕ, ◌/◌, ◌%◌, ◌^◌, Bytes, codes, length, not, ◌&&◌, ◌||◌, Bool, Option, none, some, Result, ok,
  err, ◌>>=◌, ◌>>◌, ok_or, reject_if, [], ◌∷◌, ◌++◌, ◌==◌, ◌!=◌, nat_eq, PartialEq, ◌≡◌, ◌↔◌, true,
  arith, list_beq, list_beq_iff,
}
use bloom_service_runtime.RpcWire.Error.{Failure, panicked, reject, unauthenticated_peer}
use bloom_service_runtime.RpcWire.External.{External}
use bloom_service_runtime.RpcWire.Signature.{verify_signature}
use bloom_service_runtime.RpcWire.Token.{Token, token_eq, token_beq_iff}
use bloom_service_runtime.RpcWire.Hex.{Digest32, hex_eq, hex_beq_iff}
use bloom_service_runtime.RpcWire.Decimal.{
  DecimalU64, decimal_u64_get, decimal_u64_eq, decimal_u64_beq_iff,
}
use bloom_service_runtime.RpcWire.Base64.{
  Base64UrlBytes, base64_to_bytes, base64_eq, base64_beq_iff,
}

pub record SignedJournalHead : Type 0 where
  pub service_id : Token
  pub sequence : DecimalU64
  pub head_hash : Digest32
  pub key_id : Token
  pub signature : Base64UrlBytes

abbrev pub head_beq : SignedJournalHead → SignedJournalHead → Bool
head_beq a b =
    a.service_id == b.service_id
    && a.sequence == b.sequence
    && a.head_hash == b.head_hash
    && a.key_id == b.key_id
    && a.signature == b.signature

pub head_beq_iff : (a b : SignedJournalHead) → (head_beq a b ≡ true) ↔ (a ≡ b)
head_beq_iff a b = ground (
  arith,
  token_beq_iff a.service_id b.service_id,
  decimal_u64_beq_iff a.sequence b.sequence,
  hex_beq_iff a.head_hash b.head_hash,
  token_beq_iff a.key_id b.key_id,
  base64_beq_iff a.signature b.signature,
)

instance abbrev pub head_eq : PartialEq SignedJournalHead
head_eq = record { same = head_beq; same_iff = head_beq_iff }

-- `u64::to_be_bytes`
abbrev pub u64_to_be_bytes : ℕ → Bytes
u64_to_be_bytes n =
    (n / 2 ^ 56 % 256)
    ∷ (n / 2 ^ 48 % 256)
    ∷ (n / 2 ^ 40 % 256)
    ∷ (n / 2 ^ 32 % 256)
    ∷ (n / 2 ^ 24 % 256)
    ∷ (n / 2 ^ 16 % 256)
    ∷ (n / 2 ^ 8 % 256)
    ∷ (n % 256)
    ∷ []

-- The message of a head whose sequence number is `sequence`.
unfoldable pub head_message : SignedJournalHead → ℕ → Bytes
head_message head sequence =
    codes "bloom-audit-journal-head/v1"
    ++ (0
        ∷ (head.service_id.text
            ++ (0 ∷ (u64_to_be_bytes sequence ++ (head.head_hash.text ++ (0 ∷ head.key_id.text))))))

-- `none` is the panic of `sequence.get()`.
unfoldable pub signature_message : SignedJournalHead → Option Bytes
unfolding head_message
signature_message head = elim (decimal_u64_get head.sequence) [
  | none ↦ none
  | some sequence ↦ some (head_message head sequence)
]

unfoldable pub verify_sender_identity :
    External → SignedJournalHead → Token → Token → Bytes → Result (Unit {0}) Failure
verify_sender_identity x head service_id application_key_id application_public_key = do
  reject_if (head.service_id != service_id || head.key_id != application_key_id)
      (reject unauthenticated_peer)
  verify_signature x application_public_key head.signature (ok_or (signature_message head) panicked)
