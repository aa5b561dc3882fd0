-- ===== src/RpcWire/Audit/Message.antt =====
-- What the signed message of a journal head binds (crates/bloom-rpc-wire/src/audit.rs).
use bloom_service_runtime.Prelude.{
  ℕ, ◌+◌, ◌*◌, ◌^◌, Bytes, codes, length, none, some, [], ◌∷◌, ◌++◌, ◌≡◌, ◌≢◌, refl, ap, sym, ◌∙◌,
  arith, IsU64, append_injective, split_injective,
}
use bloom_service_runtime.RpcWire.Token.Accepts.{IsToken, IsToken-nonzero}
use bloom_service_runtime.RpcWire.Decimal.Value.{decimal_value, value-injective}
use bloom_service_runtime.RpcWire.Decimal.U64.{IsU64Text, get-IsU64Text}
use bloom_service_runtime.RpcWire.Audit.{
  SignedJournalHead, u64_to_be_bytes, head_message, signature_message,
}

-- The fields of a head that the parsers of its types accept.
pub record IsHead (h : SignedJournalHead) : Type 0 where
  pub service : IsToken h.service_id.text
  pub sequence : IsU64Text h.sequence.text
  pub hash : length h.head_hash.text ≡ 64
  pub key : IsToken h.key_id.text

-- Two heads that agree on all that is signed.
pub record SameSigned (a b : SignedJournalHead) : Type 0 where
  pub service : a.service_id.text ≡ b.service_id.text
  pub sequence : a.sequence.text ≡ b.sequence.text
  pub hash : a.head_hash.text ≡ b.head_hash.text
  pub key : a.key_id.text ≡ b.key_id.text

abbrev bytes_value : Bytes → ℕ
bytes_value (a ∷ b ∷ c ∷ d ∷ e ∷ f ∷ g ∷ h ∷ []) =
    a * 2 ^ 56 + b * 2 ^ 48 + c * 2 ^ 40 + d * 2 ^ 32 + e * 2 ^ 24 + f * 2 ^ 16 + g * 2 ^ 8 + h
bytes_value _ = 0

be_bytes_value : (n : ℕ) → IsU64 n → bytes_value (u64_to_be_bytes n) ≡ n
be_bytes_value n h = omega arith

be_bytes_injective : (m n : ℕ) → IsU64 m → IsU64 n → u64_to_be_bytes m ≡ u64_to_be_bytes n → m ≡ n
be_bytes_injective m n hm hn e = sym (be_bytes_value m hm) ∙ ap bytes_value e ∙ be_bytes_value n hn

message-signs :
    (h : SignedJournalHead)
    → IsHead h
    → signature_message h ≡ some (head_message h (decimal_value h.sequence.text))
unfolding signature_message
message-signs h valid = ground (arith, get-IsU64Text h.sequence.text valid.sequence)

abbrev domain : Bytes
domain = codes "bloom-audit-journal-head/v1"

-- The message is read from the left: the domain, the service up to its zero byte, 8 bytes, 64
-- bytes, a zero byte, and the key.
head_message_injective :
    (a b : SignedJournalHead) (m n : ℕ)
    → IsHead a
    → IsHead b
    → head_message a m ≡ head_message b n
    → (a.service_id.text ≡ b.service_id.text)
      × (u64_to_be_bytes m ≡ u64_to_be_bytes n)
      × (a.head_hash.text ≡ b.head_hash.text)
      × (a.key_id.text ≡ b.key_id.text)
unfolding head_message
head_message_injective a b m n va vb e =
    let after_domain =
      append_injective domain domain
        {us = 0
          ∷ (a.service_id.text
              ++ (0 ∷ (u64_to_be_bytes m ++ (a.head_hash.text ++ (0 ∷ a.key_id.text)))))}
        {vs = 0
          ∷ (b.service_id.text
              ++ (0 ∷ (u64_to_be_bytes n ++ (b.head_hash.text ++ (0 ∷ b.key_id.text)))))}
        refl e in
    let service =
      split_injective a.service_id.text b.service_id.text
        {us = u64_to_be_bytes m ++ (a.head_hash.text ++ (0 ∷ a.key_id.text))}
        {vs = u64_to_be_bytes n ++ (b.head_hash.text ++ (0 ∷ b.key_id.text))}
        (IsToken-nonzero va.service) (IsToken-nonzero vb.service) (cc after_domain.1) in
    let sequence = append_injective (u64_to_be_bytes m) (u64_to_be_bytes n) refl service.1 in
    let hash =
      append_injective a.head_hash.text b.head_hash.text (va.hash ∙ sym vb.hash) sequence.1 in
    (service.0, sequence.0, hash.0, cc hash.1)

-- For two heads whose fields passed their parsers, the message that is signed exists (its
-- construction cannot panic), and if the two messages are equal then the heads agree on the
-- service, the sequence number, the hash and the key: no two heads that differ in one of these
-- four share a signature message.
pub signature_message_injective :
    (a b : SignedJournalHead)
    → IsHead a
    → IsHead b
    → signature_message a ≡ signature_message b
    → (signature_message a ≢ none) × SameSigned a b
signature_message_injective a b va vb e =
    let m = decimal_value a.sequence.text in
    let n = decimal_value b.sequence.text in
    let signs = message-signs a va in
    let same : head_message a m ≡ head_message b n = cc (signs, message-signs b vb) in
    let (service, bytes, hash, key) = head_message_injective a b m n va vb same in
    (
      λ none_signed. cc (signs, none_signed),
      record {
        service = service;
        sequence =
            value-injective a.sequence.text b.sequence.text va.sequence.digits vb.sequence.digits
              va.sequence.leads vb.sequence.leads
              (be_bytes_injective m n va.sequence.small vb.sequence.small bytes);
        hash = hash;
        key = key;
      },
    )
