-- ===== src/RpcWire/Audit/Sender.antt =====
-- When the sender of a journal head is accepted (crates/bloom-rpc-wire/src/audit.rs).
use bloom_service_runtime.Prelude.{Bytes, some, ok, ◌≡◌, ◌↔◌, arith, ok_or, ok_or-eq-ok, nat_eq}
use bloom_service_runtime.RpcWire.External.{External}
use bloom_service_runtime.RpcWire.Token.{Token, token_beq_iff}
use bloom_service_runtime.RpcWire.Error.{panicked}
use bloom_service_runtime.RpcWire.Signature.{Signs, verify_signature_iff}
use bloom_service_runtime.RpcWire.Audit.{
  SignedJournalHead, signature_message, verify_sender_identity,
}

-- A head that is accepted from a sender.
pub record SenderVerified (x : External) (head : SignedJournalHead)
    (service_id application_key_id : Token) (public_key : Bytes) : Type 0 where
  pub service : head.service_id ≡ service_id
  pub key_id : head.key_id ≡ application_key_id
  pub message : Bytes
  pub spoken : signature_message head ≡ some message
  pub signed : Signs x public_key head.signature message

-- A head is accepted from a sender exactly if it names that service and that application key,
-- and carries a signature of 64 bytes over its signature message that verifies under the pinned
-- public key.
pub verify_sender_identity_iff :
    (x : External) (head : SignedJournalHead) (service_id application_key_id : Token)
    (public_key : Bytes)
    → (verify_sender_identity x head service_id application_key_id public_key ≡ ok tt)
      ↔ SenderVerified x head service_id application_key_id public_key
unfolding verify_sender_identity
verify_sender_identity_iff x head service_id application_key_id public_key =
    let same_service = token_beq_iff head.service_id service_id in
    let same_key = token_beq_iff head.key_id application_key_id in
    let checked =
      verify_signature_iff x public_key head.signature (ok_or (signature_message head) panicked) in
    (
      λ h.
          let (message, spoken, signed) = checked.0 (ground (arith, same_service, same_key)) in
          record {
            service = ground (arith, same_service);
            key_id = ground (arith, same_key);
            message = message;
            spoken = ok_or-eq-ok _ _ spoken;
            signed = signed;
          },
      λ v.
          let passed = checked.1 (v.message, rw v.spoken, v.signed) in
          ground (arith, same_service, same_key, passed, v.service, v.key_id),
    )
