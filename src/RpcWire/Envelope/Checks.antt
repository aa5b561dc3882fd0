-- ===== src/RpcWire/Envelope/Checks.antt =====
-- What each check of an envelope establishes (crates/bloom-rpc-wire/src/envelope.rs).
use bloom_service_runtime.Prelude.{
  ℕ, ◌<◌, some, none, Result, ok, ◌>>=◌, ◌≡◌, ◌≢◌, ◌↔◌, inl, inr, arith, refl, Option-cases,
  list_beq_iff, nat_eq, ok_or, ok_or-eq-ok, >>=-eq-ok, reject_if, ◌!=◌, ap, sym, ◌∙◌,
}
use bloom_service_runtime.RpcWire.Error.{Failure, panicked, reject, malformed_frame}
use bloom_service_runtime.RpcWire.External.{External}
use bloom_service_runtime.RpcWire.Token.{token_beq_iff}
use bloom_service_runtime.RpcWire.Hex.{hex_beq_iff, hex_eq}
use bloom_service_runtime.RpcWire.Decimal.{decimal_u64_get}
use bloom_service_runtime.RpcWire.Audit.{SignedJournalHead}
use bloom_service_runtime.RpcWire.Audit.Sender.{SenderVerified, verify_sender_identity_iff}
use bloom_service_runtime.RpcWire.Envelope.{
  request, JournalHeadPolicy, required, forbidden, BodySerde, SignedEnvelope, AuthenticatedPeer,
  rpc_envelope_schema_v1, expected_request_digest, check_schema, check_peer, check_deadline,
  check_digest, verify_sender_journal_head,
}

-- The operating system's peer and the pinned identity are those of the envelope.
pub record PeerMatches {T : Type 0} (e : SignedEnvelope T) (uid : ℕ) (expected : AuthenticatedPeer)
    : Type 0 where
  pub os_uid : uid ≡ expected.effective_uid
  pub service : e.caller_service_id ≡ expected.service_id
  pub boot : e.caller_boot_epoch ≡ expected.boot_epoch
  pub audience : e.audience ≡ expected.audience
  pub key_id : e.application_key_id ≡ expected.application_key_id

pub record DeadlineAfter {T : Type 0} (e : SignedEnvelope T) : Type 0 where
  pub sent_at : ℕ
  pub deadline : ℕ
  pub read_sent_at : decimal_u64_get e.sent_at_ms ≡ some sent_at
  pub read_deadline : decimal_u64_get e.deadline_ms ≡ some deadline
  pub after : sent_at < deadline

module _ {T : Type 0} (x : External) (s : BodySerde T) (e : SignedEnvelope T) where
  -- A request names the digest of its own body.
  abbrev pub BindsBody : Type 0
  BindsBody = e.kind ≡ request → expected_request_digest x s e.unsigned ≡ ok e.request_digest

  -- A journal head stands in the envelope exactly if the policy requires one, it needs a minor
  -- version other than 0, and it is signed by the envelope's own sender.
  pub data HeadAccepted (expected : AuthenticatedPeer) (policy : JournalHeadPolicy) : Type 0 where
    without : e.sender_journal_head ≡ none → policy ≡ forbidden → HeadAccepted expected policy
    with_head :
        (head : SignedJournalHead)
        → e.protocol.minor ≢ 0
        → e.sender_journal_head ≡ some head
        → policy ≡ required
        → SenderVerified x head e.caller_service_id e.application_key_id
            expected.application_public_key
        → HeadAccepted expected policy

  pub check_schema_iff : (check_schema x s e ≡ ok tt) ↔ (e.schema.text ≡ rpc_envelope_schema_v1)
  unfolding check_schema
  check_schema_iff = ground (arith, list_beq_iff e.schema.text rpc_envelope_schema_v1)

  pub check_peer_iff :
      (uid : ℕ) (expected : AuthenticatedPeer)
      → (check_peer x s e uid expected ≡ ok tt) ↔ PeerMatches e uid expected
  unfolding check_peer
  check_peer_iff uid expected = ground (
    arith,
    token_beq_iff e.caller_service_id expected.service_id,
    hex_beq_iff e.caller_boot_epoch expected.boot_epoch,
    token_beq_iff e.audience expected.audience,
    token_beq_iff e.application_key_id expected.application_key_id,
  )

  pub check_deadline_iff : (check_deadline x s e ≡ ok tt) ↔ DeadlineAfter e
  unfolding check_deadline
  check_deadline_iff = (
    λ h.
        let (deadline, p, h1) = >>=-eq-ok (ok_or (decimal_u64_get e.deadline_ms) panicked) _ h in
        let (sent_at, q, h2) = >>=-eq-ok (ok_or (decimal_u64_get e.sent_at_ms) panicked) _ h1 in
        record {
          sent_at = sent_at;
          deadline = deadline;
          read_sent_at = ok_or-eq-ok _ _ q;
          read_deadline = ok_or-eq-ok _ _ p;
          after = ground arith;
        },
    λ v. rw (v.read_deadline, v.read_sent_at) (ground (arith, v.after)),
  )

  abbrev digest_matches : Result (Unit {0}) Failure
  digest_matches = do
    digest ← expected_request_digest x s e.unsigned
    reject_if (e.request_digest != digest) (reject malformed_frame)

  digest_matches_iff :
      (digest_matches ≡ ok tt) ↔ (expected_request_digest x s e.unsigned ≡ ok e.request_digest)
  digest_matches_iff = (
    λ h.
        let (digest, p, h1) = >>=-eq-ok (expected_request_digest x s e.unsigned) _ h in
        let same : e.request_digest ≡ digest =
          ground (arith, hex_beq_iff e.request_digest digest) in
        p ∙ ap ok (sym same),
    λ p. rw p (ground (arith, hex_beq_iff e.request_digest e.request_digest)),
  )

  pub check_digest_iff : (check_digest x s e ≡ ok tt) ↔ BindsBody
  unfolding check_digest
  check_digest_iff = ground (arith, digest_matches_iff)

  pub check_head_iff :
      (expected : AuthenticatedPeer) (policy : JournalHeadPolicy)
      → (verify_sender_journal_head x s e expected policy ≡ ok tt) ↔ HeadAccepted expected policy
  unfolding verify_sender_journal_head
  check_head_iff expected required = elim (Option-cases e.sender_journal_head) [
    | inl absent ↦ (
      λ h. absurd (ground (arith, absent)),
      elim [ without p q ↦ ground (arith, q) | with_head head m p q v ↦ ground (arith, absent, p) ],
    )
    | inr (head, present) ↦
        let sender =
          verify_sender_identity_iff x head e.caller_service_id e.application_key_id
            expected.application_public_key in
        (
          λ h.
              with_head head (ground (arith, present)) present refl
                (sender.0 (ground (arith, present))),
          elim [
            | without p q ↦ ground (arith, q)
            | with_head other m p q v ↦
                let passed =
                  (verify_sender_identity_iff x other e.caller_service_id e.application_key_id
                      expected.application_public_key).1
                    v in
                ground (arith, passed, p, m)
          ],
        )
  ]
  check_head_iff expected forbidden = elim (Option-cases e.sender_journal_head) [
    | inl absent ↦ (λ h. without absent refl, λ v. ground (arith, absent))
    | inr (head, present) ↦ (
      λ h. absurd (ground (arith, present)),
      elim [
        | without p q ↦ ground (arith, present, p)
        | with_head other m p q v ↦ ground (arith, q)
      ],
    )
  ]
