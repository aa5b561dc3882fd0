-- ===== src/AuditCheckpoint/Keys/Signed.antt =====
-- When a head passes the checks against the pinned keys of the checkpoint store.
use bloom_service_runtime.Prelude.{
  Bytes, some, Result, ok, err, ◌≡◌, ◌↔◌, ap, sym, ◌∙◌, arith, ◌!=◌, lookup, >>=-eq-ok, ok_or,
  ok_or-eq-ok, reject_if, map_err, true,
}
use bloom_service_runtime.RpcWire.Error.{Failure}
use bloom_service_runtime.RpcWire.External.{External}
use bloom_service_runtime.RpcWire.Token.{token_eq, token_beq_iff}
use bloom_service_runtime.RpcWire.Signature.{signature_bytes}
use bloom_service_runtime.RpcWire.Audit.{SignedJournalHead, signature_message}
use bloom_service_runtime.AuditCheckpoint.Record.{
  failed, panicked, unpinned_peer, invalid_signature,
}
use bloom_service_runtime.AuditCheckpoint.Keys.{
  PeerKeys, PeerKeySet, verify_retained_head, verify_live_head, signature_failure,
}

-- A head with a signature of 64 bytes that verifies under the key pinned for its key identifier.
pub record IsSignedHead (x : External) (peers : PeerKeys x) (head : SignedJournalHead)
    : Type 0 where
  pub set : PeerKeySet x
  pub pinned : lookup head.service_id peers ≡ some set
  pub key : x.VerifyingKey
  pub known : lookup head.key_id set.keys ≡ some key
  pub bytes : Bytes
  pub signature : signature_bytes x head.signature ≡ ok bytes
  pub message : Bytes
  pub said : signature_message head ≡ some message
  pub verified : x.verify key message bytes ≡ true

-- A signed head by the live key of its service.
pub record IsLiveHead (x : External) (peers : PeerKeys x) (head : SignedJournalHead) : Type 0 where
  pub signed : IsSignedHead x peers head
  pub live : signed.set.current_key_id ≡ head.key_id

module _ (x : External) (peers : PeerKeys x) (head : SignedJournalHead) where
  map_err-eq-ok :
      (r : Result Bytes Failure) (bytes : Bytes)
      → map_err (signature_failure x) r ≡ ok bytes
      → r ≡ ok bytes
  map_err-eq-ok (ok b) bytes h = cc
  map_err-eq-ok (err e) bytes h = cc

  pub verify_retained_head_sound :
      verify_retained_head x peers head ≡ ok tt → IsSignedHead x peers head
  unfolding verify_retained_head
  verify_retained_head_sound h =
      let (set, a, h1) =
        >>=-eq-ok (ok_or (lookup head.service_id peers) (failed unpinned_peer)) _ h in
      let (key, b, h2) =
        >>=-eq-ok (ok_or (lookup head.key_id set.keys) (failed unpinned_peer)) _ h1 in
      let (bytes, c, h3) =
        >>=-eq-ok (map_err (signature_failure x) (signature_bytes x head.signature)) _ h2 in
      let (message, d, h4) = >>=-eq-ok (ok_or (signature_message head) panicked) _ h3 in
      record {
        set = set;
        pinned = ok_or-eq-ok _ _ a;
        key = key;
        known = ok_or-eq-ok _ _ b;
        bytes = bytes;
        signature = map_err-eq-ok _ bytes c;
        message = message;
        said = ok_or-eq-ok _ _ d;
        verified = ground arith;
      }

  verify_retained_head_complete :
      IsSignedHead x peers head → verify_retained_head x peers head ≡ ok tt
  unfolding verify_retained_head
  verify_retained_head_complete s = rw (s.pinned, s.known, s.signature, s.said, s.verified)

  -- A head is accepted as live exactly if its service is pinned, its key is the current one of
  -- that service, and its signature of 64 bytes verifies under that key over its message: a
  -- historical key, or an unpinned service, is refused.
  pub verify_live_head_iff : (verify_live_head x peers head ≡ ok tt) ↔ IsLiveHead x peers head
  unfolding verify_live_head
  verify_live_head_iff = (
    λ h.
        let (set, a, h1) =
          >>=-eq-ok (ok_or (lookup head.service_id peers) (failed unpinned_peer)) _ h in
        let (_, b, h2) =
          >>=-eq-ok (reject_if (set.current_key_id != head.key_id) (failed invalid_signature)) _
            h1 in
        let s = verify_retained_head_sound h2 in
        let found = ok_or-eq-ok (lookup head.service_id peers) _ a in
        let same : set ≡ s.set = cc (found, s.pinned) in
        record {
          signed = s;
          live =
              ap (λ (k : PeerKeySet x). k.current_key_id) (sym same)
              ∙ (token_beq_iff set.current_key_id head.key_id).0 (ground (arith, b));
        },
    λ v.
        let passed = verify_retained_head_complete v.signed in
        ground (
          arith,
          v.signed.pinned,
          passed,
          token_beq_iff v.signed.set.current_key_id head.key_id,
          v.live,
        ),
  )
