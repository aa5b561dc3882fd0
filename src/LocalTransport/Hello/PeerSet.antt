-- ===== src/LocalTransport/Hello/PeerSet.antt =====
-- The server of a closed set of peers (crates/bloom-triad-local-transport/src/lib.rs).
use mathlib.Core.List.{Memᴰ}
use mathlib.Core.List.Memᴰ.{head, tail}
use bloom_service_runtime.Prelude.{
  ℕ, Bool, not, ◌&&◌, some, List, [], ◌∷◌, Result, ok, ◌>>=◌, ◌>>◌, >>=-eq-ok, ok_or, ok_or-eq-ok,
  reject_if, ok_injective, map_err, ◌==◌, nat_eq, ◌≡◌, inl, inr, ap, sym, ◌∙◌, subst, arith,
  Bool-cases, if◌then◌else◌, some_injective,
}
use bloom_service_runtime.RpcWire.Error.{
  Failure, rejected, reject, unauthenticated_peer, service_unavailable,
}
use bloom_service_runtime.RpcWire.External.{External}
use bloom_service_runtime.RpcWire.Token.{token_eq}
use bloom_service_runtime.RpcWire.Hex.{hex_eq}
use bloom_service_runtime.RpcWire.Version.{ProtocolVersion, ProtocolVersionRange, require}
use bloom_service_runtime.LocalTransport.Identity.{LocalIdentity, PeerAcl}
use bloom_service_runtime.LocalTransport.Hello.{
  HelloChallenge, HelloWriter, signed_hello, verify_hello, check_answer, Connection, find_candidate,
  authenticate_server_one_of, allows_uid,
}
use bloom_service_runtime.LocalTransport.Hello.Handshake.{Authentic, answered_by_peer, read}

module _ (x : External) (to_vec : HelloWriter) where
  abbrev matches : ℕ → HelloChallenge → PeerAcl → Bool
  matches uid response c =
      c.effective_uid == uid
      && c.service_id == response.service_id
      && c.boot_epoch == response.boot_epoch
      && c.application_key_id == response.application_key_id

  -- The candidate that is found is in the set, and allows the observed UID.
  found :
      (uid : ℕ) (response : HelloChallenge) (clients : List PeerAcl) {client : PeerAcl}
      → find_candidate x to_vec uid response clients ≡ some client
      → Memᴰ client clients × (client.effective_uid ≡ uid)
  unfolding find_candidate
  found uid response [] h = absurd (cc h)
  found uid response (c ∷ clients) {client} h = elim (Bool-cases (matches uid response c)) [
    | inl hit ↦
        let same : c ≡ client = some_injective (
          subst
            (λ b.
              (if b then some c else find_candidate x to_vec uid response clients) ≡ some client)
            hit h) in
        (head (sym same), ap (λ (k : PeerAcl). k.effective_uid) (sym same) ∙ ground (arith, hit))
    | inr miss ↦
        let (member, uid_same) = found uid response clients (
          subst
            (λ b.
              (if b then some c else find_candidate x to_vec uid response clients) ≡ some client)
            miss h) in
        (tail member, uid_same)
  ]

  -- What follows the first read.
  abbrev after_response :
      Connection
      → LocalIdentity
      → List PeerAcl
      → ProtocolVersion
      → ProtocolVersionRange
      → ℕ
      → HelloChallenge
      → HelloChallenge
      → Result (PeerAcl × (HelloChallenge × HelloChallenge)) Failure
  after_response connection identity clients current versions uid sent response = do
    client ← ok_or (find_candidate x to_vec uid response clients) (reject unauthenticated_peer)
    verify_hello x to_vec response client versions
    check_answer x to_vec response current connection.drawn
    challenge ← map_err rejected connection.second_read
    verify_hello x to_vec challenge client versions
    answer ←
        map_err rejected (signed_hello x to_vec identity challenge.challenge challenge.protocol)
    map_err rejected (connection.write answer)
    ok (client, (sent, answer))

  moved :
      (connection : Connection) (clients : List PeerAcl) (current : ProtocolVersion)
      (versions : ProtocolVersionRange) (response : HelloChallenge) (client : PeerAcl)
      (r : PeerAcl × (HelloChallenge × HelloChallenge))
      → client ≡ r.0
      → Memᴰ client clients × Authentic x to_vec connection client current versions response
      → Memᴰ r.0 clients × Authentic x to_vec connection r.0 current versions response
  moved connection clients current versions response client r same =
      subst
        (λ (k : PeerAcl).
          Memᴰ k clients × Authentic x to_vec connection k current versions response)
        same

  accepted :
      (connection : Connection) (identity : LocalIdentity) (clients : List PeerAcl)
      (current : ProtocolVersion) (versions : ProtocolVersionRange) (uid : ℕ)
      (sent response : HelloChallenge) (r : PeerAcl × (HelloChallenge × HelloChallenge))
      → connection.peer_cred ≡ some uid
      → after_response connection identity clients current versions uid sent response ≡ ok r
      → Memᴰ r.0 clients × Authentic x to_vec connection r.0 current versions response
  accepted connection identity clients current versions uid sent response r cred h =
      let (client, a, h1) =
        >>=-eq-ok
          (ok_or (find_candidate x to_vec uid response clients) (reject unauthenticated_peer)) _
          h in
      let (u, b, h2) = >>=-eq-ok (verify_hello x to_vec response client versions) _ h1 in
      let (v, c, h3) = >>=-eq-ok (check_answer x to_vec response current connection.drawn) _ h2 in
      let (challenge, d, h4) = >>=-eq-ok (map_err rejected connection.second_read) _ h3 in
      let (w, e, h5) = >>=-eq-ok (verify_hello x to_vec challenge client versions) _ h4 in
      let (answer, f, h6) =
        >>=-eq-ok
          (map_err rejected (signed_hello x to_vec identity challenge.challenge challenge.protocol))
          _ h5 in
      let (y, g, h7) = >>=-eq-ok (map_err rejected (connection.write answer)) _ h6 in
      let (member, same) = found uid response clients (ok_or-eq-ok _ _ a) in
      moved connection clients current versions response client r (ap (λ p. p.0) (ok_injective h7))
        (
          member,
          answered_by_peer x to_vec connection client current versions response
              (cred ∙ ap some (sym same)) b c,
        )

  -- A server of a closed set of peers accepts only a client that is in the set, has the UID of the
  -- connection, and has signed, over this connection's fresh challenge, a hello of the current
  -- version under the key that the set pins for it.
  pub authenticate_server_one_of_sound :
      (connection : Connection) (identity : LocalIdentity) (clients : List PeerAcl)
      (current : ProtocolVersion) (versions : ProtocolVersionRange) {client : PeerAcl}
      {written : HelloChallenge × HelloChallenge}
      → authenticate_server_one_of x to_vec connection identity clients current versions
        ≡ ok (client, written)
      → Memᴰ client clients
        × ((response : HelloChallenge) × (connection.first_read ≡ ok response)
            × Authentic x to_vec connection client current versions response)
  unfolding authenticate_server_one_of
  authenticate_server_one_of_sound connection identity clients current versions {client} {written}
        h =
      let (u, a, h1) = >>=-eq-ok (map_err rejected (require versions current)) _ h in
      let (uid, b, h2) = >>=-eq-ok (ok_or connection.peer_cred (reject service_unavailable)) _ h1 in
      let (v, c, h3) =
        >>=-eq-ok (reject_if (not (allows_uid x to_vec uid clients)) (reject unauthenticated_peer))
          _ h2 in
      let (sent, d, h4) =
        >>=-eq-ok (map_err rejected (signed_hello x to_vec identity connection.drawn current)) _
          h3 in
      let (w, e, h5) = >>=-eq-ok (map_err rejected (connection.write sent)) _ h4 in
      let (response, f, h6) = >>=-eq-ok (map_err rejected connection.first_read) _ h5 in
      let (member, authentic) =
        accepted connection identity clients current versions uid sent response (client, written)
          (ok_or-eq-ok _ _ b) h6 in
      (member, (response, read x to_vec connection.first_read response f, authentic))
