-- ===== src/LocalTransport/Hello/Handshake.antt =====
-- Both ends of the handshake (crates/bloom-triad-local-transport/src/lib.rs).
use bloom_service_runtime.Prelude.{
  ℕ, Option, some, Result, ok, err, >>=-eq-ok, ok_injective, map_err, nat_eq, ◌≡◌, ◌↔◌, refl, ap,
  arith,
}
use bloom_service_runtime.RpcWire.Error.{WireError, Failure, rejected}
use bloom_service_runtime.RpcWire.External.{External, IsBase64, IsSigner}
use bloom_service_runtime.RpcWire.Hex.{Digest32, hex_eq, hex_beq_iff}
use bloom_service_runtime.RpcWire.Version.{
  ProtocolVersion, version_eq, version_beq_iff, ProtocolVersionRange, require,
}
use bloom_service_runtime.RpcWire.Version.Range.{InRange, require_iff}
use bloom_service_runtime.LocalTransport.Identity.{LocalIdentity, PeerAcl}
use bloom_service_runtime.LocalTransport.Hello.{
  HelloChallenge, HelloWriter, signed_hello, verify_hello, check_answer, require_peer_uid,
  Connection, authenticate_server, authenticate_client,
}
use bloom_service_runtime.LocalTransport.Hello.Answered.{
  IsPinned, HelloVerified, verify_hello_iff, signed_hello_accepted,
}

module _ (x : External) (to_vec : HelloWriter) where
  check_answer_iff :
      (response : HelloChallenge) (current : ProtocolVersion) (challenge : Digest32)
      → (check_answer x to_vec response current challenge ≡ ok tt)
        ↔ ((response.protocol ≡ current) × (response.challenge ≡ challenge))
  unfolding check_answer
  check_answer_iff response current challenge =
      ground
        (arith, version_beq_iff response.protocol current, hex_beq_iff response.challenge challenge)

  uid_iff :
      (observed : Option ℕ) (expected : ℕ)
      → (map_err rejected (require_peer_uid observed expected) ≡ ok tt) ↔ (observed ≡ some expected)
  unfolding require_peer_uid
  uid_iff observed expected = ground arith

  -- The server's end of a connection whose other end wrote these two hellos, and the client's.
  abbrev pub server_end : Digest32 → ℕ → HelloChallenge → HelloChallenge → Connection
  server_end drawn uid first second = record {
    peer_cred = some uid;
    drawn = drawn;
    first_read = ok first;
    second_read = ok second;
    write = λ hello. ok tt;
  }

  -- For crypto and base64 that work as documented, two ends that run the same supported version
  -- and pin each other's identity and UID authenticate each other: if the server draws
  -- `server_drawn`, the client `client_drawn`, and each end reads what the other one writes,
  -- then both succeed, and each has written the answer to the other's challenge.
  pub handshake_completes :
      IsSigner x
      → IsBase64 x
      → (server client : LocalIdentity) (server_acl client_acl : PeerAcl)
        (current : ProtocolVersion) (versions : ProtocolVersionRange)
        (server_drawn client_drawn : Digest32) {offer answer challenge reply : HelloChallenge}
      → IsPinned x server server_acl
      → IsPinned x client client_acl
      → InRange versions current
      → signed_hello x to_vec server server_drawn current ≡ ok offer
      → signed_hello x to_vec client server_drawn current ≡ ok answer
      → signed_hello x to_vec client client_drawn current ≡ ok challenge
      → signed_hello x to_vec server client_drawn current ≡ ok reply
      → (authenticate_server x to_vec
            (server_end server_drawn client_acl.effective_uid answer challenge)
            server
            client_acl
            current
            versions
          ≡ ok (offer, reply))
        × (authenticate_client x to_vec
              (server_end client_drawn server_acl.effective_uid offer reply)
              client
              server_acl
              current
              versions
            ≡ ok (answer, challenge))
  unfolding authenticate_server authenticate_client
  handshake_completes signer base64 server client server_acl client_acl current versions
        server_drawn client_drawn {offer} {answer} {challenge} {reply} ps pc v h_offer h_answer
        h_challenge h_reply =
      let (o, o_challenge, o_protocol) =
        signed_hello_accepted x to_vec signer base64 server server_drawn current h_offer server_acl
          versions ps v in
      let (a, a_challenge, a_protocol) =
        signed_hello_accepted x to_vec signer base64 client server_drawn current h_answer client_acl
          versions pc v in
      let (c, c_challenge, c_protocol) =
        signed_hello_accepted x to_vec signer base64 client client_drawn current h_challenge
          client_acl versions pc v in
      let (r, r_challenge, r_protocol) =
        signed_hello_accepted x to_vec signer base64 server client_drawn current h_reply server_acl
          versions ps v in
      let ranged = (require_iff versions current).0.1 v in
      (
        rw (
          ranged,
          (uid_iff (some client_acl.effective_uid) client_acl.effective_uid).1 refl,
          h_offer,
          a,
          (check_answer_iff answer current server_drawn).1 (a_protocol, a_challenge),
          c,
          c_challenge,
          c_protocol,
          h_reply,
        ),
        rw (
          ranged,
          (uid_iff (some server_acl.effective_uid) server_acl.effective_uid).1 refl,
          o,
          o_challenge,
          o_protocol,
          h_answer,
          h_challenge,
          r,
          (check_answer_iff reply current client_drawn).1 (r_protocol, r_challenge),
        ),
      )

  -- The pinned peer has signed, over this end's fresh challenge, a hello of the current version.
  pub record Authentic (connection : Connection) (acl : PeerAcl) (current : ProtocolVersion)
      (versions : ProtocolVersionRange) (response : HelloChallenge) : Type 0 where
    pub os_uid : connection.peer_cred ≡ some acl.effective_uid
    pub verified : HelloVerified x to_vec response acl versions
    pub fresh : response.challenge ≡ connection.drawn
    pub version : response.protocol ≡ current

  pub read :
      {A : Type 0} (r : Result A WireError) (a : A)
      → ◌≡◌ {A = Result A Failure} (map_err rejected r) (ok a)
      → r ≡ ok a
  read (ok b) a h = ap ok (ok_injective h)
  read (err e) a h = absurd (cc h)

  pub answered_by_peer :
      (connection : Connection) (peer : PeerAcl) (current : ProtocolVersion)
      (versions : ProtocolVersionRange) (response : HelloChallenge)
      → connection.peer_cred ≡ some peer.effective_uid
      → verify_hello x to_vec response peer versions ≡ ok tt
      → check_answer x to_vec response current connection.drawn ≡ ok tt
      → Authentic connection peer current versions response
  answered_by_peer connection peer current versions response b f g =
      let same = (check_answer_iff response current connection.drawn).0 g in
      record {
        os_uid = b;
        verified = (verify_hello_iff x to_vec response peer versions).0 f;
        fresh = same.1;
        version = same.0;
      }

  authentic :
      (connection : Connection) (peer : PeerAcl) (current : ProtocolVersion)
      (versions : ProtocolVersionRange) (response : HelloChallenge)
      → map_err rejected (require_peer_uid connection.peer_cred peer.effective_uid) ≡ ok tt
      → verify_hello x to_vec response peer versions ≡ ok tt
      → check_answer x to_vec response current connection.drawn ≡ ok tt
      → Authentic connection peer current versions response
  authentic connection peer current versions response b =
      answered_by_peer connection peer current versions response
        ((uid_iff connection.peer_cred peer.effective_uid).0 b)

  -- A server accepts a client only if the connection's UID is the client's, and the pinned client
  -- has signed, over this connection's fresh challenge, a hello of the current version.
  pub authenticate_server_sound :
      (connection : Connection) (identity : LocalIdentity) (peer : PeerAcl)
      (current : ProtocolVersion) (versions : ProtocolVersionRange)
      {written : HelloChallenge × HelloChallenge}
      → authenticate_server x to_vec connection identity peer current versions ≡ ok written
      → (response : HelloChallenge) × (connection.first_read ≡ ok response)
        × Authentic connection peer current versions response
  unfolding authenticate_server
  authenticate_server_sound connection identity peer current versions h =
      let (u, a, h1) = >>=-eq-ok (map_err rejected (require versions current)) _ h in
      let (v, b, h2) =
        >>=-eq-ok (map_err rejected (require_peer_uid connection.peer_cred peer.effective_uid)) _
          h1 in
      let (sent, c, h3) =
        >>=-eq-ok (map_err rejected (signed_hello x to_vec identity connection.drawn current)) _
          h2 in
      let (w, d, h4) = >>=-eq-ok (map_err rejected (connection.write sent)) _ h3 in
      let (response, e, h5) = >>=-eq-ok (map_err rejected connection.first_read) _ h4 in
      let (y, f, h6) = >>=-eq-ok (verify_hello x to_vec response peer versions) _ h5 in
      let (z, g, h7) = >>=-eq-ok (check_answer x to_vec response current connection.drawn) _ h6 in
      (
        response,
        read connection.first_read response e,
        authentic connection peer current versions response b f g,
      )

  -- A client accepts a server only if the connection's UID is the server's, the pinned server has
  -- signed the hello that opens the connection, and it has signed, over the client's fresh
  -- challenge, a hello of the current version.
  pub authenticate_client_sound :
      (connection : Connection) (identity : LocalIdentity) (peer : PeerAcl)
      (current : ProtocolVersion) (versions : ProtocolVersionRange)
      {written : HelloChallenge × HelloChallenge}
      → authenticate_client x to_vec connection identity peer current versions ≡ ok written
      → (offer : HelloChallenge) × (response : HelloChallenge) × (connection.first_read ≡ ok offer)
        × HelloVerified x to_vec offer peer versions
        × (connection.second_read ≡ ok response)
        × Authentic connection peer current versions response
  unfolding authenticate_client
  authenticate_client_sound connection identity peer current versions h =
      let (u, a, h1) = >>=-eq-ok (map_err rejected (require versions current)) _ h in
      let (v, b, h2) =
        >>=-eq-ok (map_err rejected (require_peer_uid connection.peer_cred peer.effective_uid)) _
          h1 in
      let (offer, c, h3) = >>=-eq-ok (map_err rejected connection.first_read) _ h2 in
      let (w, d, h4) = >>=-eq-ok (verify_hello x to_vec offer peer versions) _ h3 in
      let (answer, e, h5) =
        >>=-eq-ok (map_err rejected (signed_hello x to_vec identity offer.challenge offer.protocol))
          _ h4 in
      let (y, f, h6) = >>=-eq-ok (map_err rejected (connection.write answer)) _ h5 in
      let (sent, g, h7) =
        >>=-eq-ok (map_err rejected (signed_hello x to_vec identity connection.drawn current)) _
          h6 in
      let (z, k, h8) = >>=-eq-ok (map_err rejected (connection.write sent)) _ h7 in
      let (response, l, h9) = >>=-eq-ok (map_err rejected connection.second_read) _ h8 in
      let (s, m, h10) = >>=-eq-ok (verify_hello x to_vec response peer versions) _ h9 in
      let (t, n, h11) = >>=-eq-ok (check_answer x to_vec response current connection.drawn) _ h10 in
      (
        offer,
        response,
        read connection.first_read offer c,
        (verify_hello_iff x to_vec offer peer versions).0 d,
        read connection.second_read response l,
        authentic connection peer current versions response b m n,
      )
