-- ===== src/LocalTransport/Hello.antt =====
-- The signed hello of both ends of a connection (crates/bloom-rpc-wire/src/hello.rs and
-- crates/bloom-triad-local-transport/src/lib.rs).
pub mod Answered
pub mod Handshake
pub mod PeerSet
pub mod Examples
use bloom_service_runtime.Prelude.{
  ℕ, Bytes, codes, Bool, true, false, not, ◌&&◌, ◌||◌, Option, none, some, List, [], ◌∷◌, ◌++◌,
  Result, ok, err, ◌>>=◌, ◌>>◌, ok_or, reject_if, map_err, ◌==◌, ◌!=◌, nat_eq, list_eq,
  if◌then◌else◌,
}
use bloom_service_runtime.RpcWire.Error.{
  WireError, wire_error, Failure, rejected, panicked, reject, malformed_frame, unauthenticated_peer,
  unsupported_version, service_unavailable,
}
use bloom_service_runtime.RpcWire.External.{External}
use bloom_service_runtime.RpcWire.Token.{Token, token_eq}
use bloom_service_runtime.RpcWire.Hex.{Digest32, BootEpoch, hex_eq}
use bloom_service_runtime.RpcWire.Base64.{Base64UrlBytes, base64_from_bytes}
use bloom_service_runtime.RpcWire.Signature.{verify_signature}
use bloom_service_runtime.RpcWire.Version.{
  ProtocolVersion, version_eq, ProtocolVersionRange, require,
}
use bloom_service_runtime.LocalTransport.Identity.{LocalIdentity, PeerAcl}

pub record HelloChallenge : Type 0 where
  pub service_id : Token
  pub boot_epoch : BootEpoch
  pub protocol : ProtocolVersion
  pub challenge : Digest32
  pub application_key_id : Token
  pub signature : Base64UrlBytes

abbrev pub hello_domain : Bytes
hello_domain = codes "bloom-local-hello/v1"

-- `serde_jcs::to_vec` of a hello
abbrev pub HelloWriter : Type 0
HelloWriter = HelloChallenge → Option Bytes

module _ (x : External) (to_vec : HelloWriter) where
  unfoldable pub hello_message : HelloChallenge → Result Bytes WireError
  hello_message hello = do
    let unsigned : HelloChallenge = record hello { signature = base64_from_bytes x [] }
    json ← ok_or (to_vec unsigned) (wire_error malformed_frame)
    ok (hello_domain ++ json)

  unfoldable pub signed_hello :
      LocalIdentity → Digest32 → ProtocolVersion → Result HelloChallenge WireError
  signed_hello identity challenge protocol = do
    let hello : HelloChallenge = record {
      service_id = identity.service_id;
      boot_epoch = identity.boot_epoch;
      protocol = protocol;
      challenge = challenge;
      application_key_id = identity.application_key_id;
      signature = base64_from_bytes x [];
    }
    message ← hello_message hello
    ok (record hello { signature = base64_from_bytes x (x.sign identity.signing_key message) })

  unfoldable pub verify_hello :
      HelloChallenge → PeerAcl → ProtocolVersionRange → Result (Unit {0}) Failure
  verify_hello hello expected supported_versions = do
    map_err rejected (require supported_versions hello.protocol)
    reject_if
        (hello.service_id != expected.service_id
          || hello.boot_epoch != expected.boot_epoch
          || hello.application_key_id != expected.application_key_id)
        (reject unauthenticated_peer)
    verify_signature x expected.application_public_key hello.signature
        (map_err rejected (hello_message hello))

  -- `client_response` answers the challenge that the server has drawn.
  unfoldable pub check_answer :
      HelloChallenge → ProtocolVersion → Digest32 → Result (Unit {0}) Failure
  check_answer response current_version challenge = do
    reject_if (response.protocol != current_version) (reject unsupported_version)
    reject_if (response.challenge != challenge) (reject unauthenticated_peer)

-- `peer_uid`, and `require_peer_uid` on it; `none` is an error of `peer_cred`.
unfoldable pub require_peer_uid : Option ℕ → ℕ → Result (Unit {0}) WireError
require_peer_uid observed expected = do
  uid ← ok_or observed (wire_error service_unavailable)
  reject_if (uid != expected) (wire_error unauthenticated_peer)

-- What a connection gives: the peer's UID, the fresh random challenge, what each `read_frame`
-- returns, and what `write_frame` returns for a hello.
pub record Connection : Type 0 where
  pub peer_cred : Option ℕ
  pub drawn : Digest32
  pub first_read : Result HelloChallenge WireError
  pub second_read : Result HelloChallenge WireError
  pub write : HelloChallenge → Result (Unit {0}) WireError

-- The hellos that an end writes, in order.
abbrev pub Written : Type 0
Written = HelloChallenge × HelloChallenge

module _ (x : External) (to_vec : HelloWriter) where
  -- `Ok` carries the two hellos that were written, in order.
  unfoldable pub authenticate_server :
      Connection
      → LocalIdentity
      → PeerAcl
      → ProtocolVersion
      → ProtocolVersionRange
      → Result Written Failure
  authenticate_server connection identity client current_version supported_versions = do
    map_err rejected (require supported_versions current_version)
    map_err rejected (require_peer_uid connection.peer_cred client.effective_uid)
    sent ← map_err rejected (signed_hello x to_vec identity connection.drawn current_version)
    map_err rejected (connection.write sent)
    client_response ← map_err rejected connection.first_read
    verify_hello x to_vec client_response client supported_versions
    check_answer x to_vec client_response current_version connection.drawn
    client_challenge ← map_err rejected connection.second_read
    verify_hello x to_vec client_challenge client supported_versions
    answer ←
        map_err rejected
          (signed_hello x to_vec identity client_challenge.challenge client_challenge.protocol)
    map_err rejected (connection.write answer)
    ok (sent, answer)

  unfoldable pub authenticate_client :
      Connection
      → LocalIdentity
      → PeerAcl
      → ProtocolVersion
      → ProtocolVersionRange
      → Result Written Failure
  authenticate_client connection identity broker current_version supported_versions = do
    map_err rejected (require supported_versions current_version)
    map_err rejected (require_peer_uid connection.peer_cred broker.effective_uid)
    server_challenge ← map_err rejected connection.first_read
    verify_hello x to_vec server_challenge broker supported_versions
    answer ←
        map_err rejected
          (signed_hello x to_vec identity server_challenge.challenge server_challenge.protocol)
    map_err rejected (connection.write answer)
    sent ← map_err rejected (signed_hello x to_vec identity connection.drawn current_version)
    map_err rejected (connection.write sent)
    server_response ← map_err rejected connection.second_read
    verify_hello x to_vec server_response broker supported_versions
    check_answer x to_vec server_response current_version connection.drawn
    ok (answer, sent)

  -- `clients.iter().filter(..)` and `find(..)`
  unfoldable pub find_candidate : ℕ → HelloChallenge → List PeerAcl → Option PeerAcl
  find_candidate observed_uid response [] = none
  find_candidate observed_uid response (candidate ∷ candidates) =
      let rest = find_candidate observed_uid response candidates in
      if candidate.effective_uid == observed_uid
        && candidate.service_id == response.service_id
        && candidate.boot_epoch == response.boot_epoch
        && candidate.application_key_id == response.application_key_id
      then some candidate
      else rest

  abbrev pub allows_uid : ℕ → List PeerAcl → Bool
  allows_uid observed_uid [] = false
  allows_uid observed_uid (candidate ∷ candidates) =
      candidate.effective_uid == observed_uid || allows_uid observed_uid candidates

  unfoldable pub authenticate_server_one_of :
      Connection
      → LocalIdentity
      → List PeerAcl
      → ProtocolVersion
      → ProtocolVersionRange
      → Result (PeerAcl × Written) Failure
  authenticate_server_one_of connection identity clients current_version supported_versions = do
    map_err rejected (require supported_versions current_version)
    observed_uid ← ok_or connection.peer_cred (reject service_unavailable)
    reject_if (not (allows_uid observed_uid clients)) (reject unauthenticated_peer)
    sent ← map_err rejected (signed_hello x to_vec identity connection.drawn current_version)
    map_err rejected (connection.write sent)
    client_response ← map_err rejected connection.first_read
    client ←
        ok_or (find_candidate observed_uid client_response clients) (reject unauthenticated_peer)
    verify_hello x to_vec client_response client supported_versions
    check_answer x to_vec client_response current_version connection.drawn
    client_challenge ← map_err rejected connection.second_read
    verify_hello x to_vec client_challenge client supported_versions
    answer ←
        map_err rejected
          (signed_hello x to_vec identity client_challenge.challenge client_challenge.protocol)
    map_err rejected (connection.write answer)
    ok (client, (sent, answer))
