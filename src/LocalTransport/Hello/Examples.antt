-- ===== src/LocalTransport/Hello/Examples.antt =====
-- A handshake over the sample instance of the external crates.
use mathlib.Core.List.{Memᴰ}
use bloom_service_runtime.Prelude.{list_beq}
use bloom_service_runtime.RpcWire.External.Sample.{encode, decode, cons?, digit, undigit, pad}
use bloom_service_runtime.RpcWire.Base64.{base64_to_bytes}
use bloom_service_runtime.RpcWire.Signature.{verify_signature, signature_bytes}
use bloom_service_runtime.RpcWire.Version.{contains, require}
use bloom_service_runtime.LocalTransport.Hello.{
  authenticate_server_one_of, find_candidate, check_answer,
}
use bloom_service_runtime.LocalTransport.Hello.PeerSet.{authenticate_server_one_of_sound}
use bloom_service_runtime.Prelude.{Bytes, codes, some, [], ◌∷◌, ◌++◌, ok, ◌≡◌, ◌↔◌, refl, arith}
use bloom_service_runtime.RpcWire.External.Sample.{sample, sample-IsBase64, sample-IsSigner}
use bloom_service_runtime.RpcWire.Hex.{Digest32}
use bloom_service_runtime.RpcWire.Base64.{base64_from_bytes}
use bloom_service_runtime.RpcWire.Version.{ProtocolVersion, ProtocolVersionRange}
use bloom_service_runtime.RpcWire.Version.Range.{InRange}
use bloom_service_runtime.LocalTransport.Identity.{LocalIdentity, PeerAcl}
use bloom_service_runtime.LocalTransport.Hello.{
  HelloChallenge, HelloWriter, Connection, hello_domain, hello_message, signed_hello, verify_hello,
  authenticate_server, authenticate_client,
}
use bloom_service_runtime.LocalTransport.Hello.Answered.{IsPinned, HelloVerified, verify_hello_iff}
use bloom_service_runtime.LocalTransport.Hello.Handshake.{
  server_end, handshake_completes, Authentic, authenticate_server_sound, authenticate_client_sound,
}

abbrev pub writer : HelloWriter
writer hello = some hello.challenge.text

abbrev pub v1 : ProtocolVersion
v1 = record { major = 1; minor = 0 }

abbrev pub versions : ProtocolVersionRange
versions = record { major = 1; minor_min = 0; minor_max = 1 }

supported : InRange versions v1
supported = record { major = refl; low = omega arith; high = omega arith }

abbrev pub identity : Bytes → Bytes → LocalIdentity
identity service seed = record {
  service_id = record { text = service };
  boot_epoch = record { text = codes "00" };
  application_key_id = record { text = codes "app-1" };
  signing_key = seed;
}

abbrev pub server : LocalIdentity
server = identity (codes "bloom-broker") (1 ∷ [])

abbrev pub client : LocalIdentity
client = identity (codes "bloom-machine") (2 ∷ [])

abbrev pub acl : LocalIdentity → PeerAcl
acl i = record {
  effective_uid = 501;
  service_id = i.service_id;
  boot_epoch = i.boot_epoch;
  application_key_id = i.application_key_id;
  application_public_key = sample.public_key i.signing_key;
}

pinned : (i : LocalIdentity) → IsPinned sample i (acl i)
pinned i = record { service = refl; boot = refl; key_id = refl; public_key = refl }

abbrev pub digest : Bytes → Digest32
digest text = record { text = text }

-- The hello of an identity for a challenge.
abbrev pub hello : LocalIdentity → Bytes → HelloChallenge
hello i challenge = record {
  service_id = i.service_id;
  boot_epoch = i.boot_epoch;
  protocol = v1;
  challenge = digest challenge;
  application_key_id = i.application_key_id;
  signature = base64_from_bytes sample (sample.sign i.signing_key (hello_domain ++ challenge));
}

signed :
    (i : LocalIdentity) (challenge : Bytes)
    → signed_hello sample writer i (digest challenge) v1 ≡ ok (hello i challenge)
unfolding signed_hello hello_message
signed i challenge = refl

abbrev at_server : Connection
at_server =
    server_end sample writer (digest (codes "07")) 501 (hello client (codes "07"))
      (hello client (codes "08"))

abbrev at_client : Connection
at_client =
    server_end sample writer (digest (codes "08")) 501 (hello server (codes "07"))
      (hello server (codes "08"))

verify_hello_iff_example :
    (verify_hello sample writer (hello client (codes "07")) (acl client) versions ≡ ok tt)
    ↔ HelloVerified sample writer (hello client (codes "07")) (acl client) versions
verify_hello_iff_example =
    verify_hello_iff sample writer (hello client (codes "07")) (acl client) versions

handshake_completes_example :
    (authenticate_server sample writer at_server server (acl client) v1 versions
      ≡ ok (hello server (codes "07"), hello server (codes "08")))
    × (authenticate_client sample writer at_client client (acl server) v1 versions
        ≡ ok (hello client (codes "07"), hello client (codes "08")))
handshake_completes_example =
    handshake_completes sample writer sample-IsSigner sample-IsBase64 server client (acl server)
      (acl client) v1 versions (digest (codes "07")) (digest (codes "08")) (pinned server)
      (pinned client) supported (signed server (codes "07")) (signed client (codes "07"))
      (signed client (codes "08")) (signed server (codes "08"))

completed :
    (authenticate_server sample writer at_server server (acl client) v1 versions
      ≡ ok (hello server (codes "07"), hello server (codes "08")))
    × (authenticate_client sample writer at_client client (acl server) v1 versions
        ≡ ok (hello client (codes "07"), hello client (codes "08")))
completed =
    handshake_completes sample writer sample-IsSigner sample-IsBase64 server client (acl server)
      (acl client) v1 versions (digest (codes "07")) (digest (codes "08")) (pinned server)
      (pinned client) supported (signed server (codes "07")) (signed client (codes "07"))
      (signed client (codes "08")) (signed server (codes "08"))

authenticate_server_sound_example :
    (response : HelloChallenge) × (at_server.first_read ≡ ok response)
    × Authentic sample writer at_server (acl client) v1 versions response
authenticate_server_sound_example =
    authenticate_server_sound sample writer at_server server (acl client) v1 versions completed.0

authenticate_client_sound_example :
    (offer : HelloChallenge) × (response : HelloChallenge) × (at_client.first_read ≡ ok offer)
    × HelloVerified sample writer offer (acl server) versions
    × (at_client.second_read ≡ ok response)
    × Authentic sample writer at_client (acl server) v1 versions response
authenticate_client_sound_example =
    authenticate_client_sound sample writer at_client client (acl server) v1 versions completed.1

test_one_of :
    authenticate_server_one_of sample writer at_server server
      (acl server ∷ acl client ∷ [])
      v1
      versions
    ≡ ok (acl client, (hello server (codes "07"), hello server (codes "08")))
unfolding authenticate_server_one_of find_candidate verify_hello check_answer signed_hello
    hello_message require contains verify_signature signature_bytes base64_to_bytes
    base64_from_bytes list_beq encode decode cons? digit undigit pad
test_one_of = refl

authenticate_server_one_of_sound_example :
    Memᴰ (acl client) (acl server ∷ acl client ∷ [])
    × ((response : HelloChallenge) × (at_server.first_read ≡ ok response)
        × Authentic sample writer at_server (acl client) v1 versions response)
authenticate_server_one_of_sound_example =
    authenticate_server_one_of_sound sample writer at_server server (acl server ∷ acl client ∷ [])
      v1 versions test_one_of
