-- ===== src/LocalTransport/Call/Examples.antt =====
-- Calls over the sample instance of the external crates.
use bloom_service_runtime.Prelude.{Bytes, codes, some, [], list_beq, all, ok, ◌≡◌, ◌↔◌, refl, arith}
use bloom_service_runtime.RpcWire.Error.{WireError}
use bloom_service_runtime.RpcWire.External.Sample.{
  sample, sample-IsBase64, sample-IsSigner, encode, decode, cons?, digit, undigit, pad,
}
use bloom_service_runtime.RpcWire.Base64.{base64_to_bytes, base64_from_bytes}
use bloom_service_runtime.RpcWire.Signature.{verify_signature, signature_bytes}
use bloom_service_runtime.RpcWire.Version.{contains, require}
use bloom_service_runtime.RpcWire.Token.{token_new}
use bloom_service_runtime.RpcWire.Decimal.{
  decimal_u64_new, decimal_u64_get, parse_digits, parse_unsigned, print_digits,
}
use bloom_service_runtime.RpcWire.Audit.{SignedJournalHead, head_message, signature_message}
use bloom_service_runtime.RpcWire.Envelope.{SignedEnvelope, method_of, canonical_bytes}
use bloom_service_runtime.LocalTransport.Identity.{PeerAcl}
use bloom_service_runtime.LocalTransport.Hello.{
  authenticate_client, check_answer, require_peer_uid, signed_hello, hello_message, verify_hello,
}
use bloom_service_runtime.LocalTransport.Hello.Answered.{IsPinned}
use bloom_service_runtime.LocalTransport.Hello.Handshake.{server_end}
use bloom_service_runtime.LocalTransport.Hello.Examples.{writer, hello}
use bloom_service_runtime.LocalTransport.Sign.{
  digest, sign_journal_head, sign_request_with_optional_journal_head, seal,
  sign_response_with_optional_journal_head,
}
use bloom_service_runtime.LocalTransport.Sign.Draft.{sealed_of, response_draft}
use bloom_service_runtime.LocalTransport.Sign.Examples.{
  broker, serde, typed, v1_1, versions, sealed, head, hash, body, id,
}
use bloom_service_runtime.LocalTransport.Exchange.{Endpoint, ClientEnd, response_at}
use bloom_service_runtime.LocalTransport.Dispatch.{Answer}
use bloom_service_runtime.LocalTransport.Dispatch.Examples.{signer, answers}
use bloom_service_runtime.LocalTransport.Call.{call_with_journal_head}
use bloom_service_runtime.LocalTransport.Call.Returned.{Called, call_with_journal_head_iff}
use bloom_service_runtime.LocalTransport.Call.Completes.{call_with_journal_head_completes}

abbrev signer_acl : PeerAcl
signer_acl = record {
  effective_uid = 502;
  service_id = signer.service_id;
  boot_epoch = signer.boot_epoch;
  application_key_id = signer.application_key_id;
  application_public_key = sample.public_key signer.signing_key;
}

signer-IsPinned : IsPinned sample signer signer_acl
signer-IsPinned = record { service = refl; boot = refl; key_id = refl; public_key = refl }

abbrev caller : Endpoint
caller = record {
  identity = broker;
  peer = signer_acl;
  current_version = v1_1;
  supported_versions = versions;
}

abbrev signer_head : SignedJournalHead
signer_head = record {
  service_id = signer.service_id;
  sequence = decimal_u64_new 3;
  head_hash = hash;
  key_id = signer.application_key_id;
  signature = base64_from_bytes sample (
      sample.sign signer.signing_key (
        head_message
          (record {
            service_id = signer.service_id;
            sequence = decimal_u64_new 3;
            head_hash = hash;
            key_id = signer.application_key_id;
            signature = base64_from_bytes sample [];
          })
          3));
}

signer_headed : sign_journal_head sample signer 3 hash ≡ ok signer_head
unfolding sign_journal_head signature_message head_message decimal_u64_new decimal_u64_get
signer_headed = refl

-- The answer of the signer to the request of the broker.
abbrev answer : SignedEnvelope (Answer Bytes Bytes WireError)
answer =
    sealed_of sample answers signer
      (response_draft sample answers signer (sealed (some head)) (ok (codes "done")) 13 20
        (some signer_head))
      body

abbrev calling : ClientEnd Bytes (Answer Bytes Bytes WireError)
calling = record {
  connection =
      server_end sample writer (record { text = codes "08" }) 502
        (record (hello signer (codes "07")) { protocol = v1_1 })
        (record (hello signer (codes "08")) { protocol = v1_1 });
  peer_uid = some 502;
  sent_at = ok 10;
  received_at = ok 14;
  random_operation_id = id;
  write = λ request. ok tt;
  read = ok answer;
}

authenticated :
    authenticate_client sample writer calling.connection broker signer_acl v1_1 versions
    ≡ ok (
      record (hello broker (codes "07")) { protocol = v1_1 },
      record (hello broker (codes "08")) { protocol = v1_1 },
    )
unfolding authenticate_client check_answer require_peer_uid signed_hello hello_message verify_hello
    require contains verify_signature signature_bytes base64_to_bytes base64_from_bytes list_beq
    encode decode cons? digit undigit pad
authenticated = refl

requested :
    sign_request_with_optional_journal_head sample serde broker signer.service_id v1_1 versions id
      body 10 20
      (some head)
    ≡ ok (sealed (some head))
unfolding sign_request_with_optional_journal_head require contains token_new all list_beq method_of
    seal canonical_bytes digest
requested = refl

responded :
    response_at sample answers signer
      (sealed (some head))
      (ok (codes "done"))
      (some signer_head)
      (ok 13)
    ≡ ok answer
unfolding response_at sign_response_with_optional_journal_head token_new all seal canonical_bytes
    decimal_u64_get decimal_u64_new parse_digits parse_unsigned print_digits
responded = refl

call_with_journal_head_completes_example :
    call_with_journal_head sample writer caller serde answers typed
      (λ e. e)
      calling
      body
      10
      head
      (λ head. ok tt)
    ≡ ok (codes "done")
call_with_journal_head_completes_example =
    call_with_journal_head_completes sample writer caller serde answers typed (λ e. e)
      sample-IsSigner sample-IsBase64 signer signer-IsPinned calling body 10 head (λ head. ok tt) 10
      13 14 3 hash (codes "done") authenticated refl refl refl requested refl (omega arith)
      signer_headed responded refl refl (omega arith) refl

call_with_journal_head_iff_example :
    (call_with_journal_head sample writer caller serde answers typed
        (λ e. e)
        calling
        body
        10
        head
        (λ head. ok tt)
      ≡ ok (codes "done"))
    ↔ Called sample writer caller serde answers typed
        (λ e. e)
        calling
        body
        10
        head
        (λ head. ok tt)
        (codes "done")
call_with_journal_head_iff_example =
    call_with_journal_head_iff sample writer caller serde answers typed (λ e. e) calling body 10
      head (λ head. ok tt) (codes "done")
