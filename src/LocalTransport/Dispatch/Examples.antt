-- ===== src/LocalTransport/Dispatch/Examples.antt =====
-- A request that is served with journal heads, over the sample instance of the external crates.
use bloom_service_runtime.Prelude.{list_beq, Bytes, codes, some, [], ◌∷◌, ok, ◌≡◌, refl}
use bloom_service_runtime.RpcWire.Error.{WireError}
use bloom_service_runtime.RpcWire.External.Sample.{
  sample, encode, decode, cons?, digit, undigit, pad,
}
use bloom_service_runtime.RpcWire.Base64.{base64_to_bytes, base64_from_bytes}
use bloom_service_runtime.RpcWire.Signature.{verify_signature, signature_bytes}
use bloom_service_runtime.RpcWire.Version.{contains, require}
use bloom_service_runtime.LocalTransport.Hello.{
  authenticate_server, check_answer, require_peer_uid, signed_hello, hello_message, verify_hello,
}
use bloom_service_runtime.RpcWire.Envelope.{
  BodySerde, verify_typed, verify, method_of, canonical_bytes,
}
use bloom_service_runtime.RpcWire.Shape.{string}
use bloom_service_runtime.LocalTransport.Identity.{LocalIdentity}
use bloom_service_runtime.LocalTransport.Quota.{EndpointQuota, new_mutex}
use bloom_service_runtime.LocalTransport.Hello.Handshake.{server_end}
use bloom_service_runtime.LocalTransport.Hello.Examples.{writer, hello, digest}
use bloom_service_runtime.LocalTransport.Sign.Examples.{
  broker, acl, token, serde, typed, v1_1, versions, sealed, head, hash,
}
use bloom_service_runtime.LocalTransport.Exchange.{Endpoint, ServerEnd, receive_request}
use bloom_service_runtime.LocalTransport.Dispatch.{
  Answer, Service, dispatch_connection_with_journal_heads_and_context,
}
use bloom_service_runtime.LocalTransport.Dispatch.Course.{Course}
use bloom_service_runtime.LocalTransport.Dispatch.Trace.{dispatch_course}
use bloom_service_runtime.RpcWire.Envelope.{
  check_schema, check_peer, check_deadline, check_digest, expected_request_digest,
  verify_sender_journal_head,
}
use bloom_service_runtime.LocalTransport.Identity.{authenticated_for}
use bloom_service_runtime.RpcWire.Decimal.{
  decimal_u64_get, decimal_u64_new, parse_digits, parse_unsigned, print_digits,
}
use bloom_service_runtime.RpcWire.Hex.{hex_from_bytes}
use bloom_service_runtime.RpcWire.Audit.{verify_sender_identity, head_message, signature_message}
use bloom_service_runtime.RpcWire.Token.{token_new, valid_token}
use bloom_service_runtime.LocalTransport.Sign.{
  require_live_deadline, seal, sign_journal_head, sign_response_with_optional_journal_head,
}
use bloom_service_runtime.LocalTransport.Quota.{locked_admit, sliding_admit, admit, expire, release}
use bloom_service_runtime.LocalTransport.Exchange.{from_request, response_at}
use bloom_service_runtime.LocalTransport.Dispatch.{
  admit_and_handle, answer_with_head, send_response_with_optional_journal_head,
}
use bloom_service_runtime.Prelude.{all}

abbrev pub signer : LocalIdentity
signer = record {
  service_id = token (codes "bloom-signer");
  boot_epoch = record { text = codes "00" };
  application_key_id = token (codes "signer-app-1");
  signing_key = 9 ∷ [];
}

abbrev pub endpoint : Endpoint
endpoint = record {
  identity = signer;
  peer = acl;
  current_version = v1_1;
  supported_versions = versions;
}

abbrev pub answers : BodySerde (Answer Bytes Bytes WireError)
answers = record {
  envelope_to_vec = λ e. some e.method.text;
  body_to_vec = λ body. some (codes "done");
  body_to_value = λ body. some (string (codes "done"));
}

abbrev pub quota : EndpointQuota
quota = record { mutation_slots = 1; request_rate = new_mutex 2 10; journal_rate = new_mutex 2 10 }

abbrev pub service : Service Bytes Bytes WireError
service = record {
  from = λ e. e;
  dispatch = λ body context. ok (codes "done");
  meanwhile = λ quota. quota;
  checkpoint_request_head = λ context head. ok tt;
  local_journal_head = λ events context. ok (3, hash);
  observed_at = ok 12;
  answered_at = ok 13;
  write = λ response. ok tt;
}

abbrev pub requested : ServerEnd Bytes
requested = record {
  connection =
      server_end sample writer (digest (codes "07")) 501
        (record (hello broker (codes "07")) { protocol = v1_1 })
        (record (hello broker (codes "08")) { protocol = v1_1 });
  peer_uid = some 501;
  received_at = ok 11;
  read = ok (sealed (some head));
}

served :
    (dispatch_connection_with_journal_heads_and_context sample writer endpoint serde answers typed
      service requested
      (record { quota = quota; events = [] })).0
    ≡ ok tt
unfolding dispatch_connection_with_journal_heads_and_context authenticate_server check_answer
    require_peer_uid signed_hello hello_message verify_hello require contains verify_signature
    signature_bytes base64_to_bytes base64_from_bytes list_beq encode decode cons? digit undigit pad
    receive_request verify_typed verify method_of canonical_bytes check_schema check_peer
    check_deadline check_digest expected_request_digest verify_sender_journal_head authenticated_for
    decimal_u64_get decimal_u64_new parse_digits parse_unsigned print_digits hex_from_bytes
    verify_sender_identity head_message signature_message token_new valid_token
    require_live_deadline seal sign_journal_head sign_response_with_optional_journal_head
    locked_admit sliding_admit admit expire release from_request response_at admit_and_handle
    answer_with_head send_response_with_optional_journal_head all
served = refl

dispatch_course_example :
    Course sample writer endpoint serde answers typed service requested quota (
      dispatch_connection_with_journal_heads_and_context sample writer endpoint serde answers typed
        service requested
        (record { quota = quota; events = [] }))
dispatch_course_example =
    dispatch_course sample writer endpoint serde answers typed service requested quota
