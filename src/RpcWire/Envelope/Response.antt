-- ===== src/RpcWire/Envelope/Response.antt =====
-- When `verify_response_to` and `verify_typed` accept an envelope
-- (crates/bloom-rpc-wire/src/envelope.rs).
use bloom_service_runtime.Prelude.{
  ℕ, Option, some, none, true, false, ok, ◌≡◌, ◌↔◌, refl, arith, not, reject_if, >>-eq-ok,
  >>=-eq-ok, ◌!=◌, nat_eq, eq_refl, sym, ap, ◌∙◌,
}
use bloom_service_runtime.RpcWire.Error.{reject, malformed_frame, operation_id_conflict}
use bloom_service_runtime.RpcWire.External.{External}
use bloom_service_runtime.RpcWire.Token.{token_eq, token_beq_iff}
use bloom_service_runtime.RpcWire.Hex.{OperationId, hex_eq, hex_beq_iff}
use bloom_service_runtime.RpcWire.Version.{ProtocolVersionRange, version_eq, version_beq_iff}
use bloom_service_runtime.RpcWire.Envelope.{
  EnvelopeKind, request, response, kind_beq, JournalHeadPolicy, BodySerde, SignedEnvelope,
  AuthenticatedPeer, TypedRequestMethod, method_of, verify, verify_response_to, verify_typed,
}
use bloom_service_runtime.RpcWire.Envelope.Accepted.{Accepted, verify_iff}

kind_beq_iff : (a b : EnvelopeKind) → (kind_beq a b ≡ true) ↔ (a ≡ b)
kind_beq_iff request request = ground arith
kind_beq_iff request response = ground arith
kind_beq_iff response request = ground arith
kind_beq_iff response response = ground arith

operation_checked :
    (body_id : Option OperationId) (k : OperationId)
    → ((id : OperationId) → body_id ≡ some id → id ≡ k)
    → reject_if (elim body_id [ none ↦ false | some id ↦ id != k ]) (reject operation_id_conflict)
      ≡ ok tt
operation_checked none k h = refl
operation_checked (some id) k h = ground (arith, h id refl, hex_beq_iff id k)

-- A response answers this request: the same version, method, operation and request digest.
pub record Answers {T U : Type 0} (e : SignedEnvelope T) (req : SignedEnvelope U) : Type 0 where
  pub is_response : e.kind ≡ response
  pub is_request : req.kind ≡ request
  pub protocol : e.protocol ≡ req.protocol
  pub method : e.method ≡ req.method
  pub operation : e.operation_id ≡ req.operation_id
  pub digest : e.request_digest ≡ req.request_digest

module _ {T : Type 0} (x : External) (s : BodySerde T) (e : SignedEnvelope T) (uid : ℕ)
    (expected : AuthenticatedPeer) (versions : ProtocolVersionRange)
    (policy : JournalHeadPolicy) where
  -- An envelope is accepted as the response to a request exactly if it is an accepted envelope
  -- of its sender, is a response, and answers that request: same version, method, operation and
  -- request digest.
  pub verify_response_to_iff :
      {U : Type 0} (req : SignedEnvelope U)
      → (verify_response_to x s e uid expected req versions policy ≡ ok tt)
        ↔ (Accepted x s e uid expected versions policy × Answers e req)
  unfolding verify_response_to
  verify_response_to_iff req =
      let checked = >>-eq-ok (verify x s e uid expected versions policy) _ in
      let verified = verify_iff x s e uid expected versions policy in
      let kinds = kind_beq_iff e.kind response in
      let request_kinds = kind_beq_iff req.kind request in
      let protocols = version_beq_iff e.protocol req.protocol in
      let methods = token_beq_iff e.method req.method in
      let operations = hex_beq_iff e.operation_id req.operation_id in
      let digests = hex_beq_iff e.request_digest req.request_digest in
      (
        λ h.
            let (v, c) = checked.0 h in
            (
              verified.0 v,
              ground (arith, c, kinds, request_kinds, protocols, methods, operations, digests),
            ),
        λ (a, r). checked.1 (
          verified.1 a,
          ground (arith, r, kinds, request_kinds, protocols, methods, operations, digests),
        ),
      )

  -- The body's own method tag is the authenticated method, and the body names no operation or
  -- the authenticated one.
  pub record Typed (t : TypedRequestMethod T) : Type 0 where
    pub is_request : e.kind ≡ request
    pub method : method_of s e.body ≡ ok e.method
    pub body_id : Option OperationId
    pub read_id : t.operation_id e.body ≡ ok body_id
    pub operation : (id : OperationId) → body_id ≡ some id → id ≡ e.operation_id

  -- An envelope is accepted as a typed request exactly if it is an accepted envelope of its
  -- sender, is a request, its authenticated method is the tag in its body, and its body carries
  -- no operation ID or the authenticated one.
  pub verify_typed_iff :
      (t : TypedRequestMethod T)
      → (verify_typed x s t e uid expected versions policy ≡ ok tt)
        ↔ (Accepted x s e uid expected versions policy × Typed t)
  unfolding verify_typed
  verify_typed_iff t = (
    λ h.
        let (v, h1) = (>>-eq-ok (verify x s e uid expected versions policy) _).0 h in
        let (k, h2) =
          (>>-eq-ok (reject_if (not (kind_beq e.kind request)) (reject malformed_frame)) _).0 h1 in
        let (method, m, h3) = >>=-eq-ok (method_of s e.body) _ h2 in
        let (c, h4) = (>>-eq-ok (reject_if (e.method != method) (reject malformed_frame)) _).0 h3 in
        let (body_id, i, h5) = >>=-eq-ok (t.operation_id e.body) _ h4 in
        let same : e.method ≡ method = ground (arith, c, token_beq_iff e.method method) in
        (
          (verify_iff x s e uid expected versions policy).0 v,
          record {
            is_request = ground (arith, k, kind_beq_iff e.kind request);
            method = m ∙ ap ok (sym same);
            body_id = body_id;
            read_id = i;
            operation = λ id p. ground (arith, h5, p, hex_beq_iff id e.operation_id);
          },
        ),
    λ (a, r).
        rw
          (
            (verify_iff x s e uid expected versions policy).1 a,
            (kind_beq_iff e.kind request).1 r.is_request,
            r.method,
            eq_refl e.method,
            r.read_id,
          )
          (operation_checked r.body_id e.operation_id r.operation),
  )
