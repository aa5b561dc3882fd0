-- ===== src/RpcWire/Error.antt =====
-- crates/bloom-rpc-wire/src/error.rs. The message of an error is text for people, which no code
-- of the repository reads back, so an error is its code.
pub data WireErrorCode : Type 0 where
  malformed_frame unknown_field limit_exceeded_frame : WireErrorCode
  unauthenticated_peer unsupported_version operation_id_conflict : WireErrorCode
  quota_exceeded service_unavailable clock_rollback clock_untrusted : WireErrorCode

pub record WireError : Type 0 where
  pub code : WireErrorCode

-- `WireError::new`, and `fatal`, which is the same.
abbrev pub wire_error : WireErrorCode → WireError
wire_error code = record { code = code }

-- How a call that checks an envelope can fail: with an error, or with the panic of an `expect`.
pub data Failure : Type 0 where
  rejected : WireError → Failure
  panicked : Failure

abbrev pub reject : WireErrorCode → Failure
reject code = rejected (wire_error code)
