-- ===== src/RpcWire/Version/Range.antt =====
-- Which versions a range requires (crates/bloom-rpc-wire/src/envelope.rs).
use bloom_service_runtime.Prelude.{◌≤◌, ok, err, ◌≡◌, ◌↔◌, ◌⊎◌, arith}
use bloom_service_runtime.RpcWire.Error.{wire_error, unsupported_version}
use bloom_service_runtime.RpcWire.Version.{ProtocolVersion, ProtocolVersionRange, contains, require}

-- The versions of a range: its major version, and a minor version between its bounds.
pub record InRange (range : ProtocolVersionRange) (version : ProtocolVersion) : Type 0 where
  pub major : version.major ≡ range.major
  pub low : range.minor_min ≤ version.minor
  pub high : version.minor ≤ range.minor_max

-- `require` accepts exactly the versions with the range's major version and a minor version
-- between its bounds, and fails on any other with an unsupported version.
pub require_iff :
    (range : ProtocolVersionRange) (version : ProtocolVersion)
    → ((require range version ≡ ok tt) ↔ InRange range version)
      × ((require range version ≡ ok tt)
          ⊎ (require range version ≡ err (wire_error unsupported_version)))
unfolding require contains
require_iff range version = ground arith
