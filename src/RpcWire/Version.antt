-- ===== src/RpcWire/Version.antt =====
-- Protocol versions of crates/bloom-rpc-wire/src/envelope.rs.
pub mod Range
use bloom_service_runtime.Prelude.{
  ℕ, Bool, true, ◌&&◌, not, Result, ok, err, reject_if, leb, ◌==◌, nat_eq, PartialEq, ◌≡◌, ◌↔◌,
  arith,
}
use bloom_service_runtime.RpcWire.Error.{WireError, wire_error, unsupported_version}

pub record ProtocolVersion : Type 0 where
  pub major : ℕ
  pub minor : ℕ

abbrev pub version_beq : ProtocolVersion → ProtocolVersion → Bool
version_beq a b = a.major == b.major && a.minor == b.minor

pub version_beq_iff : (a b : ProtocolVersion) → (version_beq a b ≡ true) ↔ (a ≡ b)
version_beq_iff a b = ground arith

instance abbrev pub version_eq : PartialEq ProtocolVersion
version_eq = record { same = version_beq; same_iff = version_beq_iff }

pub record ProtocolVersionRange : Type 0 where
  pub major : ℕ
  pub minor_min : ℕ
  pub minor_max : ℕ

unfoldable pub contains : ProtocolVersionRange → ProtocolVersion → Bool
contains range version =
    leb range.minor_min range.minor_max
    && version.major == range.major
    && leb range.minor_min version.minor
    && leb version.minor range.minor_max

unfoldable pub require : ProtocolVersionRange → ProtocolVersion → Result (Unit {0}) WireError
require range version = reject_if (not (contains range version)) (wire_error unsupported_version)
