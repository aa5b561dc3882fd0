-- ===== src/RpcWire.antt =====
-- crates/bloom-rpc-wire/src: identifiers, frames, signed envelopes and journal heads.
pub mod Error
mod Examples
pub mod External
pub mod Token
pub mod Hex
pub mod Decimal
pub mod Base64
pub mod Shape
pub mod Frame
pub mod Signature
pub mod Audit
pub mod Version
pub mod Envelope
