-- ===== src/LocalTransport.antt =====
-- crates/bloom-triad-local-transport/src/lib.rs: the authenticated transport between the services.
pub mod Quota
pub mod Identity
pub mod Hello
pub mod Sign
pub mod Stream
pub mod Developer
pub mod Exchange
pub mod Dispatch
pub mod Call
