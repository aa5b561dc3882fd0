-- ===== src/TrustedTime.antt =====
-- crates/bloom-trusted-time/src/lib.rs: the platform time source, the sampler that reads it, and
-- the guard that checks a reading against the durable clock state.
pub mod Source
pub mod Sampler
pub mod Durable
