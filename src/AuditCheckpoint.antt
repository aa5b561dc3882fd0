-- ===== src/AuditCheckpoint.antt =====
-- crates/bloom-audit-checkpoint/src/lib.rs: the store of the audit heads that a service retains of
-- its peers.
mod Examples
pub mod Record
pub mod Keys
pub mod Chain
pub mod Disk
pub mod Entries
pub mod Scan
pub mod Publish
pub mod Store
pub mod Open
pub mod History
