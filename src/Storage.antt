-- ===== src/Storage.antt =====
-- crates/roci-storage: the storage engine's components.
pub mod Error
pub mod Quota
pub mod Digest
pub mod Paths
pub mod Gc
pub mod Metadata
pub mod Dedupe
pub mod Ops
pub mod Wal
pub mod Cache
pub mod Pages
pub mod Routing
pub mod Presence
