-- ===== src/HookIndex.antt =====
-- The hook indexes: the shards that own tokens and hook IDs.
pub mod Slot
pub mod Reserve
pub mod Publish
pub mod Force
pub mod Compact
pub mod Steps
pub mod Holder
pub mod Ownership
pub mod Exclusion
pub mod Sequential
pub mod Orphan
pub mod Id
pub mod IdOwner
mod Tests
