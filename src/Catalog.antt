-- ===== src/Catalog.antt =====
-- The catalog of runs: one of its shards.
pub mod Shard
pub mod Fence
pub mod Publication
mod Tests
