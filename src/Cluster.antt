-- ===== src/Cluster.antt =====
-- crates/fundb-cluster.
pub mod Hash
pub mod Sharding
mod Tests
