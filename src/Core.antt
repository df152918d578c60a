-- ===== src/Core.antt =====
-- crates/fundb-core: the keys and records that the storage engine keeps.
pub mod Record
pub mod Bloom
pub mod Builder
