-- ===== src/Storage.antt =====
-- crates/fundb-storage: the LSM tree and the structures under it.
pub mod MemTable
pub mod Sstable
pub mod Compaction
pub mod Wal
pub mod Lsm
pub mod BlockCache
pub mod Mvcc
pub mod Tests
