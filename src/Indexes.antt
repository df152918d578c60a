-- ===== src/Indexes.antt =====
-- crates/fundb-indexes. A UUID is its 128-bit number.
pub mod Graph
pub mod Temporal
mod Tests
