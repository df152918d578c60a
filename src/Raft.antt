-- ===== src/Raft.antt =====
-- crates/fundb-raft: one Raft node, its log, its handlers and its storage.
pub mod Types
pub mod State
pub mod Append
pub mod Contig
pub mod Vote
pub mod Storage
pub mod Commit
pub mod Node
pub mod Steps
pub mod Tests
