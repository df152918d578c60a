-- ===== src/Optimizer.antt =====
-- crates/fundb-optimizer: rewriting logical plans.
pub mod Rules
pub mod Folding
