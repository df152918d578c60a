-- ===== src/Executor.antt =====
-- crates/fundb-executor: operators over batches of records, and the dispatch on plans. Failures of
-- the storage are left out, as in Storage/Lsm.
pub mod Eval
pub mod Batch
pub mod Operators
pub mod Dispatch
mod Tests
