-- ===== src/Sql/Parser/Clauses.antt =====
-- The clauses of a `SELECT` in crates/fundb-sql/src/parser.rs.
pub mod Items
pub mod Options
unfoldable pub use Items.*
unfoldable pub use Options.*
