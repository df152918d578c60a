-- ===== src/Sql/Parser/Exprs.antt =====
-- Expressions of crates/fundb-sql/src/parser.rs.
pub mod Primaries
pub mod Levels
unfoldable pub use Primaries.*
unfoldable pub use Levels.*
