-- ===== src/Sql.antt =====
-- crates/fundb-sql: the query language.
pub mod Plan
pub mod Token
pub mod Chars
pub mod Comments
pub mod Literals
pub mod Lexer
mod Tests
pub mod Ast
pub mod Parser
pub mod Front
