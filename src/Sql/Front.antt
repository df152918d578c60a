-- ===== src/Sql/Front.antt =====
-- `parse` of crates/fundb-sql/src/lib.rs: the lexer and then the parser.
pub mod Total
pub mod Trailing
mod Tests
use fundb.Prelude.{ℕ, List, [], ◌∷◌}
use fundb.Sql.Token.{Token}
use fundb.Sql.Chars.{Library, Span, Outcome, LexError}
use fundb.Sql.Chars
use fundb.Sql.Ast.{Statement}
use fundb.Sql.Parser
use fundb.Sql.Parser.{Parsed, ParseError}
use fundb.Sql.Parser.Top.{parse_statement}
use fundb.Sql.Lexer.{tokenize}

-- How `parse` ends. An error keeps the stage that it comes from.
pub data Answer : Type 0 where
  parsed : Statement → Answer
  lexical : LexError → Answer
  syntactic : ParseError → Answer
  panicked out_of_fuel : Answer

abbrev pub answer_of : Parsed Statement → Answer
answer_of (Parser.done stmt rest) = parsed stmt
answer_of (Parser.failed e) = syntactic e
answer_of Parser.out_of_fuel = out_of_fuel

-- `Parser::new` and `parse_statement`. The first `peek` of an empty vector panics.
unfoldable pub parse_tokens : List (Token × Span) → Answer
parse_tokens [] = panicked
parse_tokens (t ∷ ts) = answer_of (parse_statement (t, ts))

unfoldable pub parse_lexed : Outcome (List (Token × Span)) → Answer
parse_lexed (Chars.done tokens) = parse_tokens tokens
parse_lexed (Chars.failed e) = lexical e
parse_lexed Chars.panicked = panicked
parse_lexed Chars.out_of_fuel = out_of_fuel

unfoldable pub parse : Library → List ℕ → Answer
parse l input = parse_lexed (tokenize l input)
