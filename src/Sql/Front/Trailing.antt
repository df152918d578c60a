-- ===== src/Sql/Front/Trailing.antt =====
-- What `parse` makes of tokens behind a statement.
use fundb.Prelude.{◌≡◌, refl, none, List, ◌∷◌}
use fundb.Sql.Token.{Token}
use fundb.Sql.Chars.{Span}
use fundb.Sql.Ast
use fundb.Sql.Ast.{Name, DeleteStmt}
use fundb.Sql.Parser.{
  and_then, ◌>>=◌, pure, kind, peek, match_token, when_is, if_eat, eat, expect, loop, loop_at,
}
use fundb.Sql.Parser.Names.{keyword_as_ident, expect_ident, parse_qualified_name}
use fundb.Sql.Parser.Clauses.{optional}
use fundb.Sql.Parser.Statements.{parse_delete}
use fundb.Sql.Parser.Top.{
  parse_statement, statement_at, skip_semicolons, statement_kind, parse_kind,
}
use fundb.Sql.Front
use fundb.Sql.Front.{parse_tokens}

-- An identifier behind the table of a `DELETE` ends the statement, and the tokens behind it, a
-- `WHERE` among them, are ignored: the answer is a deletion without a condition.
pub parse_tokens-delete_alias :
    (table alias : Name) (x : Span) (rest : List (Token × Span))
    → parse_tokens (
        (Token.delete_kw, x)
        ∷ ((Token.from_kw, x) ∷ ((Token.ident table, x) ∷ ((Token.ident alias, x) ∷ rest))))
      ≡ Front.parsed (Ast.delete (record { table = table; where_clause = none }))
unfolding parse_tokens parse_statement statement_at skip_semicolons statement_kind parse_kind
    parse_delete optional parse_qualified_name expect_ident keyword_as_ident eat expect if_eat
    when_is match_token peek loop loop_at pure ◌>>=◌ and_then kind
parse_tokens-delete_alias table alias x rest = refl
