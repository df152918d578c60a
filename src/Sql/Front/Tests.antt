-- ===== src/Sql/Front/Tests.antt =====
-- `parse` at concrete texts.
use fundb.Prelude.{ℕ, ◌≡◌, ◌≢◌, refl, false, Option, some, none, List, [], ◌∷◌, arith}
use fundb.Prelude.Text.{codes}
use fundb.Sql.Token.{Token}
use fundb.Sql.Chars.{Library, Span}
use fundb.Sql.Ast
use fundb.Sql.Ast.{Statement, Expr, exprs}
use fundb.Sql.Parser.{
  Stream, Parsed, done, and_then, ◌>>=◌, pure, kind, match_token, when_is, if_eat, loop_at, loop,
}
use fundb.Sql.Parser.Names.{keyword_as_ident}
use fundb.Sql.Parser.Exprs.{
  primary_of, after_word, after_primary, parse_primary_expr, parse_unary_expr,
  parse_vector_dist_expr, left_assoc, parse_multiplicative_expr, parse_additive_expr, comparison_of,
  after_comparison, parse_comparison_expr, parse_not_expr, parse_and_expr, parse_expr,
}
use fundb.Sql.Parser.Select.{parsers}
use fundb.Sql.Parser.Top.{parse_statement}
use fundb.Sql.Parser.Takes.{Ends}
use fundb.Sql.Parser.Total.{parse_statement-takes}
use fundb.Sql.Front
use fundb.Sql.Front.{parse, parse_tokens}
use fundb.Sql.Front.Trailing.{parse_tokens-delete_alias}
use fundb.Sql.Parser.Printed.{
  Tree, leaf, column, qualified, infix_of, between, add_op, expr_of, print, depth,
}
use fundb.Sql.Parser.RoundTrip.{parse_primary_expr-print}
use fundb.Sql.Front.Total.{parse-ascii}

abbrev library : Library
library = record { is_alphabetic = λ c. false; is_numeric = λ c. false; parse_f64 = λ raw. some 5 }

abbrev place : Span
place = record { line = 1; col = 1; len = 1 }

abbrev stream : Token → List Token → Stream
stream t ts = ((t, place), spans ts)
  where
    spans : List Token → List (Token × Span)
    spans [] = (Token.eof, place) ∷ []
    spans (u ∷ us) = (u, place) ∷ spans us

-- `1 + 2 * x - 3`
abbrev sum : Stream
sum = stream (Token.int_literal 1) (
    Token.plus
    ∷ Token.int_literal 2
    ∷ Token.star
    ∷ Token.ident (codes "x")
    ∷ Token.minus
    ∷ Token.int_literal 3
    ∷ [])

abbrev value : Parsed Expr → Option Expr
value (done e r) = some e
value _ = none

int : ℕ → Expr
int n = Ast.literal (Ast.int n)

parsed_sum :
    value ((parsers 3).expr sum)
    ≡ some (
        Ast.binary_op Ast.sub
          (Ast.binary_op Ast.add (int 1) (Ast.binary_op Ast.mul (int 2) (Ast.ident (codes "x"))))
          (int 3))
unfolding int parsers parse_expr parse_and_expr parse_not_expr parse_comparison_expr
    after_comparison comparison_of parse_additive_expr parse_multiplicative_expr left_assoc
    parse_vector_dist_expr parse_unary_expr parse_primary_expr after_primary after_word primary_of
    keyword_as_ident loop loop_at match_token when_is if_eat ◌>>=◌ and_then pure kind
parsed_sum = refl

abbrev delete_tokens : Stream
delete_tokens =
    stream Token.delete_kw (Token.from_kw ∷ Token.ident (codes "t") ∷ Token.semicolon ∷ [])

parse_statement-takes_example :
    Ends (λ (_ : Statement). 1) delete_tokens (parse_statement delete_tokens)
parse_statement-takes_example = parse_statement-takes delete_tokens refl

parse-ascii_example :
    (parse library (codes "x(") ≢ Front.panicked) × (parse library (codes "x(") ≢ Front.out_of_fuel)
parse-ascii_example = parse-ascii library (codes "x(") (omega arith, (omega arith, tt))

-- `((t.x + 2) BETWEEN 1 AND y)`
abbrev printed : Tree
printed =
    between (infix_of add_op (qualified (codes "t") (codes "x")) (leaf (Ast.int 2)))
      (leaf (Ast.int 1)) (column (codes "y"))

parse_primary_expr-print_example :
    parse_primary_expr (parsers 2) (print place printed (stream Token.then_kw []))
    ≡ done (expr_of printed) (stream Token.then_kw [])
unfolding depth kind
parse_primary_expr-print_example =
    parse_primary_expr-print place printed 2 (stream Token.then_kw []) (omega arith) (refl, refl)

-- `DELETE FROM users u WHERE x`
parse_tokens-delete_alias_example :
    parse_tokens (
      (Token.delete_kw, place)
      ∷ ((Token.from_kw, place)
          ∷ ((Token.ident (codes "users"), place)
              ∷ ((Token.ident (codes "u"), place)
                  ∷ ((Token.where_kw, place)
                      ∷ ((Token.ident (codes "x"), place) ∷ ((Token.eof, place) ∷ [])))))))
    ≡ Front.parsed (Ast.delete (record { table = codes "users"; where_clause = none }))
parse_tokens-delete_alias_example =
    parse_tokens-delete_alias (codes "users") (codes "u") place
      ((Token.where_kw, place) ∷ ((Token.ident (codes "x"), place) ∷ ((Token.eof, place) ∷ [])))
