-- ===== src/Sql/Parser/Exprs/Levels.antt =====
-- The levels of precedence in crates/fundb-sql/src/parser.rs, a function for each.
use fundb.Prelude.{true, false, Option, none, some, List}
use fundb.Sql.Token.{Token}
use fundb.Sql.Ast
use fundb.Sql.Ast.{Name, Expr, BinaryOp, Literal, SelectStmt, MaybeExpr, exprs, whens}
use fundb.Sql.Parser.{
  Parser, ◌>>=◌, pure, match_token, if_eat, expect, error, is, go_on, stop, loop, separated,
  expected_like_or_in,
}
use fundb.Sql.Parser.Exprs.Primaries.{Inner, parse_primary_expr}

unfoldable pub parse_in_list : Inner → Parser (List Expr)
parse_in_list l = do
  _ ← expect Token.l_paren
  es ← separated Token.comma (l.expr)
  _ ← expect Token.r_paren
  pure es

unfoldable pub parse_unary_expr : Inner → Parser Expr
parse_unary_expr l =
    if_eat Token.minus (l.primary >>= λ e. pure (Ast.unary_op Ast.neg e)) (parse_primary_expr l)

unfoldable pub parse_vector_dist_expr : Inner → Parser Expr
parse_vector_dist_expr l = do
  e ← parse_unary_expr l
  if_eat Token.vector_dist (parse_unary_expr l >>= λ value. pure (Ast.binary_op Ast.arrow e value))
      (pure e)

-- Operands of one level with the operators of `op_of` between them, which associate to the left.
unfoldable pub left_assoc : (Token → Option BinaryOp) → Parser Expr → Parser Expr
left_assoc op_of operand = do
  e ← operand
  loop
      (λ (left : Expr).
        match_token op_of (λ op. operand >>= λ right. pure (go_on (Ast.binary_op op left right)))
          (λ _. pure (stop left)))
      e

abbrev pub multiplicative_op : Token → Option BinaryOp
multiplicative_op Token.star = some Ast.mul
multiplicative_op Token.slash = some Ast.div
multiplicative_op Token.percent = some Ast.modulo
multiplicative_op _ = none

unfoldable pub parse_multiplicative_expr : Inner → Parser Expr
parse_multiplicative_expr l = left_assoc multiplicative_op (parse_vector_dist_expr l)

abbrev pub additive_op : Token → Option BinaryOp
additive_op Token.plus = some Ast.add
additive_op Token.minus = some Ast.sub
additive_op _ = none

unfoldable pub parse_additive_expr : Inner → Parser Expr
parse_additive_expr l = left_assoc additive_op (parse_multiplicative_expr l)

-- What follows the left operand of a comparison.
pub data Comparison : Type 0 where
  operator : BinaryOp → Comparison
  negated is_test in_test between_test : Comparison

unfoldable pub comparison_of : Token → Option Comparison
comparison_of Token.eq = some (operator Ast.eq)
comparison_of Token.assign = some (operator Ast.eq)
comparison_of Token.not_eq = some (operator Ast.not_eq)
comparison_of Token.lt = some (operator Ast.lt)
comparison_of Token.lt_eq = some (operator Ast.lt_eq)
comparison_of Token.gt = some (operator Ast.gt)
comparison_of Token.gt_eq = some (operator Ast.gt_eq)
comparison_of Token.like_kw = some (operator Ast.like)
comparison_of Token.not_kw = some negated
comparison_of Token.is_kw = some is_test
comparison_of Token.in_kw = some in_test
comparison_of Token.between_kw = some between_test
comparison_of _ = none

unfoldable pub after_comparison : Inner → Expr → Comparison → Parser Expr
after_comparison l left (operator o) =
    parse_additive_expr l >>= λ right. pure (Ast.binary_op o left right)
after_comparison l left negated =
    if_eat Token.like_kw
      (parse_additive_expr l >>= λ right. pure (Ast.binary_op Ast.not_like left right))
      (if_eat Token.in_kw (parse_in_list l >>= λ es. pure (Ast.in_list left (exprs es)))
        (error expected_like_or_in))
after_comparison l left is_test =
    if_eat Token.not_kw (expect Token.null_kw >>= λ _. pure (Ast.is_not_null left))
      (expect Token.null_kw >>= λ _. pure (Ast.is_null left))
after_comparison l left in_test = parse_in_list l >>= λ es. pure (Ast.in_list left (exprs es))
after_comparison l left between_test = do
  low ← parse_additive_expr l
  _ ← expect Token.and_kw
  high ← parse_additive_expr l
  pure (Ast.between left low high)

unfoldable pub parse_comparison_expr : Inner → Parser Expr
parse_comparison_expr l = do
  left ← parse_additive_expr l
  match_token comparison_of (after_comparison l left) (λ _. pure left)

unfoldable pub parse_not_expr : Inner → Parser Expr
parse_not_expr l =
    if_eat Token.not_kw (l.not_expr >>= λ e. pure (Ast.not_expr e)) (parse_comparison_expr l)

abbrev pub only : Token → BinaryOp → Token → Option BinaryOp
only wanted op t = elim (is wanted t) [ true ↦ some op | false ↦ none ]

unfoldable pub parse_and_expr : Inner → Parser Expr
parse_and_expr l = left_assoc (only Token.and_kw Ast.and) (parse_not_expr l)

unfoldable pub parse_expr : Inner → Parser Expr
parse_expr l = left_assoc (only Token.or_kw Ast.or) (parse_and_expr l)
