-- ===== src/Sql/Parser/Printed.antt =====
-- Expressions written as tokens with all their parentheses, to state what the parser of expressions
-- in crates/fundb-sql/src/parser.rs reads. The code has no printer: `Tree` and `print` describe a part
-- of the language independently of the parser. `Tree` has literals, parameters, columns, qualified
-- columns, the operators below, NOT LIKE, BETWEEN, the sign, NOT, IS NULL and IS NOT NULL; it leaves
-- out IN, CASE, calls, arrays, vectors, intervals, `*`, subqueries and
-- names that are keywords.
use fundb.Prelude.{ℕ, ◌+◌, true, false, ◌∷◌}
use fundb.Sql.Token.{Token}
use fundb.Sql.Chars.{Span}
use fundb.Sql.Ast
use fundb.Sql.Ast.{Name, Expr, BinaryOp, Literal}
use fundb.Sql.Parser.{Stream}

-- The operators between two operands.
pub data Infix : Type 0 where
  or_op and_op eq_op not_eq_op lt_op lt_eq_op gt_op gt_eq_op like_op add_op sub_op mul_op div_op
        mod_op arrow_op :
      Infix

abbrev pub token_of : Infix → Token
token_of or_op = Token.or_kw
token_of and_op = Token.and_kw
token_of eq_op = Token.eq
token_of not_eq_op = Token.not_eq
token_of lt_op = Token.lt
token_of lt_eq_op = Token.lt_eq
token_of gt_op = Token.gt
token_of gt_eq_op = Token.gt_eq
token_of like_op = Token.like_kw
token_of add_op = Token.plus
token_of sub_op = Token.minus
token_of mul_op = Token.star
token_of div_op = Token.slash
token_of mod_op = Token.percent
token_of arrow_op = Token.vector_dist

abbrev pub op_of : Infix → BinaryOp
op_of or_op = Ast.or
op_of and_op = Ast.and
op_of eq_op = Ast.eq
op_of not_eq_op = Ast.not_eq
op_of lt_op = Ast.lt
op_of lt_eq_op = Ast.lt_eq
op_of gt_op = Ast.gt
op_of gt_eq_op = Ast.gt_eq
op_of like_op = Ast.like
op_of add_op = Ast.add
op_of sub_op = Ast.sub
op_of mul_op = Ast.mul
op_of div_op = Ast.div
op_of mod_op = Ast.modulo
op_of arrow_op = Ast.arrow

pub data Tree : Type 0 where
  leaf : Literal → Tree
  param column : Name → Tree
  qualified : Name → Name → Tree
  infix_of : Infix → Tree → Tree → Tree
  not_like : Tree → Tree → Tree
  between : Tree → Tree → Tree → Tree
  neg negated is_null is_not_null : Tree → Tree

abbrev pub expr_of : Tree → Expr
expr_of (leaf a) = Ast.literal a
expr_of (param name) = Ast.param name
expr_of (column name) = Ast.ident name
expr_of (infix_of i a b) = Ast.binary_op (op_of i) (expr_of a) (expr_of b)
expr_of (qualified table field) = Ast.qualified table field
expr_of (not_like a b) = Ast.binary_op Ast.not_like (expr_of a) (expr_of b)
expr_of (between a low high) = Ast.between (expr_of a) (expr_of low) (expr_of high)
expr_of (neg a) = Ast.unary_op Ast.neg (expr_of a)
expr_of (negated a) = Ast.not_expr (expr_of a)
expr_of (is_null a) = Ast.is_null (expr_of a)
expr_of (is_not_null a) = Ast.is_not_null (expr_of a)

abbrev pub leaf_token : Literal → Token
leaf_token (Ast.int n) = Token.int_literal n
leaf_token (Ast.float f) = Token.float_literal f
leaf_token (Ast.string s) = Token.string_literal s
leaf_token (Ast.bool true) = Token.true_kw
leaf_token (Ast.bool false) = Token.false_kw
leaf_token Ast.null = Token.null_kw

-- A token before a stream. All printed tokens have the place `x`.
abbrev pub put : Span → Token → Stream → Stream
put x t s = ((t, x), s.0 ∷ s.1)

unfoldable pub print : Span → Tree → Stream → Stream
print x (leaf a) s = put x (leaf_token a) s
print x (param name) s = put x (Token.param name) s
print x (column name) s = put x (Token.ident name) s
print x (infix_of i a b) s =
    put x Token.l_paren (print x a (put x (token_of i) (print x b (put x Token.r_paren s))))
print x (qualified table field) s =
    put x (Token.ident table) (put x Token.dot (put x (Token.ident field) s))
print x (not_like a b) s =
    put x Token.l_paren
      (print x a (put x Token.not_kw (put x Token.like_kw (print x b (put x Token.r_paren s)))))
print x (between a low high) s = put x Token.l_paren (
    print x a (
      put x Token.between_kw
        (print x low (put x Token.and_kw (print x high (put x Token.r_paren s))))))
print x (neg a) s = put x Token.l_paren (put x Token.minus (print x a (put x Token.r_paren s)))
print x (negated a) s = put x Token.l_paren (put x Token.not_kw (print x a (put x Token.r_paren s)))
print x (is_null a) s =
    put x Token.l_paren
      (print x a (put x Token.is_kw (put x Token.null_kw (put x Token.r_paren s))))
print x (is_not_null a) s = put x Token.l_paren (
    print x a
      (put x Token.is_kw (put x Token.not_kw (put x Token.null_kw (put x Token.r_paren s)))))

-- The levels of nesting that the parser needs.
unfoldable pub depth : Tree → ℕ
depth (leaf a) = 0
depth (param name) = 0
depth (column name) = 0
depth (infix_of i a b) = 1 + (depth a + depth b)
depth (qualified table field) = 0
depth (not_like a b) = 1 + (depth a + depth b)
depth (between a low high) = 1 + (depth a + (depth low + depth high))
depth (neg a) = 2 + depth a
depth (negated a) = 2 + depth a
depth (is_null a) = 1 + depth a
depth (is_not_null a) = 1 + depth a
