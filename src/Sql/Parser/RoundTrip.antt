-- ===== src/Sql/Parser/RoundTrip.antt =====
-- What the parser of expressions in crates/fundb-sql/src/parser.rs reads of a printed `Tree`.
use fundb.Prelude.{ℕ, zero, suc, ◌≤◌, ◌≡◌, refl, true, false, arith}
use fundb.Sql.Token.{Token}
use fundb.Sql.Chars.{Span}
use fundb.Sql.Ast
use fundb.Sql.Ast.{Name, Expr, BinaryOp, Literal}
use fundb.Sql.Parser.{
  Stream, done, and_then, ◌>>=◌, pure, kind, is, first, peek, match_token, when_is, expect,
}
use fundb.Sql.Parser.Exprs.{
  Inner, primary_of, after_primary, after_paren, parse_primary_expr, parse_unary_expr,
  comparison_of, parse_not_expr, parse_expr,
}
use fundb.Sql.Parser.Select.{parsers}
use fundb.Sql.Parser.Printed.{
  Infix, or_op, and_op, eq_op, not_eq_op, lt_op, lt_eq_op, gt_op, gt_eq_op, like_op, add_op, sub_op,
  mul_op, div_op, mod_op, arrow_op, token_of, Tree, leaf, param, column, infix_of, neg, negated,
  is_null, is_not_null, qualified, not_like, between, expr_of, leaf_token, put, print, depth,
}
use fundb.Sql.Parser.Steps.{bind-done, if_eat-not, if_eat-yes}
use fundb.Sql.Parser.Leaves.{IsCalm, leaf-read, param-read, column-read, qualified-read}
use fundb.Sql.Parser.Operands.{expr-closed, not-operand, infix-closed}
use fundb.Sql.Parser.Comparisons.{null-read, not_null-read, not_like-read, between-read}

-- What the levels of precedence ask about the first token of an operand.
abbrev IsPlain : Token → Type 0
IsPlain t =
    (is Token.minus t ≡ false) × ((is Token.not_kw t ≡ false) × (is Token.select_kw t ≡ false))

IsPlain-leaf_token : (a : Literal) → IsPlain (leaf_token a)
unfolding kind
IsPlain-leaf_token (Ast.int n) = (refl, (refl, refl))
IsPlain-leaf_token (Ast.float n) = (refl, (refl, refl))
IsPlain-leaf_token (Ast.string n) = (refl, (refl, refl))
IsPlain-leaf_token (Ast.bool true) = (refl, (refl, refl))
IsPlain-leaf_token (Ast.bool false) = (refl, (refl, refl))
IsPlain-leaf_token Ast.null = (refl, (refl, refl))

IsPlain-print : (x : Span) (t : Tree) (s : Stream) → IsPlain (first (print x t s))
unfolding print kind
IsPlain-print x (leaf a) s = IsPlain-leaf_token a
IsPlain-print x (param name) s = (refl, (refl, refl))
IsPlain-print x (column name) s = (refl, (refl, refl))
IsPlain-print x (infix_of i a b) s = (refl, (refl, refl))
IsPlain-print x (qualified table field) s = (refl, (refl, refl))
IsPlain-print x (not_like a b) s = (refl, (refl, refl))
IsPlain-print x (between a low high) s = (refl, (refl, refl))
IsPlain-print x (neg a) s = (refl, (refl, refl))
IsPlain-print x (negated a) s = (refl, (refl, refl))
IsPlain-print x (is_null a) s = (refl, (refl, refl))
IsPlain-print x (is_not_null a) s = (refl, (refl, refl))

IsCalm-token_of : (i : Infix) → IsCalm (token_of i)
unfolding kind
IsCalm-token_of or_op = (refl, refl)
IsCalm-token_of and_op = (refl, refl)
IsCalm-token_of eq_op = (refl, refl)
IsCalm-token_of not_eq_op = (refl, refl)
IsCalm-token_of lt_op = (refl, refl)
IsCalm-token_of lt_eq_op = (refl, refl)
IsCalm-token_of gt_op = (refl, refl)
IsCalm-token_of gt_eq_op = (refl, refl)
IsCalm-token_of like_op = (refl, refl)
IsCalm-token_of add_op = (refl, refl)
IsCalm-token_of sub_op = (refl, refl)
IsCalm-token_of mul_op = (refl, refl)
IsCalm-token_of div_op = (refl, refl)
IsCalm-token_of mod_op = (refl, refl)
IsCalm-token_of arrow_op = (refl, refl)

unary-primary :
    (l : Inner) (e : Expr) (s r : Stream)
    → is Token.minus (first s) ≡ false
    → parse_primary_expr l s ≡ done e r
    → parse_unary_expr l s ≡ done e r
unfolding parse_unary_expr
unary-primary l e s r f h = if_eat-not Token.minus _ _ s (done e r) f h

-- An expression in parentheses, one level of nesting further in.
group-read :
    (x : Span) (n : ℕ) (e : Expr) (q s : Stream)
    → is Token.select_kw (first q) ≡ false
    → parse_expr (parsers n) q ≡ done e (put x Token.r_paren s)
    → parse_primary_expr (parsers (suc n)) (put x Token.l_paren q) ≡ done e s
unfolding parse_primary_expr primary_of after_primary after_paren match_token peek parsers expect
    when_is kind pure ◌>>=◌ and_then
group-read x n e q s f h = rw (f, h) refl

-- Behind a `-` or a `NOT`, two levels further in.
neg-read :
    (x : Span) (n : ℕ) (e : Expr) (q s : Stream)
    → parse_primary_expr (parsers n) q ≡ done e (put x Token.r_paren s)
    → parse_expr (parsers (suc n)) (put x Token.minus q)
      ≡ done (Ast.unary_op Ast.neg e) (put x Token.r_paren s)
unfolding parse_unary_expr parsers comparison_of kind pure
neg-read x n e q s h =
    let end = put x Token.r_paren s in
    let whole = Ast.unary_op Ast.neg e in
    let l = parsers (suc n) in
    expr-closed l whole x (put x Token.minus q) s (
      not-operand l whole (put x Token.minus q) end
        (if_eat-yes Token.minus _ _ (put x Token.minus q) (done whole end) refl
          (bind-done _ _ e q end (done whole end) h refl))
        refl (refl, (refl, refl)) refl)

negated-read :
    (x : Span) (n : ℕ) (e : Expr) (q s : Stream)
    → is Token.not_kw (first q) ≡ false
    → parse_unary_expr (parsers n) q ≡ done e (put x Token.r_paren s)
    → parse_expr (parsers (suc n)) (put x Token.not_kw q)
      ≡ done (Ast.not_expr e) (put x Token.r_paren s)
unfolding parse_not_expr parsers comparison_of kind pure
negated-read x n e q s f h =
    let end = put x Token.r_paren s in
    let whole = Ast.not_expr e in
    expr-closed (parsers (suc n)) whole x (put x Token.not_kw q) s (
      if_eat-yes Token.not_kw _ _ (put x Token.not_kw q) (done whole end) refl (
        bind-done _ _ e q end (done whole end)
          (not-operand (parsers n) e q end h f (refl, (refl, refl)) refl) refl))

-- What is read of an operand that is printed with `rest` behind it, at `n` levels of nesting.
operand-read :
    (x : Span) (t : Tree) (n : ℕ) (rest : Stream)
    → parse_primary_expr (parsers n) (print x t rest) ≡ done (expr_of t) rest
    → parse_unary_expr (parsers n) (print x t rest) ≡ done (expr_of t) rest
operand-read x t n rest h =
    unary-primary (parsers n) (expr_of t) (print x t rest) rest ((IsPlain-print x t rest).0) h

-- An expression that is printed with all its parentheses is read back. The expressions are those of
-- `Tree`: literals, parameters, columns and qualified columns that are named by identifiers, the
-- fifteen operators between two operands, NOT LIKE, BETWEEN, the sign, NOT, IS NULL and IS NOT NULL;
-- IN, CASE, calls, arrays, vectors, intervals, `*`, subqueries and names that are keywords are not
-- among them. With as many levels of nesting as its depth,
-- the parser of primary expressions gives the expression and leaves what stands behind it, if that
-- begins neither with `(` nor with `.`.
pub parse_primary_expr-print :
    (x : Span) (t : Tree) (n : ℕ) (s : Stream)
    → depth t ≤ n
    → IsCalm (first s)
    → parse_primary_expr (parsers n) (print x t s) ≡ done (expr_of t) s
unfolding print depth kind
parse_primary_expr-print x (leaf a) n s d c = leaf-read x (parsers n) a s
parse_primary_expr-print x (param name) n s d c = param-read x (parsers n) name s
parse_primary_expr-print x (column name) n s d c = column-read x (parsers n) name s c
parse_primary_expr-print x (infix_of i a b) zero s d c = absurd (omega (arith, d))
parse_primary_expr-print x (infix_of i a b) (suc n) s d c =
    let end = put x Token.r_paren s in
    let behind = put x (token_of i) (print x b end) in
    group-read x n _ (print x a behind) s ((IsPlain-print x a behind).1.1) (
      infix-closed (parsers n) x (expr_of a) (expr_of b) (print x a behind) (print x b end) s
        ((IsPlain-print x a behind).1.0) ((IsPlain-print x b end).1.0)
        (operand-read x b n end
          (parse_primary_expr-print x b n end (omega (arith, d)) (refl, refl)))
        i
        (operand-read x a n behind
          (parse_primary_expr-print x a n behind (omega (arith, d)) (IsCalm-token_of i))))
parse_primary_expr-print x (qualified table field) n s d c =
    qualified-read x (parsers n) table field s c
parse_primary_expr-print x (not_like a b) zero s d c = absurd (omega (arith, d))
parse_primary_expr-print x (not_like a b) (suc n) s d c =
    let end = put x Token.r_paren s in
    let right = print x b end in
    let behind = put x Token.not_kw (put x Token.like_kw right) in
    group-read x n _ (print x a behind) s ((IsPlain-print x a behind).1.1) (
      not_like-read x (parsers n) (expr_of a) (print x a behind) (expr_of b) right s
        ((IsPlain-print x a behind).1.0)
        (operand-read x a n behind
          (parse_primary_expr-print x a n behind (omega (arith, d)) (refl, refl)))
        (operand-read x b n end
          (parse_primary_expr-print x b n end (omega (arith, d)) (refl, refl))))
parse_primary_expr-print x (between a low high) zero s d c = absurd (omega (arith, d))
parse_primary_expr-print x (between a low high) (suc n) s d c =
    let end = put x Token.r_paren s in
    let upper = put x Token.and_kw (print x high end) in
    let behind = put x Token.between_kw (print x low upper) in
    group-read x n _ (print x a behind) s ((IsPlain-print x a behind).1.1) (
      between-read x (parsers n) (expr_of a) (print x a behind) (expr_of low) (expr_of high)
        (print x low upper) (print x high end) s ((IsPlain-print x a behind).1.0)
        (operand-read x a n behind
          (parse_primary_expr-print x a n behind (omega (arith, d)) (refl, refl)))
        (operand-read x low n upper
          (parse_primary_expr-print x low n upper (omega (arith, d)) (refl, refl)))
        (operand-read x high n end
          (parse_primary_expr-print x high n end (omega (arith, d)) (refl, refl))))
parse_primary_expr-print x (neg a) zero s d c = absurd (omega (arith, d))
parse_primary_expr-print x (neg a) (suc zero) s d c = absurd (omega (arith, d))
parse_primary_expr-print x (neg a) (suc (suc n)) s d c =
    let end = put x Token.r_paren s in
    group-read x (suc n) _ (put x Token.minus (print x a end)) s refl (
      neg-read x n (expr_of a) (print x a end) s
        (parse_primary_expr-print x a n end (omega (arith, d)) (refl, refl)))
parse_primary_expr-print x (negated a) zero s d c = absurd (omega (arith, d))
parse_primary_expr-print x (negated a) (suc zero) s d c = absurd (omega (arith, d))
parse_primary_expr-print x (negated a) (suc (suc n)) s d c =
    let end = put x Token.r_paren s in
    group-read x (suc n) _ (put x Token.not_kw (print x a end)) s refl (
      negated-read x n (expr_of a) (print x a end) s ((IsPlain-print x a end).1.0) (
        operand-read x a n end
          (parse_primary_expr-print x a n end (omega (arith, d)) (refl, refl))))
parse_primary_expr-print x (is_null a) zero s d c = absurd (omega (arith, d))
parse_primary_expr-print x (is_null a) (suc n) s d c =
    let behind = put x Token.is_kw (put x Token.null_kw (put x Token.r_paren s)) in
    group-read x n _ (print x a behind) s ((IsPlain-print x a behind).1.1) (
      null-read x (parsers n) (expr_of a) (print x a behind) s ((IsPlain-print x a behind).1.0) (
        operand-read x a n behind
          (parse_primary_expr-print x a n behind (omega (arith, d)) (refl, refl))))
parse_primary_expr-print x (is_not_null a) zero s d c = absurd (omega (arith, d))
parse_primary_expr-print x (is_not_null a) (suc n) s d c =
    let behind =
      put x Token.is_kw (put x Token.not_kw (put x Token.null_kw (put x Token.r_paren s))) in
    group-read x n _ (print x a behind) s ((IsPlain-print x a behind).1.1) (
      not_null-read x (parsers n) (expr_of a) (print x a behind) s ((IsPlain-print x a behind).1.0)
        (operand-read x a n behind
          (parse_primary_expr-print x a n behind (omega (arith, d)) (refl, refl))))
