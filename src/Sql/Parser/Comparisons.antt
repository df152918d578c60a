-- ===== src/Sql/Parser/Comparisons.antt =====
-- What parse_comparison_expr of crates/fundb-sql/src/parser.rs reads behind its first operand, where
-- that is not a single operator: IS NULL, IS NOT NULL, NOT LIKE and BETWEEN, before a `)`.
use fundb.Prelude.{◌≡◌, refl, false, some}
use fundb.Sql.Token.{Token}
use fundb.Sql.Chars.{Span}
use fundb.Sql.Ast
use fundb.Sql.Ast.{Expr}
use fundb.Sql.Parser.{
  Stream, done, and_then, ◌>>=◌, pure, kind, is, first, match_token, when_is, if_eat, expect,
}
use fundb.Sql.Parser.Exprs.{
  Inner, Comparison, negated, is_test, between_test, parse_unary_expr, parse_additive_expr,
  comparison_of, after_comparison, parse_comparison_expr, parse_expr,
}
use fundb.Sql.Parser.Printed.{put}
use fundb.Sql.Parser.Steps.{bind-done, match-some, if_eat-yes}
use fundb.Sql.Parser.Operands.{NoArith, additive-one, not-one, expr-closed}

module _ (x : Span) (l : Inner) (e : Expr) (q : Stream) where
  compared-read :
      (whole : Expr) (t : Token) (c : Comparison) (rest s : Stream)
      → is Token.not_kw (first q) ≡ false
      → parse_unary_expr l q ≡ done e (put x t rest)
      → NoArith t
      → comparison_of t ≡ some c
      → after_comparison l e c rest ≡ done whole (put x Token.r_paren s)
      → parse_expr l q ≡ done whole (put x Token.r_paren s)
  unfolding parse_comparison_expr
  compared-read whole t c rest s f h no_arith compares after =
      let end = put x Token.r_paren s in
      expr-closed l whole x q s (
        not-one l whole q end f (
          bind-done (parse_additive_expr l)
            (λ left. match_token comparison_of (after_comparison l left) (λ _. pure left)) e q
            (put x t rest) (done whole end) (additive-one l e q (put x t rest) h no_arith)
            (match-some comparison_of (after_comparison l e) (λ _. pure e) c (put x t rest)
              (done whole end) compares after)))

  pub null-read :
      (s : Stream)
      → is Token.not_kw (first q) ≡ false
      → parse_unary_expr l q
        ≡ done e (put x Token.is_kw (put x Token.null_kw (put x Token.r_paren s)))
      → parse_expr l q ≡ done (Ast.is_null e) (put x Token.r_paren s)
  unfolding comparison_of after_comparison if_eat expect match_token when_is ◌>>=◌ and_then pure
      kind
  null-read s f h =
      compared-read (Ast.is_null e) Token.is_kw is_test
        (put x Token.null_kw (put x Token.r_paren s)) s f h (refl, (refl, refl)) refl refl

  pub not_null-read :
      (s : Stream)
      → is Token.not_kw (first q) ≡ false
      → parse_unary_expr l q
        ≡ done e
            (put x Token.is_kw (put x Token.not_kw (put x Token.null_kw (put x Token.r_paren s))))
      → parse_expr l q ≡ done (Ast.is_not_null e) (put x Token.r_paren s)
  unfolding comparison_of after_comparison if_eat expect match_token when_is ◌>>=◌ and_then pure
      kind
  not_null-read s f h =
      compared-read (Ast.is_not_null e) Token.is_kw is_test
        (put x Token.not_kw (put x Token.null_kw (put x Token.r_paren s))) s f h
        (refl, (refl, refl)) refl refl

  pub not_like-read :
      (b : Expr) (right s : Stream)
      → is Token.not_kw (first q) ≡ false
      → parse_unary_expr l q ≡ done e (put x Token.not_kw (put x Token.like_kw right))
      → parse_unary_expr l right ≡ done b (put x Token.r_paren s)
      → parse_expr l q ≡ done (Ast.binary_op Ast.not_like e b) (put x Token.r_paren s)
  unfolding comparison_of after_comparison pure kind
  not_like-read b right s f h g =
      let end = put x Token.r_paren s in
      let whole = Ast.binary_op Ast.not_like e b in
      compared-read whole Token.not_kw negated (put x Token.like_kw right) s f h
        (refl, (refl, refl)) refl
        (if_eat-yes Token.like_kw _ _ (put x Token.like_kw right) (done whole end) refl (
          bind-done _ _ b right end (done whole end)
            (additive-one l b right end g (refl, (refl, refl))) refl))

  pub between-read :
      (low high : Expr) (lower upper s : Stream)
      → is Token.not_kw (first q) ≡ false
      → parse_unary_expr l q ≡ done e (put x Token.between_kw lower)
      → parse_unary_expr l lower ≡ done low (put x Token.and_kw upper)
      → parse_unary_expr l upper ≡ done high (put x Token.r_paren s)
      → parse_expr l q ≡ done (Ast.between e low high) (put x Token.r_paren s)
  unfolding comparison_of after_comparison expect match_token when_is ◌>>=◌ and_then pure kind
  between-read low high lower upper s f h g k =
      let end = put x Token.r_paren s in
      compared-read (Ast.between e low high) Token.between_kw between_test lower s f h
        (refl, (refl, refl)) refl rw
        (
          additive-one l low lower (put x Token.and_kw upper) g (refl, (refl, refl)),
          additive-one l high upper end k (refl, (refl, refl)),
        )
        refl
