-- ===== src/Sql/Parser/Operands.antt =====
-- How the levels of precedence read one operand, and two operands with an operator between them.
use fundb.Prelude.{◌≡◌, refl, false, Option, none, some}
use fundb.Sql.Token.{Token}
use fundb.Sql.Chars.{Span}
use fundb.Sql.Ast
use fundb.Sql.Ast.{Name, Expr, BinaryOp, Literal}
use fundb.Sql.Parser.{Stream, Parser, done, pure, kind, is, first, go_on, stop}
use fundb.Sql.Parser.Exprs.{
  Inner, parse_unary_expr, parse_vector_dist_expr, left_assoc, multiplicative_op,
  parse_multiplicative_expr, additive_op, parse_additive_expr, comparison_of, after_comparison,
  parse_comparison_expr, parse_not_expr, only, parse_and_expr, parse_expr, operator,
}
use fundb.Sql.Parser.Printed.{
  Infix, or_op, and_op, eq_op, not_eq_op, lt_op, lt_eq_op, gt_op, gt_eq_op, like_op, add_op, sub_op,
  mul_op, div_op, mod_op, arrow_op, token_of, op_of, put,
}
use fundb.Sql.Parser.Steps.{
  bind-done, match-none, match-some, if_eat-not, if_eat-yes, loop-stop, loop-go,
}

-- An operand without an operator behind it.
left_assoc-one :
    (f : Token → Option BinaryOp) (p : Parser Expr) (e : Expr) (s r : Stream)
    → p s ≡ done e r
    → f (first r) ≡ none
    → left_assoc f p s ≡ done e r
unfolding left_assoc pure
left_assoc-one f p e s r h g =
    bind-done _ _ e s r (done e r) h
      (loop-stop _ e e r r (match-none f _ _ r (done (stop e) r) g refl))

-- Two operands with one operator between them.
left_assoc-two :
    (f : Token → Option BinaryOp) (p : Parser Expr) (op : BinaryOp) (x : Span) (t : Token)
    (a b : Expr) (s q r : Stream)
    → p s ≡ done a (put x t q)
    → f t ≡ some op
    → p q ≡ done b r
    → f (first r) ≡ none
    → left_assoc f p s ≡ done (Ast.binary_op op a b) r
unfolding left_assoc pure
left_assoc-two f p op x t a b s q r h g k e =
    let ab = Ast.binary_op op a b in
    bind-done _ _ a s (put x t q) (done ab r) h (
      loop-go _ a ab ab x t q r r
        (match-some f _ _ op (put x t q) (done (go_on ab) r) g
          (bind-done _ _ b q r (done (go_on ab) r) k refl))
        (match-none f _ _ r (done (stop ab) r) e refl))

-- A token that none of the arithmetic operators is.
abbrev pub NoArith : Token → Type 0
NoArith t =
    (is Token.vector_dist t ≡ false) × ((multiplicative_op t ≡ none) × (additive_op t ≡ none))

module _ (l : Inner) where
  vector_dist-one :
      (e : Expr) (s r : Stream)
      → parse_unary_expr l s ≡ done e r
      → is Token.vector_dist (first r) ≡ false
      → parse_vector_dist_expr l s ≡ done e r
  unfolding parse_vector_dist_expr pure
  vector_dist-one e s r h g =
      bind-done _ _ e s r (done e r) h (if_eat-not Token.vector_dist _ _ r (done e r) g refl)

  multiplicative-one :
      (e : Expr) (s r : Stream)
      → parse_unary_expr l s ≡ done e r
      → is Token.vector_dist (first r) ≡ false
      → multiplicative_op (first r) ≡ none
      → parse_multiplicative_expr l s ≡ done e r
  unfolding parse_multiplicative_expr
  multiplicative-one e s r h g k =
      left_assoc-one multiplicative_op (parse_vector_dist_expr l) e s r (vector_dist-one e s r h g)
        k

  pub additive-one :
      (e : Expr) (s r : Stream)
      → parse_unary_expr l s ≡ done e r
      → NoArith (first r)
      → parse_additive_expr l s ≡ done e r
  unfolding parse_additive_expr
  additive-one e s r h g =
      left_assoc-one additive_op (parse_multiplicative_expr l) e s r
        (multiplicative-one e s r h (g.0) (g.1.0)) (g.1.1)

  pub comparison-one :
      (e : Expr) (s r : Stream)
      → parse_additive_expr l s ≡ done e r
      → comparison_of (first r) ≡ none
      → parse_comparison_expr l s ≡ done e r
  unfolding parse_comparison_expr pure
  comparison-one e s r h g =
      bind-done _ _ e s r (done e r) h (match-none comparison_of _ _ r (done e r) g refl)

  pub not-one :
      (e : Expr) (s r : Stream)
      → is Token.not_kw (first s) ≡ false
      → parse_comparison_expr l s ≡ done e r
      → parse_not_expr l s ≡ done e r
  unfolding parse_not_expr
  not-one e s r f h = if_eat-not Token.not_kw _ _ s (done e r) f h

  -- Before a `)` the higher levels add nothing.
  pub expr-closed :
      (e : Expr) (x : Span) (s r : Stream)
      → parse_not_expr l s ≡ done e (put x Token.r_paren r)
      → parse_expr l s ≡ done e (put x Token.r_paren r)
  unfolding parse_expr parse_and_expr kind
  expr-closed e x s r h =
      left_assoc-one (only Token.or_kw Ast.or) (parse_and_expr l) e s (put x Token.r_paren r)
        (left_assoc-one (only Token.and_kw Ast.and) (parse_not_expr l) e s (put x Token.r_paren r) h
          refl)
        refl

  -- An operand up to a token that neither arithmetic nor a comparison goes on with.
  pub not-operand :
      (e : Expr) (s r : Stream)
      → parse_unary_expr l s ≡ done e r
      → is Token.not_kw (first s) ≡ false
      → NoArith (first r)
      → comparison_of (first r) ≡ none
      → parse_not_expr l s ≡ done e r
  not-operand e s r h f g k = not-one e s r f (comparison-one e s r (additive-one e s r h g) k)

  and-operand :
      (e : Expr) (s r : Stream)
      → parse_unary_expr l s ≡ done e r
      → is Token.not_kw (first s) ≡ false
      → NoArith (first r)
      → comparison_of (first r) ≡ none
      → only Token.and_kw Ast.and (first r) ≡ none
      → parse_and_expr l s ≡ done e r
  unfolding parse_and_expr
  and-operand e s r h f g k a =
      left_assoc-one (only Token.and_kw Ast.and) (parse_not_expr l) e s r
        (not-operand e s r h f g k) a

  module _ (x : Span) (a b : Expr) (s q r : Stream) (f : is Token.not_kw (first s) ≡ false)
      (g : is Token.not_kw (first q) ≡ false)
      (right : parse_unary_expr l q ≡ done b (put x Token.r_paren r)) where
    -- Two operands before a `)`, for each operator between them.
    compared :
        (t : Token) (o : BinaryOp)
        → parse_unary_expr l s ≡ done a (put x t q)
        → NoArith t
        → comparison_of t ≡ some (operator o)
        → parse_expr l s ≡ done (Ast.binary_op o a b) (put x Token.r_paren r)
    unfolding parse_comparison_expr after_comparison kind pure
    compared t o left n c =
        let ab = Ast.binary_op o a b in
        expr-closed ab x s r (
          not-one ab s (put x Token.r_paren r) f (
            bind-done _ _ a s (put x t q) (done ab (put x Token.r_paren r))
              (additive-one a s (put x t q) left n)
              (match-some comparison_of _ _ (operator o) (put x t q)
                (done ab (put x Token.r_paren r)) c
                (bind-done _ _ b q (put x Token.r_paren r) (done ab (put x Token.r_paren r))
                  (additive-one b q (put x Token.r_paren r) right (refl, (refl, refl))) refl))))

    added :
        (t : Token) (o : BinaryOp)
        → parse_unary_expr l s ≡ done a (put x t q)
        → is Token.vector_dist t ≡ false
        → multiplicative_op t ≡ none
        → additive_op t ≡ some o
        → parse_expr l s ≡ done (Ast.binary_op o a b) (put x Token.r_paren r)
    unfolding parse_additive_expr comparison_of kind
    added t o left v m c =
        let ab = Ast.binary_op o a b in
        let end = put x Token.r_paren r in
        expr-closed ab x s r (
          not-one ab s end f (
            comparison-one ab s end
              (left_assoc-two additive_op (parse_multiplicative_expr l) o x t a b s q end
                (multiplicative-one a s (put x t q) left v m) c
                (multiplicative-one b q end right refl refl) refl)
              refl))

    multiplied :
        (t : Token) (o : BinaryOp)
        → parse_unary_expr l s ≡ done a (put x t q)
        → is Token.vector_dist t ≡ false
        → multiplicative_op t ≡ some o
        → parse_expr l s ≡ done (Ast.binary_op o a b) (put x Token.r_paren r)
    unfolding parse_additive_expr parse_multiplicative_expr comparison_of kind
    multiplied t o left v m =
        let ab = Ast.binary_op o a b in
        let end = put x Token.r_paren r in
        expr-closed ab x s r (
          not-one ab s end f (
            comparison-one ab s end
              (left_assoc-one additive_op (parse_multiplicative_expr l) ab s end
                (left_assoc-two multiplicative_op (parse_vector_dist_expr l) o x t a b s q end
                  (vector_dist-one a s (put x t q) left v) m (vector_dist-one b q end right refl)
                  refl)
                refl)
              refl))

    measured :
        parse_unary_expr l s ≡ done a (put x Token.vector_dist q)
        → parse_expr l s ≡ done (Ast.binary_op Ast.arrow a b) (put x Token.r_paren r)
    unfolding parse_additive_expr parse_multiplicative_expr parse_vector_dist_expr comparison_of
        kind pure
    measured left =
        let ab = Ast.binary_op Ast.arrow a b in
        let end = put x Token.r_paren r in
        expr-closed ab x s r (
          not-one ab s end f (
            comparison-one ab s end
              (left_assoc-one additive_op (parse_multiplicative_expr l) ab s end
                (left_assoc-one multiplicative_op (parse_vector_dist_expr l) ab s end
                  (bind-done _ _ a s (put x Token.vector_dist q) (done ab end) left (
                    if_eat-yes Token.vector_dist _ _ (put x Token.vector_dist q) (done ab end) refl
                      (bind-done _ _ b q end (done ab end) right refl)))
                  refl)
                refl)
              refl))

    pub infix-closed :
        (i : Infix)
        → parse_unary_expr l s ≡ done a (put x (token_of i) q)
        → parse_expr l s ≡ done (Ast.binary_op (op_of i) a b) (put x Token.r_paren r)
    unfolding parse_expr parse_and_expr comparison_of kind
    infix-closed or_op left =
        let end = put x Token.r_paren r in
        left_assoc-two (only Token.or_kw Ast.or) (parse_and_expr l) Ast.or x Token.or_kw a b s q end
          (and-operand a s (put x Token.or_kw q) left f (refl, (refl, refl)) refl refl) refl
          (and-operand b q end right g (refl, (refl, refl)) refl refl) refl
    infix-closed and_op left =
        let end = put x Token.r_paren r in
        left_assoc-one (only Token.or_kw Ast.or) (parse_and_expr l) (Ast.binary_op Ast.and a b) s
          end
          (left_assoc-two (only Token.and_kw Ast.and) (parse_not_expr l) Ast.and x Token.and_kw a b
            s q end (not-operand a s (put x Token.and_kw q) left f (refl, (refl, refl)) refl) refl
            (not-operand b q end right g (refl, (refl, refl)) refl) refl)
          refl
    infix-closed eq_op left = compared Token.eq Ast.eq left (refl, (refl, refl)) refl
    infix-closed not_eq_op left = compared Token.not_eq Ast.not_eq left (refl, (refl, refl)) refl
    infix-closed lt_op left = compared Token.lt Ast.lt left (refl, (refl, refl)) refl
    infix-closed lt_eq_op left = compared Token.lt_eq Ast.lt_eq left (refl, (refl, refl)) refl
    infix-closed gt_op left = compared Token.gt Ast.gt left (refl, (refl, refl)) refl
    infix-closed gt_eq_op left = compared Token.gt_eq Ast.gt_eq left (refl, (refl, refl)) refl
    infix-closed like_op left = compared Token.like_kw Ast.like left (refl, (refl, refl)) refl
    infix-closed add_op left = added Token.plus Ast.add left refl refl refl
    infix-closed sub_op left = added Token.minus Ast.sub left refl refl refl
    infix-closed mul_op left = multiplied Token.star Ast.mul left refl refl
    infix-closed div_op left = multiplied Token.slash Ast.div left refl refl
    infix-closed mod_op left = multiplied Token.percent Ast.modulo left refl refl
    infix-closed arrow_op left = measured left
