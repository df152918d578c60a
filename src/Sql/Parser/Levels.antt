-- ===== src/Sql/Parser/Levels.antt =====
-- How many tokens the parsers of the levels of precedence take.
use fundb.Prelude.{ℕ, suc, ◌≡◌, refl, Option, none, arith}
use fundb.Sql.Token.{Token}
use fundb.Sql.Ast
use fundb.Sql.Ast.{Expr, BinaryOp}
use fundb.Sql.Parser.{Parser, kind}
use fundb.Sql.Parser.Exprs.{
  Inner, Comparison, operator, negated, is_test, in_test, between_test, comparison_of,
  after_comparison, parse_in_list, parse_unary_expr, parse_vector_dist_expr, left_assoc,
  multiplicative_op, parse_multiplicative_expr, additive_op, parse_additive_expr,
  parse_comparison_expr, parse_not_expr, only, parse_and_expr, parse_expr,
}
use fundb.Sql.Parser.Takes.{
  Takes, Takes-bind, Takes-pure, Takes-match, Takes-error, Takes-if_eat, Takes-expect, Takes-loop,
  Takes-separated, Takes-then, one, Takes-any,
}
use fundb.Sql.Parser.Primaries.{InnerTakes, Takes-parse_primary_expr}

Takes-left_assoc :
    {m : ℕ} (op_of : Token → Option BinaryOp) {operand : Parser Expr}
    → op_of Token.eof ≡ none
    → Takes m one operand
    → Takes m one (left_assoc op_of operand)
unfolding left_assoc
Takes-left_assoc {m} op_of e h = Takes-bind 1 h (λ x. Takes-loop x (λ left.
    Takes-match {n = m} op_of (omega arith) e (λ op. Takes-bind 1 h (λ right. Takes-pure _ refl))
      (λ t. Takes-pure _ refl)))

module _ (n : ℕ) (l : Inner) (h : InnerTakes n l) where
  Takes-parse_in_list : Takes (suc n) one (parse_in_list l)
  unfolding parse_in_list kind
  Takes-parse_in_list = Takes-then (Takes-expect Token.l_paren refl) (λ _.
      Takes-bind 1 (Takes-separated Token.comma refl (h.expr))
        (λ es. Takes-bind 1 (Takes-expect Token.r_paren refl) (λ _. Takes-pure _ refl)))

  Takes-parse_unary_expr : Takes (suc n) one (parse_unary_expr l)
  unfolding parse_unary_expr kind
  Takes-parse_unary_expr =
      Takes-if_eat {n = n} Token.minus (omega arith) refl
        (Takes-bind 1 (h.primary) (λ e. Takes-pure _ refl)) (Takes-parse_primary_expr n l h)

  Takes-parse_vector_dist_expr : Takes (suc n) one (parse_vector_dist_expr l)
  unfolding parse_vector_dist_expr kind
  Takes-parse_vector_dist_expr = Takes-bind 1 Takes-parse_unary_expr (λ e.
      Takes-if_eat {n = suc n} Token.vector_dist (omega arith) refl
        (Takes-bind 1 Takes-parse_unary_expr (λ value. Takes-pure _ refl)) (Takes-pure _ refl))

  pub Takes-parse_additive_expr : Takes (suc n) one (parse_additive_expr l)
  unfolding parse_additive_expr parse_multiplicative_expr
  Takes-parse_additive_expr =
      Takes-left_assoc additive_op refl
        (Takes-left_assoc multiplicative_op refl Takes-parse_vector_dist_expr)

  Takes-after_comparison :
      (left : Expr) (c : Comparison) → Takes (suc n) one (after_comparison l left c)
  unfolding after_comparison kind
  Takes-after_comparison left (operator o) =
      Takes-bind 1 Takes-parse_additive_expr (λ right. Takes-pure _ refl)
  Takes-after_comparison left negated =
      Takes-if_eat {n = suc n} Token.like_kw (omega arith) refl
        (Takes-bind 1 Takes-parse_additive_expr (λ right. Takes-pure _ refl))
        (Takes-if_eat {n = suc n} Token.in_kw (omega arith) refl
          (Takes-bind 1 Takes-parse_in_list (λ es. Takes-pure _ refl)) (Takes-error _))
  Takes-after_comparison left is_test =
      Takes-if_eat {n = suc n} Token.not_kw (omega arith) refl
        (Takes-bind 1 (Takes-expect Token.null_kw refl) (λ _. Takes-pure _ refl))
        (Takes-bind 1 (Takes-expect Token.null_kw refl) (λ _. Takes-pure _ refl))
  Takes-after_comparison left in_test = Takes-bind 1 Takes-parse_in_list (λ es. Takes-pure _ refl)
  Takes-after_comparison left between_test = Takes-bind 1 Takes-parse_additive_expr (λ low.
      Takes-bind 1 (Takes-expect Token.and_kw refl)
        (λ _. Takes-bind 1 Takes-parse_additive_expr (λ high. Takes-pure _ refl)))

  pub Takes-parse_comparison_expr : Takes (suc n) one (parse_comparison_expr l)
  unfolding parse_comparison_expr comparison_of
  Takes-parse_comparison_expr = Takes-bind 1 Takes-parse_additive_expr (λ left.
      Takes-match {n = suc n} comparison_of (omega arith) refl
        (λ c. Takes-any (Takes-after_comparison left c)) (λ t. Takes-pure _ refl))

  pub Takes-parse_not_expr : Takes (suc n) one (parse_not_expr l)
  unfolding parse_not_expr kind
  Takes-parse_not_expr =
      Takes-if_eat {n = n} Token.not_kw (omega arith) refl
        (Takes-bind 1 (h.not_expr) (λ e. Takes-pure _ refl)) Takes-parse_comparison_expr

  pub Takes-parse_expr : Takes (suc n) one (parse_expr l)
  unfolding parse_expr parse_and_expr kind
  Takes-parse_expr =
      Takes-left_assoc (only Token.or_kw Ast.or) refl
        (Takes-left_assoc (only Token.and_kw Ast.and) refl Takes-parse_not_expr)
