-- ===== src/Sql/Parser/Primaries.antt =====
-- How many tokens the parsers of primary expressions take.
use fundb.Prelude.{ℕ, suc, refl, ◌&&◌, List, [], ◌∷◌, arith}
use fundb.Sql.Token.{Token}
use fundb.Sql.Ast.{Name, Expr}
use fundb.Sql.Parser.{Parser, kind, is}
use fundb.Sql.Parser.Names.{
  keyword_as_ident, string_of, expect_ident, expect_string_or_ident, parse_qualified_name,
}
use fundb.Sql.Parser.Exprs.{
  Inner, Primary, of_literal, of_param, word, a_star, a_vector, a_group, an_array, exists,
  an_interval, primary_of, interval_of, more_elements, arguments, named_argument, after_vector,
  after_dot, after_word, after_paren, after_bracket, after_primary, when_clauses, after_case,
  parse_primary_expr, is_ident, is_colon,
}
use fundb.Sql.Parser.Takes.{
  Takes, Takes-bind, Takes-pure, Takes-peek, Takes-peek2, Takes-if, Takes-match, Takes-error,
  Takes-if_eat, Takes-expect, Takes-loop, one, any, Takes-any,
}

pub Takes-expect_ident : {m : ℕ} → Takes m one expect_ident
unfolding expect_ident keyword_as_ident
Takes-expect_ident {m} =
    Takes-match {n = m} keyword_as_ident (omega arith) refl (λ s. Takes-pure _ refl)
      (λ t. Takes-error _)

pub Takes-expect_string_or_ident : {m : ℕ} → Takes m one expect_string_or_ident
unfolding expect_string_or_ident
Takes-expect_string_or_ident {m} =
    Takes-match {n = m} string_of (omega arith) refl (λ s. Takes-pure _ refl)
      (λ t. Takes-expect_ident)

pub Takes-parse_qualified_name : {m : ℕ} → Takes m one parse_qualified_name
unfolding parse_qualified_name kind
Takes-parse_qualified_name {m} = Takes-bind 1 Takes-expect_ident (λ name.
    Takes-if_eat {n = m} Token.dot (omega arith) refl
      (Takes-bind 1 Takes-expect_ident (λ sub. Takes-pure _ refl)) (Takes-pure _ refl))

-- What the parsers inside one level of nesting take of at most `n` tokens.
pub record InnerTakes (n : ℕ) (l : Inner) : Type 0 where
  pub expr : Takes n one (l.expr)
  pub not_expr : Takes n one (l.not_expr)
  pub primary : Takes n one (l.primary)
  pub select_inner : Takes n one (l.select_inner)

module _ (n : ℕ) (l : Inner) (h : InnerTakes n l) where
  Takes-more_elements :
      (close : Token) (element : Parser Expr) (es : List Expr)
      → Takes n one element
      → Takes n any (more_elements close element es)
  unfolding more_elements kind
  Takes-more_elements close element es g = Takes-loop es (λ es.
      Takes-if_eat {n = n} Token.comma (omega arith) refl
        (Takes-peek (λ t.
          Takes-if (is close t) (Takes-pure _ refl) (Takes-bind 1 g (λ e. Takes-pure _ refl))))
        (Takes-pure _ refl))

  Takes-arguments :
      (argument : Parser Expr) → Takes n one argument → Takes n one (arguments l argument)
  unfolding arguments kind
  Takes-arguments argument g = Takes-peek (λ t.
      Takes-bind 0
        (Takes-if (is Token.r_paren t) (Takes-pure _ refl)
          (Takes-bind 1 (h.expr) (λ e. Takes-more_elements Token.r_paren argument (e ∷ []) g)))
        (λ args. Takes-bind 1 (Takes-expect Token.r_paren refl) (λ _. Takes-pure _ refl)))

  Takes-named_argument : Takes n one (named_argument l)
  unfolding named_argument kind
  Takes-named_argument = Takes-peek (λ t. Takes-peek2 (λ u.
      Takes-if (is_ident t && is_colon u)
        (Takes-bind 1 Takes-expect_ident
          (λ key. Takes-bind 1 (Takes-expect Token.colon refl) (λ _. Takes-any (h.expr))))
        (h.expr)))

  Takes-after_vector : Takes n one (after_vector l)
  unfolding after_vector kind
  Takes-after_vector =
      Takes-if_eat {n = n} Token.vector_dist (omega arith) refl
        (Takes-bind 1 (h.primary) (λ v. Takes-pure _ refl))
        (Takes-bind 1 (Takes-expect Token.l_paren refl) (λ _.
          Takes-bind 1 Takes-expect_string_or_ident (λ field.
            Takes-bind 1 (Takes-expect Token.r_paren refl) (λ _.
              Takes-if_eat {n = n} Token.vector_dist (omega arith) refl
                (Takes-bind 1 (h.primary) (λ v. Takes-pure _ refl)) (Takes-pure _ refl)))))

  Takes-after_dot : (name : Name) → Takes n one (after_dot l name)
  unfolding after_dot kind
  Takes-after_dot name = Takes-if_eat {n = n} Token.star (omega arith) refl (Takes-pure _ refl) (
      Takes-if_eat {n = n} Token.vector_kw (omega arith) refl (Takes-any Takes-after_vector) (
        Takes-bind 1 Takes-expect_ident (λ field.
          Takes-if_eat {n = n} Token.l_paren (omega arith) refl
            (Takes-bind 1 (Takes-arguments (l.expr) (h.expr)) (λ args. Takes-pure _ refl))
            (Takes-pure _ refl))))

  Takes-after_word : (name : Name) → Takes n any (after_word l name)
  unfolding after_word kind
  Takes-after_word name =
      Takes-if_eat {n = n} Token.l_paren (omega arith) refl
        (Takes-bind 1 (Takes-arguments (named_argument l) Takes-named_argument)
          (λ args. Takes-pure _ refl))
        (Takes-if_eat {n = n} Token.dot (omega arith) refl (Takes-any (Takes-after_dot name))
          (Takes-pure _ refl))

  Takes-after_paren : Takes n one (after_paren l)
  unfolding after_paren kind
  Takes-after_paren = Takes-peek (λ t.
      Takes-if (is Token.select_kw t)
        (Takes-bind 1 (h.select_inner)
          (λ sub. Takes-bind 1 (Takes-expect Token.r_paren refl) (λ _. Takes-pure _ refl)))
        (Takes-bind 1 (h.expr)
          (λ e. Takes-bind 1 (Takes-expect Token.r_paren refl) (λ _. Takes-pure _ refl))))

  Takes-after_bracket : Takes n one (after_bracket l)
  unfolding after_bracket kind
  Takes-after_bracket =
      Takes-if_eat {n = n} Token.r_bracket (omega arith) refl (Takes-pure _ refl) (
        Takes-bind 1 (h.expr) (λ e.
          Takes-bind 0 (Takes-more_elements Token.r_bracket (l.expr) (e ∷ []) (h.expr))
            (λ es. Takes-bind 1 (Takes-expect Token.r_bracket refl) (λ _. Takes-pure _ refl))))

  Takes-after_primary : (p : Primary) → Takes n any (after_primary l p)
  unfolding after_primary kind
  Takes-after_primary (of_literal a) = Takes-pure _ refl
  Takes-after_primary (of_param name) = Takes-pure _ refl
  Takes-after_primary a_star = Takes-pure _ refl
  Takes-after_primary a_vector = Takes-any Takes-after_vector
  Takes-after_primary a_group = Takes-any Takes-after_paren
  Takes-after_primary an_array = Takes-any Takes-after_bracket
  Takes-after_primary exists = Takes-bind 1 (Takes-expect Token.l_paren refl) (λ _.
      Takes-bind 1 (h.select_inner)
        (λ sub. Takes-bind 1 (Takes-expect Token.r_paren refl) (λ _. Takes-pure _ refl)))
  Takes-after_primary an_interval =
      Takes-match {n = n} interval_of (omega arith) refl (λ s. Takes-pure _ refl)
        (λ t. Takes-pure _ refl)
  Takes-after_primary (word name) = Takes-after_word name

  Takes-when_clauses : Takes n any (when_clauses l)
  unfolding when_clauses kind
  Takes-when_clauses = Takes-loop [] (λ ws.
      Takes-if_eat {n = n} Token.when_kw (omega arith) refl
        (Takes-bind 1 (h.expr) (λ cond.
          Takes-bind 1 (Takes-expect Token.then_kw refl)
            (λ _. Takes-bind 1 (h.expr) (λ result. Takes-pure _ refl))))
        (Takes-pure _ refl))

  Takes-after_case : Takes n any (after_case l)
  unfolding after_case kind
  Takes-after_case = Takes-peek (λ t.
      Takes-bind 0
        (Takes-if (is Token.when_kw t) (Takes-pure _ refl)
          (Takes-bind 1 (h.expr) (λ e. Takes-pure _ refl)))
        (λ operand. Takes-bind 0 Takes-when_clauses (λ ws.
          Takes-bind 0
            (Takes-if_eat {n = n} Token.else_kw (omega arith) refl
              (Takes-bind 1 (h.expr) (λ e. Takes-pure _ refl)) (Takes-pure _ refl))
            (λ other. Takes-bind 1 (Takes-expect Token.end_kw refl) (λ _. Takes-pure _ refl)))))

  pub Takes-parse_primary_expr : Takes (suc n) one (parse_primary_expr l)
  unfolding parse_primary_expr primary_of keyword_as_ident kind
  Takes-parse_primary_expr =
      Takes-match {n = n} primary_of (omega arith) refl Takes-after_primary (λ t.
        Takes-if_eat {n = n} Token.case_kw (omega arith) refl Takes-after_case (Takes-error _))
