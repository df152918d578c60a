-- ===== src/Sql/Parser/CreateTakes.antt =====
-- How many tokens `CREATE` takes.
use fundb.Prelude.{ℕ, suc, refl, Option, none, some, List, [], arith}
use fundb.Prelude.Text.{codes}
use fundb.Sql.Token.{Token}
use fundb.Sql.Parser.{Parser, kind, when_word}
use fundb.Sql.Parser.Exprs.{Inner, parse_expr, parse_primary_expr}
use fundb.Sql.Parser.Clauses.{ends_options}
use fundb.Sql.Parser.Create.{
  parse_column, parse_columns, parse_create_table_body, parse_create_index_body, Section, variables,
  structure, equations, section_of, is_next_section_or_end, entries, parse_variable, parse_edge,
  from_or_word, parse_equation, ModelParts, parse_section, parse_sections,
  parse_create_causal_model_body, CreateTarget, a_table, an_index, a_model, create_target,
  after_create, parse_create,
}
use fundb.Sql.Parser.Takes.{
  Takes, Takes-bind, Takes-pure, Takes-peek, Takes-if, Takes-match, Takes-error, Takes-if_eat,
  Takes-expect, Takes-loop, one, any, Takes-any, Takes-eat,
}
use fundb.Sql.Parser.Primaries.{InnerTakes, Takes-expect_ident, Takes-parse_primary_expr}
use fundb.Sql.Parser.Levels.{Takes-parse_expr}
use fundb.Sql.Parser.StatementTakes.{Takes-listed, Takes-eat_word}

Takes-parse_columns : {m : ℕ} → Takes m any parse_columns
unfolding parse_columns parse_column kind
Takes-parse_columns {m} = Takes-loop [] (λ cs. Takes-peek (λ t.
    Takes-if (ends_options t) (Takes-pure _ refl) (
      Takes-bind 1
        (Takes-bind 1 Takes-expect_ident (λ name. Takes-bind 1 Takes-expect_ident (λ ty.
          Takes-bind 0
            (Takes-if_eat {n = m} Token.not_kw (omega arith) refl
              (Takes-bind 1 (Takes-expect Token.null_kw refl) (λ _. Takes-pure _ refl))
              (Takes-pure _ refl))
            (λ nullable. Takes-pure _ refl))))
        (λ c. Takes-bind 0 (Takes-eat Token.comma refl) (λ _. Takes-pure _ refl)))))

Takes-parse_create_table_body : {m : ℕ} → Takes m one parse_create_table_body
unfolding parse_create_table_body kind
Takes-parse_create_table_body {m} = Takes-bind 1 Takes-expect_ident (λ name.
    Takes-bind 0
      (Takes-if_eat {n = m} Token.l_paren (omega arith) refl
        (Takes-bind 0 Takes-parse_columns
          (λ cs. Takes-bind 1 (Takes-expect Token.r_paren refl) (λ _. Takes-pure _ refl)))
        (Takes-pure _ refl))
      (λ columns. Takes-pure _ refl))

Takes-parse_create_index_body : {m : ℕ} → Takes m one parse_create_index_body
unfolding parse_create_index_body kind
Takes-parse_create_index_body = Takes-bind 1 Takes-expect_ident (λ name.
    Takes-bind 1 (Takes-expect Token.on_kw refl) (λ _. Takes-bind 1 Takes-expect_ident (λ table.
      Takes-bind 1 (Takes-expect Token.l_paren refl)
        (λ _. Takes-bind 1 (Takes-listed Takes-expect_ident) (λ cols. Takes-pure _ refl)))))

Takes-entries :
    {A : Type 0} {m : ℕ} {p : Parser A} (xs : List A) → Takes m one p → Takes m any (entries p xs)
unfolding entries kind
Takes-entries xs h = Takes-loop xs (λ xs. Takes-peek (λ t.
    Takes-if (is_next_section_or_end t) (Takes-pure _ refl)
      (Takes-bind 1 h (λ x. Takes-bind 0 (Takes-eat Token.comma refl) (λ _. Takes-pure _ refl)))))

Takes-parse_variable : {m : ℕ} → Takes m one parse_variable
unfolding parse_variable
Takes-parse_variable =
    Takes-bind 1 Takes-expect_ident
      (λ name. Takes-bind 1 Takes-expect_ident (λ ty. Takes-pure _ refl))

Takes-parse_edge : {m : ℕ} → Takes m one parse_edge
unfolding parse_edge kind
Takes-parse_edge = Takes-bind 1 Takes-expect_ident (λ start.
    Takes-bind 1 (Takes-expect Token.arrow refl)
      (λ _. Takes-bind 1 Takes-expect_ident (λ goal. Takes-pure _ refl)))

module _ (n : ℕ) (l : Inner) (h : InnerTakes n l) where
  an_expr : Takes (suc n) one (parse_expr l)
  an_expr = Takes-parse_expr n l h

  a_primary : Takes (suc n) one (parse_primary_expr l)
  a_primary = Takes-parse_primary_expr n l h

  Takes-parse_equation : Takes (suc n) one (parse_equation l)
  unfolding parse_equation kind when_word
  Takes-parse_equation = Takes-bind 1 Takes-expect_ident (λ name.
      Takes-bind 0 (Takes-eat Token.assign refl) (λ _. Takes-bind 0 (Takes-eat Token.eq refl) (λ _.
        Takes-bind 1 a_primary (λ rhs.
          Takes-bind 0
            (Takes-match {n = suc n} (when_word (codes "learn")) (omega arith) refl
              (λ _.
                Takes-bind 0
                  (Takes-match {n = suc n} from_or_word (omega arith) refl (λ _. Takes-pure _ refl)
                    (λ _. Takes-pure _ refl))
                  (λ _. Takes-bind 1 Takes-expect_ident (λ source. Takes-pure _ refl)))
              (λ _. Takes-pure _ refl))
            (λ learn_from. Takes-pure _ refl)))))

  Takes-parse_section :
      (p : ModelParts) (o : Option Section) → Takes (suc n) any (parse_section l p o)
  unfolding parse_section kind
  Takes-parse_section p none = Takes-pure _ refl
  Takes-parse_section p (some variables) = Takes-bind 0 (Takes-eat Token.colon refl) (λ _.
      Takes-bind 0 (Takes-entries (p.variables) Takes-parse_variable) (λ vs. Takes-pure _ refl))
  Takes-parse_section p (some structure) =
      Takes-bind 0 (Takes-eat Token.colon refl)
        (λ _. Takes-bind 0 (Takes-entries (p.structure) Takes-parse_edge) (λ es. Takes-pure _ refl))
  Takes-parse_section p (some equations) = Takes-bind 0 (Takes-eat Token.colon refl) (λ _.
      Takes-bind 0 (Takes-entries (p.equations) Takes-parse_equation) (λ es. Takes-pure _ refl))

  Takes-parse_create_causal_model_body : Takes (suc n) one (parse_create_causal_model_body l)
  unfolding parse_create_causal_model_body parse_sections section_of kind
  Takes-parse_create_causal_model_body = Takes-bind 1 Takes-expect_ident (λ name.
      Takes-bind 0
        (Takes-if_eat {n = suc n} Token.mode_equilibrium_kw (omega arith) refl (Takes-pure _ refl)
          (Takes-pure _ refl))
        (λ mode. Takes-bind 0 (Takes-eat Token.as_kw refl) (λ _.
          Takes-bind 1 (Takes-expect Token.l_paren refl) (λ _.
            Takes-bind 0
              (Takes-loop _ (λ p.
                Takes-match {n = suc n} section_of (omega arith) refl
                  (λ o. Takes-bind 0 (Takes-parse_section p o) (λ q. Takes-pure _ refl))
                  (λ _. Takes-pure _ refl)))
              (λ p. Takes-bind 1 (Takes-expect Token.r_paren refl) (λ _. Takes-pure _ refl))))))

  Takes-after_create : (t : CreateTarget) → Takes (suc n) one (after_create l t)
  unfolding after_create
  Takes-after_create a_table = Takes-bind 1 Takes-parse_create_table_body (λ s. Takes-pure _ refl)
  Takes-after_create an_index = Takes-bind 1 Takes-parse_create_index_body (λ s. Takes-pure _ refl)
  Takes-after_create a_model =
      Takes-bind 0 (Takes-eat_word (codes "model"))
        (λ _. Takes-bind 1 Takes-parse_create_causal_model_body (λ s. Takes-pure _ refl))

  pub Takes-parse_create : Takes (suc n) one (parse_create l)
  unfolding parse_create create_target kind
  Takes-parse_create = Takes-bind 1 (Takes-expect Token.create_kw refl) (λ _.
      Takes-match {n = suc n} create_target (omega arith) refl
        (λ t. Takes-any (Takes-after_create t)) (λ t. Takes-error _))
