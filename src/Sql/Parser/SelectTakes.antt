-- ===== src/Sql/Parser/SelectTakes.antt =====
-- How many tokens `SELECT` and the parsers of each level of nesting take.
use fundb.Prelude.{ℕ, zero, suc, refl, Bool, Option, none, some, List, arith}
use fundb.Prelude.Text.{codes}
use fundb.Sql.Token.{Token}
use fundb.Sql.Ast.{Name, SelectItem, TableRef}
use fundb.Sql.Parser.{kind, is}
use fundb.Sql.Parser.Exprs.{Inner}
use fundb.Sql.Parser.Clauses.{word_is, ends_options, TraceParts, TraceKey, is_of}
use fundb.Sql.Parser.Weights.{
  weight_value, parse_semantic_similarity, RecencyParts, recency_option, recency_options,
  parse_recency, parse_importance, parse_recall_weight, parse_recall_weights,
  parse_recall_by_clause,
}
use fundb.Sql.Parser.Select.{
  Clauses, no_clauses, ClauseKey, where_key, group_key, having_key, order_key, limit_key,
  offset_key, as_of_key, return_key, clause_key, parse_clause, Opening, a_join, a_traverse, a_trace,
  a_recall, a_within, an_as, no_opening, trace_part, opening_of, set_trace_part, parse_opening,
  parse_clauses, finish_select, parse_select_inner, parsers,
}
use fundb.Sql.Parser.Takes.{
  Takes, Takes-bind, Takes-pure, Takes-peek, Takes-peek2, Takes-if, Takes-match, Takes-error,
  Takes-if_eat, Takes-expect, Takes-loop, Takes-separated, one, any, Takes-any, Takes-eat,
  Takes-advance, by_round,
}
use fundb.Sql.Parser.Primaries.{
  InnerTakes, Takes-expect_ident, Takes-expect_string_or_ident, Takes-parse_primary_expr,
}
use fundb.Sql.Parser.Levels.{Takes-parse_expr, Takes-parse_not_expr}
use fundb.Sql.Parser.ClauseTakes.{
  Takes-optional, Takes-parse_projection_list, Takes-parse_table_ref, Takes-parse_join,
  Takes-parse_order_by_list, Takes-parse_expr_list, Takes-parse_traverse_clause,
  Takes-parse_trace_causality_clause, Takes-parse_within_context, Takes-parse_as_of_body,
}

module _ (n : ℕ) (l : Inner) (h : InnerTakes n l) where
  Takes-weight_value : (key : Name) → Takes (suc n) any (weight_value l key)
  unfolding weight_value kind
  Takes-weight_value key =
      Takes-if (word_is (codes "weight") key)
        (Takes-bind 1 (Takes-expect Token.colon refl)
          (λ _. Takes-bind 1 (Takes-parse_primary_expr n l h) (λ e. Takes-pure _ refl)))
        (Takes-pure _ refl)

  Takes-parse_semantic_similarity : Takes (suc n) one (parse_semantic_similarity l)
  unfolding parse_semantic_similarity kind
  Takes-parse_semantic_similarity = Takes-bind 1 (Takes-parse_primary_expr n l h) (λ query.
      Takes-bind 0
        (Takes-if_eat {n = suc n} Token.comma (omega arith) refl
          (Takes-bind 1 Takes-expect_ident (λ key. Takes-weight_value key)) (Takes-pure _ refl))
        (λ w. Takes-bind 1 (Takes-expect Token.r_paren refl) (λ _. Takes-pure _ refl)))

  Takes-recency_option :
      (key : Name) (p : RecencyParts) → Takes (suc n) one (recency_option l key p)
  unfolding recency_option
  Takes-recency_option key p =
      Takes-if (word_is (codes "decay") key)
        (Takes-bind 1 Takes-expect_string_or_ident (λ s. Takes-pure _ refl))
        (Takes-if (word_is (codes "half_life") key)
          (Takes-bind 1 Takes-expect_string_or_ident (λ s. Takes-pure _ refl))
          (Takes-if (word_is (codes "weight") key)
            (Takes-bind 1 (Takes-parse_primary_expr n l h) (λ e. Takes-pure _ refl))
            (Takes-bind 1 (Takes-parse_primary_expr n l h) (λ e. Takes-pure _ refl))))

  Takes-parse_recency : Takes (suc n) one (parse_recency l)
  unfolding parse_recency recency_options kind
  Takes-parse_recency =
      Takes-bind 0
        (Takes-loop _ (λ p. Takes-peek (λ t. Takes-if (ends_options t) (Takes-pure _ refl) (
          Takes-bind 1 Takes-expect_ident (λ key. Takes-bind 1 (Takes-expect Token.colon refl) (λ _.
            Takes-bind 1 (Takes-recency_option key p)
              (λ q. Takes-bind 0 (Takes-eat Token.comma refl) (λ _. Takes-pure _ refl))))))))
        (λ p. Takes-bind 1 (Takes-expect Token.r_paren refl) (λ _. Takes-pure _ refl))

  Takes-parse_importance : Takes (suc n) one (parse_importance l)
  unfolding parse_importance kind
  Takes-parse_importance = Takes-peek (λ t.
      Takes-bind 0
        (Takes-if (is Token.r_paren t) (Takes-pure _ refl)
          (Takes-bind 1 Takes-expect_ident (λ key. Takes-weight_value key)))
        (λ w. Takes-bind 1 (Takes-expect Token.r_paren refl) (λ _. Takes-pure _ refl)))

  Takes-parse_recall_weight : Takes (suc n) one (parse_recall_weight l)
  unfolding parse_recall_weight kind
  Takes-parse_recall_weight = Takes-bind 1 Takes-expect_ident (λ name.
      Takes-bind 1 (Takes-expect Token.l_paren refl) (λ _.
        Takes-if (word_is (codes "semantic_similarity") name)
          (Takes-any Takes-parse_semantic_similarity)
          (Takes-if (word_is (codes "recency") name) (Takes-any Takes-parse_recency) (
            Takes-if (word_is (codes "importance") name) (Takes-any Takes-parse_importance)
              (Takes-error _)))))

  pub Takes-parse_recall_weights : Takes (suc n) one (parse_recall_weights l)
  unfolding parse_recall_weights kind
  Takes-parse_recall_weights = Takes-separated Token.plus refl Takes-parse_recall_weight

  Takes-parse_recall_by_clause : Takes (suc n) one (parse_recall_by_clause l)
  unfolding parse_recall_by_clause kind
  Takes-parse_recall_by_clause = Takes-bind 1 (Takes-expect Token.recall_kw refl) (λ _.
      Takes-bind 1 (Takes-expect Token.by_kw refl) (λ _. Takes-any Takes-parse_recall_weights))

  Takes-parse_clause : (c : Clauses) (key : ClauseKey) → Takes (suc n) one (parse_clause l c key)
  unfolding parse_clause kind
  Takes-parse_clause c where_key = Takes-bind 1 (Takes-parse_expr n l h) (λ e. Takes-pure _ refl)
  Takes-parse_clause c group_key =
      Takes-bind 1 (Takes-expect Token.by_kw refl)
        (λ _. Takes-bind 1 (Takes-parse_expr_list n l h) (λ es. Takes-pure _ refl))
  Takes-parse_clause c having_key = Takes-bind 1 (Takes-parse_expr n l h) (λ e. Takes-pure _ refl)
  Takes-parse_clause c order_key =
      Takes-bind 1 (Takes-expect Token.by_kw refl)
        (λ _. Takes-bind 1 (Takes-parse_order_by_list n l h) (λ os. Takes-pure _ refl))
  Takes-parse_clause c limit_key = Takes-bind 1 (Takes-parse_expr n l h) (λ e. Takes-pure _ refl)
  Takes-parse_clause c offset_key = Takes-bind 1 (Takes-parse_expr n l h) (λ e. Takes-pure _ refl)
  Takes-parse_clause c as_of_key =
      Takes-bind 1 (Takes-parse_as_of_body n l h) (λ a. Takes-pure _ refl)
  Takes-parse_clause c return_key =
      Takes-bind 1 (Takes-parse_projection_list n l h) (λ is. Takes-pure _ refl)

  Takes-set_trace_part :
      (c : Clauses) (key : TraceKey) (o : Option TraceParts)
      → Takes (suc n) by_round (set_trace_part l c key o)
  unfolding set_trace_part
  Takes-set_trace_part c key none = Takes-pure _ refl
  Takes-set_trace_part c key (some p) =
      Takes-bind 0 Takes-advance
        (λ _. Takes-bind 1 (Takes-parse_expr n l h) (λ e. Takes-pure _ refl))

  Takes-parse_opening : (c : Clauses) (o : Opening) → Takes (suc n) by_round (parse_opening l c o)
  unfolding parse_opening
  Takes-parse_opening c a_join = Takes-bind 1 (Takes-parse_join n l h) (λ j. Takes-pure _ refl)
  Takes-parse_opening c a_traverse =
      Takes-bind 1 (Takes-parse_traverse_clause n l h) (λ t. Takes-pure _ refl)
  Takes-parse_opening c a_trace =
      Takes-bind 1 (Takes-parse_trace_causality_clause n l h) (λ p. Takes-pure _ refl)
  Takes-parse_opening c a_recall =
      Takes-bind 1 Takes-parse_recall_by_clause (λ ws. Takes-pure _ refl)
  Takes-parse_opening c a_within =
      Takes-bind 1 (Takes-parse_within_context n l h) (λ p. Takes-pure _ refl)
  Takes-parse_opening c an_as = Takes-peek2 (λ u.
      Takes-if (is_of u)
        (Takes-bind 0 Takes-advance (λ _.
          Takes-bind 0 Takes-advance
            (λ _. Takes-bind 1 (Takes-parse_as_of_body n l h) (λ a. Takes-pure _ refl))))
        (Takes-pure _ refl))
  Takes-parse_opening c (trace_part key) = Takes-set_trace_part c key (c.trace)
  Takes-parse_opening c no_opening = Takes-pure _ refl

  pub Takes-parse_clauses : Takes (suc n) any (parse_clauses l)
  unfolding parse_clauses
  Takes-parse_clauses = Takes-loop no_clauses (λ c.
      Takes-match {n = suc n} clause_key (omega arith) refl
        (λ key. Takes-bind 1 (Takes-parse_clause c key) (λ d. Takes-pure _ refl))
        (λ t. Takes-parse_opening c (opening_of t)))

  pub Takes-finish_select :
      (distinct : Bool) (projections : List SelectItem) (source : Option TableRef)
      → Takes (suc n) any (finish_select l distinct projections source)
  unfolding finish_select
  Takes-finish_select distinct projections source =
      Takes-bind 0 Takes-parse_clauses (λ c. Takes-pure _ refl)

  pub Takes-parse_select_inner : Takes (suc n) one (parse_select_inner l)
  unfolding parse_select_inner kind
  Takes-parse_select_inner = Takes-bind 1 (Takes-expect Token.select_kw refl) (λ _.
      Takes-bind 0 (Takes-eat Token.distinct_kw refl) (λ distinct.
        Takes-bind 1 (Takes-parse_projection_list n l h) (λ projections.
          Takes-bind 0 (Takes-optional Token.from_kw refl (Takes-parse_table_ref n l h))
            (λ source. Takes-finish_select distinct projections source))))

pub Takes-parsers : (n : ℕ) → InnerTakes n (parsers n)
unfolding parsers
Takes-parsers zero = record {
  expr = record { run = λ s c b. absurd (omega (arith, b)) };
  not_expr = record { run = λ s c b. absurd (omega (arith, b)) };
  primary = record { run = λ s c b. absurd (omega (arith, b)) };
  select_inner = record { run = λ s c b. absurd (omega (arith, b)) };
}
Takes-parsers (suc n) =
    let ih = Takes-parsers n in
    record {
      expr = Takes-parse_expr n (parsers n) ih;
      not_expr = Takes-parse_not_expr n (parsers n) ih;
      primary = Takes-parse_primary_expr n (parsers n) ih;
      select_inner = Takes-parse_select_inner n (parsers n) ih;
    }
