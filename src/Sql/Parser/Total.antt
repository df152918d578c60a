-- ===== src/Sql/Parser/Total.antt =====
-- The parser ends on every stream that ends in `Eof`.
use fundb.Prelude.{ℕ, suc, ◌≡◌, refl, Bool, Option, none, some, List, [], ◌∷◌, arith, length}
use fundb.Sql.Token.{Token}
use fundb.Sql.Ast
use fundb.Sql.Ast.{Name, Statement, SelectItem, MaybeExpr, items}
use fundb.Sql.Parser.{Stream, kind, is}
use fundb.Sql.Parser.Exprs.{Inner}
use fundb.Sql.Parser.Select.{Clauses, no_clauses, parsers}
use fundb.Sql.Parser.Top.{
  select_from_traverse, select_from, parse_select_stmt, TraverseKey, where_key, limit_key,
  order_key, and_key, traverse_key, parse_traverse_part, parse_traverse_stmt, StatementKind,
  of_select, of_insert, of_update, of_delete, of_create, of_understand, of_remember, of_recall,
  of_forget, of_discover, of_trace, of_intervene, of_counterfactual, of_traverse, of_estimate,
  of_nothing, statement_kind, parse_kind, parse_by_kind, skip_semicolons, statement_at,
  parse_statement,
}
use fundb.Sql.Parser.Takes.{
  Takes, Takes-bind, Takes-pure, Takes-peek, Takes-if, Takes-match, Takes-error, Takes-if_eat,
  Takes-expect, Takes-loop, one, any, Takes-eat, IsClosed, Ends,
}
use fundb.Sql.Parser.Primaries.{InnerTakes, Takes-expect_ident}
use fundb.Sql.Parser.Levels.{Takes-parse_expr}
use fundb.Sql.Parser.ClauseTakes.{
  Takes-optional, Takes-parse_projection_list, Takes-parse_table_ref, Takes-parse_chain,
  Takes-parse_order_by_list,
}
use fundb.Sql.Parser.SelectTakes.{Takes-parse_clauses, Takes-finish_select, Takes-parsers}
use fundb.Sql.Parser.StatementTakes.{
  Takes-parse_forget, Takes-parse_insert, Takes-parse_update, Takes-parse_delete,
  Takes-parse_remember, Takes-parse_recall_by,
}
use fundb.Sql.Parser.CreateTakes.{Takes-parse_create}
use fundb.Sql.Parser.CausalTakes.{
  Takes-parse_estimate_effect_natural, Takes-parse_intervene_after_from,
  Takes-parse_counterfactual_dispatch, Takes-parse_counterfactual_body, Takes-parse_discover_causal,
}
use fundb.Sql.Parser.UnderstandTakes.{Takes-parse_trace_causality_top, Takes-parse_understand}

traverse_key-eof : (cond : MaybeExpr) → traverse_key cond Token.eof ≡ none
unfolding traverse_key
traverse_key-eof Ast.no_expr = refl
traverse_key-eof (Ast.some_expr e) = refl

module _ (n : ℕ) (l : Inner) (h : InnerTakes n l) where
  Takes-select_from_traverse :
      (distinct : Bool) (projections : List SelectItem)
      → Takes (suc n) any (select_from_traverse l distinct projections)
  unfolding select_from_traverse kind
  Takes-select_from_traverse distinct projections = Takes-bind 1 Takes-expect_ident (λ start.
      Takes-bind 0 (Takes-parse_chain start) (λ chain.
        Takes-bind 0 (Takes-optional Token.as_kw refl Takes-expect_ident)
          (λ alias. Takes-bind 0 (Takes-parse_clauses n l h) (λ c. Takes-pure _ refl))))

  Takes-select_from :
      (distinct : Bool) (projections : List SelectItem)
      → Takes (suc n) any (select_from l distinct projections)
  unfolding select_from kind
  Takes-select_from distinct projections = Takes-peek (λ t.
      Takes-if (is Token.intervene_kw t)
        (Takes-bind 1 (Takes-parse_intervene_after_from n l h projections) (λ s. Takes-pure _ refl))
        (Takes-if (is Token.counterfactual_kw t)
          (Takes-bind 1 (Takes-parse_counterfactual_body n l h (items projections))
            (λ s. Takes-pure _ refl))
          (Takes-if_eat {n = suc n} Token.traverse_kw (omega arith) refl
            (Takes-select_from_traverse distinct projections)
            (Takes-bind 1 (Takes-parse_table_ref n l h) (λ table.
              Takes-bind 0 (Takes-finish_select n l h distinct projections (some table))
                (λ s. Takes-pure _ refl))))))

  Takes-parse_select_stmt : Takes (suc n) one (parse_select_stmt l)
  unfolding parse_select_stmt kind
  Takes-parse_select_stmt = Takes-bind 1 (Takes-expect Token.select_kw refl) (λ _.
      Takes-bind 0 (Takes-eat Token.distinct_kw refl) (λ distinct.
        Takes-bind 1 (Takes-parse_projection_list n l h) (λ projections.
          Takes-if_eat {n = suc n} Token.from_kw (omega arith) refl
            (Takes-select_from distinct projections)
            (Takes-bind 0 (Takes-finish_select n l h distinct projections none)
              (λ s. Takes-pure _ refl)))))

  Takes-parse_traverse_part :
      (c : Clauses) (key : TraverseKey) → Takes (suc n) one (parse_traverse_part l c key)
  unfolding parse_traverse_part kind
  Takes-parse_traverse_part c where_key =
      Takes-bind 1 (Takes-parse_expr n l h) (λ e. Takes-pure _ refl)
  Takes-parse_traverse_part c limit_key =
      Takes-bind 1 (Takes-parse_expr n l h) (λ e. Takes-pure _ refl)
  Takes-parse_traverse_part c order_key =
      Takes-bind 1 (Takes-expect Token.by_kw refl)
        (λ _. Takes-bind 1 (Takes-parse_order_by_list n l h) (λ os. Takes-pure _ refl))
  Takes-parse_traverse_part c and_key =
      Takes-bind 1 (Takes-parse_expr n l h) (λ e. Takes-pure _ refl)

  Takes-parse_traverse_stmt : Takes (suc n) one (parse_traverse_stmt l)
  unfolding parse_traverse_stmt kind
  Takes-parse_traverse_stmt = Takes-bind 1 (Takes-expect Token.traverse_kw refl) (λ _.
      Takes-bind 1 Takes-expect_ident (λ start. Takes-bind 0 (Takes-parse_chain start) (λ chain.
        Takes-bind 0
          (Takes-loop no_clauses (λ c.
            Takes-match {n = suc n} (traverse_key (c.where_clause)) (omega arith)
              (traverse_key-eof (c.where_clause))
              (λ key. Takes-bind 1 (Takes-parse_traverse_part c key) (λ d. Takes-pure _ refl))
              (λ _. Takes-pure _ refl)))
          (λ c. Takes-pure _ refl))))

  Takes-parse_kind : (k : StatementKind) → Takes (suc n) one (parse_kind l k)
  unfolding parse_kind
  Takes-parse_kind of_select = Takes-parse_select_stmt
  Takes-parse_kind of_insert = Takes-bind 1 (Takes-parse_insert n l h) (λ s. Takes-pure _ refl)
  Takes-parse_kind of_update = Takes-bind 1 (Takes-parse_update n l h) (λ s. Takes-pure _ refl)
  Takes-parse_kind of_delete = Takes-bind 1 (Takes-parse_delete n l h) (λ s. Takes-pure _ refl)
  Takes-parse_kind of_create = Takes-parse_create n l h
  Takes-parse_kind of_understand =
      Takes-bind 1 (Takes-parse_understand n l h) (λ s. Takes-pure _ refl)
  Takes-parse_kind of_remember = Takes-bind 1 (Takes-parse_remember n l h) (λ s. Takes-pure _ refl)
  Takes-parse_kind of_recall = Takes-bind 1 (Takes-parse_recall_by n l h) (λ s. Takes-pure _ refl)
  Takes-parse_kind of_forget = Takes-bind 1 (Takes-parse_forget n l h) (λ s. Takes-pure _ refl)
  Takes-parse_kind of_discover =
      Takes-bind 1 (Takes-parse_discover_causal n l h) (λ s. Takes-pure _ refl)
  Takes-parse_kind of_trace =
      Takes-bind 1 (Takes-parse_trace_causality_top n l h) (λ s. Takes-pure _ refl)
  Takes-parse_kind of_intervene =
      Takes-bind 1 (Takes-parse_intervene_after_from n l h (Ast.wildcard ∷ []))
        (λ s. Takes-pure _ refl)
  Takes-parse_kind of_counterfactual =
      Takes-bind 1 (Takes-parse_counterfactual_dispatch n l h) (λ s. Takes-pure _ refl)
  Takes-parse_kind of_traverse = Takes-bind 1 Takes-parse_traverse_stmt (λ s. Takes-pure _ refl)
  Takes-parse_kind of_estimate =
      Takes-bind 1 (Takes-parse_estimate_effect_natural n l h) (λ s. Takes-pure _ refl)
  Takes-parse_kind of_nothing = Takes-error _

  Takes-parse_by_kind :
      (t : Token) (o : Option StatementKind) → Takes (suc n) one (parse_by_kind l t o)
  Takes-parse_by_kind t none = Takes-error _
  Takes-parse_by_kind t (some k) = Takes-parse_kind k

  Takes-statement_at : Takes (suc n) one (statement_at l)
  unfolding statement_at skip_semicolons kind
  Takes-statement_at =
      Takes-bind 0
        (Takes-loop tt (λ u.
          Takes-if_eat {n = suc n} Token.semicolon (omega arith) refl (Takes-pure _ refl)
            (Takes-pure _ refl)))
        (λ _. Takes-peek (λ t.
          Takes-bind 1 (Takes-parse_by_kind t (statement_kind t))
            (λ stmt. Takes-bind 0 (Takes-eat Token.semicolon refl) (λ _. Takes-pure _ refl))))

-- On a stream whose last token is `Eof`, `parse_statement` gives an error, or a statement with a rest
-- whose last token is `Eof` and that has fewer tokens: nesting as deep as the number of tokens is
-- enough for every kind of statement.
pub parse_statement-takes :
    (s : Stream) → IsClosed s → Ends (λ (_ : Statement). 1) s (parse_statement s)
unfolding parse_statement
parse_statement-takes s c =
    (Takes-statement_at (length (s.1)) (parsers (length (s.1))) (Takes-parsers (length (s.1)))).run
      s c (omega arith)
