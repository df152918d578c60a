-- ===== src/Sql/Parser/CausalTakes.antt =====
-- How many tokens the causal statements take.
use fundb.Prelude.{ℕ, suc, ◌≡◌, refl, none, List, [], ◌∷◌, ◌++◌, arith}
use fundb.Prelude.Text.{codes}
use fundb.Sql.Token.{Token}
use fundb.Sql.Ast
use fundb.Sql.Ast.{Name, Expr, SelectItem, SelectItems, MaybeExpr, items}
use fundb.Sql.Parser.{kind, when_word}
use fundb.Sql.Parser.Exprs.{Inner, parse_expr}
use fundb.Sql.Parser.Causal.{
  starts_join, skip_joins, parse_source, parse_estimate_effect_natural, parse_intervene_after_from,
  parse_counterfactual_with_select, parse_value, parse_pair, more_pairs, parse_given,
  CounterfactualKey, given_key, had_key, predict_key, counterfactual_key, CounterfactualParts,
  counterfactual_part, parse_counterfactual_body, is_select, parse_counterfactual_dispatch,
  keyword_or_word, eat_either, parse_discover_source, DiscoverKey, variables_key, algorithm_key,
  min_confidence_key, store_key, discover_key, DiscoverParts, discover_option,
  parse_discover_causal,
}
use fundb.Sql.Parser.Takes.{
  Takes, Takes-bind, Takes-pure, Takes-peek, Takes-peek2, Takes-if, Takes-match, Takes-error,
  Takes-if_eat, Takes-expect, Takes-loop, Takes-separated, one, any, Takes-any, Takes-eat,
  Takes-advance,
}
use fundb.Sql.Parser.Primaries.{InnerTakes, Takes-expect_ident, Takes-expect_string_or_ident}
use fundb.Sql.Parser.Levels.{Takes-parse_expr}
use fundb.Sql.Parser.ClauseTakes.{Takes-parse_table_ref, Takes-parse_join}
use fundb.Sql.Parser.SelectTakes.{Takes-parse_select_inner}
use fundb.Sql.Parser.StatementTakes.{Takes-eat_word, Takes-parse_assignment_list}

pub Takes-eat_either :
    {m : ℕ} (tok : Token) (word : Name)
    → keyword_or_word tok word Token.eof ≡ none
    → Takes m any (eat_either tok word)
unfolding eat_either
Takes-eat_either {m} tok word e =
    Takes-match {n = m} (keyword_or_word tok word) (omega arith) e (λ _. Takes-pure _ refl)
      (λ _. Takes-pure _ refl)

module _ (n : ℕ) (l : Inner) (h : InnerTakes n l) where
  an_expr : Takes (suc n) one (parse_expr l)
  an_expr = Takes-parse_expr n l h

  Takes-parse_source : Takes (suc n) one (parse_source l)
  unfolding parse_source skip_joins
  Takes-parse_source = Takes-bind 1 (Takes-parse_table_ref n l h) (λ table.
      Takes-bind 0
        (Takes-loop tt (λ u. Takes-peek (λ t.
          Takes-if (starts_join t) (Takes-bind 1 (Takes-parse_join n l h) (λ _. Takes-pure _ refl))
            (Takes-pure _ refl))))
        (λ _. Takes-pure _ refl))

  pub Takes-parse_estimate_effect_natural : Takes (suc n) one (parse_estimate_effect_natural l)
  unfolding parse_estimate_effect_natural kind
  Takes-parse_estimate_effect_natural = Takes-bind 0 Takes-advance (λ _.
      Takes-bind 0 (Takes-eat_word (codes "effect")) (λ _.
        Takes-bind 0 (Takes-eat_word (codes "of")) (λ _.
          Takes-bind 1 Takes-expect_ident (λ treatment.
            Takes-bind 1 (Takes-expect Token.on_kw refl) (λ _.
              Takes-bind 1 Takes-expect_ident (λ outcome.
                Takes-bind 0
                  (Takes-if_eat {n = suc n} Token.from_kw (omega arith) refl
                    (Takes-bind 1 Takes-parse_source (λ name.
                      Takes-bind 0
                        (Takes-if_eat {n = suc n} Token.where_kw (omega arith) refl
                          (Takes-bind 1 an_expr (λ _. Takes-pure _ refl)) (Takes-pure _ refl))
                        (λ _. Takes-pure _ refl)))
                    (Takes-pure _ refl))
                  (λ model. Takes-pure _ refl)))))))

  pub Takes-parse_intervene_after_from :
      (projections : List SelectItem) → Takes (suc n) one (parse_intervene_after_from l projections)
  unfolding parse_intervene_after_from kind
  Takes-parse_intervene_after_from projections =
      Takes-bind 1 (Takes-expect Token.intervene_kw refl) (λ _.
        Takes-bind 1 (Takes-expect Token.on_kw refl) (λ _. Takes-bind 1 Takes-expect_ident (λ model.
          Takes-bind 1 (Takes-expect Token.set_kw refl) (λ _.
            Takes-bind 1 (Takes-parse_assignment_list n l h) (λ set_vars.
              Takes-bind 1 (Takes-expect Token.predict_kw refl)
                (λ _. Takes-bind 1 Takes-expect_ident (λ predict. Takes-pure _ refl)))))))

  Takes-parse_counterfactual_with_select : Takes (suc n) one (parse_counterfactual_with_select l)
  unfolding parse_counterfactual_with_select kind
  Takes-parse_counterfactual_with_select =
      Takes-bind 1 (Takes-expect Token.counterfactual_kw refl) (λ _.
        Takes-bind 1 (Takes-parse_select_inner n l h) (λ sub.
          Takes-bind 0
            (Takes-if_eat {n = suc n} Token.intervene_kw (omega arith) refl
              (Takes-bind 1 (Takes-expect Token.set_kw refl)
                (λ _. Takes-any (Takes-parse_assignment_list n l h)))
              (Takes-pure _ refl))
            (λ had. Takes-pure _ refl)))

  Takes-parse_value : Takes (suc n) one (parse_value l)
  unfolding parse_value kind
  Takes-parse_value =
      Takes-bind 0 (Takes-eat Token.assign refl)
        (λ _. Takes-bind 0 (Takes-eat Token.eq refl) (λ _. an_expr))

  Takes-parse_pair : Takes (suc n) one (parse_pair l)
  unfolding parse_pair
  Takes-parse_pair =
      Takes-bind 1 Takes-expect_ident (λ k. Takes-bind 1 Takes-parse_value (λ v. Takes-pure _ refl))

  Takes-more_pairs : (pairs : List (Name × Expr)) → Takes (suc n) any (more_pairs l pairs)
  unfolding more_pairs kind
  Takes-more_pairs pairs = Takes-loop pairs (λ pairs.
      Takes-if_eat {n = suc n} Token.comma (omega arith) refl
        (Takes-bind 1 Takes-parse_pair (λ pair. Takes-pure _ refl)) (Takes-pure _ refl))

  Takes-parse_given : Takes (suc n) one (parse_given l)
  unfolding parse_given kind
  Takes-parse_given = Takes-bind 1 Takes-expect_ident (λ key.
      Takes-bind 0 (Takes-eat Token.assign refl) (λ _. Takes-bind 0 (Takes-eat Token.eq refl) (λ _.
        Takes-if_eat {n = suc n} Token.l_paren (omega arith) refl
          (Takes-bind 1 (Takes-parse_select_inner n l h)
            (λ sub. Takes-bind 1 (Takes-expect Token.r_paren refl) (λ _. Takes-pure _ refl)))
          (Takes-bind 1 an_expr (λ val.
            Takes-bind 0 (Takes-more_pairs ((key, val) ∷ [])) (λ pairs. Takes-pure _ refl))))))

  Takes-counterfactual_part :
      (p : CounterfactualParts) (key : CounterfactualKey)
      → Takes (suc n) one (counterfactual_part l p key)
  unfolding counterfactual_part
  Takes-counterfactual_part p given_key = Takes-bind 1 Takes-parse_given (λ g. Takes-pure _ refl)
  Takes-counterfactual_part p had_key =
      Takes-bind 1 Takes-parse_pair
        (λ pair. Takes-bind 0 (Takes-more_pairs (p.had ++ pair ∷ [])) (λ had. Takes-pure _ refl))
  Takes-counterfactual_part p predict_key = Takes-bind 1 Takes-expect_ident (λ x. Takes-pure _ refl)

  pub Takes-parse_counterfactual_body :
      (projections : SelectItems) → Takes (suc n) one (parse_counterfactual_body l projections)
  unfolding parse_counterfactual_body kind
  Takes-parse_counterfactual_body projections =
      Takes-bind 1 (Takes-expect Token.counterfactual_kw refl) (λ _.
        Takes-bind 1 (Takes-expect Token.on_kw refl) (λ _. Takes-bind 1 Takes-expect_ident (λ model.
          Takes-bind 0
            (Takes-loop _ (λ p.
              Takes-match {n = suc n} counterfactual_key (omega arith) refl
                (λ key. Takes-bind 1 (Takes-counterfactual_part p key) (λ q. Takes-pure _ refl))
                (λ _. Takes-pure _ refl)))
            (λ p. Takes-pure _ refl))))

  pub Takes-parse_counterfactual_dispatch : Takes (suc n) one (parse_counterfactual_dispatch l)
  unfolding parse_counterfactual_dispatch
  Takes-parse_counterfactual_dispatch = Takes-peek2 (λ u.
      Takes-if (is_select u) Takes-parse_counterfactual_with_select
        (Takes-parse_counterfactual_body (items (Ast.wildcard ∷ []))))

  Takes-parse_discover_source : Takes (suc n) one (parse_discover_source l)
  unfolding parse_discover_source kind when_word
  Takes-parse_discover_source =
      Takes-if_eat {n = suc n} Token.in_kw (omega arith) refl
        (Takes-bind 0 (Takes-eat_either Token.collection_kw (codes "collection") refl)
          (λ _. Takes-any Takes-expect_ident))
        (Takes-if_eat {n = suc n} Token.from_kw (omega arith) refl (Takes-any Takes-parse_source)
          (Takes-error _))

  Takes-discover_option :
      (p : DiscoverParts) (key : DiscoverKey) → Takes (suc n) one (discover_option l p key)
  unfolding discover_option kind when_word
  Takes-discover_option p variables_key =
      Takes-bind 1 (Takes-separated Token.comma refl Takes-expect_ident) (λ vs. Takes-pure _ refl)
  Takes-discover_option p algorithm_key =
      Takes-bind 1 Takes-expect_string_or_ident (λ s. Takes-pure _ refl)
  Takes-discover_option p min_confidence_key = Takes-bind 1 an_expr (λ e. Takes-pure _ refl)
  Takes-discover_option p store_key =
      Takes-bind 0 (Takes-eat_either Token.as_kw (codes "as") refl)
        (λ _. Takes-bind 1 Takes-expect_string_or_ident (λ s. Takes-pure _ refl))

  pub Takes-parse_discover_causal : Takes (suc n) one (parse_discover_causal l)
  unfolding parse_discover_causal discover_key kind when_word
  Takes-parse_discover_causal = Takes-bind 1 (Takes-expect Token.discover_kw refl) (λ _.
      Takes-bind 0 (Takes-eat_either Token.causality_kw (codes "causal") refl) (λ _.
        Takes-bind 0 (Takes-eat_either Token.structure_kw (codes "structure") refl) (λ _.
          Takes-bind 1 Takes-parse_discover_source (λ collection.
            Takes-bind 0
              (Takes-loop _ (λ p.
                Takes-match {n = suc n} discover_key (omega arith) refl
                  (λ key. Takes-bind 1 (Takes-discover_option p key) (λ q. Takes-pure _ refl))
                  (λ _. Takes-pure _ refl)))
              (λ p. Takes-pure _ refl)))))
