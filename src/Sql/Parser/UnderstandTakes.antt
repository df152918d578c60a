-- ===== src/Sql/Parser/UnderstandTakes.antt =====
-- How many tokens `TRACE CAUSALITY` and `UNDERSTAND` take.
use fundb.Prelude.{ℕ, suc, refl, Option, none, some, [], arith}
use fundb.Prelude.Text.{codes}
use fundb.Sql.Token.{Token}
use fundb.Sql.Ast
use fundb.Sql.Ast.{Name, Expr, SelectItem, SelectItems, MaybeExpr, items}
use fundb.Sql.Parser.{Message, kind, when_word}
use fundb.Sql.Parser.Exprs.{Inner, parse_expr}
use fundb.Sql.Parser.Clauses.{
  TraceKey, start_key, goal_key, max_depth_key, min_strength_key, min_stability_key, trace_key,
  word_is,
}
use fundb.Sql.Parser.Understand.{
  TopKey, part_key, return_key, order_key, top_key, parse_trace_end, top_value, TopParts,
  trace_top_part, required, parse_trace_causality_top, within_word, parse_within, option_name,
  with_option, UnderstandKey, with_key, within_key, depth_key, in_key, using_key, understand_key,
  understand_option, parse_understand,
}
use fundb.Sql.Parser.Takes.{
  Takes, Takes-bind, Takes-pure, Takes-peek, Takes-if, Takes-match, Takes-error, Takes-if_eat,
  Takes-expect, Takes-loop, one, any, Takes-any, Takes-advance,
}
use fundb.Sql.Parser.Primaries.{
  InnerTakes, Takes-expect_ident, Takes-expect_string_or_ident, Takes-parse_primary_expr,
}
use fundb.Sql.Parser.Levels.{Takes-parse_expr}
use fundb.Sql.Parser.ClauseTakes.{Takes-parse_projection_list, Takes-parse_order_by_list}
use fundb.Sql.Parser.StatementTakes.{Takes-string}
use fundb.Sql.Parser.CausalTakes.{Takes-eat_either}

Takes-parse_within : {m : ℕ} → Takes m any parse_within
unfolding parse_within within_word
Takes-parse_within {m} =
    Takes-bind 0
      (Takes-loop none (λ words.
        Takes-match {n = m} within_word (omega arith) refl (λ word. Takes-pure _ refl)
          (λ _. Takes-pure _ refl)))
      (λ words. Takes-pure _ refl)

Takes-required : {m : ℕ} (e : Message) (o : MaybeExpr) → Takes m any (required e o)
unfolding required
Takes-required e (Ast.some_expr x) = Takes-pure _ refl
Takes-required e Ast.no_expr = Takes-error _

module _ (n : ℕ) (l : Inner) (h : InnerTakes n l) where
  an_expr : Takes (suc n) one (parse_expr l)
  an_expr = Takes-parse_expr n l h

  Takes-parse_trace_end : Takes (suc n) one (parse_trace_end l)
  unfolding parse_trace_end kind
  Takes-parse_trace_end = Takes-bind 1 (Takes-parse_primary_expr n l h) (λ base.
      Takes-if_eat {n = suc n} Token.where_kw (omega arith) refl
        (Takes-bind 1 an_expr (λ cond. Takes-pure _ refl)) (Takes-pure _ refl))

  Takes-top_value : (key : TraceKey) → Takes (suc n) one (top_value l key)
  Takes-top_value start_key = Takes-parse_trace_end
  Takes-top_value goal_key = Takes-parse_trace_end
  Takes-top_value max_depth_key = an_expr
  Takes-top_value min_strength_key = an_expr
  Takes-top_value min_stability_key = an_expr

  Takes-trace_top_part : (p : TopParts) (key : TopKey) → Takes (suc n) one (trace_top_part l p key)
  unfolding trace_top_part kind
  Takes-trace_top_part p (part_key key) =
      Takes-bind 1 (Takes-top_value key) (λ e. Takes-pure _ refl)
  Takes-trace_top_part p return_key =
      Takes-bind 1 (Takes-parse_projection_list n l h) (λ is. Takes-pure _ refl)
  Takes-trace_top_part p order_key =
      Takes-bind 1 (Takes-expect Token.by_kw refl)
        (λ _. Takes-bind 1 (Takes-parse_order_by_list n l h) (λ _. Takes-pure _ refl))

  pub Takes-parse_trace_causality_top : Takes (suc n) one (parse_trace_causality_top l)
  unfolding parse_trace_causality_top top_key trace_key kind
  Takes-parse_trace_causality_top = Takes-bind 1 (Takes-expect Token.trace_kw refl) (λ _.
      Takes-bind 1 (Takes-expect Token.causality_kw refl) (λ _.
        Takes-bind 0
          (Takes-loop _ (λ p.
            Takes-match {n = suc n} top_key (omega arith) refl
              (λ key. Takes-bind 1 (Takes-trace_top_part p key) (λ q. Takes-pure _ refl))
              (λ _. Takes-pure _ refl)))
          (λ p.
            Takes-bind 0 (Takes-required _ _)
              (λ start. Takes-bind 0 (Takes-required _ _) (λ goal. Takes-pure _ refl)))))

  Takes-with_option : (t : Token) (o : Option Name) → Takes (suc n) one (with_option l t o)
  unfolding with_option
  Takes-with_option t none = Takes-error _
  Takes-with_option t (some name) =
      Takes-if (word_is (codes "confidence") name) (Takes-bind 1 an_expr (λ e. Takes-pure _ refl)) (
        Takes-if (word_is (codes "min_similarity") name)
          (Takes-bind 0 Takes-advance (λ _. Takes-bind 1 an_expr (λ e. Takes-pure _ refl)))
          (Takes-error _))

  Takes-understand_option : (key : UnderstandKey) → Takes (suc n) any (understand_option l key)
  unfolding understand_option kind when_word
  Takes-understand_option with_key =
      Takes-peek (λ t. Takes-any (Takes-with_option t (option_name t)))
  Takes-understand_option within_key = Takes-bind 0 Takes-parse_within (λ words. Takes-pure _ refl)
  Takes-understand_option depth_key = Takes-bind 1 an_expr (λ e. Takes-pure _ refl)
  Takes-understand_option in_key =
      Takes-bind 0 (Takes-eat_either Token.collection_kw (codes "collection") refl)
        (λ _. Takes-bind 1 Takes-expect_ident (λ name. Takes-pure _ refl))
  Takes-understand_option using_key =
      Takes-bind 0 (Takes-eat_either Token.vector_kw (codes "vector") refl)
        (λ _. Takes-bind 1 Takes-expect_string_or_ident (λ field. Takes-pure _ refl))

  pub Takes-parse_understand : Takes (suc n) one (parse_understand l)
  unfolding parse_understand understand_key kind
  Takes-parse_understand = Takes-bind 1 (Takes-expect Token.understand_kw refl) (λ _.
      Takes-bind 1 (Takes-string _) (λ intent.
        Takes-bind 0
          (Takes-loop [] (λ os.
            Takes-match {n = suc n} understand_key (omega arith) refl
              (λ key. Takes-bind 0 (Takes-understand_option key) (λ o. Takes-pure _ refl))
              (λ _. Takes-pure _ refl)))
          (λ options. Takes-pure _ refl)))
