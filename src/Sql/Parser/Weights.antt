-- ===== src/Sql/Parser/Weights.antt =====
-- The weights of a `RECALL BY` in crates/fundb-sql/src/parser.rs.
use fundb.Prelude.{Option, none, some, List, if◌then◌else◌}
use fundb.Prelude.Text.{codes}
use fundb.Sql.Token.{Token}
use fundb.Sql.Chars.{to_ascii_lowercase}
use fundb.Sql.Ast
use fundb.Sql.Ast.{Name, Expr, MaybeExpr, RecallWeight}
use fundb.Sql.Parser.{
  Parser, ◌>>=◌, pure, peek, if_eat, eat, expect, error, is, go_on, stop, loop, separated,
  unknown_recall_weight,
}
use fundb.Sql.Parser.Names.{expect_ident, expect_string_or_ident}
use fundb.Sql.Parser.Exprs.{Inner, parse_primary_expr}
use fundb.Sql.Parser.Clauses.{word_is, ends_options}

-- Behind a key: its value, if it is `weight`.
unfoldable pub weight_value : Inner → Name → Parser MaybeExpr
weight_value l key =
    if word_is (codes "weight") key
    then (expect Token.colon >>= λ _. parse_primary_expr l >>= λ e. pure (Ast.some_expr e))
    else pure Ast.no_expr

unfoldable pub parse_semantic_similarity : Inner → Parser RecallWeight
parse_semantic_similarity l = do
  query ← parse_primary_expr l
  w ← if_eat Token.comma (expect_ident >>= λ key. weight_value l key) (pure Ast.no_expr)
  _ ← expect Token.r_paren
  pure (Ast.semantic_similarity query w)

-- The variables of the loop over the options of `recency`.
pub record RecencyParts : Type 0 where
  pub decay : Option Name
  pub half_life : Option Name
  pub weight : MaybeExpr

unfoldable pub recency_option : Inner → Name → RecencyParts → Parser RecencyParts
recency_option l key p =
    if word_is (codes "decay") key
    then (expect_string_or_ident >>= λ s. pure (record p { decay = some s }))
    else if word_is (codes "half_life") key
    then (expect_string_or_ident >>= λ s. pure (record p { half_life = some s }))
    else if word_is (codes "weight") key
    then (parse_primary_expr l >>= λ e. pure (record p { weight = Ast.some_expr e }))
    else (parse_primary_expr l >>= λ _. pure p)

unfoldable pub recency_options : Inner → Parser RecencyParts
recency_options l =
    loop
      (λ (p : RecencyParts). peek >>= λ t. if ends_options t then pure (stop p) else (do
        key ← expect_ident
        _ ← expect Token.colon
        q ← recency_option l key p
        _ ← eat Token.comma
        pure (go_on q)))
      (record { decay = none; half_life = none; weight = Ast.no_expr })

unfoldable pub parse_recency : Inner → Parser RecallWeight
parse_recency l = do
  p ← recency_options l
  _ ← expect Token.r_paren
  pure (Ast.recency (p.decay) (p.half_life) (p.weight))

unfoldable pub parse_importance : Inner → Parser RecallWeight
parse_importance l = do
  t ← peek
  w ← if is Token.r_paren t then pure Ast.no_expr else (expect_ident >>= λ key. weight_value l key)
  _ ← expect Token.r_paren
  pure (Ast.importance w)

unfoldable pub parse_recall_weight : Inner → Parser RecallWeight
parse_recall_weight l = do
  name ← expect_ident
  _ ← expect Token.l_paren
  if word_is (codes "semantic_similarity") name
      then parse_semantic_similarity l
      else if word_is (codes "recency") name
      then parse_recency l
      else if word_is (codes "importance") name
      then parse_importance l
      else error (unknown_recall_weight (to_ascii_lowercase name))

unfoldable pub parse_recall_weights : Inner → Parser (List RecallWeight)
parse_recall_weights l = separated Token.plus (parse_recall_weight l)

unfoldable pub parse_recall_by_clause : Inner → Parser (List RecallWeight)
parse_recall_by_clause l = do
  _ ← expect Token.recall_kw
  _ ← expect Token.by_kw
  parse_recall_weights l
