-- ===== src/Sql/Parser/Causal.antt =====
-- Causal and semantic statements in crates/fundb-sql/src/parser.rs.
use fundb.Prelude.{Bool, true, false, Option, none, some, List, [], ◌∷◌, ◌++◌, if◌then◌else◌}
use fundb.Prelude.Text.{codes}
use fundb.Sql.Token.{Token}
use fundb.Sql.Ast
use fundb.Sql.Ast.{
  Name, Expr, SelectItem, SelectItems, SelectStmt, MaybeExpr, items, EstimateEffectStmt,
  CounterfactualGiven, CounterfactualStmt, DiscoverCausalStmt, TraceCausalityStmt, UnderstandOption,
  UnderstandStmt,
}
use fundb.Sql.Parser.{
  Parser, ◌>>=◌, pure, peek, peek2, advance, match_token, when_word, if_eat, eat, eat_word, expect,
  error, is, is_word, go_on, stop, loop, separated, expected_in_or_from,
}
use fundb.Sql.Parser.Names.{expect_ident, expect_string_or_ident}
use fundb.Sql.Parser.Exprs.{Inner, parse_expr}
use fundb.Sql.Parser.Clauses.{parse_table_ref, parse_join}
use fundb.Sql.Parser.Select.{opening_of, a_join, parse_select_inner}
use fundb.Sql.Parser.Statements.{parse_assignment_list}

abbrev pub starts_join : Token → Bool
starts_join t = elim (opening_of t) [ a_join ↦ true | _ ↦ false ]

-- Joins, which are dropped.
unfoldable pub skip_joins : Inner → Parser (Unit {0})
skip_joins l =
    loop
      (λ (u : Unit {0}). peek >>= λ t.
        if starts_join t then (parse_join l >>= λ _. pure (go_on tt)) else pure (stop tt))
      tt

-- The name of the table behind `FROM` and its joins.
unfoldable pub parse_source : Inner → Parser Name
parse_source l = parse_table_ref l >>= λ table. skip_joins l >>= λ _. pure (table.name)

unfoldable pub parse_estimate_effect_natural : Inner → Parser EstimateEffectStmt
parse_estimate_effect_natural l = do
  _ ← advance
  _ ← eat_word (codes "effect")
  _ ← eat_word (codes "of")
  treatment ← expect_ident
  _ ← expect Token.on_kw
  outcome ← expect_ident
  model ←
      if_eat Token.from_kw
        (do
          name ← parse_source l
          _ ← if_eat Token.where_kw (parse_expr l >>= λ _. pure tt) (pure tt)
          pure name)
        (pure [])
  pure (record {
    projections = Ast.wildcard ∷ [];
    model = model;
    set_vars = (treatment, Ast.literal (Ast.int 1)) ∷ [];
    predict = outcome;
    given = none;
  })

unfoldable pub parse_intervene_after_from : Inner → List SelectItem → Parser EstimateEffectStmt
parse_intervene_after_from l projections = do
  _ ← expect Token.intervene_kw
  _ ← expect Token.on_kw
  model ← expect_ident
  _ ← expect Token.set_kw
  set_vars ← parse_assignment_list l
  _ ← expect Token.predict_kw
  predict ← expect_ident
  pure (record {
    projections = projections;
    model = model;
    set_vars = set_vars;
    predict = predict;
    given = none;
  })

abbrev pub parse_intervene : Inner → Parser EstimateEffectStmt
parse_intervene l = parse_intervene_after_from l (Ast.wildcard ∷ [])

abbrev pub projections_of : SelectStmt → SelectItems
projections_of (Ast.select_stmt _ projections _ _ _ _ _ _ _ _ _ _ _ _ _ _) = projections

unfoldable pub parse_counterfactual_with_select : Inner → Parser CounterfactualStmt
parse_counterfactual_with_select l = do
  _ ← expect Token.counterfactual_kw
  sub ← parse_select_inner l
  had ← if_eat Token.intervene_kw (expect Token.set_kw >>= λ _. parse_assignment_list l) (pure [])
  pure (record {
    projections = projections_of sub;
    model = [];
    given = some (Ast.given_subquery sub);
    had = had;
    predict = [];
  })

-- A value behind its `:=` and `=`, both optional.
unfoldable pub parse_value : Inner → Parser Expr
parse_value l = eat Token.assign >>= λ _. eat Token.eq >>= λ _. parse_expr l

unfoldable pub parse_pair : Inner → Parser (Name × Expr)
parse_pair l = expect_ident >>= λ k. parse_value l >>= λ v. pure (k, v)

unfoldable pub more_pairs : Inner → List (Name × Expr) → Parser (List (Name × Expr))
more_pairs l = loop (λ (pairs : List (Name × Expr)).
    if_eat Token.comma (parse_pair l >>= λ pair. pure (go_on (pairs ++ pair ∷ [])))
      (pure (stop pairs)))

-- Behind `GIVEN`. The key before a subquery is dropped.
unfoldable pub parse_given : Inner → Parser CounterfactualGiven
parse_given l = do
  key ← expect_ident
  _ ← eat Token.assign
  _ ← eat Token.eq
  if_eat Token.l_paren
      (parse_select_inner l >>= λ sub. expect Token.r_paren >>= λ _. pure (Ast.given_subquery sub))
      (do val ← parse_expr l; pairs ← more_pairs l ((key, val) ∷ []); pure (Ast.given_pairs pairs))

pub data CounterfactualKey : Type 0 where
  given_key had_key predict_key : CounterfactualKey

abbrev pub counterfactual_key : Token → Option CounterfactualKey
counterfactual_key Token.given_kw = some given_key
counterfactual_key Token.had_kw = some had_key
counterfactual_key Token.predict_kw = some predict_key
counterfactual_key _ = none

-- The variables of the loop over the parts of a counterfactual.
pub record CounterfactualParts : Type 0 where
  pub given : Option CounterfactualGiven
  pub had : List (Name × Expr)
  pub predict : Name

unfoldable pub counterfactual_part :
    Inner → CounterfactualParts → CounterfactualKey → Parser CounterfactualParts
counterfactual_part l p given_key = parse_given l >>= λ g. pure (record p { given = some g })
counterfactual_part l p had_key = do
  pair ← parse_pair l
  had ← more_pairs l (p.had ++ pair ∷ [])
  pure (record p { had = had })
counterfactual_part l p predict_key = expect_ident >>= λ x. pure (record p { predict = x })

unfoldable pub parse_counterfactual_body : Inner → SelectItems → Parser CounterfactualStmt
parse_counterfactual_body l projections = do
  _ ← expect Token.counterfactual_kw
  _ ← expect Token.on_kw
  model ← expect_ident
  p ←
      loop
        (λ (p : CounterfactualParts).
          match_token counterfactual_key
            (λ key. counterfactual_part l p key >>= λ q. pure (go_on q)) (λ _. pure (stop p)))
        (record { given = none; had = []; predict = [] })
  pure (record {
    projections = projections;
    model = model;
    given = p.given;
    had = p.had;
    predict = p.predict;
  })

abbrev pub is_select : Option Token → Bool
is_select (some t) = is Token.select_kw t
is_select none = false

unfoldable pub parse_counterfactual_dispatch : Inner → Parser CounterfactualStmt
parse_counterfactual_dispatch l = peek2 >>= λ u.
    if is_select u
    then parse_counterfactual_with_select l
    else parse_counterfactual_body l (items (Ast.wildcard ∷ []))

-- A keyword that may be an identifier as well.
abbrev pub keyword_or_word : Token → Name → Token → Option (Unit {0})
keyword_or_word tok word t = elim (is tok t) [ true ↦ some tt | false ↦ when_word word t ]

unfoldable pub eat_either : Token → Name → Parser Bool
eat_either tok word = match_token (keyword_or_word tok word) (λ _. pure true) (λ _. pure false)

unfoldable pub parse_discover_source : Inner → Parser Name
parse_discover_source l =
    if_eat Token.in_kw (eat_either Token.collection_kw (codes "collection") >>= λ _. expect_ident)
      (if_eat Token.from_kw (parse_source l) (error expected_in_or_from))

pub data DiscoverKey : Type 0 where
  variables_key algorithm_key min_confidence_key store_key : DiscoverKey

unfoldable pub discover_key : Token → Option DiscoverKey
discover_key Token.variables_kw = some variables_key
discover_key Token.algorithm_kw = some algorithm_key
discover_key Token.min_confidence_kw = some min_confidence_key
discover_key Token.store_kw = some store_key
discover_key t =
    if is_word (codes "variables") t
    then some variables_key
    else if is_word (codes "min_confidence") t
    then some min_confidence_key
    else if is_word (codes "store") t
    then some store_key
    else none

-- The variables of the loop over the options of a discovery.
pub record DiscoverParts : Type 0 where
  pub algorithm : Option Name
  pub min_confidence : Option Expr
  pub store_as : Option Name
  pub variables : List Name

unfoldable pub discover_option : Inner → DiscoverParts → DiscoverKey → Parser DiscoverParts
discover_option l p variables_key =
    separated Token.comma expect_ident >>= λ vs. pure (record p { variables = p.variables ++ vs })
discover_option l p algorithm_key =
    expect_string_or_ident >>= λ s. pure (record p { algorithm = some s })
discover_option l p min_confidence_key =
    parse_expr l >>= λ e. pure (record p { min_confidence = some e })
discover_option l p store_key = do
  _ ← eat_either Token.as_kw (codes "as")
  s ← expect_string_or_ident
  pure (record p { store_as = some s })

unfoldable pub parse_discover_causal : Inner → Parser DiscoverCausalStmt
parse_discover_causal l = do
  _ ← expect Token.discover_kw
  _ ← eat_either Token.causality_kw (codes "causal")
  _ ← eat_either Token.structure_kw (codes "structure")
  collection ← parse_discover_source l
  p ←
      loop
        (λ (p : DiscoverParts).
          match_token discover_key (λ key. discover_option l p key >>= λ q. pure (go_on q))
            (λ _. pure (stop p)))
        (record { algorithm = none; min_confidence = none; store_as = none; variables = [] })
  pure (record {
    collection = collection;
    algorithm = p.algorithm;
    min_confidence = p.min_confidence;
    store_as = p.store_as;
    variables = p.variables;
  })
