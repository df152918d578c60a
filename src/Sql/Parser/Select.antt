-- ===== src/Sql/Parser/Select.antt =====
-- `SELECT` of crates/fundb-sql/src/parser.rs, and the parsers of all levels of nesting.
use fundb.Prelude.{ℕ, zero, suc, Bool, Option, none, some, List, [], ◌∷◌, ◌++◌, if◌then◌else◌}
use fundb.Sql.Token.{Token}
use fundb.Sql.Ast
use fundb.Sql.Ast.{
  Name, Expr, TableRef, JoinClause, SelectItem, MaybeExpr, OrderByItem, RecallWeight, AsOf, Context,
  Traverse, Trace, Recall, SelectStmt, exprs, items, joins, orders, weights,
}
use fundb.Sql.Parser.{
  Parser, ◌>>=◌, pure, peek2, advance, match_token, eat, expect, out_of_fuel, Round, go_on, stop,
  loop,
}
use fundb.Sql.Parser.Exprs.{Inner, parse_primary_expr, parse_expr, parse_not_expr}
use fundb.Sql.Parser.Clauses.{
  optional, is_of, parse_projection_list, parse_table_ref, parse_join, parse_order_by_list,
  parse_expr_list, parse_traverse_clause, TraceParts, TraceKey, max_depth_key, min_strength_key,
  min_stability_key, set_part, parse_trace_causality_clause, ContextParts, parse_within_context,
  parse_as_of_body,
}
use fundb.Sql.Parser.Weights.{parse_recall_by_clause}

-- The variables of the loop over the clauses.
pub record Clauses : Type 0 where
  pub joined : List JoinClause
  pub where_clause : MaybeExpr
  pub group_by : List Expr
  pub having : MaybeExpr
  pub order : List OrderByItem
  pub limit : MaybeExpr
  pub offset : MaybeExpr
  pub within_context : Option ContextParts
  pub as_of : AsOf
  pub traverse : Traverse
  pub trace : Option TraceParts
  pub return_items : List SelectItem
  pub recall : Option (List RecallWeight)

abbrev pub no_clauses : Clauses
no_clauses = record {
  joined = [];
  where_clause = Ast.no_expr;
  group_by = [];
  having = Ast.no_expr;
  order = [];
  limit = Ast.no_expr;
  offset = Ast.no_expr;
  within_context = none;
  as_of = Ast.no_as_of;
  traverse = Ast.no_traverse;
  trace = none;
  return_items = [];
  recall = none;
}

-- The clauses whose keyword the loop takes itself.
pub data ClauseKey : Type 0 where
  where_key group_key having_key order_key limit_key offset_key as_of_key return_key : ClauseKey

abbrev pub clause_key : Token → Option ClauseKey
clause_key Token.where_kw = some where_key
clause_key Token.group_kw = some group_key
clause_key Token.having_kw = some having_key
clause_key Token.order_kw = some order_key
clause_key Token.limit_kw = some limit_key
clause_key Token.offset_kw = some offset_key
clause_key Token.as_of_kw = some as_of_key
clause_key Token.return_kw = some return_key
clause_key _ = none

unfoldable pub parse_clause : Inner → Clauses → ClauseKey → Parser Clauses
parse_clause l c where_key =
    parse_expr l >>= λ e. pure (record c { where_clause = Ast.some_expr e })
parse_clause l c group_key =
    expect Token.by_kw >>= λ _. parse_expr_list l >>= λ es. pure (record c { group_by = es })
parse_clause l c having_key = parse_expr l >>= λ e. pure (record c { having = Ast.some_expr e })
parse_clause l c order_key =
    expect Token.by_kw >>= λ _. parse_order_by_list l >>= λ os. pure (record c { order = os })
parse_clause l c limit_key = parse_expr l >>= λ e. pure (record c { limit = Ast.some_expr e })
parse_clause l c offset_key = parse_expr l >>= λ e. pure (record c { offset = Ast.some_expr e })
parse_clause l c as_of_key = parse_as_of_body l >>= λ a. pure (record c { as_of = a })
parse_clause l c return_key =
    parse_projection_list l >>= λ is. pure (record c { return_items = is })

-- What the other tokens begin, which a function of the clause takes.
pub data Opening : Type 0 where
  a_join a_traverse a_trace a_recall a_within an_as no_opening : Opening
  trace_part : TraceKey → Opening

abbrev pub opening_of : Token → Opening
opening_of Token.join_kw = a_join
opening_of Token.inner_kw = a_join
opening_of Token.left_kw = a_join
opening_of Token.right_kw = a_join
opening_of Token.cross_kw = a_join
opening_of Token.outer_kw = a_join
opening_of Token.traverse_kw = a_traverse
opening_of Token.trace_kw = a_trace
opening_of Token.recall_kw = a_recall
opening_of Token.within_kw = a_within
opening_of Token.as_kw = an_as
opening_of Token.max_depth_kw = trace_part max_depth_key
opening_of Token.min_strength_kw = trace_part min_strength_key
opening_of Token.min_stability_kw = trace_part min_stability_key
opening_of _ = no_opening

-- A bound of the trace, if there is one.
unfoldable pub set_trace_part :
    Inner → Clauses → TraceKey → Option TraceParts → Parser (Round Clauses)
set_trace_part l c key none = pure (stop c)
set_trace_part l c key (some p) = do
  _ ← advance
  e ← parse_expr l
  pure (go_on (record c { trace = some (set_part key e p) }))

unfoldable pub parse_opening : Inner → Clauses → Opening → Parser (Round Clauses)
parse_opening l c a_join =
    parse_join l >>= λ j. pure (go_on (record c { joined = c.joined ++ j ∷ [] }))
parse_opening l c a_traverse =
    parse_traverse_clause l >>= λ t. pure (go_on (record c { traverse = t }))
parse_opening l c a_trace =
    parse_trace_causality_clause l >>= λ p. pure (go_on (record c { trace = some p }))
parse_opening l c a_recall =
    parse_recall_by_clause l >>= λ ws. pure (go_on (record c { recall = some ws }))
parse_opening l c a_within =
    parse_within_context l >>= λ p. pure (go_on (record c { within_context = some p }))
parse_opening l c an_as = peek2 >>= λ u.
    if is_of u
    then (advance >>= λ _.
        advance >>= λ _. parse_as_of_body l >>= λ a. pure (go_on (record c { as_of = a })))
    else pure (stop c)
parse_opening l c (trace_part key) = set_trace_part l c key (c.trace)
parse_opening l c no_opening = pure (stop c)

-- The loop over the clauses, in any order; the last of a kind counts, but for joins.
unfoldable pub parse_clauses : Inner → Parser Clauses
parse_clauses l =
    loop
      (λ (c : Clauses).
        match_token clause_key (λ key. parse_clause l c key >>= λ d. pure (go_on d))
          (λ t. parse_opening l c (opening_of t)))
      no_clauses

abbrev pub context_of : Option ContextParts → Context
context_of none = Ast.no_context
context_of (some p) =
    Ast.context_options (p.max_tokens) (p.coherence) (p.diversity) (p.include_contradictions)
      (orders (p.priority))

abbrev pub trace_of : Option TraceParts → Trace
trace_of none = Ast.no_trace
trace_of (some p) =
    Ast.trace_clause (p.start) (p.goal) (p.max_depth) (p.min_strength) (p.min_stability)

abbrev pub recall_of : Option (List RecallWeight) → Recall
recall_of none = Ast.no_recall
recall_of (some ws) = Ast.recall_by (weights ws)

abbrev pub select_of : Bool → List SelectItem → Option TableRef → Clauses → SelectStmt
select_of distinct projections source c =
    Ast.select_stmt distinct (items projections) source (joins (c.joined)) (c.where_clause)
      (exprs (c.group_by)) (c.having) (orders (c.order)) (c.limit) (c.offset)
      (context_of (c.within_context)) (c.as_of) (c.traverse) (trace_of (c.trace))
      (items (c.return_items)) (recall_of (c.recall))

unfoldable pub finish_select : Inner → Bool → List SelectItem → Option TableRef → Parser SelectStmt
finish_select l distinct projections source =
    parse_clauses l >>= λ c. pure (select_of distinct projections source c)

unfoldable pub parse_select_inner : Inner → Parser SelectStmt
parse_select_inner l = do
  _ ← expect Token.select_kw
  distinct ← eat Token.distinct_kw
  projections ← parse_projection_list l
  source ← optional Token.from_kw (parse_table_ref l)
  finish_select l distinct projections source

-- The parsers for at most `n` levels of nesting.
unfoldable pub parsers : ℕ → Inner
parsers zero = record {
  expr = λ s. out_of_fuel;
  not_expr = λ s. out_of_fuel;
  primary = λ s. out_of_fuel;
  select_inner = λ s. out_of_fuel;
}
parsers (suc n) = record {
  expr = parse_expr (parsers n);
  not_expr = parse_not_expr (parsers n);
  primary = parse_primary_expr (parsers n);
  select_inner = parse_select_inner (parsers n);
}
