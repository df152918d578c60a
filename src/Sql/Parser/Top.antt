-- ===== src/Sql/Parser/Top.antt =====
-- `parse_statement` of crates/fundb-sql/src/parser.rs and its dispatch.
use fundb.Prelude.{Bool, true, false, Option, none, some, List, [], ◌∷◌, length, if◌then◌else◌}
use fundb.Prelude.Text.{codes}
use fundb.Sql.Token.{Token}
use fundb.Sql.Ast
use fundb.Sql.Ast.{
  Name, Expr, SelectItem, MaybeExpr, OrderByItem, Traverse, SelectStmt, Statement, items,
}
use fundb.Sql.Parser.{
  Parser, Parsed, Stream, ◌>>=◌, pure, peek, match_token, if_eat, eat, expect, error, is, is_word,
  go_on, stop, loop, unexpected_token, unexpected_end,
}
use fundb.Sql.Parser.Names.{expect_ident}
use fundb.Sql.Parser.Exprs.{Inner, parse_expr}
use fundb.Sql.Parser.Clauses.{
  optional, parse_projection_list, parse_table_ref, parse_chain, parse_order_by_list,
}
use fundb.Sql.Parser.Select.{Clauses, no_clauses, select_of, parse_clauses, finish_select, parsers}
use fundb.Sql.Parser.Statements.{
  parse_forget, parse_insert, parse_update, parse_delete, parse_remember, parse_recall_by,
}
use fundb.Sql.Parser.Create.{parse_create}
use fundb.Sql.Parser.Causal.{
  parse_estimate_effect_natural, parse_intervene, parse_intervene_after_from,
  parse_counterfactual_dispatch, parse_counterfactual_body, parse_discover_causal,
}
use fundb.Sql.Parser.Understand.{parse_trace_causality_top, parse_understand}

-- A traversal that stands where the table does: it takes the place of a clause's.
unfoldable pub select_from_traverse : Inner → Bool → List SelectItem → Parser Statement
select_from_traverse l distinct projections = do
  start ← expect_ident
  chain ← parse_chain start
  alias ← optional Token.as_kw expect_ident
  c ← parse_clauses l
  let t = Ast.traverse_clause start chain Ast.no_expr Ast.no_expr alias
  pure (Ast.select (select_of distinct projections none (record c { traverse = t })))

-- Behind `FROM`.
unfoldable pub select_from : Inner → Bool → List SelectItem → Parser Statement
select_from l distinct projections = peek >>= λ t.
    if is Token.intervene_kw t
    then (parse_intervene_after_from l projections >>= λ s. pure (Ast.estimate_effect s))
    else if is Token.counterfactual_kw t
    then (parse_counterfactual_body l (items projections) >>= λ s. pure (Ast.counterfactual s))
    else if_eat Token.traverse_kw (select_from_traverse l distinct projections) (do
      table ← parse_table_ref l
      s ← finish_select l distinct projections (some table)
      pure (Ast.select s))

unfoldable pub parse_select_stmt : Inner → Parser Statement
parse_select_stmt l = do
  _ ← expect Token.select_kw
  distinct ← eat Token.distinct_kw
  projections ← parse_projection_list l
  if_eat Token.from_kw (select_from l distinct projections)
      (finish_select l distinct projections none >>= λ s. pure (Ast.select s))

pub data TraverseKey : Type 0 where
  where_key limit_key order_key and_key : TraverseKey

-- `AND` goes on with a condition, if there is one.
unfoldable pub traverse_key : MaybeExpr → Token → Option TraverseKey
traverse_key cond Token.where_kw = some where_key
traverse_key cond Token.limit_kw = some limit_key
traverse_key cond Token.order_kw = some order_key
traverse_key (Ast.some_expr _) Token.and_kw = some and_key
traverse_key cond _ = none

abbrev pub both : MaybeExpr → Expr → MaybeExpr
both (Ast.some_expr cond) extra = Ast.some_expr (Ast.binary_op Ast.and cond extra)
both Ast.no_expr extra = Ast.some_expr extra

unfoldable pub parse_traverse_part : Inner → Clauses → TraverseKey → Parser Clauses
parse_traverse_part l c where_key =
    parse_expr l >>= λ e. pure (record c { where_clause = Ast.some_expr e })
parse_traverse_part l c limit_key =
    parse_expr l >>= λ e. pure (record c { limit = Ast.some_expr e })
parse_traverse_part l c order_key =
    expect Token.by_kw >>= λ _. parse_order_by_list l >>= λ os. pure (record c { order = os })
parse_traverse_part l c and_key =
    parse_expr l >>= λ e. pure (record c { where_clause = both (c.where_clause) e })

unfoldable pub parse_traverse_stmt : Inner → Parser SelectStmt
parse_traverse_stmt l = do
  _ ← expect Token.traverse_kw
  start ← expect_ident
  chain ← parse_chain start
  c ←
      loop
        (λ (c : Clauses).
          match_token (traverse_key (c.where_clause))
            (λ key. parse_traverse_part l c key >>= λ d. pure (go_on d)) (λ _. pure (stop c)))
        no_clauses
  let t = Ast.traverse_clause start chain Ast.no_expr Ast.no_expr none
  pure (select_of false (Ast.wildcard ∷ []) none (record c { traverse = t }))

pub data StatementKind : Type 0 where
  of_select of_insert of_update of_delete of_create of_understand of_remember of_recall of_forget
        of_discover of_trace of_intervene of_counterfactual of_traverse of_estimate of_nothing :
      StatementKind

unfoldable pub statement_kind : Token → Option StatementKind
statement_kind Token.select_kw = some of_select
statement_kind Token.insert_kw = some of_insert
statement_kind Token.update_kw = some of_update
statement_kind Token.delete_kw = some of_delete
statement_kind Token.create_kw = some of_create
statement_kind Token.understand_kw = some of_understand
statement_kind Token.remember_kw = some of_remember
statement_kind Token.recall_kw = some of_recall
statement_kind Token.forget_kw = some of_forget
statement_kind Token.discover_kw = some of_discover
statement_kind Token.trace_kw = some of_trace
statement_kind Token.intervene_kw = some of_intervene
statement_kind Token.counterfactual_kw = some of_counterfactual
statement_kind Token.traverse_kw = some of_traverse
statement_kind Token.eof = some of_nothing
statement_kind t = elim (is_word (codes "estimate") t) [ true ↦ some of_estimate | false ↦ none ]

unfoldable pub parse_kind : Inner → StatementKind → Parser Statement
parse_kind l of_select = parse_select_stmt l
parse_kind l of_insert = parse_insert l >>= λ s. pure (Ast.insert s)
parse_kind l of_update = parse_update l >>= λ s. pure (Ast.update s)
parse_kind l of_delete = parse_delete l >>= λ s. pure (Ast.delete s)
parse_kind l of_create = parse_create l
parse_kind l of_understand = parse_understand l >>= λ s. pure (Ast.understand s)
parse_kind l of_remember = parse_remember l >>= λ s. pure (Ast.remember s)
parse_kind l of_recall = parse_recall_by l >>= λ s. pure (Ast.recall_by_stmt s)
parse_kind l of_forget = parse_forget l >>= λ s. pure (Ast.forget s)
parse_kind l of_discover = parse_discover_causal l >>= λ s. pure (Ast.discover_causal s)
parse_kind l of_trace = parse_trace_causality_top l >>= λ s. pure (Ast.trace_causality s)
parse_kind l of_intervene = parse_intervene l >>= λ s. pure (Ast.estimate_effect s)
parse_kind l of_counterfactual =
    parse_counterfactual_dispatch l >>= λ s. pure (Ast.counterfactual s)
parse_kind l of_traverse = parse_traverse_stmt l >>= λ s. pure (Ast.select s)
parse_kind l of_estimate = parse_estimate_effect_natural l >>= λ s. pure (Ast.estimate_effect s)
parse_kind l of_nothing = error unexpected_end

abbrev pub parse_by_kind : Inner → Token → Option StatementKind → Parser Statement
parse_by_kind l t none = error (unexpected_token t)
parse_by_kind l t (some k) = parse_kind l k

unfoldable pub skip_semicolons : Parser (Unit {0})
skip_semicolons =
    loop (λ (u : Unit {0}). if_eat Token.semicolon (pure (go_on tt)) (pure (stop tt))) tt

unfoldable pub statement_at : Inner → Parser Statement
statement_at l = do
  _ ← skip_semicolons
  t ← peek
  stmt ← parse_by_kind l t (statement_kind t)
  _ ← eat Token.semicolon
  pure stmt

-- With as many levels of nesting as there are tokens.
unfoldable pub parse_statement : Stream → Parsed Statement
parse_statement s = statement_at (parsers (length (s.1))) s
