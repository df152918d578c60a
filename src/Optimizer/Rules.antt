-- ===== src/Optimizer/Rules.antt =====
-- crates/fundb-optimizer/src/rules.rs and the loop of lib.rs.
use fundb.Prelude.{ℕ, zero, suc, Bool, true, false, Option, none, some, List, map, if◌then◌else◌}
use fundb.Order.{is_eq}
use fundb.Order.Bytes.{cmp_bytes}
use fundb.Sql.Plan.{
  bool, BinaryOp, lt, le, and, or, vector_dist, Expr, column, literal, binary_op, unary_op,
  function_call, param, vector_ref, star, Exprs, no_exprs, expr, SortExpr, AggExpr, LogicalPlan,
  scan, vector_scan, filter, project, join, aggregate, sort, limit, context_optimize,
}

unfoldable pub predicate_pushdown : LogicalPlan → LogicalPlan
predicate_pushdown (filter (project child exprs) predicate) =
    project (filter (predicate_pushdown child) predicate) exprs
predicate_pushdown (filter other predicate) = filter (predicate_pushdown other) predicate
predicate_pushdown (project input exprs) = project (predicate_pushdown input) exprs
predicate_pushdown (join left right condition) =
    join (predicate_pushdown left) (predicate_pushdown right) condition
predicate_pushdown (aggregate input group_by aggregates) =
    aggregate (predicate_pushdown input) group_by aggregates
predicate_pushdown (sort input order_by) = sort (predicate_pushdown input) order_by
predicate_pushdown (limit input n) = limit (predicate_pushdown input) n
predicate_pushdown (context_optimize input options) =
    context_optimize (predicate_pushdown input) options
predicate_pushdown leaf = leaf

unfoldable pub limit_pushdown : LogicalPlan → LogicalPlan
limit_pushdown (limit (project child exprs) n) = project (limit (limit_pushdown child) n) exprs
limit_pushdown (limit other n) = limit (limit_pushdown other) n
limit_pushdown (filter input predicate) = filter (limit_pushdown input) predicate
limit_pushdown (project input exprs) = project (limit_pushdown input) exprs
limit_pushdown (join left right condition) =
    join (limit_pushdown left) (limit_pushdown right) condition
limit_pushdown (aggregate input group_by aggregates) =
    aggregate (limit_pushdown input) group_by aggregates
limit_pushdown (sort input order_by) = sort (limit_pushdown input) order_by
limit_pushdown (context_optimize input options) = context_optimize (limit_pushdown input) options
limit_pushdown leaf = leaf

abbrev pub is_star_only : Exprs → Bool
is_star_only (expr star no_exprs) = true
is_star_only _ = false

unfoldable pub eliminate_redundant_project : LogicalPlan → LogicalPlan
eliminate_redundant_project (project input exprs) =
    let rest = eliminate_redundant_project input in
    if is_star_only exprs then rest else project rest exprs
eliminate_redundant_project (filter input predicate) =
    filter (eliminate_redundant_project input) predicate
eliminate_redundant_project (join left right condition) =
    join (eliminate_redundant_project left) (eliminate_redundant_project right) condition
eliminate_redundant_project (aggregate input group_by aggregates) =
    aggregate (eliminate_redundant_project input) group_by aggregates
eliminate_redundant_project (sort input order_by) =
    sort (eliminate_redundant_project input) order_by
eliminate_redundant_project (limit input n) = limit (eliminate_redundant_project input) n
eliminate_redundant_project (context_optimize input options) =
    context_optimize (eliminate_redundant_project input) options
eliminate_redundant_project leaf = leaf

unfoldable pub fold_and : Expr → Expr → Expr
fold_and (literal (bool true)) right = right
fold_and left (literal (bool true)) = left
fold_and left right = binary_op and left right

unfoldable pub fold_or : Expr → Expr → Expr
fold_or (literal (bool false)) right = right
fold_or left (literal (bool false)) = left
fold_or left right = binary_op or left right

-- The match on the operator, behind the recursive calls.
unfoldable pub fold_binary : BinaryOp → Expr → Expr → Expr
fold_binary and left right = fold_and left right
fold_binary or left right = fold_or left right
fold_binary op left right = binary_op op left right

unfoldable mutual
  pub fold_expr : Expr → Expr
  fold_expr (binary_op op left right) = fold_binary op (fold_expr left) (fold_expr right)
  fold_expr (unary_op op operand) = unary_op op (fold_expr operand)
  fold_expr (function_call name args) = function_call name (fold_exprs args)
  fold_expr (column name) = column name
  fold_expr (literal l) = literal l
  fold_expr (param name) = param name
  fold_expr (vector_ref field) = vector_ref field
  fold_expr star = star

  pub fold_exprs : Exprs → Exprs
  fold_exprs no_exprs = no_exprs
  fold_exprs (expr e rest) = expr (fold_expr e) (fold_exprs rest)

unfoldable pub fold_sort : SortExpr → SortExpr
fold_sort s = record s { key = fold_expr s.key }

unfoldable pub fold_aggregate : AggExpr → AggExpr
fold_aggregate a = record a { arg = fold_expr a.arg }

abbrev pub fold_option : Option Expr → Option Expr
fold_option none = none
fold_option (some e) = some (fold_expr e)

unfoldable pub constant_fold : LogicalPlan → LogicalPlan
constant_fold (filter input predicate) = filter (constant_fold input) (fold_expr predicate)
constant_fold (project input exprs) = project (constant_fold input) (fold_exprs exprs)
constant_fold (join left right condition) =
    join (constant_fold left) (constant_fold right) (fold_expr condition)
constant_fold (aggregate input group_by aggregates) =
    aggregate (constant_fold input) (fold_exprs group_by) (map fold_aggregate aggregates)
constant_fold (sort input order_by) = sort (constant_fold input) (map fold_sort order_by)
constant_fold (limit input n) = limit (constant_fold input) n
constant_fold (context_optimize input options) = context_optimize (constant_fold input) options
constant_fold (scan collection predicate projections) =
    scan collection (fold_option predicate) (fold_exprs projections)
constant_fold leaf = leaf

unfoldable pub is_vector_dist_predicate : Expr → Bool
is_vector_dist_predicate (binary_op vector_dist left right) = true
is_vector_dist_predicate (binary_op lt left right) = true
is_vector_dist_predicate (binary_op le left right) = true
is_vector_dist_predicate _ = false

unfoldable pub vector_scan_elide_filter : LogicalPlan → LogicalPlan
vector_scan_elide_filter (filter (vector_scan collection field query threshold) predicate) =
    let vs = vector_scan collection field query threshold in
    if is_vector_dist_predicate predicate then vs else filter vs predicate
vector_scan_elide_filter (filter other predicate) =
    filter (vector_scan_elide_filter other) predicate
vector_scan_elide_filter (project input exprs) = project (vector_scan_elide_filter input) exprs
vector_scan_elide_filter (join left right condition) =
    join (vector_scan_elide_filter left) (vector_scan_elide_filter right) condition
vector_scan_elide_filter (aggregate input group_by aggregates) =
    aggregate (vector_scan_elide_filter input) group_by aggregates
vector_scan_elide_filter (sort input order_by) = sort (vector_scan_elide_filter input) order_by
vector_scan_elide_filter (limit input n) = limit (vector_scan_elide_filter input) n
vector_scan_elide_filter (context_optimize input options) =
    context_optimize (vector_scan_elide_filter input) options
vector_scan_elide_filter leaf = leaf

unfoldable pub apply_all_rules : LogicalPlan → LogicalPlan
apply_all_rules plan =
    vector_scan_elide_filter
      (constant_fold (eliminate_redundant_project (limit_pushdown (predicate_pushdown plan))))

-- `debug` is the text that the derived `Debug` prints.
module _ (debug : LogicalPlan → List ℕ) where
  unfoldable pub plans_equal : LogicalPlan → LogicalPlan → Bool
  plans_equal a b = is_eq (cmp_bytes (debug a) (debug b))

  -- At most `n` rounds of the loop.
  unfoldable pub optimize_rounds : ℕ → LogicalPlan → LogicalPlan
  optimize_rounds zero current = current
  optimize_rounds (suc n) current =
      let next = apply_all_rules current in
      let rest = optimize_rounds n next in if plans_equal next current then current else rest

  unfoldable pub optimize : LogicalPlan → LogicalPlan
  unfolding optimize_rounds
  optimize plan = optimize_rounds 8 plan
