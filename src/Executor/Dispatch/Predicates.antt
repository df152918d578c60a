-- ===== src/Executor/Dispatch/Predicates.antt =====
-- Folding a predicate, and the plans whose predicates the optimizer understands.
use fundb.Prelude.{
  ◌≡◌, refl, ap, ap₂, ◌∙◌, Bool, true, false, not, ◌&&◌, ◌||◌, Option, none, some, List, [], ◌∷◌,
  map, arith, if◌then◌else◌,
}
use fundb.Sql.Plan
use fundb.Sql.Plan.{
  Literal, bool, BinaryOp, eq, ne, lt, le, gt, ge, and, or, add, sub, mul, div, vector_dist,
  UnaryOp, Expr, column, literal, binary_op, unary_op, function_call, param, vector_ref, star,
  Exprs, no_exprs, expr, SortExpr, AggExpr, LogicalPlan, scan, vector_scan, graph_traverse,
  causal_trace, filter, project, join, aggregate, sort, limit, context_optimize, understand,
  estimate_effect, counterfactual, insert, empty,
}
use fundb.Optimizer.Rules.{
  fold_expr, fold_and, fold_or, fold_binary, fold_sort, is_vector_dist_predicate,
}
use fundb.Optimizer.Folding.{IsPredicate}
use fundb.Executor.Eval.{Values, eval_expr, eval_binary}
use fundb.Executor.Batch.{RecordBatch, new, push, rows}
use fundb.Executor.Operators.{keep_rows, filter_batch}
use fundb.Core.Record.{RecordKey, FunRecord}

-- The plan reads from a vector scan.
unfoldable pub scans_vectors : LogicalPlan → Bool
scans_vectors (vector_scan c f q t) = true
scans_vectors (filter input p) = scans_vectors input
scans_vectors (project input es) = scans_vectors input
scans_vectors (limit input n) = scans_vectors input
scans_vectors (sort input order_by) = scans_vectors input
scans_vectors _ = false

abbrev pub IsPredicateOption : Option Expr → Type 0
IsPredicateOption none = Unit {0}
IsPredicateOption (some p) = IsPredicate p

-- Every predicate is a Boolean combination, a sort key has nothing to fold, and no predicate over
-- a vector scan folds to a comparison that the optimizer takes for the scan's own.
abbrev pub IsSafe : LogicalPlan → Type 0
IsSafe (scan c p es) = IsPredicateOption p
IsSafe (filter input p) =
    IsSafe input
    × IsPredicate p
    × (scans_vectors input ≡ true → is_vector_dist_predicate (fold_expr p) ≡ false)
IsSafe (project input es) = IsSafe input
IsSafe (limit input n) = IsSafe input
IsSafe (sort input order_by) = IsSafe input × (map fold_sort order_by ≡ order_by)
IsSafe _ = Unit {0}

eval-fold_and :
    (v : Values) (a b : Expr) (r : FunRecord)
    → eval_expr v (fold_and a b) r ≡ eval_expr v a r && eval_expr v b r
unfolding fold_and eval_expr
eval-fold_and v (literal (bool true)) b r = refl
eval-fold_and v a (literal (bool true)) r = ground arith
eval-fold_and v a b r = refl

eval-fold_or :
    (v : Values) (a b : Expr) (r : FunRecord)
    → eval_expr v (fold_or a b) r ≡ eval_expr v a r || eval_expr v b r
unfolding fold_or eval_expr
eval-fold_or v (literal (bool false)) b r = refl
eval-fold_or v a (literal (bool false)) r = ground arith
eval-fold_or v a b r = refl

abbrev negate : Bool → Bool
negate b = not b

-- Folding a predicate keeps its value on every record.
pub eval-fold_expr :
    (v : Values) (e : Expr) (r : FunRecord)
    → IsPredicate e
    → eval_expr v (fold_expr e) r ≡ eval_expr v e r
unfolding fold_expr fold_binary eval_expr
eval-fold_expr v (binary_op and a b) r h =
    eval-fold_and v (fold_expr a) (fold_expr b) r
    ∙ ap₂ (λ x y. x && y) (eval-fold_expr v a r h.0) (eval-fold_expr v b r h.1)
eval-fold_expr v (binary_op or a b) r h =
    eval-fold_or v (fold_expr a) (fold_expr b) r
    ∙ ap₂ (λ x y. x || y) (eval-fold_expr v a r h.0) (eval-fold_expr v b r h.1)
eval-fold_expr v (binary_op op a b) r h = ap₂ (λ x y. eval_binary v op x y r) h.0 h.1
eval-fold_expr v (unary_op Plan.not e) r h = ap negate (eval-fold_expr v e r h)
eval-fold_expr v _ r h = refl

keep_rows-fold_expr :
    (v : Values) (p : Expr) (rs : List (RecordKey × FunRecord)) (b : RecordBatch)
    → IsPredicate p
    → keep_rows v (fold_expr p) rs b ≡ keep_rows v p rs b
unfolding keep_rows
keep_rows-fold_expr v p [] b h = refl
keep_rows-fold_expr v p ((k, r) ∷ rest) b h =
    rw (eval-fold_expr v p r h)
      (keep_rows-fold_expr v p rest (if eval_expr v p r then push k r b else b) h)

pub filter-fold_expr :
    (v : Values) (p : Expr) (b : RecordBatch)
    → IsPredicate p
    → filter_batch v (fold_expr p) b ≡ filter_batch v p b
unfolding filter_batch
filter-fold_expr v p b h = keep_rows-fold_expr v p (rows b) new h
