-- ===== src/Executor/Dispatch/Elided.antt =====
-- A filter above a vector scan.
use fundb.Prelude.{ℕ, zero, suc, ◌≡◌, refl, ap, false, List, arith}
use fundb.Storage.Lsm.{LsmTree}
use fundb.Sql.Plan.{lt, Expr, binary_op, LogicalPlan, filter, vector_scan}
use fundb.Optimizer.Rules.{
  predicate_pushdown, limit_pushdown, eliminate_redundant_project, constant_fold, fold_expr,
  fold_binary, is_vector_dist_predicate, vector_scan_elide_filter, apply_all_rules, optimize_rounds,
  optimize, plans_equal,
}
use fundb.Executor.Dispatch.{Engine, execute_plan, execute}

module _ (c f q : List ℕ) (t : ℕ) (debug : LogicalPlan → List ℕ) where
  rounds-vector_scan : (n : ℕ) → optimize_rounds debug n (vector_scan c f q t) ≡ vector_scan c f q t
  unfolding optimize_rounds apply_all_rules predicate_pushdown limit_pushdown
      eliminate_redundant_project constant_fold vector_scan_elide_filter
  rounds-vector_scan zero = refl
  rounds-vector_scan (suc n) = ground (arith, rounds-vector_scan n)

  -- A filter `l < r` directly above a vector scan is dropped whatever it compares: the result is
  -- that of the scan alone, if `Debug` prints the scan and the filter differently.
  pub execute-elided :
      (g : Engine) (l r : Expr) (s : LsmTree)
      → let plan = filter (vector_scan c f q t) (binary_op lt l r) in
        plans_equal debug (vector_scan c f q t) plan ≡ false
        → execute g debug plan s ≡ execute_plan g (vector_scan c f q t) s
  unfolding execute optimize optimize_rounds apply_all_rules predicate_pushdown limit_pushdown
      eliminate_redundant_project constant_fold vector_scan_elide_filter fold_expr fold_binary
      is_vector_dist_predicate
  execute-elided g l r s differ = ap (λ p. execute_plan g p s) (rw differ (rounds-vector_scan 7))
