-- ===== src/Executor/Dispatch/Rewrites.antt =====
-- Each rule keeps the result of a plan that it is safe for.
use fundb.Prelude.{◌≡◌, refl, ap, ◌∙◌, Bool, true, false, Option, none, some, map, if◌then◌else◌}
use fundb.Storage.Lsm.{LsmTree}
use fundb.Sql.Plan.{Expr, Exprs, LogicalPlan, scan, vector_scan, filter, project, sort, limit}
use fundb.Optimizer.Rules.{
  predicate_pushdown, limit_pushdown, eliminate_redundant_project, constant_fold, fold_expr,
  fold_sort, fold_option, vector_scan_elide_filter, is_star_only,
}
use fundb.Executor.Batch.{RecordBatch, new, push, rows}
use fundb.Executor.Operators.{keep_rows, filter_batch}
use fundb.Executor.Operators
use fundb.Executor.Dispatch.{Engine, execute_plan, plan_predicate}
use fundb.Executor.Dispatch.Predicates.{scans_vectors, IsSafe, IsPredicateOption, filter-fold_expr}
use fundb.Executor.Batch
use fundb.Executor.Operators.{sort_batch, scan_collection}

-- What a plan gives, with more done to its rows.
abbrev after : (RecordBatch → RecordBatch) → LsmTree × RecordBatch → LsmTree × RecordBatch
after f (s, b) = (s, f b)

module _ (g : Engine) where
  pub execute-predicate_pushdown :
      (plan : LogicalPlan) (s : LsmTree)
      → execute_plan g (predicate_pushdown plan) s ≡ execute_plan g plan s
  unfolding predicate_pushdown execute_plan Operators.project
  execute-predicate_pushdown (filter (project child es) p) s =
      ap (after (filter_batch g.values p)) (execute-predicate_pushdown child s)
  execute-predicate_pushdown (filter input p) s =
      ap (after (filter_batch g.values p)) (execute-predicate_pushdown input s)
  execute-predicate_pushdown (project input es) s =
      ap (after (Operators.project es)) (execute-predicate_pushdown input s)
  execute-predicate_pushdown (limit input n) s =
      ap (after (Batch.truncate n)) (execute-predicate_pushdown input s)
  execute-predicate_pushdown (sort input order_by) s =
      ap (after (sort_batch g.values order_by)) (execute-predicate_pushdown input s)
  execute-predicate_pushdown _ s = refl

  pub execute-limit_pushdown :
      (plan : LogicalPlan) (s : LsmTree)
      → execute_plan g (limit_pushdown plan) s ≡ execute_plan g plan s
  unfolding limit_pushdown execute_plan Operators.project
  execute-limit_pushdown (limit (project child es) n) s =
      ap (after (Batch.truncate n)) (execute-limit_pushdown child s)
  execute-limit_pushdown (limit input n) s =
      ap (after (Batch.truncate n)) (execute-limit_pushdown input s)
  execute-limit_pushdown (filter input p) s =
      ap (after (filter_batch g.values p)) (execute-limit_pushdown input s)
  execute-limit_pushdown (project input es) s =
      ap (after (Operators.project es)) (execute-limit_pushdown input s)
  execute-limit_pushdown (sort input order_by) s =
      ap (after (sort_batch g.values order_by)) (execute-limit_pushdown input s)
  execute-limit_pushdown _ s = refl

  execute-if_project :
      (b : Bool) (es : Exprs) (plan : LogicalPlan) (s : LsmTree)
      → execute_plan g (if b then plan else project plan es) s ≡ execute_plan g plan s
  unfolding execute_plan Operators.project
  execute-if_project true es plan s = refl
  execute-if_project false es plan s = refl

  pub execute-eliminate_redundant_project :
      (plan : LogicalPlan) (s : LsmTree)
      → execute_plan g (eliminate_redundant_project plan) s ≡ execute_plan g plan s
  unfolding eliminate_redundant_project execute_plan Operators.project
  execute-eliminate_redundant_project (project input es) s =
      execute-if_project (is_star_only es) es (eliminate_redundant_project input) s
      ∙ execute-eliminate_redundant_project input s
  execute-eliminate_redundant_project (limit input n) s =
      ap (after (Batch.truncate n)) (execute-eliminate_redundant_project input s)
  execute-eliminate_redundant_project (filter input p) s =
      ap (after (filter_batch g.values p)) (execute-eliminate_redundant_project input s)
  execute-eliminate_redundant_project (sort input order_by) s =
      ap (after (sort_batch g.values order_by)) (execute-eliminate_redundant_project input s)
  execute-eliminate_redundant_project _ s = refl

  plan_predicate-fold :
      (o : Option Expr) (b : RecordBatch)
      → IsPredicateOption o
      → plan_predicate g.values (fold_option o) b ≡ plan_predicate g.values o b
  plan_predicate-fold none b h = refl
  plan_predicate-fold (some p) b h = filter-fold_expr g.values p b h

  pub execute-constant_fold :
      (plan : LogicalPlan) (s : LsmTree)
      → IsSafe plan
      → execute_plan g (constant_fold plan) s ≡ execute_plan g plan s
  unfolding constant_fold execute_plan Operators.project
  execute-constant_fold (scan c p es) s h =
      ap (λ b. (s, b)) (plan_predicate-fold p (scan_collection c s) h)
  execute-constant_fold (filter input p) s h =
      ap (λ r. after (filter_batch g.values (fold_expr p)) r) (execute-constant_fold input s h.0)
      ∙ ap (λ b. ((execute_plan g input s).0, b))
          (filter-fold_expr g.values p (execute_plan g input s).1 h.1)
  execute-constant_fold (project input es) s h = execute-constant_fold input s h
  execute-constant_fold (limit input n) s h =
      ap (after (Batch.truncate n)) (execute-constant_fold input s h)
  execute-constant_fold (sort input order_by) s h =
      ap (λ r. after (sort_batch g.values (map fold_sort order_by)) r)
        (execute-constant_fold input s h.0)
      ∙ ap (λ o. after (sort_batch g.values o) (execute_plan g input s)) h.1
  execute-constant_fold _ s h = refl

  -- Here the predicates are folded.
  pub execute-vector_scan_elide_filter :
      (plan : LogicalPlan) (s : LsmTree)
      → IsSafe plan
      → execute_plan g (vector_scan_elide_filter (constant_fold plan)) s
        ≡ execute_plan g (constant_fold plan) s
  unfolding vector_scan_elide_filter constant_fold execute_plan Operators.project scans_vectors
  execute-vector_scan_elide_filter (filter (vector_scan c f q t) p) s h = rw (h.2 refl) refl
  execute-vector_scan_elide_filter (filter input p) s h =
      ap (after (filter_batch g.values (fold_expr p)))
        (execute-vector_scan_elide_filter input s h.0)
  execute-vector_scan_elide_filter (project input es) s h =
      execute-vector_scan_elide_filter input s h
  execute-vector_scan_elide_filter (limit input n) s h =
      ap (after (Batch.truncate n)) (execute-vector_scan_elide_filter input s h)
  execute-vector_scan_elide_filter (sort input order_by) s h =
      ap (after (sort_batch g.values (map fold_sort order_by)))
        (execute-vector_scan_elide_filter input s h.0)
  execute-vector_scan_elide_filter _ s h = refl
