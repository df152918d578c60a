-- ===== src/Executor/Dispatch/Rounds.antt =====
-- The rounds of the optimizer keep the result of every plan that they are safe for.
use fundb.Prelude.{
  ℕ, zero, suc, ◌≡◌, refl, sym, ap, ◌∙◌, Bool, true, false, Option, none, some, List, arith,
  if◌then◌else◌, Bool-cases, inl, inr,
}
use fundb.Storage.Lsm.{LsmTree}
use fundb.Sql.Plan.{Expr, Exprs, LogicalPlan, scan, vector_scan, filter, project, sort, limit}
use fundb.Optimizer.Rules.{
  predicate_pushdown, limit_pushdown, eliminate_redundant_project, constant_fold, fold_option,
  is_vector_dist_predicate, vector_scan_elide_filter, apply_all_rules, optimize_rounds, optimize,
  is_star_only, plans_equal,
}
use fundb.Optimizer.Folding.{IsPredicate-fold_expr, fold_expr_idem}
use fundb.Executor.Dispatch.{Engine, execute_plan, execute}
use fundb.Executor.Dispatch.Predicates.{scans_vectors, IsSafe, IsPredicateOption}
use fundb.Executor.Dispatch.Rewrites.{
  execute-predicate_pushdown, execute-limit_pushdown, execute-eliminate_redundant_project,
  execute-constant_fold, execute-vector_scan_elide_filter,
}

scans_vectors-if_project :
    (b : Bool) (es : Exprs) (plan : LogicalPlan)
    → scans_vectors (if b then plan else project plan es) ≡ scans_vectors plan
unfolding scans_vectors
scans_vectors-if_project true es plan = refl
scans_vectors-if_project false es plan = refl

IsSafe-if_project :
    (b : Bool) (es : Exprs) (plan : LogicalPlan)
    → IsSafe plan
    → IsSafe (if b then plan else project plan es)
IsSafe-if_project true es plan h = h
IsSafe-if_project false es plan h = h

scans_vectors-predicate_pushdown :
    (plan : LogicalPlan) → scans_vectors (predicate_pushdown plan) ≡ scans_vectors plan
unfolding scans_vectors predicate_pushdown
scans_vectors-predicate_pushdown (filter (project child es) p) =
    scans_vectors-predicate_pushdown child
scans_vectors-predicate_pushdown (project input es) = scans_vectors-predicate_pushdown input
scans_vectors-predicate_pushdown (filter input p) = scans_vectors-predicate_pushdown input
scans_vectors-predicate_pushdown (limit input k) = scans_vectors-predicate_pushdown input
scans_vectors-predicate_pushdown (sort input order_by) = scans_vectors-predicate_pushdown input
scans_vectors-predicate_pushdown _ = refl

scans_vectors-limit_pushdown :
    (plan : LogicalPlan) → scans_vectors (limit_pushdown plan) ≡ scans_vectors plan
unfolding scans_vectors limit_pushdown
scans_vectors-limit_pushdown (limit (project child es) k) = scans_vectors-limit_pushdown child
scans_vectors-limit_pushdown (project input es) = scans_vectors-limit_pushdown input
scans_vectors-limit_pushdown (filter input p) = scans_vectors-limit_pushdown input
scans_vectors-limit_pushdown (limit input k) = scans_vectors-limit_pushdown input
scans_vectors-limit_pushdown (sort input order_by) = scans_vectors-limit_pushdown input
scans_vectors-limit_pushdown _ = refl

scans_vectors-eliminate_redundant_project :
    (plan : LogicalPlan) → scans_vectors (eliminate_redundant_project plan) ≡ scans_vectors plan
unfolding scans_vectors eliminate_redundant_project
scans_vectors-eliminate_redundant_project (project input es) =
    scans_vectors-if_project (is_star_only es) es (eliminate_redundant_project input)
    ∙ scans_vectors-eliminate_redundant_project input
scans_vectors-eliminate_redundant_project (filter input p) =
    scans_vectors-eliminate_redundant_project input
scans_vectors-eliminate_redundant_project (limit input k) =
    scans_vectors-eliminate_redundant_project input
scans_vectors-eliminate_redundant_project (sort input order_by) =
    scans_vectors-eliminate_redundant_project input
scans_vectors-eliminate_redundant_project _ = refl

scans_vectors-constant_fold :
    (plan : LogicalPlan) → scans_vectors (constant_fold plan) ≡ scans_vectors plan
unfolding scans_vectors constant_fold
scans_vectors-constant_fold (project input es) = scans_vectors-constant_fold input
scans_vectors-constant_fold (filter input p) = scans_vectors-constant_fold input
scans_vectors-constant_fold (limit input k) = scans_vectors-constant_fold input
scans_vectors-constant_fold (sort input order_by) = scans_vectors-constant_fold input
scans_vectors-constant_fold _ = refl

scans_vectors-vector_scan_elide_filter :
    (plan : LogicalPlan) → scans_vectors (vector_scan_elide_filter plan) ≡ scans_vectors plan
unfolding scans_vectors vector_scan_elide_filter
scans_vectors-vector_scan_elide_filter (project input es) =
    scans_vectors-vector_scan_elide_filter input
scans_vectors-vector_scan_elide_filter (filter (vector_scan c f q t) p) = ground arith
scans_vectors-vector_scan_elide_filter (filter input p) =
    scans_vectors-vector_scan_elide_filter input
scans_vectors-vector_scan_elide_filter (limit input k) =
    scans_vectors-vector_scan_elide_filter input
scans_vectors-vector_scan_elide_filter (sort input order_by) =
    scans_vectors-vector_scan_elide_filter input
scans_vectors-vector_scan_elide_filter _ = refl

IsSafe-predicate_pushdown : (plan : LogicalPlan) → IsSafe plan → IsSafe (predicate_pushdown plan)
unfolding predicate_pushdown scans_vectors
IsSafe-predicate_pushdown (filter (project child es) p) h = (
  IsSafe-predicate_pushdown child h.0,
  h.1,
  λ e. h.2 (sym (scans_vectors-predicate_pushdown child) ∙ e),
)
IsSafe-predicate_pushdown (project input es) h = IsSafe-predicate_pushdown input h
IsSafe-predicate_pushdown (filter input p) h = (
  IsSafe-predicate_pushdown input h.0,
  h.1,
  λ e. h.2 (sym (scans_vectors-predicate_pushdown input) ∙ e),
)
IsSafe-predicate_pushdown (limit input k) h = IsSafe-predicate_pushdown input h
IsSafe-predicate_pushdown (sort input order_by) h = (IsSafe-predicate_pushdown input h.0, h.1)
IsSafe-predicate_pushdown (scan c p es) h = h
IsSafe-predicate_pushdown _ h = tt

IsSafe-limit_pushdown : (plan : LogicalPlan) → IsSafe plan → IsSafe (limit_pushdown plan)
unfolding limit_pushdown
IsSafe-limit_pushdown (limit (project child es) k) h = IsSafe-limit_pushdown child h
IsSafe-limit_pushdown (project input es) h = IsSafe-limit_pushdown input h
IsSafe-limit_pushdown (filter input p) h =
    (IsSafe-limit_pushdown input h.0, h.1, λ e. h.2 (sym (scans_vectors-limit_pushdown input) ∙ e))
IsSafe-limit_pushdown (limit input k) h = IsSafe-limit_pushdown input h
IsSafe-limit_pushdown (sort input order_by) h = (IsSafe-limit_pushdown input h.0, h.1)
IsSafe-limit_pushdown (scan c p es) h = h
IsSafe-limit_pushdown _ h = tt

IsSafe-eliminate_redundant_project :
    (plan : LogicalPlan) → IsSafe plan → IsSafe (eliminate_redundant_project plan)
unfolding eliminate_redundant_project
IsSafe-eliminate_redundant_project (project input es) h =
    IsSafe-if_project (is_star_only es) es (eliminate_redundant_project input)
      (IsSafe-eliminate_redundant_project input h)
IsSafe-eliminate_redundant_project (filter input p) h = (
  IsSafe-eliminate_redundant_project input h.0,
  h.1,
  λ e. h.2 (sym (scans_vectors-eliminate_redundant_project input) ∙ e),
)
IsSafe-eliminate_redundant_project (limit input k) h = IsSafe-eliminate_redundant_project input h
IsSafe-eliminate_redundant_project (sort input order_by) h =
    (IsSafe-eliminate_redundant_project input h.0, h.1)
IsSafe-eliminate_redundant_project (scan c p es) h = h
IsSafe-eliminate_redundant_project _ h = tt

IsPredicateOption-fold : (o : Option Expr) → IsPredicateOption o → IsPredicateOption (fold_option o)
IsPredicateOption-fold none h = h
IsPredicateOption-fold (some p) h = IsPredicate-fold_expr p h

IsSafe-constant_fold : (plan : LogicalPlan) → IsSafe plan → IsSafe (constant_fold plan)
unfolding constant_fold
IsSafe-constant_fold (project input es) h = IsSafe-constant_fold input h
IsSafe-constant_fold (filter input p) h = (
  IsSafe-constant_fold input h.0,
  IsPredicate-fold_expr p h.1,
  λ e.
      ap is_vector_dist_predicate (fold_expr_idem p)
      ∙ h.2 (sym (scans_vectors-constant_fold input) ∙ e),
)
IsSafe-constant_fold (limit input k) h = IsSafe-constant_fold input h
IsSafe-constant_fold (sort input order_by) h = (IsSafe-constant_fold input h.0, rw (h.1) (h.1))
IsSafe-constant_fold (scan c p es) h = IsPredicateOption-fold p h
IsSafe-constant_fold _ h = tt

IsSafe-if_filter :
    (b : Bool) (p : Expr) (plan : LogicalPlan)
    → IsSafe (filter plan p)
    → IsSafe (if b then plan else filter plan p)
IsSafe-if_filter true p plan h = h.0
IsSafe-if_filter false p plan h = h

IsSafe-vector_scan_elide_filter :
    (plan : LogicalPlan) → IsSafe plan → IsSafe (vector_scan_elide_filter plan)
unfolding vector_scan_elide_filter
IsSafe-vector_scan_elide_filter (project input es) h = IsSafe-vector_scan_elide_filter input h
IsSafe-vector_scan_elide_filter (filter (vector_scan c f q t) p) h =
    IsSafe-if_filter (is_vector_dist_predicate p) p (vector_scan c f q t) h
IsSafe-vector_scan_elide_filter (filter input p) h = (
  IsSafe-vector_scan_elide_filter input h.0,
  h.1,
  λ e. h.2 (sym (scans_vectors-vector_scan_elide_filter input) ∙ e),
)
IsSafe-vector_scan_elide_filter (limit input k) h = IsSafe-vector_scan_elide_filter input h
IsSafe-vector_scan_elide_filter (sort input order_by) h =
    (IsSafe-vector_scan_elide_filter input h.0, h.1)
IsSafe-vector_scan_elide_filter (scan c p es) h = h
IsSafe-vector_scan_elide_filter _ h = tt

-- The plan before it is folded, behind the first three rules.
abbrev moved : LogicalPlan → LogicalPlan
moved plan = eliminate_redundant_project (limit_pushdown (predicate_pushdown plan))

IsSafe-moved : (plan : LogicalPlan) → IsSafe plan → IsSafe (moved plan)
IsSafe-moved plan h =
    IsSafe-eliminate_redundant_project (limit_pushdown (predicate_pushdown plan))
      (IsSafe-limit_pushdown (predicate_pushdown plan) (IsSafe-predicate_pushdown plan h))

IsSafe-apply_all_rules : (plan : LogicalPlan) → IsSafe plan → IsSafe (apply_all_rules plan)
unfolding apply_all_rules
IsSafe-apply_all_rules plan h =
    IsSafe-vector_scan_elide_filter (constant_fold (moved plan))
      (IsSafe-constant_fold (moved plan) (IsSafe-moved plan h))

module _ (g : Engine) where
  execute-apply_all_rules :
      (plan : LogicalPlan) (s : LsmTree)
      → IsSafe plan
      → execute_plan g (apply_all_rules plan) s ≡ execute_plan g plan s
  unfolding apply_all_rules
  execute-apply_all_rules plan s h =
      execute-vector_scan_elide_filter g (moved plan) s (IsSafe-moved plan h)
      ∙ execute-constant_fold g (moved plan) s (IsSafe-moved plan h)
      ∙ execute-eliminate_redundant_project g (limit_pushdown (predicate_pushdown plan)) s
      ∙ execute-limit_pushdown g (predicate_pushdown plan) s
      ∙ execute-predicate_pushdown g plan s

  execute-optimize_rounds :
      (debug : LogicalPlan → List ℕ) (n : ℕ) (plan : LogicalPlan) (s : LsmTree)
      → IsSafe plan
      → execute_plan g (optimize_rounds debug n plan) s ≡ execute_plan g plan s
  unfolding optimize_rounds
  execute-optimize_rounds debug zero plan s h = refl
  execute-optimize_rounds debug (suc n) plan s h =
      elim (Bool-cases (plans_equal debug (apply_all_rules plan) plan)) [
        | inl same ↦ rw same refl
        | inr changed ↦ rw changed (
            execute-optimize_rounds debug n (apply_all_rules plan) s (IsSafe-apply_all_rules plan h)
            ∙ execute-apply_all_rules plan s h)
      ]

  -- Optimizing a plan changes neither the rows that it gives nor what it leaves in the storage, if
  -- each of its predicates is a Boolean combination of comparisons with nothing to fold in their
  -- operands, its sort keys have nothing to fold, and no predicate above a vector scan folds to
  -- `<`, `<=` or a vector distance. This holds whatever texts `Debug` prints.
  pub execute-optimize :
      (debug : LogicalPlan → List ℕ) (plan : LogicalPlan) (s : LsmTree)
      → IsSafe plan
      → execute g debug plan s ≡ execute_plan g plan s
  unfolding execute optimize
  execute-optimize debug plan s h = execute-optimize_rounds debug 8 plan s h
