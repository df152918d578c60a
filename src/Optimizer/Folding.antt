-- ===== src/Optimizer/Folding.antt =====
-- What constant folding does to an expression.
use fundb.Prelude.{◌≡◌, refl, ap, ap₂, true, false}
use fundb.Sql.Plan
use fundb.Sql.Plan.{
  Literal, bool, BinaryOp, eq, ne, lt, le, gt, ge, and, or, add, sub, mul, div, vector_dist,
  UnaryOp, Expr, column, literal, binary_op, unary_op, function_call, param, vector_ref, star,
  Exprs, no_exprs, expr, SortExpr, AggExpr, LogicalPlan, scan, vector_scan, graph_traverse,
  causal_trace, filter, project, join, aggregate, sort, limit, context_optimize, understand,
  estimate_effect, counterfactual, insert, empty,
}
use fundb.Optimizer.Rules.{fold_expr, fold_exprs, fold_and, fold_or, fold_binary}

fold_and-fixed :
    (a b : Expr) → fold_expr a ≡ a → fold_expr b ≡ b → fold_expr (fold_and a b) ≡ fold_and a b
unfolding fold_expr fold_and fold_binary
fold_and-fixed (literal (bool true)) b ha hb = hb
fold_and-fixed a (literal (bool true)) ha hb = ha
fold_and-fixed a b ha hb = ap₂ fold_and ha hb

fold_or-fixed :
    (a b : Expr) → fold_expr a ≡ a → fold_expr b ≡ b → fold_expr (fold_or a b) ≡ fold_or a b
unfolding fold_expr fold_or fold_binary
fold_or-fixed (literal (bool false)) b ha hb = hb
fold_or-fixed a (literal (bool false)) ha hb = ha
fold_or-fixed a b ha hb = ap₂ fold_or ha hb

fold_binary-fixed :
    (op : BinaryOp) (a b : Expr)
    → fold_expr a ≡ a
    → fold_expr b ≡ b
    → fold_expr (fold_binary op a b) ≡ fold_binary op a b
unfolding fold_expr fold_binary
fold_binary-fixed and a b ha hb = fold_and-fixed a b ha hb
fold_binary-fixed or a b ha hb = fold_or-fixed a b ha hb
fold_binary-fixed op a b ha hb = ap₂ (binary_op op) ha hb

mutual
  unfolding fold_expr

  -- A second folding finds nothing left to do.
  pub fold_expr_idem : (e : Expr) → fold_expr (fold_expr e) ≡ fold_expr e
  fold_expr_idem (binary_op op l r) =
      fold_binary-fixed op (fold_expr l) (fold_expr r) (fold_expr_idem l) (fold_expr_idem r)
  fold_expr_idem (unary_op op e) = ap (unary_op op) (fold_expr_idem e)
  fold_expr_idem (function_call name args) = ap (function_call name) (fold_exprs_idem args)
  fold_expr_idem (column name) = refl
  fold_expr_idem (literal l) = refl
  fold_expr_idem (param name) = refl
  fold_expr_idem (vector_ref name) = refl
  fold_expr_idem star = refl

  fold_exprs_idem : (es : Exprs) → fold_exprs (fold_exprs es) ≡ fold_exprs es
  fold_exprs_idem no_exprs = refl
  fold_exprs_idem (expr e rest) = ap₂ expr (fold_expr_idem e) (fold_exprs_idem rest)

-- A Boolean combination whose comparisons have nothing to fold in their operands.
abbrev pub IsPredicate : Expr → Type 0
IsPredicate (binary_op and l r) = IsPredicate l × IsPredicate r
IsPredicate (binary_op or l r) = IsPredicate l × IsPredicate r
IsPredicate (binary_op op l r) = (fold_expr l ≡ l) × (fold_expr r ≡ r)
IsPredicate (unary_op Plan.not e) = IsPredicate e
IsPredicate _ = Unit {0}

IsPredicate-fold_and : (a b : Expr) → IsPredicate a → IsPredicate b → IsPredicate (fold_and a b)
unfolding fold_and
IsPredicate-fold_and (literal (bool true)) b ha hb = hb
IsPredicate-fold_and a (literal (bool true)) ha hb = ha
IsPredicate-fold_and a b ha hb = (ha, hb)

IsPredicate-fold_or : (a b : Expr) → IsPredicate a → IsPredicate b → IsPredicate (fold_or a b)
unfolding fold_or
IsPredicate-fold_or (literal (bool false)) b ha hb = hb
IsPredicate-fold_or a (literal (bool false)) ha hb = ha
IsPredicate-fold_or a b ha hb = (ha, hb)

pub IsPredicate-fold_expr : (e : Expr) → IsPredicate e → IsPredicate (fold_expr e)
unfolding fold_expr fold_binary
IsPredicate-fold_expr (binary_op and l r) h =
    IsPredicate-fold_and (fold_expr l) (fold_expr r) (IsPredicate-fold_expr l h.0)
      (IsPredicate-fold_expr r h.1)
IsPredicate-fold_expr (binary_op or l r) h =
    IsPredicate-fold_or (fold_expr l) (fold_expr r) (IsPredicate-fold_expr l h.0)
      (IsPredicate-fold_expr r h.1)
IsPredicate-fold_expr (binary_op op l r) h = (fold_expr_idem l, fold_expr_idem r)
IsPredicate-fold_expr (unary_op Plan.not e) h = IsPredicate-fold_expr e h
IsPredicate-fold_expr _ h = tt
