-- ===== src/Executor/Operators/Rows.antt =====
-- The operators as functions on lists of rows.
use fundb.Prelude.{
  ◌≡◌, refl, sym, ap, ◌∙◌, ◌||◌, List, [], ◌∷◌, ◌++◌, retain, is_empty, append_assoc, append-nil,
  Bool-cases, inl, inr,
}
use mathlib.Core.List.{Perm}
use mathlib.Core.List.Perm
use fundb.Order.{is_le}
use fundb.Core.Record.{RecordKey, FunRecord}
use fundb.Sql.Plan.{Expr, SortExpr}
use fundb.Executor.Batch
use fundb.Executor.Batch.{RecordBatch, rows, push, new, extend, zip}
use fundb.Executor.Batch.Rows.{IsEven, IsEven-push, rows-push, rows-extend-new}
use fundb.Executor.Eval.{Values, eval_expr}
use fundb.Executor.Operators.{
  keep_rows, filter_batch, sort_batch, sort_rows, insert_row, compare_records,
}

module _ (v : Values) where
  rows-keep_rows :
      (p : Expr) (rs : List (RecordKey × FunRecord)) (b : RecordBatch)
      → IsEven b
      → rows (keep_rows v p rs b) ≡ rows b ++ retain (λ row. eval_expr v p row.1) rs
  unfolding keep_rows
  rows-keep_rows p [] b even = sym (append-nil (rows b))
  rows-keep_rows p ((key, r) ∷ rest) b even = elim (Bool-cases (eval_expr v p r)) [
    | inl passes ↦ rw passes (
        rows-keep_rows p rest (push key r b) (IsEven-push key r b even)
        ∙ ap (λ t. t ++ retain (λ row. eval_expr v p row.1) rest) (rows-push key r b even)
        ∙ append_assoc (rows b) ((key, r) ∷ []) (retain (λ row. eval_expr v p row.1) rest))
    | inr fails ↦ rw fails (rows-keep_rows p rest b even)
  ]

  -- The rows of a filtered batch are the rows that pass, in their order.
  pub rows-filter_batch :
      (p : Expr) (b : RecordBatch)
      → rows (filter_batch v p b) ≡ retain (λ row. eval_expr v p row.1) (rows b)
  unfolding filter_batch
  rows-filter_batch p b = rows-keep_rows p (rows b) new refl ∙ (unfold rows zip in refl)

  insert_row-Perm :
      (o : List SortExpr) (x : RecordKey × FunRecord) (xs : List (RecordKey × FunRecord))
      → Perm (insert_row v o x xs) (x ∷ xs)
  unfolding insert_row
  insert_row-Perm o x [] = Perm.rfl
  insert_row-Perm o x (y ∷ ys) = elim (Bool-cases (is_le (compare_records v x.1 y.1 o))) [
    | inl before ↦ rw before Perm.rfl
    | inr after ↦ rw after (Perm.trans (Perm.cons y (insert_row-Perm o x ys)) (Perm.swap x y ys))
  ]

  sort_rows-Perm :
      (o : List SortExpr) (xs : List (RecordKey × FunRecord)) → Perm (sort_rows v o xs) xs
  unfolding sort_rows
  sort_rows-Perm o [] = Perm.rfl
  sort_rows-Perm o (x ∷ xs) =
      Perm.trans (insert_row-Perm o x (sort_rows v o xs)) (Perm.cons x (sort_rows-Perm o xs))

  -- Sorting a batch loses and adds no row, whatever the comparison of floats answers.
  pub sort_batch-Perm :
      (o : List SortExpr) (b : RecordBatch) → Perm (rows (sort_batch v o b)) (rows b)
  unfolding sort_batch
  sort_batch-Perm o b = elim (Bool-cases (is_empty o || Batch.has_no_rows b)) [
    | inl skip ↦ rw skip Perm.rfl
    | inr go ↦ rw (go, rows-extend-new (sort_rows v o (rows b))) (sort_rows-Perm o (rows b))
  ]
