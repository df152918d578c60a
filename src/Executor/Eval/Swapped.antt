-- ===== src/Executor/Eval/Swapped.antt =====
-- Comparisons with the literal on the left.
use fundb.Prelude.{ℕ, ◌≡◌, refl, Bool, true, false, some, List, arith}
use fundb.Prelude.Text.{codes}
use fundb.Order.Bytes.{cmp_bytes}
use fundb.Core.Record.{FunRecord}
use fundb.Sql.Plan.{Literal, BinaryOp, lt, le, gt, ge, column, literal, binary_op}
use fundb.Executor.Eval.{
  Values, same_name, eval_expr, eval_binary, extract_float, compare_f32, flip_op,
}

-- The operators that have a direction.
abbrev pub has_direction : BinaryOp → Bool
has_direction lt = true
has_direction le = true
has_direction gt = true
has_direction ge = true
has_direction op = false

compare_f32-flip_op :
    (v : Values) (op : BinaryOp) (a b : ℕ)
    → has_direction op ≡ true
    → compare_f32 v b (flip_op op) a ≡ compare_f32 v a op b
unfolding compare_f32 flip_op
compare_f32-flip_op v lt a b h = refl
compare_f32-flip_op v le a b h = refl
compare_f32-flip_op v gt a b h = refl
compare_f32-flip_op v ge a b h = refl
compare_f32-flip_op v op a b h = ground arith

eval_binary-swapped :
    (v : Values) (op : BinaryOp) (l : Literal) (f : ℕ) (r : FunRecord)
    → has_direction op ≡ true
    → extract_float v (literal l) ≡ some f
    → eval_binary v op (literal l) (column (codes "_confidence")) r
      ≡ eval_binary v op (column (codes "_confidence")) (literal l) r
unfolding eval_binary cmp_bytes
eval_binary-swapped v op l f r h number =
    rw (eval_binary, number) (compare_f32-flip_op v op r.confidence (v.f64_as_f32 f) h)

-- `number op _confidence` is evaluated as `_confidence op number`, for `<`, `<=`, `>` and `>=`: the
-- operator is flipped, and the operands are not exchanged with it.
pub eval_confidence_swapped :
    (v : Values) (op : BinaryOp) (l : Literal) (f : ℕ) (r : FunRecord)
    → has_direction op ≡ true
    → extract_float v (literal l) ≡ some f
    → eval_expr v (binary_op op (literal l) (column (codes "_confidence"))) r
      ≡ eval_expr v (binary_op op (column (codes "_confidence")) (literal l)) r
unfolding eval_expr
eval_confidence_swapped v lt l f r h number = eval_binary-swapped v lt l f r h number
eval_confidence_swapped v le l f r h number = eval_binary-swapped v le l f r h number
eval_confidence_swapped v gt l f r h number = eval_binary-swapped v gt l f r h number
eval_confidence_swapped v ge l f r h number = eval_binary-swapped v ge l f r h number
eval_confidence_swapped v op l f r h number = ground arith

-- For every other column, and every literal, `literal op column` is evaluated as the flipped
-- comparison `column op literal`.
pub eval_column_swapped :
    (v : Values) (op : BinaryOp) (l : Literal) (col : List ℕ) (r : FunRecord)
    → has_direction op ≡ true
    → same_name col (codes "_confidence") ≡ false
    → eval_expr v (binary_op op (literal l) (column col)) r
      ≡ eval_expr v (binary_op (flip_op op) (column col) (literal l)) r
unfolding eval_expr eval_binary flip_op
eval_column_swapped v lt l col r h other = ground arith
eval_column_swapped v le l col r h other = ground arith
eval_column_swapped v gt l col r h other = ground arith
eval_column_swapped v ge l col r h other = ground arith
eval_column_swapped v op l col r h other = ground arith
