-- ===== src/Executor/Eval.antt =====
-- crates/fundb-executor/src/operators/filter.rs: a predicate on one record. Arithmetic on floats and
-- the MessagePack decoder are parameters.
pub mod Swapped
use fundb.Prelude.{
  ℕ, Bool, true, false, not, ◌&&◌, ◌||◌, Option, none, some, List, [], ◌∷◌, if◌then◌else◌,
}
use fundb.Prelude.Text.{codes}
use fundb.Order.{Ordering, is_eq, is_le}
use fundb.Order.Bytes.{cmp_bytes}
use fundb.Core.Record.{FunRecord}
use fundb.Sql.Plan
use fundb.Sql.Plan.{
  Literal, BinaryOp, eq, ne, lt, le, gt, ge, and, or, UnaryOp, Expr, column, literal, binary_op,
  unary_op, function_call, param, vector_ref, star,
}

pub data DataValue : Type 0 where
  bool : Bool → DataValue
  int : ℕ → DataValue
  float : ℕ → DataValue
  str : List ℕ → DataValue
  null : DataValue

-- Floats by their bits: conversions, `<` and `<=`, `(a - b).abs() < EPSILON` and `>= EPSILON`, and
-- `partial_cmp`; `f64_one` is 1.0. `from_slice` is `rmp_serde::from_slice` for a map of values.
pub record Values : Type 0 where
  pub i64_as_f64 : ℕ → ℕ
  pub u32_as_f64 : ℕ → ℕ
  pub f32_as_f64 : ℕ → ℕ
  pub f64_as_f32 : ℕ → ℕ
  pub i64_as_f32 : ℕ → ℕ
  pub f64_one : ℕ
  pub f32_lt : ℕ → ℕ → Bool
  pub f32_le : ℕ → ℕ → Bool
  pub f32_near : ℕ → ℕ → Bool
  pub f32_apart : ℕ → ℕ → Bool
  pub f64_lt : ℕ → ℕ → Bool
  pub f64_le : ℕ → ℕ → Bool
  pub f64_near : ℕ → ℕ → Bool
  pub f64_apart : ℕ → ℕ → Bool
  pub f64_cmp : ℕ → ℕ → Option Ordering
  pub from_slice : List ℕ → Option (List (List ℕ × DataValue))

abbrev pub same_name : List ℕ → List ℕ → Bool
same_name a b = is_eq (cmp_bytes a b)

-- `HashMap::get`
abbrev pub field : List ℕ → List (List ℕ × DataValue) → Option DataValue
field col [] = none
field col ((name, v) ∷ rest) = if same_name col name then some v else field col rest

unfoldable pub flip_op : BinaryOp → BinaryOp
flip_op lt = gt
flip_op le = ge
flip_op gt = lt
flip_op ge = le
flip_op other = other

unfoldable pub compare_str : List ℕ → BinaryOp → List ℕ → Bool
compare_str a eq b = same_name a b
compare_str a ne b = not (same_name a b)
compare_str a lt b = not (is_le (cmp_bytes b a))
compare_str a le b = is_le (cmp_bytes a b)
compare_str a gt b = not (is_le (cmp_bytes a b))
compare_str a ge b = is_le (cmp_bytes b a)
compare_str a op b = true

unfoldable pub compare_bool : Bool → BinaryOp → Bool → Bool
compare_bool true eq b = b
compare_bool false eq b = not b
compare_bool true ne b = not b
compare_bool false ne b = b
compare_bool a op b = true

module _ (v : Values) where
  unfoldable pub compare_f32 : ℕ → BinaryOp → ℕ → Bool
  compare_f32 a eq b = v.f32_near a b
  compare_f32 a ne b = v.f32_apart a b
  compare_f32 a lt b = v.f32_lt a b
  compare_f32 a le b = v.f32_le a b
  compare_f32 a gt b = v.f32_lt b a
  compare_f32 a ge b = v.f32_le b a
  compare_f32 a op b = true

  unfoldable pub compare_f64 : ℕ → BinaryOp → ℕ → Bool
  compare_f64 a eq b = v.f64_near a b
  compare_f64 a ne b = v.f64_apart a b
  compare_f64 a lt b = v.f64_lt a b
  compare_f64 a le b = v.f64_le a b
  compare_f64 a gt b = v.f64_lt b a
  compare_f64 a ge b = v.f64_le b a
  compare_f64 a op b = true

  unfoldable pub extract_float : Expr → Option ℕ
  extract_float (literal (Plan.float f)) = some f
  extract_float (literal (Plan.int i)) = some (v.i64_as_f64 i)
  extract_float _ = none

  -- `(DataValue::…, lit_expr)` of a user's field; a numeric literal is one with a float.
  unfoldable pub compare_field : DataValue → BinaryOp → Expr → Bool
  unfolding extract_float
  compare_field (int i) op lit = elim (extract_float lit) [
    | some rhs ↦ compare_f64 (v.i64_as_f64 i) op rhs
    | none ↦ false
  ]
  compare_field (float f) op lit = elim (extract_float lit) [
    | some rhs ↦ compare_f64 f op rhs
    | none ↦ false
  ]
  compare_field (str a) op (literal (Plan.string s)) = compare_str a op s
  compare_field (bool a) op (literal (Plan.bool b)) = compare_bool a op b
  compare_field _ op lit = false

  -- A field that the record does not have counts as null; data that does not decode passes.
  unfoldable pub compare_user_field : List ℕ → BinaryOp → Expr → FunRecord → Bool
  unfolding compare_field
  compare_user_field col op lit r = elim (v.from_slice r.payload) [
    | none ↦ true
    | some fields ↦ elim (field col fields) [
      | none ↦ false
      | some value ↦ compare_field value op lit
    ]
  ]

  unfoldable pub compare_collection : BinaryOp → Expr → FunRecord → Bool
  compare_collection op (literal (Plan.string s)) r = compare_str r.collection op s
  compare_collection op lit r = true

  unfoldable pub eval_column_vs_literal : List ℕ → BinaryOp → Expr → FunRecord → Bool
  unfolding compare_collection compare_user_field extract_float
  eval_column_vs_literal col op lit r =
      if same_name col (codes "_collection")
      then compare_collection op lit r
      else if same_name col (codes "_tenant")
      then elim (extract_float lit) [
        | some rhs ↦ compare_f64 (v.u32_as_f64 r.tenant) op rhs
        | none ↦ true
      ]
      else if same_name col (codes "_confidence")
      then elim (extract_float lit) [
        | some rhs ↦ compare_f32 r.confidence op (v.f64_as_f32 rhs)
        | none ↦ true
      ]
      else compare_user_field col op lit r

  -- Both orders of a column and a literal; a comparison of anything else passes.
  unfoldable pub eval_binary : BinaryOp → Expr → Expr → FunRecord → Bool
  unfolding eval_column_vs_literal extract_float
  eval_binary op (column col) right r = elim (extract_float right) [
    | some rhs ↦
        if same_name col (codes "_confidence")
        then compare_f32 r.confidence op (v.f64_as_f32 rhs)
        else eval_column_vs_literal col op right r
    | none ↦ eval_column_vs_literal col op right r
  ]
  eval_binary op left (column col) r = elim (extract_float left) [
    | some lhs ↦
        if same_name col (codes "_confidence")
        then compare_f32 (v.f64_as_f32 lhs) (flip_op op) r.confidence
        else eval_column_vs_literal col (flip_op op) left r
    | none ↦ eval_column_vs_literal col (flip_op op) left r
  ]
  eval_binary op left right r = true

  unfoldable pub eval_expr : Expr → FunRecord → Bool
  unfolding eval_binary
  eval_expr (literal (Plan.bool b)) r = b
  eval_expr (literal Plan.null) r = false
  eval_expr (binary_op and left right) r = eval_expr left r && eval_expr right r
  eval_expr (binary_op or left right) r = eval_expr left r || eval_expr right r
  eval_expr (unary_op Plan.not operand) r = not (eval_expr operand r)
  eval_expr (binary_op op left right) r = eval_binary op left right r
  eval_expr _ r = true
