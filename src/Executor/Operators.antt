-- ===== src/Executor/Operators.antt =====
-- crates/fundb-executor/src/operators: scan.rs, filter.rs, project.rs and sort.rs. The float part of
-- the cosine distance is a parameter.
pub mod Rows
use fundb.Prelude.{
  ℕ, ◌^◌, Bool, true, false, not, ◌||◌, Option, none, some, List, [], ◌∷◌, ◌++◌, length, is_empty,
  replicate, ◌==◌, if◌then◌else◌,
}
use fundb.Prelude.Text.{codes}
use fundb.Order.{Ordering, lt, eq, gt, is_le}
use fundb.Order.Bytes.{cmp_bytes}
use fundb.Core.Record.{RecordKey, FunRecord}
use fundb.Core.Builder.{one_f32}
use fundb.Storage.Lsm
use fundb.Storage.Lsm.{LsmTree}
use fundb.Sql.Plan.{Expr, column, Exprs, SortExpr}
use fundb.Executor.Batch
use fundb.Executor.Batch.{RecordBatch, new, push, rows}
use fundb.Executor.Eval
use fundb.Executor.Eval.{Values, same_name, field, eval_expr}

-- The least id, of 16 bytes.
abbrev pub scan_from : List ℕ → RecordKey
scan_from collection = record { collection = collection; id = replicate 16 0 }

-- The name with the byte 0x7f behind it, and the greatest id.
abbrev pub scan_to : List ℕ → RecordKey
scan_to collection = record { collection = collection ++ 0x7f ∷ []; id = replicate 16 255 }

unfoldable pub scan_collection : List ℕ → LsmTree → RecordBatch
scan_collection collection s =
    Batch.extend (Lsm.scan (scan_from collection) (scan_to collection) s) new

-- `HashMap::get` on the vectors of a record.
unfoldable pub find_vector : List ℕ → List (List ℕ × List ℕ) → Option (List ℕ)
find_vector name [] = none
find_vector name ((n, vec) ∷ rest) = if same_name name n then some vec else find_vector name rest

unfoldable pub project : Exprs → RecordBatch → RecordBatch
project exprs b = b

pub data SortValue : Type 0 where
  float : ℕ → SortValue
  str : List ℕ → SortValue
  null : SortValue

abbrev pub reverse_cmp : Ordering → Ordering
reverse_cmp lt = gt
reverse_cmp eq = eq
reverse_cmp gt = lt

abbrev pub or_eq : Option Ordering → Ordering
or_eq none = eq
or_eq (some o) = o

module _ (v : Values) where
  -- One row at a time.
  unfoldable pub keep_rows : Expr → List (RecordKey × FunRecord) → RecordBatch → RecordBatch
  keep_rows predicate [] result = result
  keep_rows predicate ((key, r) ∷ rest) result =
      keep_rows predicate rest (if eval_expr v predicate r then push key r result else result)

  unfoldable pub filter_batch : Expr → RecordBatch → RecordBatch
  unfolding keep_rows
  filter_batch predicate b = keep_rows predicate (rows b) new

  unfoldable pub cosine_distance : (List ℕ → List ℕ → ℕ) → List ℕ → List ℕ → ℕ
  cosine_distance cosine a b =
      if not (length a == length b) || is_empty a then one_f32 else cosine a b

  unfoldable pub keep_near :
      (List ℕ → List ℕ → ℕ)
      → List ℕ
      → List ℕ
      → ℕ
      → List (RecordKey × FunRecord)
      → RecordBatch
      → RecordBatch
  unfolding cosine_distance
  keep_near cosine vector_field query threshold [] result = result
  keep_near cosine vector_field query threshold ((key, r) ∷ rest) result =
      keep_near cosine vector_field query threshold rest
        (elim (find_vector vector_field r.vectors) [
          | none ↦ result
          | some vec ↦
              if v.f32_lt (cosine_distance cosine query vec) threshold
              then push key r result
              else result
        ])

  unfoldable pub scan_vectors :
      (List ℕ → List ℕ → ℕ) → List ℕ → List ℕ → List ℕ → ℕ → LsmTree → RecordBatch
  unfolding keep_near
  scan_vectors cosine collection vector_field query threshold s =
      keep_near cosine vector_field query threshold (rows (scan_collection collection s)) new

  unfoldable pub sort_field : Option Eval.DataValue → SortValue
  sort_field (some (Eval.int i)) = float (v.i64_as_f64 i)
  sort_field (some (Eval.float f)) = float f
  sort_field (some (Eval.str s)) = str s
  sort_field (some (Eval.bool true)) = float v.f64_one
  sort_field (some (Eval.bool false)) = float 0
  sort_field (some Eval.null) = null
  sort_field none = null

  unfoldable pub extract_sort_value : FunRecord → List ℕ → SortValue
  unfolding sort_field
  extract_sort_value r col =
      if same_name col (codes "_confidence")
      then float (v.f32_as_f64 r.confidence)
      else if same_name col (codes "_collection")
      then str r.collection
      else if same_name col (codes "_tenant")
      then float (v.u32_as_f64 r.tenant)
      else elim (v.from_slice r.payload) [
        | none ↦ null
        | some fields ↦ sort_field (field col fields)
      ]

  -- Nulls come last, and numbers before texts.
  unfoldable pub compare_sort_values : SortValue → SortValue → Ordering
  compare_sort_values null null = eq
  compare_sort_values null b = gt
  compare_sort_values a null = lt
  compare_sort_values (float a) (float b) = or_eq (v.f64_cmp a b)
  compare_sort_values (str a) (str b) = cmp_bytes a b
  compare_sort_values (float a) (str b) = lt
  compare_sort_values (str a) (float b) = gt

  abbrev pub directed : Bool → Ordering → Ordering
  directed asc o = if asc then o else reverse_cmp o

  unfoldable pub compare_records : FunRecord → FunRecord → List SortExpr → Ordering
  unfolding extract_sort_value compare_sort_values
  compare_records a b [] = eq
  compare_records a b (s ∷ rest) =
      let later = compare_records a b rest in
      elim (s.key) [
        | column name ↦
            let o = compare_sort_values (extract_sort_value a name) (extract_sort_value b name) in
            elim o [ lt ↦ directed s.asc lt | gt ↦ directed s.asc gt | eq ↦ later ]
        | _ ↦ later
      ]

  -- `sort_by`, which is stable: a row goes before those that compare equal.
  unfoldable pub insert_row :
      List SortExpr
      → RecordKey × FunRecord
      → List (RecordKey × FunRecord)
      → List (RecordKey × FunRecord)
  insert_row order_by x [] = x ∷ []
  insert_row order_by x (y ∷ ys) =
      if is_le (compare_records x.1 y.1 order_by)
      then x ∷ (y ∷ ys)
      else y ∷ insert_row order_by x ys

  unfoldable pub sort_rows :
      List SortExpr → List (RecordKey × FunRecord) → List (RecordKey × FunRecord)
  unfolding insert_row
  sort_rows order_by [] = []
  sort_rows order_by (x ∷ xs) = insert_row order_by x (sort_rows order_by xs)

  unfoldable pub sort_batch : List SortExpr → RecordBatch → RecordBatch
  unfolding sort_rows
  sort_batch order_by b =
      if is_empty order_by || Batch.has_no_rows b
      then b
      else Batch.extend (sort_rows order_by (rows b)) new
