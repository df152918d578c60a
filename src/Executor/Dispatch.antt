-- ===== src/Executor/Dispatch.antt =====
-- crates/fundb-executor/src/lib.rs. What the environment gives to each inserted row is an argument:
-- the new UUID, the clock's readings.
pub mod Predicates
pub mod Rewrites
pub mod Rounds
pub mod Elided
pub mod Scans
pub mod Inserts
use fundb.Prelude.{ℕ, suc, Bool, Option, none, some, List, [], ◌∷◌, map, if◌then◌else◌}
use fundb.Prelude.Text.{codes}
use fundb.Order.Bytes.{bytes_ord}
use fundb.Order.SortedMap
use fundb.Core.Record.{RecordKey, FunRecord, Timestamp}
use fundb.Core.Builder
use fundb.Core.Builder.{FunRecordBuilder, build, set_confidence, set_payload}
use fundb.Storage.Sstable.{Hashing}
use fundb.Storage.Lsm.{LsmTree, write_record}
use fundb.Sql.Plan
use fundb.Sql.Plan.{
  Expr, literal, Exprs, no_exprs, expr, LogicalPlan, scan, vector_scan, filter, project, limit,
  sort, insert, empty,
}
use fundb.Optimizer.Rules.{optimize}
use fundb.Executor.Eval.{Values, same_name}
use fundb.Executor.Batch.{RecordBatch, new, truncate}
use fundb.Executor.Operators
use fundb.Executor.Operators.{scan_collection, scan_vectors, filter_batch, sort_batch}

pub data MsgValue : Type 0 where
  str : List ℕ → MsgValue
  int : ℕ → MsgValue
  float : ℕ → MsgValue
  bool : Bool → MsgValue
  null : MsgValue
  array : List ℕ → MsgValue

pub record RowInputs : Type 0 where
  pub record_id : List ℕ
  pub now_ns : Timestamp
  pub flush_time : ℕ
  pub compaction_time : ℕ

-- What the executor uses of other packages, the storage's parameters, and the environment of the
-- n-th row that an insertion writes. `to_vec` is `rmp_serde::to_vec` on a map of values.
pub record Engine : Type 0 where
  pub values : Values
  pub hashing : Hashing
  pub record_size : ℕ
  pub cosine : List ℕ → List ℕ → ℕ
  pub to_vec : List (List ℕ × MsgValue) → List ℕ
  pub inputs : ℕ → RowInputs

abbrev pub plan_predicate : Values → Option Expr → RecordBatch → RecordBatch
plan_predicate v none b = b
plan_predicate v (some predicate) b = filter_batch v predicate b

module _ (g : Engine) where
  unfoldable pub eval_expr_to_value : Expr → MsgValue
  eval_expr_to_value (literal (Plan.string s)) = str s
  eval_expr_to_value (literal (Plan.int i)) = int i
  eval_expr_to_value (literal (Plan.float f)) = float f
  eval_expr_to_value (literal (Plan.bool b)) = bool b
  eval_expr_to_value (literal Plan.null) = null
  eval_expr_to_value (literal (Plan.vector vec)) = array (map g.values.f32_as_f64 vec)
  eval_expr_to_value _ = null

  unfoldable pub confidence_value : MsgValue → FunRecordBuilder → FunRecordBuilder
  confidence_value (float f) b = set_confidence (g.values.f64_as_f32 f) b
  confidence_value (int i) b = set_confidence (g.values.i64_as_f32 i) b
  confidence_value _ b = b

  -- The confidence goes to the builder, every other column to the map. The map is kept in the order
  -- of its keys; the code's HashMap has an order of its own, in which the values are serialised.
  unfoldable pub set_column :
      List ℕ
      → MsgValue
      → List (List ℕ × MsgValue) × FunRecordBuilder
      → List (List ℕ × MsgValue) × FunRecordBuilder
  unfolding confidence_value
  set_column name value (data_map, b) =
      if same_name name (codes "_confidence")
      then (data_map, confidence_value value b)
      else (SortedMap.insert name value data_map, b)

  -- A value behind the last column is named `_unknown`.
  unfoldable pub set_columns :
      List (List ℕ)
      → Exprs
      → List (List ℕ × MsgValue) × FunRecordBuilder
      → List (List ℕ × MsgValue) × FunRecordBuilder
  unfolding set_column eval_expr_to_value
  set_columns columns no_exprs acc = acc
  set_columns [] (expr e rest) acc =
      set_columns [] rest (set_column (codes "_unknown") (eval_expr_to_value e) acc)
  set_columns (name ∷ columns) (expr e rest) acc =
      set_columns columns rest (set_column name (eval_expr_to_value e) acc)

  unfoldable pub row_record : List ℕ → List (List ℕ) → Exprs → RowInputs → FunRecord
  unfolding set_columns
  row_record collection columns row x =
      let (data_map, b) = set_columns columns row ([], Builder.new collection) in
      build x.record_id x.now_ns (set_payload (g.to_vec data_map) b)

  -- The rows from the n-th on.
  unfoldable pub insert_rows : ℕ → List ℕ → List (List ℕ) → List Exprs → LsmTree → LsmTree
  unfolding row_record
  insert_rows n collection columns [] s = s
  insert_rows n collection columns (row ∷ rest) s =
      let x = g.inputs n in
      let r = row_record collection columns row x in
      let key : RecordKey = record { collection = collection; id = r.id } in
      insert_rows (suc n) collection columns rest
        (write_record g.hashing g.record_size x.flush_time x.compaction_time key r s)

  unfoldable pub execute_plan : LogicalPlan → LsmTree → LsmTree × RecordBatch
  execute_plan (scan collection predicate projections) s = (
    s,
    Operators.project projections
        (plan_predicate g.values predicate (scan_collection collection s)),
  )
  execute_plan (vector_scan collection vector_field query threshold) s =
      (s, scan_vectors g.values g.cosine collection vector_field query threshold s)
  execute_plan (filter input predicate) s =
      let (s', b) = execute_plan input s in (s', filter_batch g.values predicate b)
  execute_plan (project input exprs) s =
      let (s', b) = execute_plan input s in (s', Operators.project exprs b)
  execute_plan (limit input n) s = let (s', b) = execute_plan input s in (s', truncate n b)
  execute_plan (sort input order_by) s =
      let (s', b) = execute_plan input s in (s', sort_batch g.values order_by b)
  execute_plan (insert collection columns values) s =
      (insert_rows 0 collection columns values s, new)
  execute_plan _ s = (s, new)

  unfoldable pub execute : (LogicalPlan → List ℕ) → LogicalPlan → LsmTree → LsmTree × RecordBatch
  execute debug plan s = execute_plan (optimize debug plan) s
