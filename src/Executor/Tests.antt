-- ===== src/Executor/Tests.antt =====
-- The theorems on crates/fundb-optimizer and crates/fundb-executor at a concrete tree.
use fundb.Prelude.{ℕ, ◌+◌, ◌≡◌, refl, true, none, some, List, [], ◌∷◌, ◌++◌, ltb, leb, ◌==◌, not}
use fundb.Prelude.Text.{codes}
use fundb.Order.Bytes.{cmp_bytes}
use fundb.Order.SortedMap
use fundb.Core.Record.{RecordKey, FunRecord, cmp_key}
use fundb.Storage.Sstable.{Hashing}
use fundb.Storage.Compaction.{size_tiered, should_compact}
use fundb.Storage.Lsm.{LsmTree, get, filter_tombstone}
use fundb.Sql.Plan.{
  Expr, column, literal, binary_op, star, int, bool, lt, and, no_exprs, expr, LogicalPlan, scan,
  vector_scan, filter, project, limit, insert,
}
use fundb.Optimizer.Rules.{fold_expr, plans_equal}
use fundb.Executor.Eval.{Values, eval_expr}
use fundb.Core.Record.{is_zero_f32, key_ord}
use fundb.Sql.Plan.{gt}
use fundb.Executor.Eval.Swapped.{eval_confidence_swapped}
use fundb.Storage.MemTable
use fundb.Storage.Lsm.{find_record, is_tombstone}
use fundb.Executor.Eval.{eval_binary, extract_float, compare_f32}
use fundb.Executor.Dispatch.Predicates.{scans_vectors}
use fundb.Executor.Batch.{RecordBatch, rows}
use fundb.Executor.Operators.{scan_collection}
use fundb.Executor.Dispatch.{Engine, execute, execute_plan, row_record}
use fundb.Executor.Dispatch.Rounds.{execute-optimize}
use fundb.Executor.Dispatch.Elided.{execute-elided}
use fundb.Executor.Dispatch.Scans.{get-scan_collection}
use fundb.Executor.Dispatch.Inserts.{get-execute-insert}

-- Numbers stand for floats.
abbrev values : Values
values = record {
  i64_as_f64 = λ n. n;
  u32_as_f64 = λ n. n;
  f32_as_f64 = λ n. n;
  f64_as_f32 = λ n. n;
  i64_as_f32 = λ n. n;
  f64_one = 1;
  f32_lt = ltb;
  f32_le = leb;
  f32_near = λ a b. a == b;
  f32_apart = λ a b. not (a == b);
  f64_lt = ltb;
  f64_le = leb;
  f64_near = λ a b. a == b;
  f64_apart = λ a b. not (a == b);
  f64_cmp = λ a b. none;
  from_slice = λ bytes. none;
}

abbrev sum : List ℕ → ℕ
sum [] = 0
sum (x ∷ xs) = x + sum xs

abbrev hashing : Hashing
hashing = record {
  xxh3_64 = sum;
  xxh3_64_with_seed = λ bytes seed. sum bytes + seed;
  optimal_bits = λ n. 10 + n;
  optimal_k = λ n. 2;
  key_bytes = λ k. k.collection ++ k.id;
}

abbrev engine : Engine
engine = record {
  values = values;
  hashing = hashing;
  record_size = 100;
  cosine = λ a b. 0;
  to_vec = λ fields. [];
  inputs = λ n. record { record_id = n ∷ []; now_ns = 5; flush_time = 20; compaction_time = 21 };
}

-- A record with this confidence.
abbrev holding : ℕ → FunRecord
holding n = record {
  id = 1 ∷ [];
  collection = codes "docs";
  tenant = 0;
  sys_from = 0;
  sys_to = 0;
  valid_from = 0;
  valid_to = 0;
  payload = [];
  vectors = [];
  edges = [];
  timeseries = [];
  confidence = n;
  sources = [];
  supports = [];
  contradicts = [];
  caused_by = [];
  effects = [];
}

abbrev key : List ℕ → RecordKey
key c = record {
  collection = c;
  id = 0 ∷ 1 ∷ 2 ∷ 3 ∷ 4 ∷ 5 ∷ 6 ∷ 7 ∷ 8 ∷ 9 ∷ 10 ∷ 11 ∷ 12 ∷ 13 ∷ 14 ∷ 15 ∷ [];
}

abbrev tree : LsmTree
tree = record {
  active = record {
    inner = (key (codes "docs"), holding 7) ∷ (key (codes "docs2"), holding 9) ∷ [];
    size_bytes = 200;
  };
  wal = [];
  immutables = [];
  sst_files = [];
  tasks = [];
  flush_threshold_bytes = 1000;
  compaction_policy = size_tiered 4;
}

abbrev confident : Expr
confident =
    binary_op and (literal (bool true))
      (binary_op gt (column (codes "_confidence")) (literal (int 3)))

abbrev select : LogicalPlan
select =
    limit (project (filter (scan (codes "docs") none no_exprs) confident) (expr star no_exprs)) 5

-- A text that tells a filter from the rest.
abbrev debug : LogicalPlan → List ℕ
debug (filter p e) = 1 ∷ []
debug _ = []

execute-optimize_example : execute engine debug select tree ≡ execute_plan engine select tree
unfolding fold_expr
execute-optimize_example =
    execute-optimize engine debug select tree
      ((tt, (tt, (refl, refl)), λ e. absurd (unfold scans_vectors in cc)))

execute-elided_example :
    execute engine debug
      (filter
        (vector_scan (codes "docs") (codes "v") [] 1)
        (binary_op lt (literal (int 3)) (literal (int 2))))
      tree
    ≡ execute_plan engine (vector_scan (codes "docs") (codes "v") [] 1) tree
unfolding plans_equal cmp_bytes
execute-elided_example =
    execute-elided (codes "docs") (codes "v") [] 1 debug engine (literal (int 3)) (literal (int 2))
      tree refl

get-scan_collection_example :
    SortedMap.get (key (codes "docs")) (rows (scan_collection (codes "docs") tree))
    ≡ some (holding 7)
unfolding get find_record filter_tombstone is_tombstone is_zero_f32 MemTable.get SortedMap.get
    cmp_key cmp_bytes
get-scan_collection_example =
    get-scan_collection hashing (codes "docs") (key (codes "docs")) tree refl refl
      ((((refl, tt), (tt, tt)), tt, tt))

abbrev batch : RecordBatch
batch = record {
  keys = key (codes "docs") ∷ key (codes "docs2") ∷ [];
  records = holding 2 ∷ holding 9 ∷ [];
}

get-execute-insert_example :
    get hashing
      (record { collection = codes "docs"; id = 0 ∷ [] })
      ((execute engine debug
        (insert
          (codes "docs")
          (codes "_confidence" ∷ [])
          (expr (literal (int 3)) no_exprs ∷ expr (literal (int 0)) no_exprs ∷ []))
        tree).0)
    ≡ filter_tombstone (
        row_record engine
          (codes "docs")
          (codes "_confidence" ∷ [])
          (expr (literal (int 3)) no_exprs)
          (engine.inputs 0))
unfolding cmp_bytes should_compact
get-execute-insert_example =
    get-execute-insert engine debug (codes "docs") (codes "_confidence" ∷ [])
      (expr (literal (int 3)) no_exprs) (expr (literal (int 0)) no_exprs ∷ []) tree refl (refl, tt)

eval_confidence_swapped_example :
    eval_expr values (binary_op lt (literal (int 3)) (column (codes "_confidence"))) (holding 2)
    ≡ true
unfolding eval_expr eval_binary extract_float compare_f32 cmp_bytes
eval_confidence_swapped_example = eval_confidence_swapped values lt (int 3) 3 (holding 2) refl refl
