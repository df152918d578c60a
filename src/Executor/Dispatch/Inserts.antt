-- ===== src/Executor/Dispatch/Inserts.antt =====
-- What an insertion leaves in the storage.
use fundb.Prelude.{ℕ, zero, suc, ◌≡◌, refl, ◌∙◌, false, List, [], ◌∷◌, arith, length}
use fundb.Order.{is_eq}
use fundb.Order.Bytes.{cmp_bytes, cmp_bytes_refl}
use fundb.Core.Record.{RecordKey, FunRecord, cmp_key, cmp_key_refl}
use fundb.Core.Builder
use fundb.Storage.Sstable.{Hashing}
use fundb.Storage.Lsm.{LsmTree, get, filter_tombstone, write_record, flush_memtable}
use fundb.Storage.Lsm.View.{get-write_record}
use fundb.Storage.Compaction.{should_compact}
use fundb.Prelude.{none, ap}
use fundb.Prelude.Text.{codes}
use fundb.Storage.Lsm.{is_tombstone}
use fundb.Core.Record.{is_zero_f32}
use fundb.Optimizer.Rules.{
  optimize, optimize_rounds, apply_all_rules, predicate_pushdown, limit_pushdown,
  eliminate_redundant_project, constant_fold, vector_scan_elide_filter,
}
use fundb.Sql.Plan.{int, Expr, literal, Exprs, no_exprs, expr, LogicalPlan, insert}
use fundb.Executor.Dispatch.{
  Engine, insert_rows, row_record, execute_plan, execute, eval_expr_to_value, set_columns,
  set_column, confidence_value,
}

-- The policy asks for no compaction of the files.
abbrev pub IsQuiet : LsmTree → Type 0
IsQuiet s = should_compact s.compaction_policy s.sst_files ≡ false

module _ (h : Hashing) (size flush_time compaction_time : ℕ) where
  IsQuiet-write_record :
      (k : RecordKey) (r : FunRecord) (s : LsmTree)
      → IsQuiet s
      → IsQuiet (write_record h size flush_time compaction_time k r s)
  unfolding write_record flush_memtable
  IsQuiet-write_record k r s quiet = ground arith

module _ (g : Engine) where
  -- None of the `k` inputs from the n-th on has this id.
  abbrev pub IsFresh : List ℕ → ℕ → ℕ → Type 0
  IsFresh id n zero = Unit {0}
  IsFresh id n (suc k) =
      (is_eq (cmp_bytes id ((g.inputs n).record_id)) ≡ false) × IsFresh id (suc n) k

  abbrev key_of : List ℕ → ℕ → RecordKey
  key_of c n = record { collection = c; id = (g.inputs n).record_id }

  get-insert_rows_fresh :
      (n : ℕ) (c id : List ℕ) (columns : List (List ℕ)) (rest : List Exprs) (s : LsmTree)
      → IsQuiet s
      → IsFresh id n (length rest)
      → let key : RecordKey = record { collection = c; id = id } in
        get g.hashing key (insert_rows g n c columns rest s) ≡ get g.hashing key s
  unfolding insert_rows row_record Builder.build
  get-insert_rows_fresh n c id columns [] s quiet fresh = refl
  get-insert_rows_fresh n c id columns (row ∷ rest) s quiet fresh =
      let x = g.inputs n in
      let r = row_record g c columns row x in
      let key : RecordKey = record { collection = c; id = id } in
      let s' =
        write_record g.hashing g.record_size x.flush_time x.compaction_time (key_of c n) r s in
      get-insert_rows_fresh (suc n) c id columns rest s'
        (IsQuiet-write_record g.hashing g.record_size x.flush_time x.compaction_time (key_of c n) r
          s quiet)
        fresh.1
      ∙ get-write_record g.hashing g.record_size x.flush_time x.compaction_time (key_of c n) key r s
          quiet
      ∙ (unfold cmp_key in rw (cmp_bytes_refl c, fresh.0) refl)

  get-insert_rows :
      (n : ℕ) (c : List ℕ) (columns : List (List ℕ)) (row : Exprs) (rest : List Exprs) (s : LsmTree)
      → IsQuiet s
      → IsFresh ((g.inputs n).record_id) (suc n) (length rest)
      → get g.hashing (key_of c n) (insert_rows g n c columns (row ∷ rest) s)
        ≡ filter_tombstone (row_record g c columns row (g.inputs n))
  unfolding insert_rows row_record Builder.build
  get-insert_rows n c columns row rest s quiet fresh =
      let x = g.inputs n in
      let r = row_record g c columns row x in
      let s' =
        write_record g.hashing g.record_size x.flush_time x.compaction_time (key_of c n) r s in
      get-insert_rows_fresh (suc n) c x.record_id columns rest s'
        (IsQuiet-write_record g.hashing g.record_size x.flush_time x.compaction_time (key_of c n) r
          s quiet)
        fresh
      ∙ get-write_record g.hashing g.record_size x.flush_time x.compaction_time (key_of c n)
          (key_of c n) r s quiet
      ∙ rw (cmp_key_refl (key_of c n)) refl

  rounds-insert :
      (debug : LogicalPlan → List ℕ) (n : ℕ) (c : List ℕ) (columns : List (List ℕ))
      (values : List Exprs)
      → optimize_rounds debug n (insert c columns values) ≡ insert c columns values
  unfolding optimize_rounds apply_all_rules predicate_pushdown limit_pushdown
      eliminate_redundant_project constant_fold vector_scan_elide_filter
  rounds-insert debug zero c columns values = refl
  rounds-insert debug (suc n) c columns values =
      ground (arith, rounds-insert debug n c columns values)

  -- After an INSERT its first row answers to a point lookup, unless its record looks like a
  -- tombstone, if the policy asks for no compaction and no later row gets the same id.
  pub get-execute-insert :
      (debug : LogicalPlan → List ℕ) (c : List ℕ) (columns : List (List ℕ)) (row : Exprs)
      (rest : List Exprs) (s : LsmTree)
      → IsQuiet s
      → IsFresh ((g.inputs 0).record_id) 1 (length rest)
      → get g.hashing (key_of c 0) ((execute g debug (insert c columns (row ∷ rest)) s).0)
        ≡ filter_tombstone (row_record g c columns row (g.inputs 0))
  unfolding execute optimize
  get-execute-insert debug c columns row rest s quiet fresh =
      ap (λ plan. get g.hashing (key_of c 0) ((execute_plan g plan s).0))
        (rounds-insert debug 8 c columns (row ∷ rest))
      ∙ (unfold execute_plan in get-insert_rows 0 c columns row rest s quiet fresh)

  -- A row with `_confidence` 0 in its last column is written, and no lookup finds it.
  pub insert_zero_confidence :
      (debug : LogicalPlan → List ℕ) (c name : List ℕ) (e : Expr) (s : LsmTree)
      → IsQuiet s
      → g.values.i64_as_f32 0 ≡ 0
      → get g.hashing (key_of c 0) (
          (execute g debug
            (insert c
              (name ∷ codes "_confidence" ∷ [])
              (expr e (expr (literal (int 0)) no_exprs) ∷ []))
            s).0)
        ≡ none
  insert_zero_confidence debug c name e s quiet zero_f32 =
      get-execute-insert debug c (name ∷ codes "_confidence" ∷ [])
        (expr e (expr (literal (int 0)) no_exprs)) [] s quiet tt
      ∙ (unfold row_record set_columns set_column confidence_value eval_expr_to_value
            filter_tombstone is_tombstone is_zero_f32 Builder.build Builder.set_confidence
            Builder.set_payload cmp_bytes in
          rw zero_f32 refl)
