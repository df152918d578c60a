-- ===== src/Storage/Lsm/Pending.antt =====
-- Flush tasks that wait: each keeps the index that its table had when it was spawned.
use fundb.Prelude.{ℕ, ◌≡◌, none, some, [], ◌∷◌, arith}
use fundb.Order.SortedMap
use fundb.Order.SortedMap.{IsSorted}
use fundb.Core.Record.{RecordKey, FunRecord, key_ord}
use fundb.Storage.MemTable
use fundb.Storage.Sstable
use fundb.Storage.Sstable.{Entries, SstableReader, Hashing}
use fundb.Storage.Lsm.{
  LsmTree, remove_at, put_file, find_entry, find_newest, find_record, run_task, run_next,
}

module _ (h : Hashing) where
  -- When three frozen tables wait for their tasks and the tasks run in order, the second task
  -- writes the third table and drops it, and the second table stays in memory, without a task.
  pub run_three :
      (p q r : ℕ) (a b c : Entries) (s : LsmTree)
      → s.immutables ≡ a ∷ (b ∷ (c ∷ []))
      → s.tasks
        ≡ record { imm_idx = 0; sst_path = p }
          ∷ (record { imm_idx = 1; sst_path = q } ∷ (record { imm_idx = 2; sst_path = r } ∷ []))
      → let t = run_next h (run_next h (run_next h s)) in
        (t.immutables ≡ b ∷ [])
        × (t.tasks ≡ [])
        × (t.sst_files
            ≡ put_file q (Sstable.finish h c) (put_file p (Sstable.finish h a) s.sst_files))
  unfolding run_next run_task remove_at
  run_three p q r a b c s i t = ground arith

  active-run_next : (s : LsmTree) → (run_next h s).active ≡ s.active
  unfolding run_next run_task
  active-run_next s = ground arith

  -- Three frozen tables wait for their tasks, which run in order: a key that is in the last two of
  -- them, and not in the active table, is answered with the newer of its two records before, and
  -- with the older one when the tasks are done.
  pub run_three_stale :
      (p q r : ℕ) (a b c : Entries) (s : LsmTree) (key : RecordKey) (old new : FunRecord)
      → s.immutables ≡ a ∷ (b ∷ (c ∷ []))
      → s.tasks
        ≡ record { imm_idx = 0; sst_path = p }
          ∷ (record { imm_idx = 1; sst_path = q } ∷ (record { imm_idx = 2; sst_path = r } ∷ []))
      → MemTable.get key s.active ≡ none
      → SortedMap.get key b ≡ some old
      → SortedMap.get key c ≡ some new
      → (find_record h key s ≡ some new)
        × (find_record h key (run_next h (run_next h (run_next h s))) ≡ some old)
  unfolding find_record find_newest find_entry
  run_three_stale p q r a b c s key old new i t act inb inc = ground (
    arith,
    run_three p q r a b c s i t,
    active-run_next s,
    active-run_next (run_next h s),
    active-run_next (run_next h (run_next h s)),
  )
