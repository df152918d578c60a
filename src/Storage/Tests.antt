-- ===== src/Storage/Tests.antt =====
-- The theorems on crates/fundb-storage at concrete files, trees and logs.
use fundb.Prelude.{ℕ, ◌+◌, ◌*◌, ◌≡◌, refl, some, List, [], ◌∷◌, ◌++◌, arith, take, drop}
use fundb.Core.Record.{key_ord, FunRecord, RecordKey, cmp_key, is_zero_f32}
use fundb.Core.Bloom
use fundb.Order.Bytes.{cmp_bytes}
use fundb.Storage.Compaction.{should_compact}
use fundb.Prelude.{or_else}
use fundb.Storage.Wal.{write}
use fundb.Order.SortedMap
use fundb.Order.SortedMap.{IsSorted}
use fundb.Storage.MemTable
use fundb.Storage.MemTable.{MemTable}
use fundb.Storage.Compaction.{size_tiered, select_files}
use fundb.Storage.Sstable
use fundb.Storage.Sstable.{Entries, Hashing, SstableReader, merged_entries, merge_sstables, finish}
use fundb.Storage.Sstable.Merge.{get-merged_entries}
use fundb.Storage.Sstable.Lookup.{get-merge_sstables}
use fundb.Storage.Lsm.{
  filter_tombstone, is_tombstone, LsmTree, get, find_record, find_file, run_next, write_record,
  delete, open_tree, trigger_compaction,
}
use fundb.Storage.Lsm.Scan.{get-scan}
use fundb.Storage.Lsm.{scan}
use fundb.Storage.Lsm.View.{get-write_record}
use fundb.Storage.Lsm.Compacted.{find_file-trigger_compaction, finish-IsFile}
use fundb.Storage.Lsm.Recovery.{reopen_after_delete}
use fundb.Storage.Lsm.Pending.{run_three_stale}

abbrev key : ℕ → RecordKey
key i = record { collection = 99 ∷ []; id = i ∷ [] }

-- A record with confidence 1.0.
abbrev holding : ℕ → FunRecord
holding n = record {
  id = 1 ∷ [];
  collection = 99 ∷ [];
  tenant = 0;
  sys_from = 0;
  sys_to = 0;
  valid_from = 0;
  valid_to = 0;
  payload = n ∷ [];
  vectors = [];
  edges = [];
  timeseries = [];
  confidence = 1065353216;
  sources = [];
  supports = [];
  contradicts = [];
  caused_by = [];
  effects = [];
}

abbrev sum : List ℕ → ℕ
sum [] = 0
sum (x ∷ xs) = x + sum xs

-- A small pair of hash functions.
abbrev hashing : Hashing
hashing = record {
  xxh3_64 = sum;
  xxh3_64_with_seed = λ bytes seed. 7 * sum bytes + seed;
  optimal_bits = λ n. 10 * n;
  optimal_k = λ n. 2;
  key_bytes = λ k. k.collection ++ k.id;
}

abbrev older : Entries
older = (key 1, holding 10) ∷ ((key 2, holding 20) ∷ [])

abbrev newer : Entries
newer = (key 2, holding 21) ∷ ((key 3, holding 31) ∷ [])

older-IsSorted : IsSorted older
unfolding cmp_key cmp_bytes
older-IsSorted = ((refl, tt), (tt, tt))

newer-IsSorted : IsSorted newer
unfolding cmp_key cmp_bytes
newer-IsSorted = ((refl, tt), (tt, tt))

abbrev inputs : List SstableReader
inputs = finish hashing older ∷ (finish hashing newer ∷ [])

abbrev raw_inputs : List SstableReader
raw_inputs =
    record { entries = older; bloom = Bloom.new 64 1 }
    ∷ (record { entries = newer; bloom = Bloom.new 64 1 } ∷ [])

get-merged_entries_example : SortedMap.get (key 2) (merged_entries raw_inputs) ≡ some (holding 21)
unfolding SortedMap.get cmp_key cmp_bytes
get-merged_entries_example =
    get-merged_entries (key 2) raw_inputs (older-IsSorted, (newer-IsSorted, tt))

get-merge_sstables_example :
    Sstable.get hashing (key 2) (merge_sstables hashing raw_inputs) ≡ some (holding 21)
unfolding SortedMap.get cmp_key cmp_bytes
get-merge_sstables_example =
    get-merge_sstables hashing (key 2) raw_inputs (older-IsSorted, (newer-IsSorted, tt))

abbrev numbers : List ℕ
numbers = 1 ∷ (2 ∷ (3 ∷ (4 ∷ (5 ∷ []))))

-- A tree with a record in each layer.
abbrev tree : LsmTree
tree = record {
  active = record { inner = (key 1, holding 11) ∷ []; size_bytes = 300 };
  wal = write 0 (key 1) (holding 11) ∷ [];
  immutables = newer ∷ [];
  sst_files = (5, finish hashing older) ∷ [];
  tasks = record { imm_idx = 0; sst_path = 9 } ∷ [];
  flush_threshold_bytes = 64;
  compaction_policy = size_tiered 4;
}

get-write_record_example :
    get hashing (key 2) (write_record hashing 100 20 21 (key 2) (holding 22) tree)
    ≡ some (holding 22)
unfolding should_compact cmp_key cmp_bytes filter_tombstone is_tombstone is_zero_f32
get-write_record_example = get-write_record hashing 100 20 21 (key 2) (key 2) (holding 22) tree refl

get-scan_example : SortedMap.get (key 2) (scan (key 1) (key 3) tree) ≡ get hashing (key 2) tree
unfolding cmp_key cmp_bytes
get-scan_example =
    get-scan hashing (key 1) (key 3) (key 2) refl refl tree (tt, tt) (newer-IsSorted, tt)
      (finish-IsFile hashing older older-IsSorted, tt)

-- Three files that hold key 2, of which two are merged.
abbrev three_files : List (ℕ × SstableReader)
three_files =
    (1, finish hashing older)
    ∷ ((2, finish hashing newer) ∷ ((3, finish hashing ((key 2, holding 22) ∷ [])) ∷ []))

abbrev filled : LsmTree
filled = record tree { sst_files = three_files; compaction_policy = size_tiered 2 }

find_file-trigger_compaction_example :
    find_file hashing (key 2) (trigger_compaction hashing 9 filled).sst_files
    ≡ or_else
        (find_file hashing (key 2) (take 2 three_files))
        (find_file hashing (key 2) (drop 2 three_files))
unfolding select_files
find_file-trigger_compaction_example =
    find_file-trigger_compaction hashing 9 (key 2) filled (take 2 three_files) (drop 2 three_files)
      refl refl (omega arith) ((omega arith, (omega arith, tt)), ((omega arith, tt), (tt, tt)))
      (omega arith, (omega arith, (omega arith, tt)))
      (finish-IsFile hashing older older-IsSorted, (finish-IsFile hashing newer newer-IsSorted, tt))

reopen_after_delete_example :
    get hashing (key 1) (open_tree 100 (delete 100 (7 ∷ []) 5 (key 1) tree).wal tree.sst_files)
    ≡ some (holding 11)
unfolding cmp_key cmp_bytes filter_tombstone is_tombstone is_zero_f32
reopen_after_delete_example =
    reopen_after_delete 100 hashing (7 ∷ []) 5 (key 1) (holding 11) tree tree.sst_files refl

abbrev waiting : LsmTree
waiting = record tree {
  immutables = older ∷ (older ∷ (newer ∷ []));
  tasks =
      record { imm_idx = 0; sst_path = 7 }
      ∷ (record { imm_idx = 1; sst_path = 8 } ∷ (record { imm_idx = 2; sst_path = 9 } ∷ []));
}

run_three_stale_example :
    (find_record hashing (key 2) waiting ≡ some (holding 21))
    × (find_record hashing (key 2) (run_next hashing (run_next hashing (run_next hashing waiting)))
        ≡ some (holding 20))
unfolding MemTable.get SortedMap.get cmp_key cmp_bytes
run_three_stale_example =
    run_three_stale hashing 7 8 9 older older newer waiting (key 2) (holding 20) (holding 21) refl
      refl refl refl refl
