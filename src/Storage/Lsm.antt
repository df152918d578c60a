-- ===== src/Storage/Lsm.antt =====
-- crates/fundb-storage/src/lsm.rs. The log is the entries that a recovery reads (Storage/Wal); the
-- directory is its files in ascending order of their names, which are creation times in
-- nanoseconds; a flush task that is spawned waits in `tasks` until it runs. Failures of the file
-- system and the block cache, which holds what files answered before, are left out.
pub mod View
pub mod Compacted
pub mod Pending
pub mod Recovery
pub mod Ranges
pub mod Scan
use fundb.Prelude.{
  zero, suc, ℕ, ◌+◌, ◌-◌, ◌*◌, ◌<◌, ◌≡◌, Bool, true, false, not, ◌&&◌, Option, none, some, List, [],
  ◌∷◌, ◌++◌, map, ltb, leb, ◌==◌, if◌then◌else◌, length, retain, get_elem?, or_else,
}
use fundb.Order.{is_le}
use fundb.Order.SortedMap
use fundb.Core.Record.{RecordKey, FunRecord, key_ord, cmp_key, Timestamp, is_zero_f32}
use fundb.Core.Builder
use fundb.Storage.MemTable
use fundb.Storage.MemTable.{MemTable}
use fundb.Storage.Sstable
use fundb.Storage.Sstable.{Entries, SstableReader, Hashing}
use fundb.Storage.Compaction.{CompactionPolicy, leveled, should_compact, select_files}
use fundb.Storage.Wal.{WalEntry, write, deletion, txn_commit, txn_abort, checkpoint}

pub record FlushTask : Type 0 where
  pub imm_idx : ℕ
  pub sst_path : ℕ

pub record LsmTree : Type 0 where
  pub active : MemTable
  pub wal : List WalEntry
  pub immutables : List Entries
  pub sst_files : List (ℕ × SstableReader)
  pub tasks : List FlushTask
  pub flush_threshold_bytes : ℕ
  pub compaction_policy : CompactionPolicy

-- A file written under a name, in its place in the sorted listing.
unfoldable pub put_file : ℕ → SstableReader → List (ℕ × SstableReader) → List (ℕ × SstableReader)
put_file name t [] = (name, t) ∷ []
put_file name t ((n, u) ∷ rest) =
    let later = put_file name t rest in
    if ltb name n
    then (name, t) ∷ ((n, u) ∷ rest)
    else if name == n
    then (name, t) ∷ rest
    else (n, u) ∷ later

unfoldable pub remove_file : ℕ → List (ℕ × SstableReader) → List (ℕ × SstableReader)
remove_file name files = retain (λ f. not (f.0 == name)) files

unfoldable pub remove_files :
    List (ℕ × SstableReader) → List (ℕ × SstableReader) → List (ℕ × SstableReader)
unfolding remove_file
remove_files [] files = files
remove_files (f ∷ fs) files = remove_files fs (remove_file f.0 files)

-- `Vec::remove`, for an index in range.
unfoldable pub remove_at : {A : Type 0} → ℕ → List A → List A
remove_at i [] = []
remove_at zero (x ∷ xs) = xs
remove_at (suc i) (x ∷ xs) = x ∷ remove_at i xs

unfoldable pub is_tombstone : FunRecord → Bool
unfolding is_zero_f32
is_tombstone r = is_zero_f32 r.confidence

unfoldable pub filter_tombstone : FunRecord → Option FunRecord
filter_tombstone r = if is_tombstone r then none else some r

-- `new_record_id` and `now_ns` are what `build` reads from its environment.
unfoldable pub tombstone_record : List ℕ → List ℕ → Timestamp → FunRecord
tombstone_record collection new_record_id now_ns =
    Builder.build new_record_id now_ns (Builder.set_confidence 0 (Builder.new collection))

-- Replay into the active table; deletions are skipped.
unfoldable pub replay : ℕ → MemTable → List WalEntry → MemTable
replay record_size active [] = active
replay record_size active (write txn_id key r ∷ es) =
    replay record_size (MemTable.insert record_size key r active) es
replay record_size active (deletion txn_id key ∷ es) = replay record_size active es
replay record_size active (txn_commit txn_id ∷ es) = replay record_size active es
replay record_size active (txn_abort txn_id ∷ es) = replay record_size active es
replay record_size active (checkpoint lsn ∷ es) = replay record_size active es

-- Search an immutable table, in its order.
unfoldable pub find_entry : RecordKey → Entries → Option FunRecord
find_entry key entries = SortedMap.get key entries

-- The newest of some tables, oldest first, that has the key.
unfoldable pub find_newest : RecordKey → List Entries → Option FunRecord
unfolding find_entry
find_newest key [] = none
find_newest key (t ∷ ts) = or_else (find_newest key ts) (find_entry key t)

-- `open` on a directory with these files and this log.
unfoldable pub open_tree : ℕ → List WalEntry → List (ℕ × SstableReader) → LsmTree
open_tree record_size wal files = record {
  active = replay record_size MemTable.new wal;
  wal = wal;
  immutables = [];
  sst_files = files;
  tasks = [];
  flush_threshold_bytes = 64 * 1024 * 1024;
  compaction_policy = leveled 10 7;
}

unfoldable pub delete : ℕ → List ℕ → Timestamp → RecordKey → LsmTree → LsmTree
delete record_size new_record_id now_ns key s = record s {
  wal = s.wal ++ deletion 0 key ∷ [];
  active =
      MemTable.insert record_size key (tombstone_record key.collection new_record_id now_ns)
        s.active;
}

module _ (h : Hashing) where
  unfoldable pub trigger_compaction : ℕ → LsmTree → LsmTree
  trigger_compaction ts_nanos s =
      let to_merge = select_files s.compaction_policy s.sst_files in
      let merged = Sstable.merge_sstables h (map (λ f. f.1) to_merge) in
      if ltb (length to_merge) 2
      then s
      else record s { sst_files = remove_files to_merge (put_file ts_nanos merged s.sst_files) }

  -- `flush_time` and `compaction_time` are the two readings of the clock.
  unfoldable pub flush_memtable : ℕ → ℕ → LsmTree → LsmTree
  flush_memtable flush_time compaction_time s =
      let immutables = s.immutables ++ MemTable.freeze s.active ∷ [] in
      let task : FlushTask = record { imm_idx = length immutables - 1; sst_path = flush_time } in
      let s' = record s {
        active = MemTable.new;
        immutables = immutables;
        tasks = s.tasks ++ task ∷ [];
      } in
      if should_compact s.compaction_policy s.sst_files
      then trigger_compaction compaction_time s'
      else s'

  -- The spawned task, run to its end at once.
  unfoldable pub run_task : FlushTask → LsmTree → LsmTree
  run_task task s = elim (get_elem? s.immutables task.imm_idx) [
    | none ↦ s
    | some entries ↦ record s {
      sst_files = put_file task.sst_path (Sstable.finish h entries) s.sst_files;
      immutables = remove_at task.imm_idx s.immutables;
    }
  ]

  -- The task that was spawned first runs.
  unfoldable pub run_next : LsmTree → LsmTree
  run_next s = elim s.tasks [ [] ↦ s | task ∷ rest ↦ run_task task (record s { tasks = rest }) ]

  unfoldable pub write_record : ℕ → ℕ → ℕ → RecordKey → FunRecord → LsmTree → LsmTree
  write_record record_size flush_time compaction_time key r s =
      let s' = record s {
        wal = s.wal ++ write 0 key r ∷ [];
        active = MemTable.insert record_size key r s.active;
      } in
      if leb s.flush_threshold_bytes s'.active.size_bytes
      then flush_memtable flush_time compaction_time s'
      else s'

  -- The newest file, oldest first, that answers for the key. The block cache, which `get` asks
  -- before it opens a file and fills with the record that it found, is left out.
  unfoldable pub find_file : RecordKey → List (ℕ × SstableReader) → Option FunRecord
  find_file key [] = none
  find_file key (f ∷ fs) = or_else (find_file key fs) (Sstable.get h key f.1)

  -- What the layers hold for a key: active table, immutable tables and files, newest first.
  unfoldable pub find_record : RecordKey → LsmTree → Option FunRecord
  unfolding find_newest find_file
  find_record key s =
      or_else (MemTable.get key s.active)
        (or_else (find_newest key s.immutables) (find_file key s.sst_files))

  unfoldable pub get : RecordKey → LsmTree → Option FunRecord
  get key s = elim (find_record key s) [ some r ↦ filter_tombstone r | none ↦ none ]

unfoldable pub insert_all : Entries → Entries → Entries
insert_all [] merged = merged
insert_all ((key, r) ∷ es) merged = insert_all es (SortedMap.insert key r merged)

abbrev pub in_range : RecordKey → RecordKey → RecordKey × FunRecord → Bool
in_range from to e = is_le (cmp_key from e.0) && is_le (cmp_key e.0 to)

-- What `scan` collects, oldest source first.
unfoldable pub merge_files : RecordKey → RecordKey → List (ℕ × SstableReader) → Entries → Entries
merge_files from to [] merged = merged
merge_files from to (f ∷ fs) merged =
    merge_files from to fs (insert_all (Sstable.range from to f.1) merged)

unfoldable pub merge_tables : RecordKey → RecordKey → List Entries → Entries → Entries
merge_tables from to [] merged = merged
merge_tables from to (t ∷ ts) merged =
    merge_tables from to ts (insert_all (retain (in_range from to) t) merged)

unfoldable pub scan : RecordKey → RecordKey → LsmTree → Entries
unfolding insert_all merge_files merge_tables
scan from to s =
    let files = merge_files from to s.sst_files [] in
    let tables = merge_tables from to s.immutables files in
    let merged = insert_all (MemTable.range from to s.active) tables in
    retain (λ e. not (is_tombstone e.1)) merged
