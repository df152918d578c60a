-- ===== src/Storage/Lsm/View.antt =====
-- What a reader of the tree sees: the record that the layers hold for each key.
use fundb.Prelude.{
  ℕ, ◌<◌, ◌≡◌, refl, false, Option, none, some, List, [], ◌∷◌, ◌++◌, arith, if◌then◌else◌, or_else,
}
use fundb.Order.{is_eq}
use fundb.Order.SortedMap
use fundb.Order.SortedMap.{IsSorted, get-insert}
use fundb.Core.Record.{RecordKey, FunRecord, key_ord, cmp_key, Timestamp}
use fundb.Core.Builder
use fundb.Storage.MemTable
use fundb.Storage.MemTable.{MemTable}
use fundb.Storage.Sstable
use fundb.Storage.Sstable.{Entries, SstableReader, Hashing}
use fundb.Storage.Sstable.Lookup.{get-finish}
use fundb.Storage.Compaction.{should_compact}
use fundb.Storage.Wal.{write}
use fundb.Storage.Lsm.{
  LsmTree, FlushTask, put_file, remove_at, find_entry, find_newest, find_file, find_record, get,
  is_tombstone, filter_tombstone, tombstone_record, flush_memtable, run_task, write_record, delete,
}

or_else_assoc : (a b c : Option FunRecord) → or_else a (or_else b c) ≡ or_else (or_else a b) c
or_else_assoc a b c = ground arith

find_newest-append :
    (key : RecordKey) (ts us : List Entries)
    → find_newest key (ts ++ us) ≡ or_else (find_newest key us) (find_newest key ts)
unfolding find_newest
find_newest-append key [] us = ground arith
find_newest-append key (t ∷ ts) us = ground (arith, find_newest-append key ts us)

-- Every name in the directory is below `name`.
abbrev pub AllBelow : ℕ → List (ℕ × SstableReader) → Type 0
AllBelow name [] = Unit {0}
AllBelow name (f ∷ fs) = (f.0 < name) × AllBelow name fs

-- A file with the newest name comes last.
pub put_file-newest :
    (name : ℕ) (t : SstableReader) (files : List (ℕ × SstableReader))
    → AllBelow name files
    → put_file name t files ≡ files ++ (name, t) ∷ []
unfolding put_file
put_file-newest name t [] b = refl
put_file-newest name t ((n, u) ∷ rest) b = ground (arith, put_file-newest name t rest b.1)

pub get-insert_active :
    (size : ℕ) (k j : RecordKey) (r : FunRecord) (t : MemTable)
    → MemTable.get j (MemTable.insert size k r t)
      ≡ (if is_eq (cmp_key j k) then some r else MemTable.get j t)
unfolding MemTable.get MemTable.insert
get-insert_active size k j r t = get-insert k j r t.inner

-- The tree behind the log entry and the insertion of a write.
abbrev inserted : ℕ → RecordKey → FunRecord → LsmTree → LsmTree
inserted record_size k r s = record s {
  wal = s.wal ++ write 0 k r ∷ [];
  active = MemTable.insert record_size k r s.active;
}

filter-tombstone :
    (collection id : List ℕ) (now : Timestamp)
    → filter_tombstone (tombstone_record collection id now) ≡ none
unfolding filter_tombstone tombstone_record is_tombstone Builder.build Builder.set_confidence
filter-tombstone collection id now = refl

module _ (h : Hashing) where
  pub find_file-append :
      (key : RecordKey) (fs gs : List (ℕ × SstableReader))
      → find_file h key (fs ++ gs) ≡ or_else (find_file h key gs) (find_file h key fs)
  unfolding find_file
  find_file-append key [] gs = ground arith
  find_file-append key (f ∷ fs) gs = ground (arith, find_file-append key fs gs)

  find_record-inserted :
      (record_size : ℕ) (k j : RecordKey) (r : FunRecord) (s : LsmTree)
      → find_record h j (inserted record_size k r s)
        ≡ (if is_eq (cmp_key j k) then some r else find_record h j s)
  unfolding find_record
  find_record-inserted size k j r s = ground (arith, get-insert_active size k j r s.active)

  -- If the policy asks for no compaction, a flush changes no lookup.
  pub find_record-flush_memtable :
      (flush_time compaction_time : ℕ) (key : RecordKey) (s : LsmTree)
      → should_compact s.compaction_policy s.sst_files ≡ false
      → find_record h key (flush_memtable h flush_time compaction_time s) ≡ find_record h key s
  unfolding flush_memtable find_record MemTable.freeze
  find_record-flush_memtable ft ct key s quiet =
      rw (quiet, find_newest-append key s.immutables (s.active.inner ∷ []))
        (unfold find_newest find_entry MemTable.get SortedMap.get in ground arith)

  -- The task of the oldest frozen table, if that is in order and the name of its file is above all
  -- others in the directory, changes no lookup.
  pub find_record-run_task :
      (task : FlushTask) (key : RecordKey) (s : LsmTree) (oldest : Entries) (later : List Entries)
      → s.immutables ≡ oldest ∷ later
      → task.imm_idx ≡ 0
      → IsSorted oldest
      → AllBelow task.sst_path s.sst_files
      → find_record h key (run_task h task s) ≡ find_record h key s
  unfolding run_task find_record find_newest remove_at find_file find_entry
  find_record-run_task task key s oldest later e first sorted below =
      let file = Sstable.finish h oldest in
      rw (first, e)
        (ground (
          arith,
          put_file-newest task.sst_path file s.sst_files below,
          find_file-append key s.sst_files ((task.sst_path, file) ∷ []),
          get-finish h key oldest sorted,
        ))

  module _ (record_size flush_time compaction_time : ℕ) where
    -- If the policy asks for no compaction, a write gives its key the new record, which is hidden
    -- if it looks like a tombstone, and leaves what the tree answers for every other key, whether
    -- the memtable is flushed or not.
    pub get-write_record :
        (k j : RecordKey) (r : FunRecord) (s : LsmTree)
        → should_compact s.compaction_policy s.sst_files ≡ false
        → get h j (write_record h record_size flush_time compaction_time k r s)
          ≡ (if is_eq (cmp_key j k) then filter_tombstone r else get h j s)
    unfolding write_record get
    get-write_record k j r s quiet =
        let s' = inserted record_size k r s in
        ground (
          arith,
          find_record-inserted record_size k j r s,
          find_record-flush_memtable flush_time compaction_time j s' quiet,
        )

  -- A deleted key is gone, and every other key answers as before.
  pub get-delete :
      (record_size : ℕ) (id : List ℕ) (now : Timestamp) (k j : RecordKey) (s : LsmTree)
      → get h j (delete record_size id now k s) ≡ (if is_eq (cmp_key j k) then none else get h j s)
  unfolding get delete find_record
  get-delete size id now k j s = ground (
    arith,
    get-insert_active size k j (tombstone_record k.collection id now) s.active,
    filter-tombstone k.collection id now,
  )
