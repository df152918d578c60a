-- ===== src/Storage/Lsm/Scan.antt =====
-- A scan against point lookups.
use fundb.Prelude.{
  ◌≡◌, refl, sym, ap, ◌∙◌, Bool, true, not, Option, none, some, List, [], ◌∷◌, arith, or_else,
  retain, ℕ, subst,
}
use fundb.Order.{is_le}
use fundb.Order.SortedMap
use fundb.Order.SortedMap.{Above, IsSorted, Above-trans, get-insert, get-Above, insert-IsSorted}
use fundb.Core.Record.{RecordKey, FunRecord, cmp_key, key_ord}
use fundb.Storage.MemTable
use fundb.Storage.Sstable
use fundb.Storage.Sstable.{Entries, SstableReader, Hashing, skip_below, take_to}
use fundb.Storage.Lsm.{
  LsmTree, in_range, insert_all, merge_files, merge_tables, scan, get, find_record, find_file,
  find_newest, find_entry, is_tombstone, filter_tombstone,
}
use fundb.Storage.Lsm.Compacted.{AllFiles}
use fundb.Storage.Lsm.Ranges.{
  passed, get-insert_all, insert_all-IsSorted, retain-IsSorted, get-retain, range-retain,
  range_sstable-retain,
}

abbrev shown : RecordKey × FunRecord → Bool
shown e = not (is_tombstone e.1)

passed-shown :
    (key : RecordKey) (o : Option FunRecord)
    → passed shown key o ≡ (elim o [ none ↦ none | some r ↦ filter_tombstone r ])
unfolding filter_tombstone
passed-shown key none = refl
passed-shown key (some r) = ground arith

abbrev pub AllTables : List Entries → Type 0
AllTables [] = Unit {0}
AllTables (t ∷ ts) = IsSorted t × AllTables ts

merge_files-IsSorted :
    (from to : RecordKey) (fs : List (ℕ × SstableReader)) (m : Entries)
    → IsSorted m
    → IsSorted (merge_files from to fs m)
unfolding merge_files
merge_files-IsSorted from to [] m s = s
merge_files-IsSorted from to (f ∷ fs) m s =
    merge_files-IsSorted from to fs (insert_all (Sstable.range from to f.1) m)
      (insert_all-IsSorted (Sstable.range from to f.1) m s)

merge_tables-IsSorted :
    (from to : RecordKey) (ts : List Entries) (m : Entries)
    → IsSorted m
    → IsSorted (merge_tables from to ts m)
unfolding merge_tables
merge_tables-IsSorted from to [] m s = s
merge_tables-IsSorted from to (t ∷ ts) m s =
    merge_tables-IsSorted from to ts (insert_all (retain (in_range from to) t) m)
      (insert_all-IsSorted (retain (in_range from to) t) m s)

module _ (h : Hashing) (from to key : RecordKey) (above : is_le (cmp_key from key) ≡ true)
    (below : is_le (cmp_key key to) ≡ true) where
  get-in_range :
      (m : Entries)
      → IsSorted m
      → SortedMap.get key (retain (in_range from to) m) ≡ SortedMap.get key m
  get-in_range m s = ground (arith, get-retain (in_range from to) key m s)

  get-merge_files :
      (fs : List (ℕ × SstableReader)) (m : Entries)
      → AllFiles h fs
      → SortedMap.get key (merge_files from to fs m)
        ≡ or_else (find_file h key fs) (SortedMap.get key m)
  unfolding merge_files find_file
  get-merge_files [] m a = ground arith
  get-merge_files (f ∷ fs) m a =
      let sorted : IsSorted (Sstable.range from to f.1) =
        subst IsSorted (sym (range_sstable-retain from to f.1 a.0.sorted))
          (retain-IsSorted (in_range from to) f.1.entries a.0.sorted) in
      let found : SortedMap.get key (Sstable.range from to f.1) ≡ Sstable.get h key f.1 =
        ap (SortedMap.get key) (range_sstable-retain from to f.1 a.0.sorted)
        ∙ get-in_range f.1.entries a.0.sorted
        ∙ sym (a.0.answers key) in
      ground (
        arith,
        get-merge_files fs (insert_all (Sstable.range from to f.1) m) a.1,
        get-insert_all key (Sstable.range from to f.1) m sorted,
        found,
      )

  get-merge_tables :
      (ts : List Entries) (m : Entries)
      → AllTables ts
      → SortedMap.get key (merge_tables from to ts m)
        ≡ or_else (find_newest key ts) (SortedMap.get key m)
  unfolding merge_tables find_newest find_entry
  get-merge_tables [] m a = ground arith
  get-merge_tables (t ∷ ts) m a = ground (
    arith,
    get-merge_tables ts (insert_all (retain (in_range from to) t) m) a.1,
    get-insert_all key (retain (in_range from to) t) m (retain-IsSorted (in_range from to) t a.0),
    get-in_range t a.0,
  )

  -- A scan holds for each key in its range, both ends included, what a point lookup answers, as
  -- long as all tables and files are in order and every file answers lookups with its entries.
  pub get-scan :
      (s : LsmTree)
      → IsSorted s.active.inner
      → AllTables s.immutables
      → AllFiles h s.sst_files
      → SortedMap.get key (scan from to s) ≡ get h key s
  unfolding scan get
  get-scan s active tables files =
      let live = retain (in_range from to) s.active.inner in
      let base = merge_files from to s.sst_files [] in
      let middle = merge_tables from to s.immutables base in
      let ordered : IsSorted middle =
        merge_tables-IsSorted from to s.immutables base
          (merge_files-IsSorted from to s.sst_files [] tt) in
      let start : MemTable.range from to s.active ≡ live =
        unfold MemTable.range in range-retain from to s.active.inner in
      let whole : SortedMap.get key (insert_all live middle) ≡ find_record h key s =
        get-insert_all key live middle (retain-IsSorted (in_range from to) s.active.inner active)
        ∙ unfold find_record MemTable.get SortedMap.get in
          ground (
            arith,
            get-in_range s.active.inner active,
            get-merge_tables s.immutables base tables,
            get-merge_files s.sst_files [] files,
          ) in
      ap (λ l. SortedMap.get key (retain shown (insert_all l middle))) start
      ∙ get-retain shown key (insert_all live middle) (insert_all-IsSorted live middle ordered)
      ∙ ap (passed shown key) whole
      ∙ passed-shown key (find_record h key s)
