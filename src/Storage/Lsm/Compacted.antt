-- ===== src/Storage/Lsm/Compacted.antt =====
-- What a compaction does to lookups in the files.
use fundb.Prelude.{
  ℕ, ◌≤◌, ◌<◌, ◌≡◌, refl, sym, ap, ◌∙◌, List, [], ◌∷◌, ◌++◌, map, arith, or_else, length,
  append_assoc, subst, le→ltb, ==_self,
}
use fundb.Order.SortedMap
use fundb.Order.SortedMap.{IsSorted}
use fundb.Core.Record.{RecordKey, key_ord}
use fundb.Storage.Sstable
use fundb.Storage.Sstable.{Entries, SstableReader, Hashing}
use fundb.Storage.Sstable.Merge.{newest, AllSorted}
use fundb.Storage.Sstable.Lookup.{get-finish, get-merge_sstables, sort-IsSorted}
use fundb.Storage.Compaction.{select_files}
use fundb.Storage.Lsm.{LsmTree, put_file, remove_file, remove_files, find_file, trigger_compaction}
use fundb.Storage.Lsm.View.{AllBelow, put_file-newest, find_file-append}

-- Every name is above `name`.
abbrev AllAbove : ℕ → List (ℕ × SstableReader) → Type 0
AllAbove name [] = Unit {0}
AllAbove name (f ∷ fs) = (name < f.0) × AllAbove name fs

-- The listing is in strictly ascending order of names.
abbrev pub NamesAscending : List (ℕ × SstableReader) → Type 0
NamesAscending [] = Unit {0}
NamesAscending (f ∷ fs) = AllAbove f.0 fs × NamesAscending fs

AllAbove-snoc :
    (name n : ℕ) (t : SstableReader) (files : List (ℕ × SstableReader))
    → name < n
    → AllAbove name files
    → AllAbove name (files ++ (n, t) ∷ [])
AllAbove-snoc name n t [] lt a = (lt, tt)
AllAbove-snoc name n t (f ∷ fs) lt a = (a.0, AllAbove-snoc name n t fs lt a.1)

NamesAscending-snoc :
    (n : ℕ) (t : SstableReader) (files : List (ℕ × SstableReader))
    → AllBelow n files
    → NamesAscending files
    → NamesAscending (files ++ (n, t) ∷ [])
NamesAscending-snoc n t [] b a = (tt, tt)
NamesAscending-snoc n t (f ∷ fs) b a =
    (AllAbove-snoc f.0 n t fs b.0 a.0, NamesAscending-snoc n t fs b.1 a.1)

remove_file-above :
    (name : ℕ) (files : List (ℕ × SstableReader))
    → AllAbove name files
    → remove_file name files ≡ files
unfolding remove_file
remove_file-above name [] a = refl
remove_file-above name (f ∷ fs) a = ground (arith, remove_file-above name fs a.1)

remove_file_self :
    (f : ℕ × SstableReader) (fs : List (ℕ × SstableReader))
    → remove_file f.0 (f ∷ fs) ≡ remove_file f.0 fs
unfolding remove_file
remove_file_self f fs = rw (==_self f.0)

remove_head :
    (f : ℕ × SstableReader) (fs : List (ℕ × SstableReader))
    → AllAbove f.0 fs
    → remove_file f.0 (f ∷ fs) ≡ fs
remove_head f fs a = ground (arith, remove_file_self f fs, remove_file-above f.0 fs a)

-- Removing a prefix of the listing leaves the rest.
remove_files-prefix :
    (old rest : List (ℕ × SstableReader))
    → NamesAscending (old ++ rest)
    → remove_files old (old ++ rest) ≡ rest
unfolding remove_files
remove_files-prefix [] rest a = refl
remove_files-prefix (f ∷ fs) rest a = ground (
  arith,
  remove_file-above f.0 (fs ++ rest) a.0,
  remove_files-prefix fs rest a.1,
  remove_head f (fs ++ rest) a.0,
)

module _ (h : Hashing) where
  -- The entries are in order and a lookup answers with them, as `finish` makes them.
  pub record IsFile (t : SstableReader) : Type 0 where
    pub sorted : IsSorted t.entries
    pub answers : (k : RecordKey) → Sstable.get h k t ≡ SortedMap.get k t.entries

  pub finish-IsFile : (es : Entries) → IsSorted es → IsFile (Sstable.finish h es)
  unfolding Sstable.finish
  finish-IsFile es s = record {
    sorted = rw (sort-IsSorted es s) s;
    answers = λ k. get-finish h k es s ∙ ap (SortedMap.get k) (sym (sort-IsSorted es s));
  }

  abbrev pub AllFiles : List (ℕ × SstableReader) → Type 0
  AllFiles [] = Unit {0}
  AllFiles (f ∷ fs) = IsFile f.1 × AllFiles fs

  AllSorted-files : (fs : List (ℕ × SstableReader)) → AllFiles fs → AllSorted (map (λ f. f.1) fs)
  AllSorted-files [] a = tt
  AllSorted-files (f ∷ fs) a = (a.0.sorted, AllSorted-files fs a.1)

  newest-find_file :
      (key : RecordKey) (fs : List (ℕ × SstableReader))
      → AllFiles fs
      → newest key (map (λ f. f.1) fs) ≡ find_file h key fs
  unfolding find_file
  newest-find_file key [] a = refl
  newest-find_file key (f ∷ fs) a = rw (newest-find_file key fs a.1, a.0.answers key)

  single :
      (key : RecordKey) (name : ℕ) (t : SstableReader)
      → find_file h key ((name, t) ∷ []) ≡ Sstable.get h key t
  unfolding find_file
  single key name t = refl

  compacted_files :
      (ts_nanos : ℕ) (s : LsmTree) (old : List (ℕ × SstableReader))
      → select_files s.compaction_policy s.sst_files ≡ old
      → 2 ≤ length old
      → (trigger_compaction h ts_nanos s).sst_files
        ≡ remove_files old
            (put_file ts_nanos (Sstable.merge_sstables h (map (λ f. f.1) old)) s.sst_files)
  unfolding trigger_compaction
  compacted_files ts s old chosen two = rw (chosen, le→ltb (length old) 2 two)

  -- A compaction that merges two or more files `old`, the first of the listing, and leaves the
  -- files `new`, is given a name above all others in an ascending listing: a lookup then prefers
  -- what the merged, older files hold, if each of them is a finished file with its entries in
  -- order.
  pub find_file-trigger_compaction :
      (ts_nanos : ℕ) (key : RecordKey) (s : LsmTree) (old new : List (ℕ × SstableReader))
      → select_files s.compaction_policy s.sst_files ≡ old
      → s.sst_files ≡ old ++ new
      → 2 ≤ length old
      → NamesAscending s.sst_files
      → AllBelow ts_nanos s.sst_files
      → AllFiles old
      → find_file h key (trigger_compaction h ts_nanos s).sst_files
        ≡ or_else (find_file h key old) (find_file h key new)
  find_file-trigger_compaction ts key s old new chosen split two asc below files =
      let m = Sstable.merge_sstables h (map (λ f. f.1) old) in
      let asc' : NamesAscending (old ++ new) = subst NamesAscending split asc in
      let below' : AllBelow ts (old ++ new) = subst (AllBelow ts) split below in
      let placed : put_file ts m (old ++ new) ≡ old ++ (new ++ (ts, m) ∷ []) =
        put_file-newest ts m (old ++ new) below' ∙ append_assoc old new ((ts, m) ∷ []) in
      let whole : NamesAscending (old ++ (new ++ (ts, m) ∷ [])) =
        subst NamesAscending (append_assoc old new ((ts, m) ∷ []))
          (NamesAscending-snoc ts m (old ++ new) below' asc') in
      let left : (trigger_compaction h ts s).sst_files ≡ new ++ (ts, m) ∷ [] =
        compacted_files ts s old chosen two
        ∙ ap (λ l. remove_files old (put_file ts m l)) split
        ∙ ap (remove_files old) placed
        ∙ remove_files-prefix old (new ++ (ts, m) ∷ []) whole in
      let answer : find_file h key ((ts, m) ∷ []) ≡ find_file h key old =
        single key ts m
        ∙ get-merge_sstables h key (map (λ f. f.1) old) (AllSorted-files old files)
        ∙ newest-find_file key old files in
      ap (find_file h key) left
      ∙ find_file-append h key new ((ts, m) ∷ [])
      ∙ ap (λ o. or_else o (find_file h key new)) answer
