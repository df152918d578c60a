-- ===== src/Storage/Sstable/Lookup.antt =====
-- Point lookups and scans of a finished file, against the entries that were written.
use fundb.Prelude.{
  ◌<◌, ◌≡◌, refl, ◌∙◌, Bool, true, none, List, [], ◌∷◌, arith, length, max, Bool-cases, inl, inr,
  ◌⊎◌,
}
use fundb.Order.{is_eq}
use fundb.Order.SortedMap
use fundb.Order.SortedMap.{IsSorted, Above}
use fundb.Core.Record.{RecordKey, FunRecord, key_ord, cmp_key, eq_of_cmp_key}
use fundb.Core.Bloom
use fundb.Core.Bloom.{BloomFilter, bits-new, contains-insert_self, contains-insert, bits-insert}
use fundb.Storage.Sstable.{
  Entries, SstableReader, Hashing, insert_stable, sort_by_key, insert_key, insert_keys, finish,
  may_contain, get, merge_sstables, merged_entries,
}
use fundb.Storage.Sstable.Merge.{merged_entries-IsSorted, get-merged_entries, newest, AllSorted}

insert_stable-Above :
    (k : RecordKey) (r : FunRecord) (xs : Entries)
    → Above k xs
    → insert_stable (k, r) xs ≡ (k, r) ∷ xs
unfolding insert_stable
insert_stable-Above k r [] a = refl
insert_stable-Above k r ((j, q) ∷ xs) a = ground (arith, a.0)

-- Entries in order are written as they are.
pub sort-IsSorted : (xs : Entries) → IsSorted xs → sort_by_key xs ≡ xs
unfolding sort_by_key
sort-IsSorted [] s = refl
sort-IsSorted ((k, r) ∷ xs) s = rw (sort-IsSorted xs s.1) (insert_stable-Above k r xs s.0)

eq_of_is_eq : (a b : RecordKey) → is_eq (cmp_key a b) ≡ true → a ≡ b
eq_of_is_eq a b e = ground (arith, eq_of_cmp_key a b)

module _ (h : Hashing) where
  abbrev found : RecordKey → BloomFilter → Bool
  found key f = Bloom.contains h.xxh3_64 h.xxh3_64_with_seed (h.key_bytes key) f

  insert_key-bits :
      (e : RecordKey × FunRecord) (f : BloomFilter)
      → 0 < length f.bits
      → 0 < length (insert_key h e f).bits
  unfolding insert_key
  insert_key-bits e f le = rw (bits-insert h.xxh3_64 h.xxh3_64_with_seed (h.key_bytes e.0) f) le

  found-insert_key :
      (e : RecordKey × FunRecord) (f : BloomFilter) (key : RecordKey)
      → key ≡ e.0
      → 0 < length f.bits
      → found key (insert_key h e f) ≡ true
  unfolding insert_key
  found-insert_key e f key same le =
      rw same (contains-insert_self h.xxh3_64 h.xxh3_64_with_seed (h.key_bytes e.0) f le)

  found-insert_keys :
      (key : RecordKey) (es : Entries) (f : BloomFilter)
      → 0 < length f.bits
      → found key f ≡ true
      → found key (insert_keys h es f) ≡ true
  unfolding insert_keys
  found-insert_keys key [] f le m = m
  found-insert_keys key (e ∷ es) f le m =
      found-insert_keys key es (insert_key h e f) (insert_key-bits e f le) (
        unfold insert_key in
        contains-insert h.xxh3_64 h.xxh3_64_with_seed (h.key_bytes key) (h.key_bytes e.0) f le m)

  -- The filter has every key that has an entry.
  stored-found :
      (key : RecordKey) (es : Entries) (f : BloomFilter)
      → 0 < length f.bits
      → (SortedMap.get key es ≡ none) ⊎ (found key (insert_keys h es f) ≡ true)
  unfolding insert_keys SortedMap.get
  stored-found key [] f le = inl refl
  stored-found key ((j, r) ∷ es) f le = elim (Bool-cases (is_eq (cmp_key key j))) [
    | inl same ↦ inr (
        found-insert_keys key es (insert_key h (j, r) f) (insert_key-bits (j, r) f le)
          (found-insert_key (j, r) f key (eq_of_is_eq key j same) le))
    | inr other ↦
        rw other (stored-found key es (insert_key h (j, r) f) (insert_key-bits (j, r) f le))
  ]

  -- A file that was written from entries in ascending order answers a point lookup with them:
  -- the filter never hides a key that is there.
  pub get-finish :
      (key : RecordKey) (es : Entries)
      → IsSorted es
      → get h key (finish h es) ≡ SortedMap.get key es
  unfolding get finish may_contain
  get-finish key es s = rw (sort-IsSorted es s) (
      let n = max (length es) 1 in
      ground (
        arith,
        stored-found key es (Bloom.new (h.optimal_bits n) (h.optimal_k n))
            (bits-new (h.optimal_bits n) (h.optimal_k n)),
      ))

  -- If the entries of each input are in strictly ascending order of keys, the merged file answers
  -- a point lookup with the last input that has the key.
  pub get-merge_sstables :
      (key : RecordKey) (inputs : List SstableReader)
      → AllSorted inputs
      → get h key (merge_sstables h inputs) ≡ newest key inputs
  unfolding merge_sstables
  get-merge_sstables key inputs s =
      get-finish key (merged_entries inputs) (merged_entries-IsSorted inputs)
      ∙ get-merged_entries key inputs s
