-- ===== src/Storage/Sstable.antt =====
-- crates/fundb-storage/src/sstable.rs: writer, reader and merge over the entries of a file. The
-- bytes of the file are not part of this model; a reader opened on a finished file holds the
-- writer's sorted entries and its filter.
pub mod Merge
pub mod Lookup
use fundb.Prelude.{
  ℕ, ◌≡◌, Bool, true, false, Option, none, some, List, [], ◌∷◌, ◌++◌, map, if◌then◌else◌, length,
  max,
}
use mathlib.Core.List.{reverse, foldl}
use fundb.Order.{Ordering, lt, eq, gt, is_eq, is_le}
use fundb.Order.SortedMap
use fundb.Core.Record.{RecordKey, FunRecord, key_ord, cmp_key}
use fundb.Core.Bloom
use fundb.Core.Bloom.{BloomFilter}

abbrev pub Entries : Type 0
Entries = List (RecordKey × FunRecord)

pub record SstableReader : Type 0 where
  pub entries : Entries
  pub bloom : BloomFilter

-- `sort_by` on the keys, which is stable: an entry goes before those of the same key.
unfoldable pub insert_stable : RecordKey × FunRecord → Entries → Entries
insert_stable x [] = x ∷ []
insert_stable x (y ∷ ys) = if is_le (cmp_key x.0 y.0) then x ∷ (y ∷ ys) else y ∷ insert_stable x ys

unfoldable pub sort_by_key : Entries → Entries
unfolding insert_stable
sort_by_key [] = []
sort_by_key (x ∷ xs) = insert_stable x (sort_by_key xs)

abbrev pub same_key : Option RecordKey → RecordKey → Bool
same_key none key = false
same_key (some prev) key = is_eq (cmp_key prev key)

-- The loop of `merge_sstables` over the reversed entries: one whose key was just kept is skipped.
unfoldable pub keep_first : Option RecordKey → Entries → Entries
keep_first prev [] = []
keep_first prev ((key, r) ∷ rest) =
    let skipped = keep_first prev rest in
    let kept = (key, r) ∷ keep_first (some key) rest in if same_key prev key then skipped else kept

-- `skip_while(k < from)` by `partition_point`, then `take_while(k <= to)`.
unfoldable pub skip_below : RecordKey → Entries → Entries
skip_below from [] = []
skip_below from ((key, r) ∷ rest) =
    let skipped = skip_below from rest in
    if is_le (cmp_key from key) then (key, r) ∷ rest else skipped

unfoldable pub take_to : RecordKey → Entries → Entries
take_to to [] = []
take_to to ((key, r) ∷ rest) =
    let more = take_to to rest in if is_le (cmp_key key to) then (key, r) ∷ more else []

unfoldable pub range : RecordKey → RecordKey → SstableReader → Entries
unfolding skip_below take_to
range from to t = take_to to (skip_below from t.entries)

-- The concatenation of the inputs' entries, oldest input first.
unfoldable pub all_entries : List SstableReader → Entries
all_entries [] = []
all_entries (t ∷ ts) = t.entries ++ all_entries ts

unfoldable pub merged_entries : List SstableReader → Entries
unfolding all_entries sort_by_key keep_first
merged_entries inputs = reverse (keep_first none (reverse (sort_by_key (all_entries inputs))))

-- The hash functions of the filter, its sizes for a capacity, which are computed with floats, and
-- `rmp_serde::to_vec` on keys.
pub record Hashing : Type 0 where
  pub xxh3_64 : List ℕ → ℕ
  pub xxh3_64_with_seed : List ℕ → ℕ → ℕ
  pub optimal_bits : ℕ → ℕ
  pub optimal_k : ℕ → ℕ
  pub key_bytes : RecordKey → List ℕ

module _ (h : Hashing) where
  unfoldable pub insert_key : RecordKey × FunRecord → BloomFilter → BloomFilter
  insert_key e f = Bloom.insert h.xxh3_64 h.xxh3_64_with_seed (h.key_bytes e.0) f

  unfoldable pub insert_keys : Entries → BloomFilter → BloomFilter
  unfolding insert_key
  insert_keys [] f = f
  insert_keys (e ∷ es) f = insert_keys es (insert_key e f)

  -- `SstableWriter::finish`
  unfoldable pub finish : Entries → SstableReader
  unfolding insert_keys sort_by_key
  finish entries =
      let sorted = sort_by_key entries in
      let capacity = max (length sorted) 1 in
      record {
        entries = sorted;
        bloom = insert_keys sorted (Bloom.new (h.optimal_bits capacity) (h.optimal_k capacity));
      }

  unfoldable pub may_contain : RecordKey → SstableReader → Bool
  may_contain key t = Bloom.contains h.xxh3_64 h.xxh3_64_with_seed (h.key_bytes key) t.bloom

  -- The binary search finds the entry of the key in sorted entries.
  unfoldable pub get : RecordKey → SstableReader → Option FunRecord
  unfolding may_contain
  get key t = if may_contain key t then SortedMap.get key t.entries else none

  unfoldable pub merge_sstables : List SstableReader → SstableReader
  unfolding merged_entries finish
  merge_sstables inputs = finish (merged_entries inputs)
