-- ===== src/Storage/Lsm/Ranges.antt =====
-- Sorted entries: inserting some into others, and cutting out a range of keys.
use fundb.Prelude.{
  ◌≡◌, refl, ◌∙◌, Bool, true, false, Option, none, some, [], ◌∷◌, arith, if◌then◌else◌, or_else,
  retain, Bool-cases, inl, inr,
}
use fundb.Order.{is_le}
use fundb.Order.SortedMap
use fundb.Order.SortedMap.{Above, IsSorted, Above-trans, get-insert, get-Above, insert-IsSorted}
use fundb.Core.Record.{
  RecordKey, FunRecord, cmp_key, key_ord, eq_of_cmp_key, gt_of_lt_key, lt_of_gt_key, lt_trans_key,
}
use fundb.Storage.Sstable
use fundb.Storage.Sstable.{Entries, SstableReader, Hashing, skip_below, take_to}
use fundb.Storage.Lsm.{in_range, insert_all}

pub get-insert_all :
    (k : RecordKey) (es m : Entries)
    → IsSorted es
    → SortedMap.get k (insert_all es m) ≡ or_else (SortedMap.get k es) (SortedMap.get k m)
unfolding insert_all SortedMap.get
get-insert_all k [] m s = ground arith
get-insert_all k ((j, r) ∷ es) m s = ground (
  arith,
  get-insert_all k es (SortedMap.insert j r m) s.1,
  get-insert j k r m,
  get-Above j es s.0,
  eq_of_cmp_key k j,
)

pub insert_all-IsSorted : (es m : Entries) → IsSorted m → IsSorted (insert_all es m)
unfolding insert_all
insert_all-IsSorted [] m s = s
insert_all-IsSorted ((j, r) ∷ es) m s =
    insert_all-IsSorted es (SortedMap.insert j r m) (insert-IsSorted j r m s)

retain-Above :
    (p : RecordKey × FunRecord → Bool) (k : RecordKey) (m : Entries)
    → Above k m
    → Above k (retain p m)
retain-Above p k [] a = tt
retain-Above p k (e ∷ m) a = ground (arith, retain-Above p k m a.1)

pub retain-IsSorted :
    (p : RecordKey × FunRecord → Bool) (m : Entries) → IsSorted m → IsSorted (retain p m)
retain-IsSorted p [] s = tt
retain-IsSorted p ((j, r) ∷ m) s = ground (arith, retain-IsSorted p m s.1, retain-Above p j m s.0)

-- The record that a lookup finds, if it passes a test.
abbrev pub passed : (RecordKey × FunRecord → Bool) → RecordKey → Option FunRecord → Option FunRecord
passed p k none = none
passed p k (some r) = if p (k, r) then some r else none

pub get-retain :
    (p : RecordKey × FunRecord → Bool) (k : RecordKey) (m : Entries)
    → IsSorted m
    → SortedMap.get k (retain p m) ≡ passed p k (SortedMap.get k m)
unfolding SortedMap.get
get-retain p k [] s = refl
get-retain p k ((j, r) ∷ m) s = ground (
  arith,
  get-retain p k m s.1,
  get-Above j m s.0,
  get-Above j (retain p m) (retain-Above p j m s.0),
  eq_of_cmp_key k j,
)

-- `SortedMap.range` keeps the entries in the range.
pub range-retain :
    (from to : RecordKey) (m : Entries) → SortedMap.range from to m ≡ retain (in_range from to) m
unfolding SortedMap.range
range-retain from to [] = refl
range-retain from to ((j, r) ∷ m) = ground (arith, range-retain from to m)

-- Behind a key that is above the range nothing is in it.
retain-behind :
    (from to j : RecordKey) (m : Entries)
    → is_le (cmp_key j to) ≡ false
    → Above j m
    → retain (in_range from to) m ≡ []
retain-behind from to j [] h a = refl
retain-behind from to j ((i, r) ∷ m) h a = ground (
  arith,
  lt_of_gt_key j to,
  lt_trans_key to j i,
  gt_of_lt_key to i,
  retain-behind from to j m h a.1,
)

-- No key is below `from`.
abbrev AtLeast : RecordKey → Entries → Type 0
AtLeast from [] = Unit {0}
AtLeast from ((j, r) ∷ m) = (is_le (cmp_key from j) ≡ true) × AtLeast from m

AtLeast-Above :
    (from j : RecordKey) (m : Entries) → is_le (cmp_key from j) ≡ true → Above j m → AtLeast from m
AtLeast-Above from j [] h a = tt
AtLeast-Above from j ((i, r) ∷ m) h a =
    ground (arith, AtLeast-Above from j m h a.1, lt_trans_key from j i, eq_of_cmp_key from j)

take_to-retain :
    (from to : RecordKey) (m : Entries)
    → IsSorted m
    → AtLeast from m
    → take_to to m ≡ retain (in_range from to) m
unfolding take_to
take_to-retain from to [] s a = refl
take_to-retain from to ((j, r) ∷ m) s a =
    ground (arith, take_to-retain from to m s.1 a.1, retain-behind from to j m)

skip_below-retain :
    (from to : RecordKey) (m : Entries)
    → IsSorted m
    → take_to to (skip_below from m) ≡ retain (in_range from to) m
unfolding skip_below
skip_below-retain from to [] s = unfold take_to in refl
skip_below-retain from to ((j, r) ∷ m) s = elim (Bool-cases (is_le (cmp_key from j))) [
  | inl here ↦
      rw here (
        take_to-retain from to ((j, r) ∷ m) s (here, AtLeast-Above from j m here s.0)
        ∙ ground arith)
  | inr below ↦ rw below (skip_below-retain from to m s.1)
]

pub range_sstable-retain :
    (from to : RecordKey) (t : SstableReader)
    → IsSorted t.entries
    → Sstable.range from to t ≡ retain (in_range from to) t.entries
unfolding Sstable.range
range_sstable-retain from to t s = skip_below-retain from to t.entries s
