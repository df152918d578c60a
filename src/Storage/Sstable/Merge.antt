-- ===== src/Storage/Sstable/Merge.antt =====
-- What a merge of files holds: for each key the entry of the newest file that has one.
use fundb.Prelude.{
  ◌≡◌, refl, ap, ◌∙◌, Bool, true, false, Option, none, some, List, [], ◌∷◌, ◌++◌, arith,
  if◌then◌else◌, append-nil, Bool-cases, ap₂, inl, inr, or_else,
}
use mathlib.Core.List.{reverse, reverse-cons, reverse-append}
use fundb.Order.{lt, is_eq, is_le}
use fundb.Order.SortedMap
use fundb.Order.SortedMap.{IsSorted, Above}
use fundb.Core.Record.{
  RecordKey, FunRecord, key_ord, cmp_key, cmp_key_refl, eq_of_cmp_key, lt_of_gt_key, lt_trans_key,
}
use fundb.Storage.Sstable.{
  Entries, SstableReader, insert_stable, sort_by_key, same_key, keep_first, all_entries,
  merged_entries,
}

-- The last entry of a key.
unfoldable pub get_last : RecordKey → Entries → Option FunRecord
get_last k [] = none
get_last k ((j, r) ∷ rest) =
    or_else (get_last k rest) (if is_eq (cmp_key k j) then some r else none)

get_last-append :
    (k : RecordKey) (xs ys : Entries)
    → get_last k (xs ++ ys) ≡ or_else (get_last k ys) (get_last k xs)
unfolding get_last
get_last-append k [] ys = ground arith
get_last-append k ((j, r) ∷ xs) ys = ground (arith, get_last-append k xs ys)

get_last-insert_stable :
    (k : RecordKey) (x : RecordKey × FunRecord) (xs : Entries)
    → get_last k (insert_stable x xs) ≡ get_last k (x ∷ xs)
unfolding get_last insert_stable
get_last-insert_stable k (j, r) [] = refl
get_last-insert_stable k (j, r) ((i, q) ∷ ys) = ground (
  arith,
  get_last-insert_stable k (j, r) ys,
  eq_of_cmp_key k j,
  eq_of_cmp_key k i,
  cmp_key_refl k,
)

-- The sort is stable, so it keeps the last entry of each key.
get_last-sort : (k : RecordKey) (xs : Entries) → get_last k (sort_by_key xs) ≡ get_last k xs
unfolding sort_by_key get_last
get_last-sort k [] = refl
get_last-sort k ((j, r) ∷ xs) =
    ground (arith, get_last-insert_stable k (j, r) (sort_by_key xs), get_last-sort k xs)

-- No key lies below `k`.
abbrev From : RecordKey → Entries → Type 0
From k [] = Unit {0}
From k ((j, r) ∷ rest) = (is_le (cmp_key k j) ≡ true) × From k rest

abbrev Ascending : Entries → Type 0
Ascending [] = Unit {0}
Ascending ((j, r) ∷ rest) = From j rest × Ascending rest

le_trans_key :
    (a b c : RecordKey)
    → is_le (cmp_key a b) ≡ true
    → is_le (cmp_key b c) ≡ true
    → is_le (cmp_key a c) ≡ true
le_trans_key a b c h k = ground (arith, lt_trans_key a b c, eq_of_cmp_key a b, eq_of_cmp_key b c)

From-trans : (k j : RecordKey) (xs : Entries) → is_le (cmp_key k j) ≡ true → From j xs → From k xs
From-trans k j [] h f = tt
From-trans k j ((i, r) ∷ xs) h f = (le_trans_key k j i h f.0, From-trans k j xs h f.1)

From-insert :
    (k j : RecordKey) (r : FunRecord) (xs : Entries)
    → is_le (cmp_key k j) ≡ true
    → From k xs
    → From k (insert_stable (j, r) xs)
unfolding insert_stable
From-insert k j r [] h f = (h, tt)
From-insert k j r ((i, q) ∷ xs) h f = ground (arith, From-insert k j r xs)

insert_stable-Ascending :
    (j : RecordKey) (r : FunRecord) (xs : Entries)
    → Ascending xs
    → Ascending (insert_stable (j, r) xs)
unfolding insert_stable
insert_stable-Ascending j r [] a = (tt, tt)
insert_stable-Ascending j r ((i, q) ∷ xs) a = ground (
  arith,
  insert_stable-Ascending j r xs,
  From-trans j i xs,
  From-insert i j r xs,
  lt_of_gt_key j i,
)

sort-Ascending : (xs : Entries) → Ascending (sort_by_key xs)
unfolding sort_by_key
sort-Ascending [] = tt
sort-Ascending ((j, r) ∷ xs) = insert_stable-Ascending j r (sort_by_key xs) (sort-Ascending xs)

-- The key that the loop remembers after some entries.
abbrev final : Option RecordKey → Entries → Option RecordKey
final prev [] = prev
final prev ((j, r) ∷ rest) = final (some j) rest

final-snoc :
    (prev : Option RecordKey) (xs : Entries) (k : RecordKey) (r : FunRecord)
    → final prev (xs ++ (k, r) ∷ []) ≡ some k
final-snoc prev [] k r = refl
final-snoc prev ((j, q) ∷ xs) k r = final-snoc (some j) xs k r

keep_first-snoc :
    (prev : Option RecordKey) (xs : Entries) (k : RecordKey) (r : FunRecord)
    → keep_first prev (xs ++ (k, r) ∷ [])
      ≡ keep_first prev xs ++ (if same_key (final prev xs) k then [] else (k, r) ∷ [])
unfolding keep_first
keep_first-snoc prev [] k r = ground arith
keep_first-snoc none ((j, q) ∷ xs) k r = ground (arith, keep_first-snoc (some j) xs k r)
keep_first-snoc (some p) ((j, q) ∷ xs) k r =
    ground
      (arith, keep_first-snoc (some j) xs k r, keep_first-snoc (some p) xs k r, eq_of_cmp_key p j)

abbrev first_key : Entries → Option RecordKey
first_key [] = none
first_key ((j, r) ∷ rest) = some j

-- The same loop from the front: an entry that the next one's key repeats is dropped.
unfoldable pub keep_last : Entries → Entries
keep_last [] = []
keep_last ((j, r) ∷ rest) =
    let kept = keep_last rest in if same_key (first_key rest) j then kept else (j, r) ∷ kept

final-reverse : (xs : Entries) → final none (reverse xs) ≡ first_key xs
final-reverse [] = refl
final-reverse ((j, r) ∷ xs) = rw (reverse-cons (j, r) xs) (final-snoc none (reverse xs) j r)

reverse-snoc_if :
    (xs : Entries) (b : Bool) (x : RecordKey × FunRecord)
    → reverse (xs ++ (if b then [] else x ∷ [])) ≡ (if b then reverse xs else x ∷ reverse xs)
reverse-snoc_if xs true x = rw append-nil
reverse-snoc_if xs false x = reverse-append xs (x ∷ [])

keep_first-keep_last : (xs : Entries) → reverse (keep_first none (reverse xs)) ≡ keep_last xs
unfolding keep_last
keep_first-keep_last [] = unfold keep_first in refl
keep_first-keep_last ((j, r) ∷ xs) =
    ap (λ l. reverse (keep_first none l)) (reverse-cons (j, r) xs)
    ∙ ap reverse (keep_first-snoc none (reverse xs) j r)
    ∙ reverse-snoc_if (keep_first none (reverse xs)) (same_key (final none (reverse xs)) j) (j, r)
    ∙ ground (arith, final-reverse xs, keep_first-keep_last xs)

Above-keep_last : (k : RecordKey) (xs : Entries) → Above k xs → Above k (keep_last xs)
unfolding keep_last
Above-keep_last k [] a = tt
Above-keep_last k ((j, r) ∷ xs) a = ground (arith, Above-keep_last k xs a.1)

Above-of_From : (k j : RecordKey) (xs : Entries) → cmp_key k j ≡ lt → From j xs → Above k xs
Above-of_From k j [] h f = tt
Above-of_From k j ((i, r) ∷ xs) h f =
    (ground (arith, lt_trans_key k j i, eq_of_cmp_key j i, f.0), Above-of_From k j xs h f.1)

-- Behind an entry whose key the next one does not repeat all keys are greater.
next-Above :
    (j : RecordKey) (xs : Entries)
    → From j xs
    → Ascending xs
    → same_key (first_key xs) j ≡ false
    → Above j xs
next-Above j [] f a h = tt
next-Above j ((i, r) ∷ xs) f a h =
    let lt_ji : cmp_key j i ≡ lt =
      ground (arith, f.0, lt_of_gt_key j i, eq_of_cmp_key j i, cmp_key_refl j) in
    (lt_ji, Above-of_From j i xs lt_ji a.0)

keep_last-IsSorted : (xs : Entries) → Ascending xs → IsSorted (keep_last xs)
unfolding keep_last
keep_last-IsSorted [] a = tt
keep_last-IsSorted ((j, r) ∷ xs) a =
    ground (arith, keep_last-IsSorted xs a.1, next-Above j xs a.0 a.1, Above-keep_last j xs)

get_last-Above : (k : RecordKey) (xs : Entries) → Above k xs → get_last k xs ≡ none
unfolding get_last
get_last-Above k [] a = refl
get_last-Above k ((j, r) ∷ xs) a = ground (arith, get_last-Above k xs a.1)

get_last-first :
    (j : RecordKey) (xs : Entries) (o : Option FunRecord)
    → same_key (first_key xs) j ≡ true
    → or_else (get_last j xs) o ≡ get_last j xs
unfolding get_last
get_last-first j [] o h = ground arith
get_last-first j ((i, r) ∷ xs) o h = ground (arith, eq_of_cmp_key i j, cmp_key_refl j)

get-keep_last :
    (k : RecordKey) (xs : Entries) → Ascending xs → SortedMap.get k (keep_last xs) ≡ get_last k xs
unfolding SortedMap.get keep_last get_last
get-keep_last k [] a = refl
get-keep_last k ((j, r) ∷ xs) a = elim (Bool-cases (same_key (first_key xs) j)) [
  | inl again ↦ rw again (
      ground (arith, get-keep_last k xs a.1, get_last-first j xs (some r) again, eq_of_cmp_key k j))
  | inr new ↦ rw new (
      ground (
        arith,
        get-keep_last k xs a.1,
        get_last-Above j xs (next-Above j xs a.0 a.1 new),
        eq_of_cmp_key k j,
      ))
]

-- The merged entries have ascending keys, each once.
pub merged_entries-IsSorted : (inputs : List SstableReader) → IsSorted (merged_entries inputs)
unfolding merged_entries
merged_entries-IsSorted inputs =
    rw keep_first-keep_last
      (keep_last-IsSorted (sort_by_key (all_entries inputs)) (sort-Ascending (all_entries inputs)))

-- In an input with ascending keys an entry is the last of its key.
get_last-IsSorted :
    (k : RecordKey) (xs : Entries) → IsSorted xs → get_last k xs ≡ SortedMap.get k xs
unfolding get_last SortedMap.get
get_last-IsSorted k [] s = refl
get_last-IsSorted k ((j, r) ∷ xs) s =
    ground (arith, get_last-IsSorted k xs s.1, get_last-Above j xs s.0, eq_of_cmp_key k j)

-- The newest of some files that has a key, oldest file first.
abbrev pub newest : RecordKey → List SstableReader → Option FunRecord
newest k [] = none
newest k (t ∷ ts) = or_else (newest k ts) (SortedMap.get k t.entries)

abbrev pub AllSorted : List SstableReader → Type 0
AllSorted [] = Unit {0}
AllSorted (t ∷ ts) = IsSorted t.entries × AllSorted ts

get_last-all :
    (k : RecordKey) (inputs : List SstableReader)
    → AllSorted inputs
    → get_last k (all_entries inputs) ≡ newest k inputs
unfolding all_entries
get_last-all k [] s = unfold get_last in refl
get_last-all k (t ∷ ts) s =
    rw get_last-append (ap₂ or_else (get_last-all k ts s.1) (get_last-IsSorted k t.entries s.0))

-- If the entries of each input are in strictly ascending order of keys, the merged entries hold
-- for each key what the last input that has the key holds, and no other key.
pub get-merged_entries :
    (k : RecordKey) (inputs : List SstableReader)
    → AllSorted inputs
    → SortedMap.get k (merged_entries inputs) ≡ newest k inputs
unfolding merged_entries
get-merged_entries k inputs s =
    ap (SortedMap.get k) (keep_first-keep_last (sort_by_key (all_entries inputs)))
    ∙ get-keep_last k (sort_by_key (all_entries inputs)) (sort-Ascending (all_entries inputs))
    ∙ get_last-sort k (all_entries inputs)
    ∙ get_last-all k inputs s
