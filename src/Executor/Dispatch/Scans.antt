-- ===== src/Executor/Dispatch/Scans.antt =====
-- Which keys the scan of a collection covers.
use fundb.Prelude.{
  ℕ, zero, suc, ◌<◌, ◌≡◌, refl, ap, ◌∙◌, true, List, [], ◌∷◌, ◌++◌, arith, length, replicate,
}
use fundb.Order.{lt, is_le}
use fundb.Order.Bytes.{cmp_bytes, cmp_bytes_refl}
use fundb.Order.SortedMap
use fundb.Order.SortedMap.{IsSorted}
use fundb.Core.Record.{RecordKey, cmp_key, key_ord}
use fundb.Storage.Sstable.{Hashing}
use fundb.Storage.Lsm
use fundb.Storage.Lsm.{LsmTree, get}
use fundb.Storage.Lsm.Scan.{AllTables, get-scan}
use fundb.Storage.Lsm.Compacted.{AllFiles}
use fundb.Executor.Batch.{rows}
use fundb.Executor.Batch.Rows.{rows-extend-new}
use fundb.Executor.Operators.{scan_from, scan_to, scan_collection}

cmp_bytes-extended : (c rest : List ℕ) (x : ℕ) → cmp_bytes c (c ++ x ∷ rest) ≡ lt
unfolding cmp_bytes
cmp_bytes-extended [] rest x = refl
cmp_bytes-extended (y ∷ c) rest x = ground (arith, cmp_bytes-extended c rest x)

cmp_bytes-branch :
    (c rest end : List ℕ) (x y : ℕ) → x < y → cmp_bytes (c ++ x ∷ rest) (c ++ y ∷ end) ≡ lt
unfolding cmp_bytes
cmp_bytes-branch [] rest end x y h = ground arith
cmp_bytes-branch (z ∷ c) rest end x y h = ground (arith, cmp_bytes-branch c rest end x y h)

zeros-least : (n : ℕ) (id : List ℕ) → length id ≡ n → is_le (cmp_bytes (replicate n 0) id) ≡ true
unfolding cmp_bytes
zeros-least zero [] e = refl
zeros-least zero (x ∷ id) e = absurd (omega arith)
zeros-least (suc n) [] e = absurd (omega arith)
zeros-least (suc n) (x ∷ id) e = ground (arith, zeros-least n id)

module _ (h : Hashing) (c : List ℕ) (key : RecordKey) (s : LsmTree) where
  abbrev pub IsOrdered : Type 0
  IsOrdered = IsSorted s.active.inner × AllTables s.immutables × AllFiles h s.sst_files

  covered :
      is_le (cmp_key (scan_from c) key) ≡ true
      → is_le (cmp_key key (scan_to c)) ≡ true
      → IsOrdered
      → SortedMap.get key (rows (scan_collection c s)) ≡ get h key s
  unfolding scan_collection
  covered above below ordered =
      ap (SortedMap.get key) (rows-extend-new (Lsm.scan (scan_from c) (scan_to c) s))
      ∙ get-scan h (scan_from c) (scan_to c) key above below s ordered.0 ordered.1 ordered.2

  -- The scan of a collection gives for each key of the collection, with an id of 16 bytes, what a
  -- point lookup answers, if the layers of the tree are in order.
  pub get-scan_collection :
      key.collection ≡ c
      → length key.id ≡ 16
      → IsOrdered
      → SortedMap.get key (rows (scan_collection c s)) ≡ get h key s
  get-scan_collection same sixteen ordered =
      covered (unfold cmp_key in rw same (rw (cmp_bytes_refl c) (zeros-least 16 key.id sixteen)))
        (unfold cmp_key in rw same (rw (cmp_bytes-extended c [] 0x7f) refl)) ordered

  -- The scan of a collection gives also the records of every other collection whose name is longer
  -- and goes on with a byte below 0x7f.
  pub scan_collection_others :
      (x : ℕ) (rest : List ℕ)
      → key.collection ≡ c ++ x ∷ rest
      → x < 0x7f
      → IsOrdered
      → SortedMap.get key (rows (scan_collection c s)) ≡ get h key s
  scan_collection_others x rest longer below ordered =
      covered (unfold cmp_key in rw longer (rw (cmp_bytes-extended c rest x) refl))
        (unfold cmp_key in rw longer (rw (cmp_bytes-branch c rest [] x 0x7f below) refl)) ordered
