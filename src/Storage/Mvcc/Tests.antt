-- ===== src/Storage/Mvcc/Tests.antt =====
-- The theorems on mvcc.rs at a store with two versions of one record.
use fundb.Prelude.{ℕ, ◌≡◌, some, [], ◌∷◌, arith}
use fundb.Order.SortedMap
use fundb.Order.SortedMap.{IsSorted}
use fundb.Order.Bytes.{cmp_bytes}
use fundb.Core.Record.{FunRecord, cmp_key, key_ord}
use fundb.Storage.Mvcc.{
  Transaction, MvccStore, new, begin_txn, write, commit, key_of, versions_of, read_as_of_system,
}
use fundb.Storage.Mvcc.Versions.{IsChained, read-write, read-commit_later, write-IsChained}

abbrev holding : ℕ → FunRecord
holding n = record {
  id = 1 ∷ [];
  collection = 99 ∷ [];
  tenant = 0;
  sys_from = 0;
  sys_to = 0;
  valid_from = 0;
  valid_to = 0;
  payload = n ∷ [];
  vectors = [];
  edges = [];
  timeseries = [];
  confidence = 1065353216;
  sources = [];
  supports = [];
  contradicts = [];
  caused_by = [];
  effects = [];
}

abbrev at : ℕ → Transaction
at ts = record { txn_id = ts; snapshot_ts = ts }

new-IsChained : IsChained 0 new
unfolding versions_of SortedMap.get
new-IsChained key = tt

abbrev store : MvccStore
store = write (at 10) (holding 1) new

store-IsChained : IsChained 10 store
store-IsChained =
    write-IsChained 0 (at 10) (holding 1) new new-IsChained (omega arith) (omega arith)

-- A reader between the two writes sees the first.
read-write_example :
    read_as_of_system (key_of (holding 1)) 15 (write (at 20) (holding 2) store)
    ≡ read_as_of_system (key_of (holding 1)) 15 store
unfolding cmp_key cmp_bytes
read-write_example =
    read-write 10 15 (at 20) (holding 2) (key_of (holding 1)) store store-IsChained (omega arith)
      (omega arith)

-- The writer begins at 20, the reader at 30.
read-commit_later_example :
    let (s1, writer) = begin_txn 20 store in
    let (s2, reader) = begin_txn 30 s1 in
    let s3 = commit writer (write writer (holding 2) s2) in
    (read_as_of_system (key_of (holding 2)) reader.snapshot_ts s2
      ≡ read_as_of_system (key_of (holding 2)) reader.snapshot_ts store)
    × (read_as_of_system (key_of (holding 2)) reader.snapshot_ts s3 ≡ some (holding 2))
read-commit_later_example =
    read-commit_later 10 20 30 (holding 2) store store-IsChained (omega arith) (omega arith)
      (omega arith)
