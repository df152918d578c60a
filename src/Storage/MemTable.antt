-- ===== src/Storage/MemTable.antt =====
-- crates/fundb-storage/src/memtable.rs. The locks are never poisoned here: no call panics while it
-- holds one.
use fundb.Prelude.{ℕ, ◌+◌, ◌%◌, ◌^◌, Option, List, [], length}
use fundb.Order.SortedMap
use fundb.Order.SortedMap.{IsSorted, insert-IsSorted, get-insert}
use fundb.Core.Record.{RecordKey, FunRecord, key_ord}

pub record MemTable : Type 0 where
  pub inner : List (RecordKey × FunRecord)
  pub size_bytes : ℕ

abbrev pub new : MemTable
new = record { inner = []; size_bytes = 0 }

unfoldable pub get : RecordKey → MemTable → Option FunRecord
get key t = SortedMap.get key t.inner

-- Both ends belong to the range.
unfoldable pub range : RecordKey → RecordKey → MemTable → List (RecordKey × FunRecord)
range from to t = SortedMap.range from to t.inner

-- `ImmutableMemTable`: its entries, in the order of the map.
unfoldable pub freeze : MemTable → List (RecordKey × FunRecord)
freeze t = t.inner

-- `record_size` is `mem::size_of::<FunRecord>()`, which the compiler chooses.
module _ (record_size : ℕ) where
  unfoldable pub insert : RecordKey → FunRecord → MemTable → MemTable
  insert key r t = record {
    inner = SortedMap.insert key r t.inner;
    size_bytes = (t.size_bytes + (record_size + length key.collection + 16)) % 2 ^ 64;
  }
