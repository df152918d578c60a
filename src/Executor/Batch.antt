-- ===== src/Executor/Batch.antt =====
-- crates/fundb-executor/src/batch.rs.
pub mod Rows
use fundb.Prelude.{ℕ, Bool, List, [], ◌∷◌, ◌++◌, length, is_empty, take}
use fundb.Core.Record.{RecordKey, FunRecord}

pub record RecordBatch : Type 0 where
  pub keys : List RecordKey
  pub records : List FunRecord

abbrev pub new : RecordBatch
new = record { keys = []; records = [] }

unfoldable pub push : RecordKey → FunRecord → RecordBatch → RecordBatch
push key r b = record { keys = b.keys ++ key ∷ []; records = b.records ++ r ∷ [] }

unfoldable pub len : RecordBatch → ℕ
len b = length b.keys

unfoldable pub has_no_rows : RecordBatch → Bool
has_no_rows b = is_empty b.keys

unfoldable pub extend : List (RecordKey × FunRecord) → RecordBatch → RecordBatch
extend [] b = b
extend ((key, r) ∷ rows) b = extend rows (push key r b)

unfoldable pub merge : RecordBatch → RecordBatch → RecordBatch
merge a b = record { keys = a.keys ++ b.keys; records = a.records ++ b.records }

unfoldable pub truncate : ℕ → RecordBatch → RecordBatch
truncate n b = record { keys = take n b.keys; records = take n b.records }

-- `keys.iter().zip(records.iter())`
unfoldable pub zip : List RecordKey → List FunRecord → List (RecordKey × FunRecord)
zip (k ∷ ks) (r ∷ rs) = (k, r) ∷ zip ks rs
zip _ _ = []

unfoldable pub rows : RecordBatch → List (RecordKey × FunRecord)
unfolding zip
rows b = zip b.keys b.records
