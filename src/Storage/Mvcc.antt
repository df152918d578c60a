-- ===== src/Storage/Mvcc.antt =====
-- crates/fundb-storage/src/mvcc.rs. The lock is never poisoned here: no call panics while it holds
-- it. Transaction numbers come from a u64 counter.
pub mod Versions
pub mod Tests
use fundb.Prelude.{
  ℕ, ◌+◌, ◌-◌, ◌%◌, ◌^◌, Bool, ◌&&◌, Option, none, some, List, [], ◌∷◌, ◌++◌, map, ltb, leb, ◌==◌,
  if◌then◌else◌, length, find, retain,
}
use fundb.Order.SortedMap
use fundb.Core.Record.{Timestamp, RecordKey, FunRecord, i64_max, key_ord}

pub record Transaction : Type 0 where
  pub txn_id : ℕ
  pub snapshot_ts : Timestamp

pub record VersionedRecord : Type 0 where
  pub sys_from : Timestamp
  pub sys_to : Timestamp
  pub valid_from : Timestamp
  pub valid_to : Timestamp
  pub version : FunRecord

pub record MvccStore : Type 0 where
  pub inner : List (RecordKey × List VersionedRecord)
  pub next_txn : ℕ

abbrev pub new : MvccStore
new = record { inner = []; next_txn = 1 }

-- `now` is the clock.
unfoldable pub begin_txn : Timestamp → MvccStore → MvccStore × Transaction
begin_txn now s = (
  record s { next_txn = (s.next_txn + 1) % 2 ^ 64 },
  record { txn_id = s.next_txn; snapshot_ts = now },
)

-- `unwrap_or_default` and `or_insert_with(Vec::new)`.
abbrev pub or_empty : Option (List VersionedRecord) → List VersionedRecord
or_empty none = []
or_empty (some versions) = versions

unfoldable pub versions_of : RecordKey → MvccStore → List VersionedRecord
versions_of key s = or_empty (SortedMap.get key s.inner)

-- The first current version ends at `ts`.
unfoldable pub supersede : Timestamp → List VersionedRecord → List VersionedRecord
supersede ts [] = []
supersede ts (v ∷ vs) =
    let rest = supersede ts vs in
    if v.sys_to == i64_max then record v { sys_to = ts } ∷ vs else v ∷ rest

abbrev pub key_of : FunRecord → RecordKey
key_of r = record { collection = r.collection; id = r.id }

unfoldable pub write : Transaction → FunRecord → MvccStore → MvccStore
write txn r s =
    let versioned : VersionedRecord = record {
      sys_from = txn.snapshot_ts;
      sys_to = i64_max;
      valid_from = r.valid_from;
      valid_to = r.valid_to;
      version = r;
    } in
    let versions = supersede txn.snapshot_ts (versions_of (key_of r) s) ++ versioned ∷ [] in
    record s { inner = SortedMap.insert (key_of r) versions s.inner }

abbrev pub version_record : Option VersionedRecord → Option FunRecord
version_record none = none
version_record (some v) = some v.version

abbrev pub is_visible : Timestamp → VersionedRecord → Bool
is_visible system_ts v = leb v.sys_from system_ts && ltb system_ts v.sys_to

unfoldable pub read_as_of_system : RecordKey → Timestamp → MvccStore → Option FunRecord
read_as_of_system key system_ts s = version_record (find (is_visible system_ts) (versions_of key s))

unfoldable pub read_as_of_valid : RecordKey → Timestamp → Timestamp → MvccStore → List FunRecord
read_as_of_valid key valid_from valid_to s =
    map (λ v. v.version)
      (retain (λ v. ltb v.valid_from valid_to && ltb valid_from v.valid_to) (versions_of key s))

-- A no-op.
unfoldable pub commit : Transaction → MvccStore → MvccStore
commit txn s = s

unfoldable pub keep_from : Timestamp → List VersionedRecord → List VersionedRecord
keep_from before versions = retain (λ v. leb before v.sys_to) versions

-- The map afterwards, and how many versions were deleted.
unfoldable pub gc_from :
    Timestamp
    → List (RecordKey × List VersionedRecord)
    → List (RecordKey × List VersionedRecord) × ℕ
gc_from before [] = ([], 0)
gc_from before ((key, versions) ∷ rest) =
    let (inner, deleted) = gc_from before rest in
    let kept = keep_from before versions in
    ((key, kept) ∷ inner, deleted + (length versions - length kept))

unfoldable pub gc : Timestamp → MvccStore → MvccStore × ℕ
gc before s = let (inner, deleted) = gc_from before s.inner in (record s { inner = inner }, deleted)
