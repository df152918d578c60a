-- ===== src/Storage/Mvcc/Versions.antt =====
-- Which version of a record a reader sees.
use fundb.Prelude.{
  suc, ◌≤◌, ◌<◌, ◌≡◌, refl, some, List, [], ◌∷◌, ◌++◌, arith, leb, if◌then◌else◌, find,
}
use fundb.Order.SortedMap
use fundb.Order.SortedMap.{get-insert}
use fundb.Order.{is_eq}
use fundb.Core.Record.{
  Timestamp, RecordKey, FunRecord, i64_max, key_ord, cmp_key, eq_of_cmp_key, cmp_key_refl,
}
use fundb.Storage.Mvcc.{
  Transaction, VersionedRecord, MvccStore, versions_of, or_empty, supersede, key_of, write,
  version_record, is_visible, read_as_of_system, keep_from, gc_from, gc, begin_txn, commit,
}

-- Versions in order that do not overlap, written up to `ts`; the last one is the current one.
abbrev pub Chain : Timestamp → List VersionedRecord → Type 0
Chain ts [] = Unit {0}
Chain ts (v ∷ []) = (v.sys_from ≤ ts) × (v.sys_to ≡ i64_max)
Chain ts (v ∷ (w ∷ vs)) =
    (v.sys_from ≤ v.sys_to) × (v.sys_to < i64_max) × (v.sys_to ≤ w.sys_from) × Chain ts (w ∷ vs)

-- The versions of every key are a chain.
abbrev pub IsChained : Timestamp → MvccStore → Type 0
IsChained ts s = (key : RecordKey) → Chain ts (versions_of key s)

Chain-from :
    (ts : Timestamp) (v : VersionedRecord) (vs : List VersionedRecord)
    → Chain ts (v ∷ vs)
    → v.sys_from ≤ ts
Chain-from ts v [] c = c.0
Chain-from ts v (w ∷ vs) c = omega (arith, c.0, c.2, Chain-from ts w vs c.3)

-- The versions after a write at `now`.
abbrev superseded : Timestamp → VersionedRecord → List VersionedRecord → List VersionedRecord
superseded now new vs = supersede now vs ++ new ∷ []

Chain-superseded :
    (ts now : Timestamp) (new : VersionedRecord) (vs : List VersionedRecord)
    → Chain ts vs
    → ts ≤ now
    → now < i64_max
    → new.sys_from ≡ now
    → new.sys_to ≡ i64_max
    → Chain now (superseded now new vs)
unfolding supersede
Chain-superseded ts now new [] c le lt from to = (omega arith, to)
Chain-superseded ts now new (v ∷ []) c le lt from to = ground (arith, c.0, c.1)
Chain-superseded ts now new (v ∷ (w ∷ [])) c le lt from to = ground arith
Chain-superseded ts now new (v ∷ (w ∷ (x ∷ xs))) c le lt from to =
    ground (arith, Chain-superseded ts now new (w ∷ (x ∷ xs)) c.3 le lt from to)

find-superseded :
    (ts now t : Timestamp) (new : VersionedRecord) (vs : List VersionedRecord)
    → Chain ts vs
    → ts ≤ now
    → t < i64_max
    → new.sys_from ≡ now
    → new.sys_to ≡ i64_max
    → version_record (find (is_visible t) (superseded now new vs))
      ≡ (if leb now t then some new.version else version_record (find (is_visible t) vs))
unfolding supersede
find-superseded ts now t new [] c le lt from to = ground arith
find-superseded ts now t new (v ∷ []) c le lt from to = ground arith
find-superseded ts now t new (v ∷ (w ∷ vs)) c le lt from to =
    ground (arith, find-superseded ts now t new (w ∷ vs) c.3 le lt from to, Chain-from ts w vs c.3)

-- What a transaction writes.
abbrev versioned : Transaction → FunRecord → VersionedRecord
versioned txn r = record {
  sys_from = txn.snapshot_ts;
  sys_to = i64_max;
  valid_from = r.valid_from;
  valid_to = r.valid_to;
  version = r;
}

Chain-later :
    (ts now : Timestamp) (vs : List VersionedRecord) → Chain ts vs → ts ≤ now → Chain now vs
Chain-later ts now [] c le = tt
Chain-later ts now (v ∷ []) c le = (omega arith, c.1)
Chain-later ts now (v ∷ (w ∷ vs)) c le = (c.0, c.1, c.2, Chain-later ts now (w ∷ vs) c.3 le)

versions_of-write :
    (txn : Transaction) (r : FunRecord) (key : RecordKey) (s : MvccStore)
    → versions_of key (write txn r s) ≡ (
        if is_eq (cmp_key key (key_of r))
        then superseded txn.snapshot_ts (versioned txn r) (versions_of (key_of r) s)
        else versions_of key s)
unfolding write versions_of
versions_of-write txn r key s = ground (
  arith,
  get-insert (key_of r) key
      (superseded txn.snapshot_ts (versioned txn r) (or_empty (SortedMap.get (key_of r) s.inner)))
      s.inner,
)

-- If the versions of every key are a chain up to a time `ts` and the writing transaction is not
-- earlier, then after the write a reader of its key at the transaction's snapshot time or later
-- sees the record, also a reader that began before the write; readers at earlier times, and
-- readers of other keys, see what they saw before. The readers' time is below the largest
-- timestamp.
pub read-write :
    (ts t : Timestamp) (txn : Transaction) (r : FunRecord) (key : RecordKey) (s : MvccStore)
    → IsChained ts s
    → ts ≤ txn.snapshot_ts
    → t < i64_max
    → read_as_of_system key t (write txn r s) ≡ (
        if is_eq (cmp_key key (key_of r))
        then if leb txn.snapshot_ts t then some r else read_as_of_system key t s
        else read_as_of_system key t s)
unfolding read_as_of_system
read-write ts t txn r key s chained le lt = ground (
  arith,
  versions_of-write txn r key s,
  find-superseded ts txn.snapshot_ts t (versioned txn r) (versions_of (key_of r) s)
      (chained (key_of r)) le lt refl refl,
  eq_of_cmp_key key (key_of r),
)

-- A read in a transaction is not repeatable: a reader begins at a time when a writer has begun,
-- but not yet written. Its read of the record's key is then the one of the store before both began;
-- once the writer has written and committed, the same read gives the writer's record, which was
-- committed after the reader began. The versions are a chain up to a time that is not later than
-- the writer's, and the reader's time is below the largest timestamp.
pub read-commit_later :
    (ts now later : Timestamp) (r : FunRecord) (s : MvccStore)
    → IsChained ts s
    → ts ≤ now
    → now ≤ later
    → later < i64_max
    → let (s1, writer) = begin_txn now s in
      let (s2, reader) = begin_txn later s1 in
      let s3 = commit writer (write writer r s2) in
      (read_as_of_system (key_of r) reader.snapshot_ts s2
        ≡ read_as_of_system (key_of r) reader.snapshot_ts s)
      × (read_as_of_system (key_of r) reader.snapshot_ts s3 ≡ some r)
unfolding begin_txn commit read_as_of_system versions_of
read-commit_later ts now later r s chained le before lt =
    let (s1, writer) = begin_txn now s in
    let (s2, reader) = begin_txn later s1 in
    (
      refl,
      ground (
        arith,
        read-write ts later writer r (key_of r) s2 chained le lt,
        cmp_key_refl (key_of r),
      ),
    )

-- A write keeps the versions of every key a chain, if its transaction is not earlier than the time
-- up to which they were one, and is below the largest timestamp.
pub write-IsChained :
    (ts : Timestamp) (txn : Transaction) (r : FunRecord) (s : MvccStore)
    → IsChained ts s
    → ts ≤ txn.snapshot_ts
    → txn.snapshot_ts < i64_max
    → IsChained txn.snapshot_ts (write txn r s)
write-IsChained ts txn r s chained le lt key = rw (versions_of-write txn r key s) (
    ground (
      arith,
      Chain-superseded ts txn.snapshot_ts (versioned txn r) (versions_of (key_of r) s)
          (chained (key_of r)) le lt refl refl,
      Chain-later ts txn.snapshot_ts (versions_of key s) (chained key) le,
    ))

find-keep_from :
    (before t : Timestamp) (vs : List VersionedRecord)
    → before ≤ suc t
    → find (is_visible t) (keep_from before vs) ≡ find (is_visible t) vs
unfolding keep_from
find-keep_from before t [] le = refl
find-keep_from before t (v ∷ vs) le = ground (arith, find-keep_from before t vs le)

get-gc_from :
    (before : Timestamp) (key : RecordKey) (inner : List (RecordKey × List VersionedRecord))
    → or_empty (SortedMap.get key (gc_from before inner).0)
      ≡ keep_from before (or_empty (SortedMap.get key inner))
unfolding SortedMap.get gc_from
get-gc_from before key [] = unfold keep_from in refl
get-gc_from before key ((k, vs) ∷ rest) = ground (arith, get-gc_from before key rest)

-- Garbage collection before a time changes no read at that time or later.
pub read-gc :
    (before t : Timestamp) (key : RecordKey) (s : MvccStore)
    → before ≤ t
    → read_as_of_system key t (gc before s).0 ≡ read_as_of_system key t s
unfolding read_as_of_system versions_of gc
read-gc before t key s le = ground (
  arith,
  get-gc_from before key s.inner,
  find-keep_from before t (or_empty (SortedMap.get key s.inner)),
)

Chain-keep_from :
    (ts before : Timestamp) (vs : List VersionedRecord)
    → Chain ts vs
    → before ≤ i64_max
    → Chain ts (keep_from before vs)
unfolding keep_from
Chain-keep_from ts before [] c le = tt
Chain-keep_from ts before (v ∷ []) c le = ground arith
Chain-keep_from ts before (v ∷ (w ∷ [])) c le = ground arith
Chain-keep_from ts before (v ∷ (w ∷ (x ∷ xs))) c le =
    ground (arith, Chain-keep_from ts before (w ∷ (x ∷ xs)) c.3 le)

-- Garbage collection keeps the versions of every key a chain.
pub gc-IsChained :
    (ts before : Timestamp) (s : MvccStore)
    → IsChained ts s
    → before ≤ i64_max
    → IsChained ts (gc before s).0
unfolding versions_of gc
gc-IsChained ts before s chained le key =
    rw get-gc_from
      (Chain-keep_from ts before (or_empty (SortedMap.get key s.inner)) (chained key) le)
