-- ===== src/Storage/Lsm/Recovery.antt =====
-- What a tree that is opened again on its log and files answers.
use fundb.Prelude.{
  ℕ, ◌≡◌, refl, ap, ◌∙◌, Option, none, some, List, [], ◌∷◌, ◌++◌, arith, if◌then◌else◌, or_else,
}
use fundb.Order.{is_eq}
use fundb.Order.SortedMap
use fundb.Core.Record.{RecordKey, FunRecord, key_ord, cmp_key, cmp_key_refl, Timestamp}
use fundb.Storage.MemTable
use fundb.Storage.MemTable.{MemTable}
use fundb.Storage.Sstable.{SstableReader, Hashing}
use fundb.Storage.Wal.{WalEntry, write, deletion, txn_commit, txn_abort, checkpoint}
use fundb.Storage.Lsm.{
  LsmTree, replay, open_tree, delete, find_record, find_newest, find_file, get, filter_tombstone,
  write_record, flush_memtable, trigger_compaction,
}
use fundb.Storage.Lsm.View.{get-insert_active}

-- The record of the last write of a key in a log.
abbrev pub last_write : RecordKey → List WalEntry → Option FunRecord
last_write k [] = none
last_write k (write txn_id key r ∷ es) =
    or_else (last_write k es) (if is_eq (cmp_key k key) then some r else none)
last_write k (deletion txn_id key ∷ es) = last_write k es
last_write k (txn_commit txn_id ∷ es) = last_write k es
last_write k (txn_abort txn_id ∷ es) = last_write k es
last_write k (checkpoint lsn ∷ es) = last_write k es

get-replay :
    (size : ℕ) (k : RecordKey) (t : MemTable) (es : List WalEntry)
    → MemTable.get k (replay size t es) ≡ or_else (last_write k es) (MemTable.get k t)
unfolding replay
get-replay size k t [] = refl
get-replay size k t (write txn_id key r ∷ es) =
    ground
      (arith, get-replay size k (MemTable.insert size key r t) es, get-insert_active size key k r t)
get-replay size k t (deletion txn_id key ∷ es) = get-replay size k t es
get-replay size k t (txn_commit txn_id ∷ es) = get-replay size k t es
get-replay size k t (txn_abort txn_id ∷ es) = get-replay size k t es
get-replay size k t (checkpoint lsn ∷ es) = get-replay size k t es

get-new : (k : RecordKey) → MemTable.get k MemTable.new ≡ none
unfolding MemTable.get SortedMap.get
get-new k = refl

-- What an empty result and a tombstone look like to a reader.
abbrev pub visible : Option FunRecord → Option FunRecord
visible none = none
visible (some r) = filter_tombstone r

module _ (record_size : ℕ) (h : Hashing) where
  -- A tree that is opened on a log and files answers with the last write of the key in the log,
  -- and else with the newest file that has the key; deletions in the log have no effect.
  pub get-open_tree :
      (k : RecordKey) (wal : List WalEntry) (files : List (ℕ × SstableReader))
      → get h k (open_tree record_size wal files)
        ≡ visible (or_else (last_write k wal) (find_file h k files))
  unfolding get open_tree find_record find_newest
  get-open_tree k wal files = ground (arith, get-replay record_size k MemTable.new wal, get-new k)

last_write-snoc :
    (k key : RecordKey) (r : FunRecord) (es : List WalEntry)
    → last_write k (es ++ write 0 key r ∷ [])
      ≡ (if is_eq (cmp_key k key) then some r else last_write k es)
last_write-snoc k key r [] = refl
last_write-snoc k key r (write txn_id j q ∷ es) = ground (arith, last_write-snoc k key r es)
last_write-snoc k key r (deletion txn_id j ∷ es) = last_write-snoc k key r es
last_write-snoc k key r (txn_commit txn_id ∷ es) = last_write-snoc k key r es
last_write-snoc k key r (txn_abort txn_id ∷ es) = last_write-snoc k key r es
last_write-snoc k key r (checkpoint lsn ∷ es) = last_write-snoc k key r es

last_write-deletion :
    (k key : RecordKey) (es : List WalEntry)
    → last_write k (es ++ deletion 0 key ∷ []) ≡ last_write k es
last_write-deletion k key [] = refl
last_write-deletion k key (write txn_id j q ∷ es) = ground (arith, last_write-deletion k key es)
last_write-deletion k key (deletion txn_id j ∷ es) = last_write-deletion k key es
last_write-deletion k key (txn_commit txn_id ∷ es) = last_write-deletion k key es
last_write-deletion k key (txn_abort txn_id ∷ es) = last_write-deletion k key es
last_write-deletion k key (checkpoint lsn ∷ es) = last_write-deletion k key es

module _ (record_size : ℕ) (h : Hashing) where
  wal-write_record :
      (ft ct : ℕ) (key : RecordKey) (r : FunRecord) (s : LsmTree)
      → (write_record h record_size ft ct key r s).wal ≡ s.wal ++ write 0 key r ∷ []
  unfolding write_record flush_memtable trigger_compaction
  wal-write_record ft ct key r s = ground arith

  -- A write is known after a crash at once behind it, whatever files are left: a tree that is
  -- opened on the log answers the written key with the new record.
  pub reopen_after_write :
      (flush_time compaction_time : ℕ) (key : RecordKey) (r : FunRecord) (s : LsmTree)
      (files : List (ℕ × SstableReader))
      → get h key (
          open_tree record_size
            (write_record h record_size flush_time compaction_time key r s).wal
            files)
        ≡ filter_tombstone r
  reopen_after_write ft ct key r s files =
      get-open_tree record_size h key _ files
      ∙ ap (λ w. visible (or_else (last_write key w) (find_file h key files)))
          (wal-write_record ft ct key r s)
      ∙ ground (arith, last_write-snoc key key r s.wal, cmp_key_refl key)

  -- A deletion is forgotten by a restart: where the log holds an earlier write of the key, the
  -- reopened tree answers with that write again.
  pub reopen_after_delete :
      (id : List ℕ) (now : Timestamp) (key : RecordKey) (r : FunRecord) (s : LsmTree)
      (files : List (ℕ × SstableReader))
      → last_write key s.wal ≡ some r
      → get h key (open_tree record_size (delete record_size id now key s).wal files)
        ≡ filter_tombstone r
  reopen_after_delete id now key r s files e =
      get-open_tree record_size h key _ files
      ∙ ap (λ o. visible (or_else o (find_file h key files))) (logged ∙ e)
    where
      logged : last_write key (delete record_size id now key s).wal ≡ last_write key s.wal
      logged = unfold delete in last_write-deletion key key s.wal
