-- ===== src/Raft/Storage/Laws.antt =====
-- `MemoryRaftStorage` meets the interface, and what its log holds after an append.
use fundb.Prelude.{
  ◌&&◌, ℕ, suc, ◌+◌, ◌≤◌, ◌<◌, ◌≡◌, refl, ap, some, some, List, [], ◌∷◌, ◌++◌, append-nil,
  append_assoc, arith, leb, length, length-append, retain, subst, sym,
}
use fundb.Raft.Types.{LogEntry, HardState, Snapshot}
use fundb.Raft.State.{last_log_index}
use fundb.Raft.Contig.{Contig, Contig-snoc, last_log_index-Contig}
use fundb.Raft.Storage.{
  RaftStorage, MemoryRaftStorage, truncate_from, append_log, append_entries, get_entries,
  last_index, last_term, save_hard_state, load_hard_state, save_snapshot, load_snapshot,
}

pub load-save_mem :
    (h : HardState) (s t : MemoryRaftStorage)
    → save_hard_state h s ≡ some t
    → load_hard_state t ≡ some h
unfolding save_hard_state load_hard_state
load-save_mem h s t e = ground arith

pub load-save_snapshot_mem :
    (x : Snapshot) (s t : MemoryRaftStorage)
    → save_snapshot x s ≡ some t
    → load_hard_state t ≡ load_hard_state s
unfolding save_snapshot load_hard_state
load-save_snapshot_mem x s t e = ground arith

pub last_index-save_mem :
    (h : HardState) (s t : MemoryRaftStorage)
    → save_hard_state h s ≡ some t
    → last_index t ≡ last_index s
unfolding save_hard_state last_index
last_index-save_mem h s t e = ground arith

pub get_entries-save_mem :
    (h : HardState) (s t : MemoryRaftStorage) (from to : ℕ)
    → save_hard_state h s ≡ some t
    → get_entries from to t ≡ get_entries from to s
unfolding save_hard_state get_entries
get_entries-save_mem h s t from to e = ground arith

abbrev pub memory : RaftStorage MemoryRaftStorage
memory = record {
  append_entries = append_entries;
  get_entries = get_entries;
  last_index = last_index;
  last_term = last_term;
  save_hard_state = save_hard_state;
  load_hard_state = load_hard_state;
  save_snapshot = save_snapshot;
  load_snapshot = load_snapshot;
  load-save = load-save_mem;
  load-save_snapshot = load-save_snapshot_mem;
  last_index-save = last_index-save_mem;
  get_entries-save = get_entries-save_mem;
}

truncate_from_prefix :
    (f k : ℕ) (pre suf : List LogEntry)
    → Contig f pre
    → k ≡ f + length pre
    → Contig k suf
    → truncate_from k (pre ++ suf) ≡ pre
unfolding truncate_from
truncate_from_prefix f k [] [] h e hs = refl
truncate_from_prefix f k [] (y ∷ ys) h e hs = ground arith
truncate_from_prefix f k (x ∷ xs) suf h e hs =
    ground (arith, truncate_from_prefix (suc f) k xs suf h.2 (omega arith) hs)

append_log_past :
    (f k : ℕ) (pre es : List LogEntry)
    → 0 < f
    → Contig f pre
    → k ≡ f + length pre
    → Contig k es
    → append_log pre es ≡ pre ++ es
unfolding append_log
append_log_past f k pre [] pos h e he = rw append-nil
append_log_past f k pre (y ∷ ys) pos h e he = ground (
  arith,
  subst (λ i. truncate_from i (pre ++ []) ≡ pre) (sym he.0)
      (truncate_from_prefix f k pre [] h e tt),
  append-nil pre,
  append_log_past f (suc k) (pre ++ y ∷ []) ys pos (Contig-snoc f pre y h (omega arith) he.1)
      (omega (arith, length-append pre (y ∷ []))) he.2,
  append_assoc pre (y ∷ []) ys,
)

-- In a log with consecutive indices, from `f` on and not 0, and terms that are not 0, a run of
-- such entries that starts at an index of the log, or right behind it, replaces what the log holds
-- from there on.
pub append_log-replace :
    (f k : ℕ) (pre suf : List LogEntry) (y : LogEntry) (ys : List LogEntry)
    → 0 < f
    → Contig f pre
    → k ≡ f + length pre
    → Contig k suf
    → Contig k (y ∷ ys)
    → append_log (pre ++ suf) (y ∷ ys) ≡ pre ++ y ∷ ys
unfolding append_log
append_log-replace f k pre suf y ys pos h e hs he = ground (
  arith,
  subst (λ i. truncate_from i (pre ++ suf) ≡ pre) (sym he.0)
      (truncate_from_prefix f k pre suf h e hs),
  append_log_past f (suc k) (pre ++ y ∷ []) ys pos (Contig-snoc f pre y h (omega arith) he.1)
      (omega (arith, length-append pre (y ∷ []))) he.2,
  append_assoc pre (y ∷ []) ys,
)

retain_range :
    (f k : ℕ) (log : List LogEntry)
    → 0 < f
    → Contig f log
    → f + length log ≤ suc k
    → retain (λ e. leb 1 e.index && leb e.index k) log ≡ log
retain_range f k [] pos h le = refl
retain_range f k (x ∷ xs) pos h le =
    ground (arith, retain_range (suc f) k xs (omega arith) h.2 (omega arith))

retain_to_last :
    (f : ℕ) (log : List LogEntry)
    → 0 < f
    → Contig f log
    → retain (λ e. leb 1 e.index && leb e.index (last_log_index log)) log ≡ log
retain_to_last f [] pos h = refl
retain_to_last f (x ∷ xs) pos h =
    retain_range f (last_log_index (x ∷ xs)) (x ∷ xs) pos h
      (omega (arith, last_log_index-Contig f x xs h))

-- Asked for the indices from 1 to the last, the storage returns its whole log.
pub get_entries-all :
    (f : ℕ) (s : MemoryRaftStorage)
    → 0 < f
    → Contig f s.log
    → get_entries 1 (last_index s) s ≡ some s.log
unfolding get_entries last_index last_log_index
get_entries-all f s pos h = ap some (retain_to_last f s.log pos h)
