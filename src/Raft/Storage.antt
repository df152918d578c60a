-- ===== src/Raft/Storage.antt =====
-- The trait `RaftStorage` of crates/fundb-raft/src/raft.rs and its implementation in memory.
-- A storage is a state that is passed on; `none` is the trait's `Err`.
pub mod Laws
use fundb.Prelude.{
  ℕ, ◌<◌, ◌≡◌, Bool, true, false, ◌&&◌, Option, none, some, List, [], ◌∷◌, ◌++◌, ltb, leb,
  if◌then◌else◌, retain, last,
}
use fundb.Raft.Types.{LogEntry, HardState, Snapshot}
use fundb.Raft.State.{or_zero}

-- The trait's operations, and what a node relies on: a write that succeeded is read back, and
-- the log, the hard state and the snapshot do not disturb one another.
pub record RaftStorage (S : Type 0) : Type 0 where
  pub append_entries : List LogEntry → S → Option S
  pub get_entries : ℕ → ℕ → S → Option (List LogEntry)
  pub last_index : S → ℕ
  pub last_term : S → ℕ
  pub save_hard_state : HardState → S → Option S
  pub load_hard_state : S → Option HardState
  pub save_snapshot : Snapshot → S → Option S
  pub load_snapshot : S → Option (Option Snapshot)
  pub load-save :
      (h : HardState) (s t : S) → save_hard_state h s ≡ some t → load_hard_state t ≡ some h
  pub load-save_snapshot :
      (x : Snapshot) (s t : S) → save_snapshot x s ≡ some t → load_hard_state t ≡ load_hard_state s
  pub last_index-save :
      (h : HardState) (s t : S) → save_hard_state h s ≡ some t → last_index t ≡ last_index s
  pub get_entries-save :
      (h : HardState) (s t : S) (from to : ℕ)
      → save_hard_state h s ≡ some t
      → get_entries from to t ≡ get_entries from to s

-- `MemoryRaftStorageInner`; its mutex is held for each whole operation.
pub record MemoryRaftStorage : Type 0 where
  pub log : List LogEntry
  pub hard_state : HardState
  pub snapshot : Option Snapshot

abbrev pub new : MemoryRaftStorage
new = record {
  log = [];
  hard_state = record { current_term = 0; voted_for = none; commit = 0 };
  snapshot = none;
}

-- `position(|e| e.index >= index)` and `truncate`: the entries before the first at or behind it.
unfoldable pub truncate_from : ℕ → List LogEntry → List LogEntry
truncate_from index [] = []
truncate_from index (e ∷ es) = if leb index e.index then [] else e ∷ truncate_from index es

-- The loop of `append_entries`.
unfoldable pub append_log : List LogEntry → List LogEntry → List LogEntry
append_log log [] = log
append_log log (e ∷ es) =
    append_log ((if ltb 0 e.index then truncate_from e.index log else log) ++ e ∷ []) es

unfoldable pub append_entries : List LogEntry → MemoryRaftStorage → Option MemoryRaftStorage
append_entries entries s = some (record s { log = append_log s.log entries })

unfoldable pub get_entries : ℕ → ℕ → MemoryRaftStorage → Option (List LogEntry)
get_entries from to s = some (retain (λ e. leb from e.index && leb e.index to) s.log)

unfoldable pub last_index : MemoryRaftStorage → ℕ
last_index s = or_zero (λ e. e.index) (last s.log)

unfoldable pub last_term : MemoryRaftStorage → ℕ
last_term s = or_zero (λ e. e.term) (last s.log)

unfoldable pub save_hard_state : HardState → MemoryRaftStorage → Option MemoryRaftStorage
save_hard_state h s = some (record s { hard_state = h })

unfoldable pub load_hard_state : MemoryRaftStorage → Option HardState
load_hard_state s = some s.hard_state

unfoldable pub save_snapshot : Snapshot → MemoryRaftStorage → Option MemoryRaftStorage
save_snapshot x s = some (record s { snapshot = some x })

unfoldable pub load_snapshot : MemoryRaftStorage → Option (Option Snapshot)
load_snapshot s = some s.snapshot
