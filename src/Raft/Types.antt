-- ===== src/Raft/Types.antt =====
-- The data of crates/fundb-raft/src/raft.rs: log entries, persistent and volatile state, messages.
use fundb.Prelude.{ℕ, ◌+◌, ◌%◌, ◌^◌, Bool, Option, List}
use fundb.Assoc.{Assoc}

abbrev pub u64_mod : ℕ
u64_mod = 2 ^ 64

-- `a + b` on u64 in a release build, which wraps.
abbrev pub add_u64 : ℕ → ℕ → ℕ
add_u64 a b = (a + b) % u64_mod

pub data EntryType : Type 0 where
  normal config snapshot_entry : EntryType

pub record LogEntry : Type 0 where
  pub index : ℕ
  pub term : ℕ
  pub payload : List ℕ
  pub entry_type : EntryType

pub record HardState : Type 0 where
  pub current_term : ℕ
  pub voted_for : Option ℕ
  pub commit : ℕ

pub record Snapshot : Type 0 where
  pub index : ℕ
  pub term : ℕ
  pub payload : List ℕ

pub data RaftRole : Type 0 where
  follower candidate leader : RaftRole

pub record AppendEntriesRequest : Type 0 where
  pub term : ℕ
  pub leader_id : ℕ
  pub prev_log_index : ℕ
  pub prev_log_term : ℕ
  pub entries : List LogEntry
  pub leader_commit : ℕ

pub record AppendEntriesResponse : Type 0 where
  pub term : ℕ
  pub success : Bool

pub record RequestVoteRequest : Type 0 where
  pub term : ℕ
  pub candidate_id : ℕ
  pub last_log_index : ℕ
  pub last_log_term : ℕ

pub record RequestVoteResponse : Type 0 where
  pub term : ℕ
  pub vote_granted : Bool

pub record InstallSnapshotRequest : Type 0 where
  pub term : ℕ
  pub leader_id : ℕ
  pub last_included_index : ℕ
  pub last_included_term : ℕ
  pub payload : List ℕ

-- `RaftError`; the two causes that the modelled operations produce.
pub data RaftError : Type 0 where
  not_leader : Option ℕ → RaftError
  storage_error : RaftError

-- What one call reads from the system clock: `Instant::now()` and the sub-second nanoseconds.
pub record Clock : Type 0 where
  pub instant : ℕ
  pub subsec_nanos : ℕ

pub record RaftState : Type 0 where
  pub role : RaftRole
  pub current_term : ℕ
  pub voted_for : Option ℕ
  pub log : List LogEntry
  pub commit_index : ℕ
  pub last_applied : ℕ
  pub next_index : Assoc ℕ
  pub match_index : Assoc ℕ
  pub leader_id : Option ℕ
  pub last_heartbeat : ℕ
  pub election_timeout : ℕ
