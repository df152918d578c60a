-- ===== src/Raft/State.antt =====
-- `RaftState` of crates/fundb-raft/src/raft.rs: reading the log, and the changes of role.
use fundb.Prelude.{
  ℕ, ◌+◌, ◌%◌, ◌≤◌, Bool, not, Option, none, some, List, [], ◌∷◌, arith, leb, ◌==◌, if◌then◌else◌,
  find, last,
}
use fundb.Assoc
use fundb.Assoc.{Assoc}
use fundb.Raft.Types.{LogEntry, RaftState, Clock, add_u64, follower, candidate, leader}

-- `.map(|e| …).unwrap_or(0)`
abbrev pub or_zero : (LogEntry → ℕ) → Option LogEntry → ℕ
or_zero f none = 0
or_zero f (some e) = f e

unfoldable pub last_log_index : List LogEntry → ℕ
last_log_index log = or_zero (λ e. e.index) (last log)

unfoldable pub last_log_term : List LogEntry → ℕ
last_log_term log = or_zero (λ e. e.term) (last log)

-- 0 for index 0 and for an index that is not in the log.
unfoldable pub log_term_at : List LogEntry → ℕ → ℕ
log_term_at log index =
    if index == 0 then 0 else or_zero (λ e. e.term) (find (λ e. e.index == index) log)

unfoldable pub is_log_up_to_date : RaftState → ℕ → ℕ → Bool
unfolding last_log_index last_log_term
is_log_up_to_date s last_index last_term =
    let my_last_term = last_log_term s.log in
    let my_last_index = last_log_index s.log in
    if not (last_term == my_last_term)
    then leb my_last_term last_term
    else leb my_last_index last_index

-- In milliseconds, from the nanoseconds of the system clock.
unfoldable pub random_election_timeout : Clock → ℕ
random_election_timeout c = 150 + c.subsec_nanos % 151

unfoldable pub initial : Clock → RaftState
unfolding random_election_timeout
initial c = record {
  role = follower;
  current_term = 0;
  voted_for = none;
  log = [];
  commit_index = 0;
  last_applied = 0;
  next_index = [];
  match_index = [];
  leader_id = none;
  last_heartbeat = c.instant;
  election_timeout = random_election_timeout c;
}

unfoldable pub become_follower : Clock → ℕ → Option ℕ → RaftState → RaftState
become_follower c term leader_id s = record s {
  role = follower;
  current_term = term;
  voted_for = none;
  leader_id = leader_id;
  last_heartbeat = c.instant;
  election_timeout = random_election_timeout c;
}

unfoldable pub become_candidate : Clock → RaftState → RaftState
become_candidate c s = record s {
  current_term = add_u64 s.current_term 1;
  role = candidate;
  voted_for = none;
  leader_id = none;
  last_heartbeat = c.instant;
  election_timeout = random_election_timeout c;
}

-- One `insert` for each peer.
unfoldable pub insert_all : List ℕ → ℕ → Assoc ℕ → Assoc ℕ
insert_all [] v m = m
insert_all (peer ∷ peers) v m = insert_all peers v (Assoc.insert peer v m)

unfoldable pub become_leader : ℕ → List ℕ → RaftState → RaftState
unfolding last_log_index
become_leader my_id peer_ids s = record s {
  role = leader;
  leader_id = some my_id;
  next_index = insert_all peer_ids (add_u64 (last_log_index s.log) 1) [];
  match_index = insert_all peer_ids 0 [];
}

-- An election timeout lies between 150 and 300 ms.
pub random_election_timeout_bounds :
    (c : Clock) → (150 ≤ random_election_timeout c) × (random_election_timeout c ≤ 300)
unfolding random_election_timeout
random_election_timeout_bounds c = (omega arith, omega arith)
