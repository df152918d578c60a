-- ===== src/Raft/Append.antt =====
-- `RaftState::handle_append_entries` of crates/fundb-raft/src/raft.rs.
pub mod Splice
pub mod Bounds
use fundb.Prelude.{
  ℕ, Bool, true, false, not, ◌&&◌, ◌||◌, Option, some, List, [], ◌∷◌, ◌++◌, ltb, ◌==◌,
  if◌then◌else◌, retain, min, ◌≡◌, refl, arith, ◌<◌, ◌≤◌, Bool-cases, inl, ltb→lt, inr, ltb→le,
}
use fundb.Raft.Types.{
  LogEntry, RaftState, RaftRole, candidate, leader, Clock, AppendEntriesRequest,
  AppendEntriesResponse,
}
use fundb.Raft.State.{last_log_index, log_term_at, become_follower}

abbrev pub is_candidate : RaftRole → Bool
is_candidate candidate = true
is_candidate _ = false

abbrev pub is_leader : RaftRole → Bool
is_leader leader = true
is_leader _ = false

-- Step 2: a higher term, or a leader seen by a candidate, makes a follower.
unfoldable pub observe_leader : Clock → AppendEntriesRequest → RaftState → RaftState
observe_leader c req s =
    if ltb s.current_term req.term || is_candidate s.role
    then become_follower c req.term (some req.leader_id) s
    else record s { leader_id = some req.leader_id; last_heartbeat = c.instant }

-- Step 3: the log holds an entry at the previous index with the previous term.
unfoldable pub prev_matches : List LogEntry → AppendEntriesRequest → Bool
prev_matches log req =
    if ltb 0 req.prev_log_index
    then log_term_at log req.prev_log_index == req.prev_log_term
    else true

-- Step 4: an entry that conflicts is deleted with all that follow.
unfoldable pub truncate_conflicts : List LogEntry → List LogEntry → List LogEntry
truncate_conflicts log [] = log
truncate_conflicts log (e ∷ es) =
    let existing_term = log_term_at log e.index in
    truncate_conflicts
      (if not (existing_term == 0) && not (existing_term == e.term)
        then retain (λ x. ltb x.index e.index) log
        else log)
      es

-- Step 5: the entries that the log does not have are appended.
unfoldable pub append_missing : List LogEntry → List LogEntry → List LogEntry
append_missing log [] = log
append_missing log (e ∷ es) =
    append_missing (if log_term_at log e.index == 0 then log ++ e ∷ [] else log) es

-- Step 6.
unfoldable pub follow_commit : ℕ → ℕ → List LogEntry → ℕ
unfolding last_log_index
follow_commit commit_index leader_commit log =
    if ltb commit_index leader_commit then min leader_commit (last_log_index log) else commit_index

-- Steps 4 to 6 on a state that has passed the checks.
unfoldable pub accept_entries : AppendEntriesRequest → RaftState → RaftState
accept_entries req s =
    let log = append_missing (truncate_conflicts s.log req.entries) req.entries in
    record s { log = log; commit_index = follow_commit s.commit_index req.leader_commit log }

-- The state afterwards, the response, and whether the caller persists the hard state.
unfoldable pub handle_append_entries :
    Clock → AppendEntriesRequest → RaftState → RaftState × AppendEntriesResponse × Bool
handle_append_entries c req s =
    if ltb req.term s.current_term
    then (s, record { term = s.current_term; success = false }, false)
    else let s' = observe_leader c req s in
      if prev_matches s'.log req
      then (accept_entries req s', record { term = s'.current_term; success = true }, true)
      else (s', record { term = s'.current_term; success = false }, true)

pub log-observe_leader :
    (c : Clock) (req : AppendEntriesRequest) (s : RaftState) → (observe_leader c req s).log ≡ s.log
unfolding observe_leader become_follower
log-observe_leader c req s = ground arith

pub log-accept_entries :
    (req : AppendEntriesRequest) (s : RaftState)
    → (accept_entries req s).log ≡ append_missing (truncate_conflicts s.log req.entries) req.entries
unfolding accept_entries
log-accept_entries req s = refl

-- What holds of the three states that a call can leave holds of the one it leaves.
pub handle_append_entries_cases {ℓ} :
    (P : RaftState → Type ℓ) (c : Clock) (req : AppendEntriesRequest) (s : RaftState)
    → (req.term < s.current_term → P s)
    → (s.current_term ≤ req.term → P (observe_leader c req s))
    → (s.current_term ≤ req.term
        → prev_matches s.log req ≡ true
        → P (accept_entries req (observe_leader c req s)))
    → P (handle_append_entries c req s).0
unfolding handle_append_entries
handle_append_entries_cases P c req s stale failed passed =
    elim (Bool-cases (ltb req.term s.current_term)) [
      | inl e ↦ rw e (stale (ltb→lt _ _ e))
      | inr e ↦ elim (Bool-cases (prev_matches (observe_leader c req s).log req)) [
        | inl m ↦ rw (e, m) (passed (ltb→le _ _ e) (rw log-observe_leader at m))
        | inr m ↦ rw (e, m) (failed (ltb→le _ _ e))
      ]
    ]
