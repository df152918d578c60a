-- ===== src/Raft/Vote.antt =====
-- `RaftState::handle_request_vote` of crates/fundb-raft/src/raft.rs.
use fundb.Prelude.{ℕ, Bool, true, false, ◌&&◌, Option, none, some, ltb, ◌==◌, if◌then◌else◌}
use fundb.Raft.Types.{RaftState, Clock, RequestVoteRequest, RequestVoteResponse}
use fundb.Raft.State.{is_log_up_to_date, become_follower}

-- No vote is cast yet, or it went to this candidate.
abbrev pub can_vote : Option ℕ → ℕ → Bool
can_vote none candidate = true
can_vote (some voted) candidate = voted == candidate

-- Step 2: a higher term makes a follower with no vote.
unfoldable pub observe_term : Clock → RequestVoteRequest → RaftState → RaftState
unfolding become_follower
observe_term c req s = if ltb s.current_term req.term then become_follower c req.term none s else s

-- Step 3.
unfoldable pub decide_vote :
    Clock → RequestVoteRequest → RaftState → RaftState × RequestVoteResponse × Bool
decide_vote c req s =
    if can_vote s.voted_for req.candidate_id
      && is_log_up_to_date s req.last_log_index req.last_log_term
    then (
      record s { voted_for = some req.candidate_id; last_heartbeat = c.instant },
      record { term = s.current_term; vote_granted = true },
      true,
    )
    else (s, record { term = s.current_term; vote_granted = false }, false)

-- The state afterwards, the response, and whether the caller persists the hard state.
unfoldable pub handle_request_vote :
    Clock → RequestVoteRequest → RaftState → RaftState × RequestVoteResponse × Bool
unfolding observe_term decide_vote
handle_request_vote c req s =
    if ltb req.term s.current_term
    then (s, record { term = s.current_term; vote_granted = false }, false)
    else decide_vote c req (observe_term c req s)
