-- ===== src/Raft/Steps/Terms.antt =====
-- How the term of a node moves.
use fundb.Prelude.{suc, ◌≤◌, ◌<◌, arith, ap}
use fundb.Raft.Types.{
  RaftState, Clock, AppendEntriesRequest, RequestVoteRequest, InstallSnapshotRequest, u64_mod,
}
use fundb.Raft.State.{become_follower, become_candidate}
use fundb.Raft.Append
use fundb.Raft.Append.{observe_leader, accept_entries, handle_append_entries_cases}
use fundb.Raft.Vote
use fundb.Raft.Storage.{RaftStorage}
use fundb.Raft.Node.{RaftNode, install_snapshot, stand}
use fundb.Raft.Node.States.{
  state-handle_append_entries, state-handle_request_vote, state-handle_install_snapshot,
  SameBallot-start_election, SameBallot-update_match_index, SameBallot-propose,
}
use fundb.Raft.Steps.{Event, append, vote, snapshot, election, matched, proposal, step}

-- An election adds 1 to the term, which must not be the last of u64.
abbrev pub NoWrap : {S : Type 0} → RaftNode S → Event → Type 0
NoWrap n election = suc n.state.current_term < u64_mod
NoWrap n _ = Unit {0}

append_term :
    (c : Clock) (req : AppendEntriesRequest) (s : RaftState)
    → s.current_term ≤ (Append.handle_append_entries c req s).0.current_term
append_term c req s =
    handle_append_entries_cases (λ t. s.current_term ≤ t.current_term) c req s (λ _. omega arith)
      (λ le. unfold observe_leader become_follower in ground arith)
      (λ le _. unfold accept_entries observe_leader become_follower in ground arith)

vote_term :
    (c : Clock) (req : RequestVoteRequest) (s : RaftState)
    → s.current_term ≤ (Vote.handle_request_vote c req s).0.current_term
unfolding Vote.handle_request_vote
vote_term c req s = ground arith

snapshot_term :
    (c : Clock) (req : InstallSnapshotRequest) (s : RaftState)
    → s.current_term ≤ req.term
    → s.current_term ≤ (install_snapshot c req s).current_term
unfolding install_snapshot
snapshot_term c req s h = ground arith

module _ {S : Type 0} (st : RaftStorage S) where
  -- No call lowers a node's term, unless an election wraps it.
  pub step-term :
      (n : RaftNode S) (c : Clock) (e : Event)
      → NoWrap n e
      → n.state.current_term ≤ (step st n (c, e)).state.current_term
  unfolding step
  step-term n c (append req) w = omega (
    arith,
    ap (λ s. s.current_term) (state-handle_append_entries st c req n),
    append_term c req n.state,
  )
  step-term n c (vote req) w = omega (
    arith,
    ap (λ s. s.current_term) (state-handle_request_vote st c req n),
    vote_term c req n.state,
  )
  step-term n c (snapshot req) w =
      ground (arith, state-handle_install_snapshot st c req n, snapshot_term c req n.state)
  step-term n c election w =
      unfold stand become_candidate in
      omega (arith, (SameBallot-start_election st c n).current_term)
  step-term n c (matched p m) w =
      omega (arith, (SameBallot-update_match_index st p m n).current_term)
  step-term n c (proposal payload) w = omega (arith, (SameBallot-propose st payload n).current_term)
