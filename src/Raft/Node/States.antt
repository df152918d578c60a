-- ===== src/Raft/Node/States.antt =====
-- What each call of a node does to the state, with the storage set aside.
use fundb.Prelude.{ℕ, ◌≡◌, Bool, List, arith, ltb, if◌then◌else◌}
use fundb.Raft.Types.{
  RaftState, Clock, AppendEntriesRequest, RequestVoteRequest, InstallSnapshotRequest,
}
use fundb.Raft.State.{become_leader}
use fundb.Raft.Append
use fundb.Raft.Vote
use fundb.Raft.Commit.{advance_commit_index}
use fundb.Raft.Storage.{RaftStorage}
use fundb.Raft.Node.{
  RaftNode, install_snapshot, stand, propose, start_election, handle_append_entries,
  handle_request_vote, handle_install_snapshot, update_match_index, persist_if,
}

-- The same term and the same vote.
pub record SameBallot (s t : RaftState) : Type 0 where
  pub current_term : t.current_term ≡ s.current_term
  pub voted_for : t.voted_for ≡ s.voted_for

module _ {S : Type 0} (st : RaftStorage S) where
  pub state-persist_if : (b : Bool) (n : RaftNode S) → (persist_if st b n).state ≡ n.state
  unfolding persist_if
  state-persist_if b n = ground arith

  pub state-handle_append_entries :
      (c : Clock) (req : AppendEntriesRequest) (n : RaftNode S)
      → (handle_append_entries st c req n).0.state ≡ (Append.handle_append_entries c req n.state).0
  unfolding handle_append_entries
  state-handle_append_entries c req n =
      let (s, resp, persist) = Append.handle_append_entries c req n.state in
      state-persist_if persist (record n { state = s })

  pub state-handle_request_vote :
      (c : Clock) (req : RequestVoteRequest) (n : RaftNode S)
      → (handle_request_vote st c req n).0.state ≡ (Vote.handle_request_vote c req n.state).0
  unfolding handle_request_vote
  state-handle_request_vote c req n =
      let (s, resp, persist) = Vote.handle_request_vote c req n.state in
      state-persist_if persist (record n { state = s })

  pub state-handle_install_snapshot :
      (c : Clock) (req : InstallSnapshotRequest) (n : RaftNode S)
      → (handle_install_snapshot st c req n).0.state
        ≡ (if ltb req.term n.state.current_term then n.state else install_snapshot c req n.state)
  unfolding handle_install_snapshot
  state-handle_install_snapshot c req n = ground arith

  pub SameBallot-start_election :
      (c : Clock) (n : RaftNode S)
      → SameBallot (stand c n.id n.state) (start_election st c n).0.state
  unfolding start_election become_leader
  SameBallot-start_election c n = ground arith

  pub SameBallot-update_match_index :
      (peer_id match_idx : ℕ) (n : RaftNode S)
      → SameBallot n.state (update_match_index st peer_id match_idx n).state
  unfolding update_match_index advance_commit_index
  SameBallot-update_match_index peer_id match_idx n = ground arith

  pub SameBallot-propose :
      (payload : List ℕ) (n : RaftNode S) → SameBallot n.state (propose st payload n).0.state
  unfolding propose
  SameBallot-propose payload n = ground arith
