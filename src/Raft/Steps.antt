-- ===== src/Raft/Steps.antt =====
-- A node of crates/fundb-raft as a state machine: the calls that its owner and its transport make,
-- and runs of them. The election tick and the transport are outside the crate.
pub mod Terms
pub mod Votes
use fundb.Prelude.{ℕ, List, [], ◌∷◌}
use fundb.Raft.Types.{Clock, AppendEntriesRequest, RequestVoteRequest, InstallSnapshotRequest}
use fundb.Raft.Storage.{RaftStorage}
use fundb.Raft.Node.{
  RaftNode, propose, start_election, handle_append_entries, handle_request_vote,
  handle_install_snapshot, update_match_index,
}

pub data Event : Type 0 where
  append : AppendEntriesRequest → Event
  vote : RequestVoteRequest → Event
  snapshot : InstallSnapshotRequest → Event
  election : Event
  matched : ℕ → ℕ → Event
  proposal : List ℕ → Event

module _ {S : Type 0} (st : RaftStorage S) where
  unfoldable pub step : RaftNode S → Clock × Event → RaftNode S
  step n (c, append req) = (handle_append_entries st c req n).0
  step n (c, vote req) = (handle_request_vote st c req n).0
  step n (c, snapshot req) = (handle_install_snapshot st c req n).0
  step n (c, election) = (start_election st c n).0
  step n (c, matched peer_id match_idx) = update_match_index st peer_id match_idx n
  step n (c, proposal payload) = (propose st payload n).0

  unfoldable pub run : RaftNode S → List (Clock × Event) → RaftNode S
  run n [] = n
  run n (e ∷ es) = run (step n e) es
