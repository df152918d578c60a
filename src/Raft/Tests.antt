-- ===== src/Raft/Tests.antt =====
-- The theorems on crates/fundb-raft at concrete states, requests and clocks.
use fundb.Prelude.{ℕ, ◌*◌, ◌≤◌, ◌<◌, ◌≡◌, refl, true, none, some, List, [], ◌∷◌, ◌++◌, arith}
use fundb.Prelude.Results.{ok}
use fundb.Raft.Types.{
  Clock, LogEntry, normal, RaftRole, follower, candidate, leader, RaftState, AppendEntriesRequest,
  RequestVoteRequest, InstallSnapshotRequest,
}
use fundb.Raft.State.{
  become_follower, log_term_at, last_log_index, last_log_term, is_log_up_to_date,
}
use fundb.Raft.Contig.{Contig}
use fundb.Raft.Append.{
  prev_matches, observe_leader, accept_entries, truncate_conflicts, append_missing, follow_commit,
}
use fundb.Raft.Append.Splice.{handle_append_entries-splice, handle_append_entries-Contig}
use fundb.Raft.Storage.{MemoryRaftStorage, save_hard_state}
use fundb.Raft.Storage.Laws.{memory}
use fundb.Raft.Commit.{advance_commit_index, new_commit, all_match, sort, insert_sorted}
use fundb.Raft.Commit.Majority.{
  count_at_least, advance_commit_index-held, advance_commit_index-two_nodes,
}
use fundb.Raft.Node.{
  RaftNode, new, propose, next_entry, handle_append_entries, handle_request_vote, persist_if,
}
use fundb.Raft.Node.Restart.{restart, restart-vote, restart-append}
use fundb.Raft.Node.Leading.{propose-durable}
use fundb.Raft.Steps.{step, run, append}
use fundb.Raft.Steps.Votes.{votes_unique, candidate_votes_twice}
use fundb.Assoc
use fundb.Raft.Append
use fundb.Raft.Vote
use fundb.Raft.Node.{RaftNode, handle_request_vote}
use fundb.Raft.Append.{prev_matches, observe_leader}

abbrev clock : Clock
clock = record { instant = 5; subsec_nanos = 7 }

abbrev entry : ℕ → ℕ → LogEntry
entry i t = record { index = i; term = t; payload = i ∷ []; entry_type = normal }

abbrev old_log : List LogEntry
old_log = entry 1 1 ∷ (entry 2 1 ∷ (entry 3 2 ∷ []))

old_log-Contig : Contig 1 old_log
old_log-Contig = (refl, omega arith, (refl, omega arith, (refl, omega arith, tt)))

-- A state in term 2 with the first entry committed.
abbrev in_role : RaftRole → List LogEntry → RaftState
in_role role log = record {
  role = role;
  current_term = 2;
  voted_for = some 1;
  log = log;
  commit_index = 1;
  last_applied = 1;
  next_index = [];
  match_index = (2, 2) ∷ ((3, 1) ∷ []);
  leader_id = none;
  last_heartbeat = 0;
  election_timeout = 200;
}

abbrev node_with : RaftState → RaftNode MemoryRaftStorage
node_with s = record {
  id = 1;
  peers = (2, "b") ∷ ((3, "c") ∷ []);
  storage = record {
    log = s.log;
    hard_state = record { current_term = 0; voted_for = none; commit = 0 };
    snapshot = none;
  };
  state = s;
}

-- A leader of term 3 replaces the entries 2 and 3.
abbrev replace_two : AppendEntriesRequest
replace_two = record {
  term = 3;
  leader_id = 2;
  prev_log_index = 1;
  prev_log_term = 1;
  entries = entry 2 3 ∷ (entry 3 3 ∷ []);
  leader_commit = 2;
}

handle_append_entries-splice_example :
    (Append.handle_append_entries clock replace_two (in_role follower old_log)).0.log
    ≡ entry 1 1 ∷ (entry 2 3 ∷ (entry 3 3 ∷ []))
unfolding Append.handle_append_entries prev_matches observe_leader become_follower log_term_at
handle_append_entries-splice_example =
    handle_append_entries-splice 1 (omega arith) replace_two (omega arith)
      (refl, omega arith, (refl, omega arith, tt)) (λ _. omega arith) clock
      (in_role follower old_log) old_log-Contig refl

handle_append_entries-Contig_example :
    Contig 1 (Append.handle_append_entries clock replace_two (in_role follower old_log)).0.log
handle_append_entries-Contig_example =
    handle_append_entries-Contig 1 (omega arith) replace_two (omega arith)
      (refl, omega arith, (refl, omega arith, tt)) (λ _. omega arith) clock
      (in_role follower old_log) old_log-Contig

abbrev snapshot_request : InstallSnapshotRequest
snapshot_request = record {
  term = 2;
  leader_id = 2;
  last_included_index = 3;
  last_included_term = 2;
  payload = [];
}

-- The leader goes on behind the snapshot.
abbrev after_snapshot : AppendEntriesRequest
after_snapshot = record {
  term = 2;
  leader_id = 2;
  prev_log_index = 3;
  prev_log_term = 2;
  entries = entry 4 2 ∷ [];
  leader_commit = 3;
}

abbrev heartbeat_request : AppendEntriesRequest
heartbeat_request = record {
  term = 2;
  leader_id = 2;
  prev_log_index = 0;
  prev_log_term = 0;
  entries = [];
  leader_commit = 4;
}

-- A leader of term 2 whose peers hold the entries 2 and 1.
abbrev leading : RaftState
leading = in_role leader (entry 1 1 ∷ (entry 2 2 ∷ (entry 3 2 ∷ [])))

leading_advances : (advance_commit_index (2 ∷ (3 ∷ [])) leading).1 ≡ true
unfolding advance_commit_index new_commit all_match sort insert_sorted log_term_at last_log_index
    Assoc.get
leading_advances = refl

advance_commit_index-held_example :
    let s' = (advance_commit_index (2 ∷ (3 ∷ [])) leading).0 in
    (1 < s'.commit_index)
    × (log_term_at leading.log s'.commit_index ≡ 2)
    × (3 ≤ 2 * count_at_least s'.commit_index (all_match (2 ∷ (3 ∷ [])) leading))
    × (s' ≡ record leading { commit_index = s'.commit_index })
advance_commit_index-held_example =
    advance_commit_index-held (2 ∷ (3 ∷ [])) leading leading_advances

advance_commit_index-two_nodes_example :
    advance_commit_index (2 ∷ []) leading ≡ (record leading { commit_index = 3 }, true)
unfolding log_term_at last_log_index Assoc.get
advance_commit_index-two_nodes_example =
    advance_commit_index-two_nodes 2 leading (omega arith) (omega arith) refl

abbrev vote_request : RequestVoteRequest
vote_request = record { term = 5; candidate_id = 2; last_log_index = 3; last_log_term = 2 }

abbrev heartbeat_five : AppendEntriesRequest
heartbeat_five = record heartbeat_request { term = 5 }

abbrev second_request : RequestVoteRequest
second_request = record { term = 5; candidate_id = 2; last_log_index = 4; last_log_term = 5 }

votes_unique_example : second_request.candidate_id ≡ vote_request.candidate_id
unfolding handle_request_vote Vote.handle_request_vote is_log_up_to_date last_log_index
    last_log_term run step persist_if save_hard_state handle_append_entries
    Append.handle_append_entries observe_leader become_follower prev_matches accept_entries
    truncate_conflicts append_missing follow_commit
votes_unique_example =
    votes_unique memory (node_with (in_role follower old_log)) clock clock vote_request
      second_request ((clock, append heartbeat_five) ∷ []) refl ((λ e. cc), tt) refl refl

abbrev other_candidate : RequestVoteRequest
other_candidate = record { term = 2; candidate_id = 3; last_log_index = 3; last_log_term = 2 }

candidate_votes_twice_example :
    let s' = (Append.handle_append_entries clock heartbeat_request (in_role candidate old_log)).0 in
    let (t, resp, persist) = Vote.handle_request_vote clock other_candidate s' in
    (resp.vote_granted ≡ true) × (t.voted_for ≡ some 3) × (t.current_term ≡ 2)
unfolding is_log_up_to_date last_log_index last_log_term Append.handle_append_entries observe_leader
    become_follower prev_matches accept_entries truncate_conflicts append_missing
candidate_votes_twice_example =
    candidate_votes_twice clock clock (in_role candidate old_log) heartbeat_request other_candidate
      refl refl refl refl

abbrev voted_storage : MemoryRaftStorage
voted_storage = record (node_with (in_role follower old_log)).storage {
  hard_state = record { current_term = 5; voted_for = some 2; commit = 1 };
}

restart-vote_example :
    let n =
      restart memory clock
        (handle_request_vote memory clock vote_request (node_with (in_role follower old_log))).0 in
    (n.state.current_term ≡ 5) × (n.state.voted_for ≡ some 2)
unfolding handle_request_vote Vote.handle_request_vote is_log_up_to_date last_log_index
    last_log_term save_hard_state persist_if
restart-vote_example =
    restart-vote memory clock clock vote_request (node_with (in_role follower old_log))
      voted_storage refl refl

restart-append_example :
    (restart memory clock
      (handle_append_entries memory clock replace_two
        (node_with (in_role follower old_log))).0).state.log
    ≡ (restart memory clock (node_with (in_role follower old_log))).state.log
restart-append_example =
    restart-append memory clock clock replace_two (node_with (in_role follower old_log))

abbrev old_candidate : RequestVoteRequest
old_candidate = record { term = 5; candidate_id = 2; last_log_index = 1; last_log_term = 1 }

propose-durable_example :
    let n = node_with leading in
    let n' = (propose memory (8 ∷ []) n).0 in
    let m = new memory clock 1 n.peers n'.storage in
    ((propose memory (8 ∷ []) n).1 ≡ ok tt)
    × (n'.state.log ≡ leading.log ++ next_entry (8 ∷ []) leading ∷ [])
    × (n'.state.commit_index ≡ 4)
    × (m.state.log ≡ n'.state.log)
    × (m.state.commit_index ≡ n'.state.commit_index)
unfolding last_log_index
propose-durable_example =
    propose-durable (8 ∷ []) clock (node_with leading) refl refl
      (refl, omega arith, (refl, omega arith, (refl, omega arith, tt))) (omega arith) (omega arith)
      (omega arith)
