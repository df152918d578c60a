-- ===== src/Raft/Node.antt =====
-- `RaftNode` of crates/fundb-raft/src/raft.rs over any storage. A call runs to its end before the
-- next one starts; its readings of the clock are an argument.
use Prim.Native.String.{String}
use fundb.Prelude.{
  ℕ, ◌+◌, ◌/◌, Bool, true, false, ◌&&◌, Option, none, some, List, [], ◌∷◌, ◌++◌, map, ltb, leb,
  ◌==◌, if◌then◌else◌, length, is_empty, retain,
}
pub mod States
pub mod Restart
pub mod Leading
use fundb.Prelude.Results.{Result, ok, err}
use fundb.Assoc
use fundb.Raft.Types.{
  LogEntry, normal, HardState, Snapshot, RaftRole, RaftState, Clock, RaftError, not_leader,
  storage_error, AppendEntriesRequest, AppendEntriesResponse, RequestVoteRequest,
  RequestVoteResponse, InstallSnapshotRequest, add_u64,
}
use fundb.Raft.State.{
  last_log_index, last_log_term, log_term_at, initial, become_follower, become_candidate,
  become_leader,
}
use fundb.Raft.Append.{is_leader, is_candidate}
use fundb.Raft.Append
use fundb.Raft.Vote
use fundb.Raft.Commit.{advance_commit_index}
use fundb.Raft.Storage.{RaftStorage}

pub record RaftNode (S : Type 0) : Type 0 where
  pub id : ℕ
  pub peers : List (ℕ × String)
  pub storage : S
  pub state : RaftState

abbrev pub peer_ids : {S : Type 0} → RaftNode S → List ℕ
peer_ids n = map (λ p. p.0) n.peers

abbrev pub hard_state : RaftState → HardState
hard_state s = record {
  current_term = s.current_term;
  voted_for = s.voted_for;
  commit = s.commit_index;
}

-- `let _ = storage.save…`: an error is dropped, and leaves the storage as it was.
abbrev pub or_keep : {S : Type 0} → S → Option S → S
or_keep s none = s
or_keep s (some t) = t

abbrev pub unwrap_or : {A : Type 0} → Option A → A → A
unwrap_or none d = d
unwrap_or (some a) d = a

-- Every peer is taken to acknowledge: the transport is left to the caller.
unfoldable pub count_acks : ℕ → List (ℕ × String) → ℕ
count_acks acks [] = acks
count_acks acks (p ∷ ps) = count_acks (acks + 1) ps

unfoldable pub next_entry : List ℕ → RaftState → LogEntry
next_entry payload s = record {
  index = add_u64 (last_log_index s.log) 1;
  term = s.current_term;
  payload = payload;
  entry_type = normal;
}

unfoldable pub read_index : {S : Type 0} → RaftNode S → ℕ
read_index n = n.state.commit_index

-- A candidate for the next term that has voted for itself.
unfoldable pub stand : Clock → ℕ → RaftState → RaftState
unfolding become_candidate
stand c id s = record (become_candidate c s) { voted_for = some id }

-- The request that `send_heartbeat` builds for each peer.
unfoldable pub heartbeat : {S : Type 0} → RaftNode S → Option AppendEntriesRequest
heartbeat n =
    let s = n.state in
    if is_leader s.role
    then some (record {
      term = s.current_term;
      leader_id = n.id;
      prev_log_index = last_log_index s.log;
      prev_log_term = last_log_term s.log;
      entries = [];
      leader_commit = s.commit_index;
    })
    else none

-- The state behind the term check of `handle_install_snapshot`.
unfoldable pub install_snapshot : Clock → InstallSnapshotRequest → RaftState → RaftState
unfolding become_follower
install_snapshot c req s =
    let s' =
      if ltb s.current_term req.term
      then become_follower c req.term (some req.leader_id) s
      else record s { leader_id = some req.leader_id; last_heartbeat = c.instant } in
    let last = req.last_included_index in
    record s' {
      log = retain (λ e. ltb last e.index) s'.log;
      commit_index = if ltb s'.commit_index last then last else s'.commit_index;
      last_applied = if ltb s'.last_applied last then last else s'.last_applied;
    }

unfoldable pub force_become_leader : {S : Type 0} → RaftNode S → RaftNode S
force_become_leader n =
    let s = n.state in
    record n {
      state =
          become_leader n.id (peer_ids n) (record s { current_term = add_u64 s.current_term 1 });
    }

unfoldable pub force_set_role : {S : Type 0} → RaftRole → RaftNode S → RaftNode S
force_set_role role n = record n { state = record (n.state) { role = role } }

module _ {S : Type 0} (st : RaftStorage S) where
  unfoldable pub save : RaftState → S → S
  save s storage = or_keep storage (st.save_hard_state (hard_state s) storage)

  -- What `new` takes over from the storage's hard state.
  unfoldable pub restore_hard_state : Option HardState → RaftState → RaftState
  restore_hard_state none s = s
  restore_hard_state (some h) s = record s {
    current_term = h.current_term;
    voted_for = h.voted_for;
    commit_index = h.commit;
  }

  unfoldable pub restore_log : S → RaftState → RaftState
  restore_log storage s =
      let last_idx = st.last_index storage in
      if ltb 0 last_idx
      then record s { log = unwrap_or (st.get_entries 1 last_idx storage) s.log }
      else s

  unfoldable pub new : Clock → ℕ → List (ℕ × String) → S → RaftNode S
  unfolding restore_hard_state restore_log
  new c id peers storage = record {
    id = id;
    peers = peers;
    storage = storage;
    state = restore_log storage (restore_hard_state (st.load_hard_state storage) (initial c));
  }

  unfoldable pub replicate_and_commit : ℕ → RaftNode S → RaftNode S × Result RaftError Unit
  unfolding count_acks
  replicate_and_commit up_to_index n =
      let majority = (length n.peers + 1) / 2 + 1 in
      let acks = count_acks 1 n.peers in
      let s = n.state in
      let s' = record s { commit_index = up_to_index } in
      if leb majority acks
        && (ltb s.commit_index up_to_index && log_term_at s.log up_to_index == s.current_term)
      then elim (st.save_hard_state (hard_state s') n.storage) [
        | none ↦ (record n { state = s' }, err storage_error)
        | some t ↦ (record n { state = s'; storage = t }, ok tt)
      ]
      else (n, ok tt)

  -- The entry is in the leader's log and in its storage.
  unfoldable pub commit_entry : LogEntry → RaftNode S → RaftNode S × Result RaftError Unit
  unfolding replicate_and_commit
  commit_entry entry n =
      let s' = record (n.state) { commit_index = entry.index } in
      if is_empty n.peers
      then elim (st.save_hard_state (hard_state s') n.storage) [
        | none ↦ (record n { state = s' }, err storage_error)
        | some t ↦ (record n { state = s'; storage = t }, ok tt)
      ]
      else replicate_and_commit entry.index n

  unfoldable pub propose : List ℕ → RaftNode S → RaftNode S × Result RaftError Unit
  unfolding commit_entry next_entry
  propose payload n =
      let s = n.state in
      let entry = next_entry payload s in
      let n' = record n { state = record s { log = s.log ++ entry ∷ [] } } in
      if is_leader s.role
      then elim (st.append_entries (entry ∷ []) n.storage) [
        | none ↦ (n', err storage_error)
        | some t ↦ commit_entry entry (record n' { storage = t })
      ]
      else (n, err (not_leader s.leader_id))

  unfoldable pub start_election : Clock → RaftNode S → RaftNode S × Bool
  unfolding stand save
  start_election c n =
      let s = stand c n.id n.state in
      let n' = record n { state = s; storage = save s n.storage } in
      let majority = (length (peer_ids n) + 1) / 2 + 1 in
      let votes : ℕ = 1 in
      if is_empty (peer_ids n)
      then (record n' { state = become_leader n.id [] s }, true)
      else if leb majority votes && is_candidate s.role
      then (record n' { state = become_leader n.id (peer_ids n) s }, true)
      else (n', false)

  unfoldable pub persist_if : Bool → RaftNode S → RaftNode S
  unfolding save
  persist_if persist n = if persist then record n { storage = save n.state n.storage } else n

  unfoldable pub handle_append_entries :
      Clock → AppendEntriesRequest → RaftNode S → RaftNode S × AppendEntriesResponse
  unfolding persist_if
  handle_append_entries c req n =
      let (s, resp, persist) = Append.handle_append_entries c req n.state in
      (persist_if persist (record n { state = s }), resp)

  unfoldable pub handle_request_vote :
      Clock → RequestVoteRequest → RaftNode S → RaftNode S × RequestVoteResponse
  unfolding persist_if
  handle_request_vote c req n =
      let (s, resp, persist) = Vote.handle_request_vote c req n.state in
      (persist_if persist (record n { state = s }), resp)

  -- The second component is the term of the response.
  unfoldable pub handle_install_snapshot :
      Clock → InstallSnapshotRequest → RaftNode S → RaftNode S × ℕ
  unfolding install_snapshot save
  handle_install_snapshot c req n =
      let snapshot : Snapshot = record {
        index = req.last_included_index;
        term = req.last_included_term;
        payload = req.payload;
      } in
      let s = install_snapshot c req n.state in
      let saved = or_keep n.storage (st.save_snapshot snapshot n.storage) in
      if ltb req.term n.state.current_term
      then (n, n.state.current_term)
      else (record n { state = s; storage = save s saved }, s.current_term)

  unfoldable pub update_match_index : ℕ → ℕ → RaftNode S → RaftNode S
  unfolding persist_if
  update_match_index peer_id match_idx n =
      let s = n.state in
      let s' = record s {
        match_index = Assoc.insert peer_id match_idx s.match_index;
        next_index = Assoc.insert peer_id (add_u64 match_idx 1) s.next_index;
      } in
      let (t, advanced) = advance_commit_index (Assoc.keys s'.next_index) s' in
      if is_leader s.role then persist_if advanced (record n { state = t }) else n
