-- ===== src/Raft/Node/Restart.antt =====
-- What a node that is created again from its storage knows.
use fundb.Prelude.{
  ◌<◌, ◌≡◌, refl, Bool, true, false, some, arith, Option-cases, inl, inr, subst, ◌∙◌,
}
use fundb.Raft.Types.{RaftState, Clock, AppendEntriesRequest, RequestVoteRequest}
use fundb.Raft.State.{is_log_up_to_date}
use fundb.Raft.Append
use fundb.Raft.Vote
use fundb.Raft.Storage.{RaftStorage}
use fundb.Raft.Node.States.{state-persist_if}
use fundb.Raft.Node.{
  RaftNode, new, hard_state, handle_append_entries, handle_request_vote, persist_if, HardState,
}

granted_facts :
    (c : Clock) (req : RequestVoteRequest) (s : RaftState)
    → let (s', resp, persist) = Vote.handle_request_vote c req s in
      resp.vote_granted ≡ true
      → (persist ≡ true) × (s'.current_term ≡ req.term) × (s'.voted_for ≡ some req.candidate_id)
unfolding Vote.handle_request_vote
granted_facts c req s g = ground arith

module _ {S : Type 0} (st : RaftStorage S) where
  -- A node that is made anew over this storage.
  abbrev pub restart : Clock → RaftNode S → RaftNode S
  restart c n = new st c n.id n.peers n.storage

  ballot-restore :
      (c : Clock) (n : RaftNode S) (s : RaftState)
      → st.load_hard_state n.storage ≡ some (hard_state s)
      → ((restart c n).state.current_term ≡ s.current_term)
        × ((restart c n).state.voted_for ≡ s.voted_for)
  unfolding new
  ballot-restore c n s e = ground (arith)

  storage-persist_if :
      (n : RaftNode S) (b : Bool) (t : S)
      → b ≡ true
      → st.save_hard_state (hard_state n.state) n.storage ≡ some t
      → (persist_if st b n).storage ≡ t
  unfolding persist_if
  storage-persist_if n b t e saved = ground arith

  -- A vote that was granted, if its save succeeded, is known after a restart.
  pub restart-vote :
      (c d : Clock) (req : RequestVoteRequest) (n : RaftNode S) (t : S)
      → let n' = (handle_request_vote st c req n).0 in
        st.save_hard_state (hard_state n'.state) n.storage ≡ some t
        → (handle_request_vote st c req n).1.vote_granted ≡ true
        → ((restart d n').state.current_term ≡ req.term)
          × ((restart d n').state.voted_for ≡ some req.candidate_id)
  unfolding handle_request_vote
  restart-vote c d req n t saved granted =
      let (s', resp, persist) = Vote.handle_request_vote c req n.state in
      let n' = persist_if st persist (record n { state = s' }) in
      let facts = granted_facts c req n.state granted in
      let saved' : st.save_hard_state (hard_state s') n.storage ≡ some t =
        subst (λ x. st.save_hard_state (hard_state x) n.storage ≡ some t)
          (state-persist_if st persist (record n { state = s' })) saved in
      let e : n'.storage ≡ t =
        storage-persist_if (record n { state = s' }) persist t facts.0 saved' in
      let loaded : st.load_hard_state n'.storage ≡ some (hard_state s') =
        rw e (st.load-save (hard_state s') n.storage t saved') in
      let back = ballot-restore d n' s' loaded in (back.0 ∙ facts.1, back.1 ∙ facts.2)

  log-restore :
      (c : Clock) (n : RaftNode S) (h : HardState) (t : S)
      → st.save_hard_state h n.storage ≡ some t
      → (restart c (record n { storage = t })).state.log ≡ (restart c n).state.log
  unfolding new
  log-restore c n h t saved = ground (
    arith,
    st.last_index-save h n.storage t saved,
    st.get_entries-save h n.storage t 1 (st.last_index n.storage) saved,
    st.get_entries-save h n.storage t 1 (st.last_index t) saved,
  )

  log-persist :
      (c : Clock) (n : RaftNode S) (s : RaftState) (persist : Bool)
      → (restart c (persist_if st persist (record n { state = s }))).state.log
        ≡ (restart c n).state.log
  unfolding persist_if
  log-persist c n s false = unfold new in refl
  log-persist c n s true = elim (Option-cases (st.save_hard_state (hard_state s) n.storage)) [
    | inl e ↦ rw e (unfold new in refl)
    | inr (t, e) ↦ rw e (log-restore c n (hard_state s) t e)
  ]

  -- A follower's storage takes none of the entries that the follower accepts: after a restart
  -- its log is the one that a restart before the request would have given.
  pub restart-append :
      (c d : Clock) (req : AppendEntriesRequest) (n : RaftNode S)
      → (restart d (handle_append_entries st c req n).0).state.log ≡ (restart d n).state.log
  unfolding handle_append_entries
  restart-append c d req n =
      let (s', resp, persist) = Append.handle_append_entries c req n.state in
      log-persist d n s' persist

  -- A request for a vote in a higher term that is refused because the candidate's log is older
  -- leaves the storage as it was, while the node goes on in the request's term.
  pub refused_vote-storage :
      (c : Clock) (req : RequestVoteRequest) (n : RaftNode S)
      → n.state.current_term < req.term
      → is_log_up_to_date n.state req.last_log_index req.last_log_term ≡ false
      → let n' = (handle_request_vote st c req n).0 in
        (n'.storage ≡ n.storage) × (n'.state.current_term ≡ req.term)
  unfolding handle_request_vote Vote.handle_request_vote persist_if is_log_up_to_date
  refused_vote-storage c req n lt old = ground arith
