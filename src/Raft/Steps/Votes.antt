-- ===== src/Raft/Steps/Votes.antt =====
-- Whom a node votes for in one term.
use fundb.Prelude.{
  [], ◌∷◌, ℕ, suc, ◌≤◌, ◌<◌, ◌≡◌, ◌≢◌, ◌⊎◌, true, some, arith, List, none, ◌∙◌, sym,
}
use fundb.Raft.Types.{
  RaftState, Clock, AppendEntriesRequest, RequestVoteRequest, InstallSnapshotRequest, u64_mod,
  candidate,
}
use fundb.Raft.State.{become_follower, become_candidate, is_log_up_to_date}
use fundb.Raft.Append
use fundb.Raft.Append.{observe_leader, accept_entries, handle_append_entries_cases}
use fundb.Raft.Vote
use fundb.Raft.Node.{install_snapshot, stand, RaftNode, handle_request_vote}
use fundb.Raft.Node.States.{
  SameBallot, state-handle_append_entries, state-handle_request_vote, state-handle_install_snapshot,
  SameBallot-start_election, SameBallot-update_match_index, SameBallot-propose,
}
use fundb.Raft.Steps.{
  Event, append, election, RaftStorage, step, run, vote, snapshot, matched, proposal,
}

-- In term `t` the node has voted for `v`, or it has left the term.
abbrev pub HasVoted : ℕ → ℕ → RaftState → Type 0
HasVoted t v s = (t < s.current_term) ⊎ ((s.current_term ≡ t) × (s.voted_for ≡ some v))

-- The calls that keep a vote: any but a leader's request to a candidate of the same term, and an
-- election that would wrap the term.
abbrev pub Calm : RaftState → Event → Type 0
Calm s (append req) = (s.role ≡ candidate) → req.term ≢ s.current_term
Calm s election = suc s.current_term < u64_mod
Calm s _ = Unit {0}

module _ (t v : ℕ) (c : Clock) (s : RaftState) (h : HasVoted t v s) where
  SameBallot-HasVoted : (s' : RaftState) → SameBallot s s' → HasVoted t v s'
  SameBallot-HasVoted s' same = ground (arith, same.current_term, same.voted_for)

  append-HasVoted :
      (req : AppendEntriesRequest)
      → Calm s (append req)
      → HasVoted t v (Append.handle_append_entries c req s).0
  append-HasVoted req calm =
      handle_append_entries_cases (HasVoted t v) c req s (λ _. h)
        (λ le. unfold observe_leader become_follower in ground arith)
        (λ le _. unfold accept_entries observe_leader become_follower in ground arith)

  vote-HasVoted : (req : RequestVoteRequest) → HasVoted t v (Vote.handle_request_vote c req s).0
  unfolding Vote.handle_request_vote
  vote-HasVoted req = ground arith

  -- A vote that is granted in the term goes to `v`.
  granted_same :
      (req : RequestVoteRequest)
      → (Vote.handle_request_vote c req s).1.vote_granted ≡ true
      → req.term ≡ t
      → req.candidate_id ≡ v
  unfolding Vote.handle_request_vote
  granted_same req g e = ground arith

  snapshot-HasVoted :
      (req : InstallSnapshotRequest)
      → s.current_term ≤ req.term
      → HasVoted t v (install_snapshot c req s)
  unfolding install_snapshot
  snapshot-HasVoted req le = ground arith

  stand-HasVoted : (id : ℕ) → Calm s election → HasVoted t v (stand c id s)
  unfolding stand become_candidate
  stand-HasVoted id calm = ground arith

-- A granted vote is a vote in the request's term.
granted-HasVoted :
    (c : Clock) (req : RequestVoteRequest) (s : RaftState)
    → (Vote.handle_request_vote c req s).1.vote_granted ≡ true
    → HasVoted req.term req.candidate_id (Vote.handle_request_vote c req s).0
unfolding Vote.handle_request_vote
granted-HasVoted c req s g = ground arith

module _ {S : Type 0} (st : RaftStorage S) where
  -- `Calm` at every step of a run.
  abbrev pub CalmRun : RaftNode S → List (Clock × Event) → Type 0
  CalmRun n [] = Unit {0}
  CalmRun n ((c, e) ∷ es) = Calm n.state e × CalmRun (step st n (c, e)) es

  step-HasVoted :
      (t v : ℕ) (n : RaftNode S) (c : Clock) (e : Event)
      → HasVoted t v n.state
      → Calm n.state e
      → HasVoted t v (step st n (c, e)).state
  unfolding step
  step-HasVoted t v n c (append req) h calm =
      rw state-handle_append_entries (append-HasVoted t v c n.state h req calm)
  step-HasVoted t v n c (vote req) h calm =
      rw state-handle_request_vote (vote-HasVoted t v c n.state h req)
  step-HasVoted t v n c (snapshot req) h calm =
      ground
        (arith, state-handle_install_snapshot st c req n, snapshot-HasVoted t v c n.state h req)
  step-HasVoted t v n c election h calm =
      SameBallot-HasVoted t v c (stand c n.id n.state) (stand-HasVoted t v c n.state h n.id calm) _
        (SameBallot-start_election st c n)
  step-HasVoted t v n c (matched p m) h calm =
      SameBallot-HasVoted t v c n.state h _ (SameBallot-update_match_index st p m n)
  step-HasVoted t v n c (proposal payload) h calm =
      SameBallot-HasVoted t v c n.state h _ (SameBallot-propose st payload n)

  run-HasVoted :
      (t v : ℕ) (n : RaftNode S) (es : List (Clock × Event))
      → HasVoted t v n.state
      → CalmRun n es
      → HasVoted t v (run st n es).state
  unfolding run
  run-HasVoted t v n [] h calm = h
  run-HasVoted t v n ((c, e) ∷ es) h calm =
      run-HasVoted t v (step st n (c, e)) es (step-HasVoted t v n c e h calm.0) calm.1

  -- Two votes that a node grants in one term go to one candidate, whatever it handles in
  -- between, if no leader's request of the same term reaches it while it is a candidate and no
  -- election wraps the term.
  pub votes_unique :
      (n : RaftNode S) (c d : Clock) (a b : RequestVoteRequest) (es : List (Clock × Event))
      → let n' = (handle_request_vote st c a n).0 in
        (handle_request_vote st c a n).1.vote_granted ≡ true
        → CalmRun n' es
        → (handle_request_vote st d b (run st n' es)).1.vote_granted ≡ true
        → b.term ≡ a.term
        → b.candidate_id ≡ a.candidate_id
  unfolding handle_request_vote
  votes_unique n c d a b es first calm second same =
      let n' = (handle_request_vote st c a n).0 in
      granted_same a.term a.candidate_id d (run st n' es).state
        (run-HasVoted a.term a.candidate_id n' es
          (rw state-handle_request_vote (granted-HasVoted c a n.state first)) calm)
        b second same

granted_when_free :
    (d : Clock) (other : RequestVoteRequest) (s : RaftState)
    → s.voted_for ≡ none
    → other.term ≡ s.current_term
    → is_log_up_to_date s other.last_log_index other.last_log_term ≡ true
    → let (t, resp, persist) = Vote.handle_request_vote d other s in
      (resp.vote_granted ≡ true)
      × (t.voted_for ≡ some other.candidate_id)
      × (t.current_term ≡ s.current_term)
unfolding Vote.handle_request_vote
granted_when_free d other s free same fresh = ground arith

-- A request of its own term makes a candidate forget its vote, whatever the request holds: the
-- node then grants its vote of that term to any candidate whose log is up to date, and is recorded
-- as having voted for that one.
pub candidate_votes_twice :
    (c d : Clock) (s : RaftState) (req : AppendEntriesRequest) (other : RequestVoteRequest)
    → s.role ≡ candidate
    → req.term ≡ s.current_term
    → other.term ≡ s.current_term
    → let s' = (Append.handle_append_entries c req s).0 in
      is_log_up_to_date s' other.last_log_index other.last_log_term ≡ true
      → let (t, resp, persist) = Vote.handle_request_vote d other s' in
        (resp.vote_granted ≡ true)
        × (t.voted_for ≡ some other.candidate_id)
        × (t.current_term ≡ s.current_term)
candidate_votes_twice c d s req other role term same fresh =
    let s' = (Append.handle_append_entries c req s).0 in
    let (free, kept) : (s'.voted_for ≡ none) × (s'.current_term ≡ s.current_term) =
      handle_append_entries_cases (λ t. (t.voted_for ≡ none) × (t.current_term ≡ s.current_term)) c
        req s (λ lt. absurd (omega arith))
        (λ _. unfold observe_leader become_follower in ground arith)
        (λ _ _. unfold accept_entries observe_leader become_follower in ground arith) in
    let granted = granted_when_free d other s' free (same ∙ sym kept) fresh in
    (granted.0, granted.1, granted.2 ∙ kept)
