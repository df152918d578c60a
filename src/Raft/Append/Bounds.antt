-- ===== src/Raft/Append/Bounds.antt =====
-- The commit index under `handle_append_entries`, and a node whose log a snapshot has emptied.
use fundb.Prelude.{
  ℕ, suc, ◌+◌, ◌≤◌, ◌<◌, ◌≡◌, refl, false, List, [], ◌∷◌, arith, ltb, retain, length,
}
use fundb.Raft.Types.{LogEntry, RaftState, Clock, AppendEntriesRequest, InstallSnapshotRequest}
use fundb.Raft.State.{last_log_index, log_term_at, become_follower}
use fundb.Raft.Contig.{Contig}
use fundb.Raft.Append.{
  handle_append_entries, handle_append_entries_cases, observe_leader, accept_entries, follow_commit,
  prev_matches, truncate_conflicts, append_missing,
}
use fundb.Raft.Node.{install_snapshot}

-- If the log reaches as far as the commit index after a request, the request has not lowered the
-- commit index nor taken it past the end of the log.
pub handle_append_entries-commit :
    (c : Clock) (req : AppendEntriesRequest) (s : RaftState)
    → let s' = (handle_append_entries c req s).0 in
      s.commit_index ≤ last_log_index s'.log
      → (s.commit_index ≤ s'.commit_index) × (s'.commit_index ≤ last_log_index s'.log)
handle_append_entries-commit c req s =
    handle_append_entries_cases
      (λ t.
        s.commit_index ≤ last_log_index t.log
        → (s.commit_index ≤ t.commit_index) × (t.commit_index ≤ last_log_index t.log))
      c req s (λ _ h. (omega arith, h)) (λ _. unfold observe_leader become_follower in ground arith)
      (λ _ _. unfold accept_entries observe_leader become_follower follow_commit in ground arith)

retain_covered :
    (f last : ℕ) (log : List LogEntry)
    → Contig f log
    → f + length log ≤ suc last
    → retain (λ e. ltb last e.index) log ≡ []
retain_covered f last [] h le = refl
retain_covered f last (x ∷ xs) h le =
    ground (arith, retain_covered (suc f) last xs h.2 (omega arith))

empty_rejects :
    (c : Clock) (req : AppendEntriesRequest) (s : RaftState)
    → s.log ≡ []
    → 0 < req.prev_log_index
    → 0 < req.prev_log_term
    → (handle_append_entries c req s).1.success ≡ false
unfolding handle_append_entries prev_matches observe_leader become_follower log_term_at
empty_rejects c req s e p t = ground arith

-- Once a snapshot covers a whole log with consecutive indices, every request with a previous index
-- and term that are not 0 is refused, also one that goes on exactly where the snapshot ends.
pub append_after_snapshot_rejected :
    (c d : Clock) (snap : InstallSnapshotRequest) (req : AppendEntriesRequest) (s : RaftState)
    (f : ℕ)
    → Contig f s.log
    → f + length s.log ≤ suc snap.last_included_index
    → 0 < req.prev_log_index
    → 0 < req.prev_log_term
    → (handle_append_entries d req (install_snapshot c snap s)).1.success ≡ false
append_after_snapshot_rejected c d snap req s f h le p t =
    empty_rejects d req (install_snapshot c snap s)
      (unfold install_snapshot become_follower in
        ground (arith, retain_covered f snap.last_included_index s.log h le))
      p t

-- On an empty log, a request of a current leader with no previous index, no entries and a higher
-- commit index takes the commit index to 0, whatever it was.
pub heartbeat_resets_commit :
    (c : Clock) (req : AppendEntriesRequest) (s : RaftState)
    → s.log ≡ []
    → req.prev_log_index ≡ 0
    → req.entries ≡ []
    → s.current_term ≤ req.term
    → s.commit_index < req.leader_commit
    → (handle_append_entries c req s).0.commit_index ≡ 0
unfolding handle_append_entries prev_matches observe_leader become_follower accept_entries
    truncate_conflicts append_missing follow_commit last_log_index
heartbeat_resets_commit c req s e p n le lt = ground arith
