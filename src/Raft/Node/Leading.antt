-- ===== src/Raft/Node/Leading.antt =====
-- Elections and proposals of a node whose storage is `MemoryRaftStorage`.
use Prim.Native.String.{String}
use fundb.Prelude.{
  ℕ, suc, ◌+◌, ◌≤◌, ◌<◌, ◌≡◌, refl, false, List, [], ◌∷◌, ◌++◌, arith, length, is_empty, map, ltb,
  ◌∙◌, append-nil,
}
use fundb.Prelude.Results.{ok}
use fundb.Raft.Types.{RaftState, LogEntry, Clock, leader, u64_mod}
use fundb.Raft.State.{initial, last_log_index, log_term_at}
use fundb.Raft.Contig.{Contig, Contig-append, last_log_index-Contig, log_term_at-next}
use fundb.Raft.Storage.{
  RaftStorage, MemoryRaftStorage, save_hard_state, append_entries, append_log, load_hard_state,
  last_index,
}
use fundb.Raft.Storage.Laws.{memory, append_log-replace, get_entries-all}
use fundb.Raft.Node.{
  RaftNode, hard_state, count_acks, next_entry, commit_entry, propose, start_election, new,
  restore_log, restore_hard_state, initial,
}

-- Every peer is counted.
count_acks-length :
    (acks : ℕ) (peers : List (ℕ × String)) → count_acks acks peers ≡ acks + length peers
unfolding count_acks
count_acks-length acks [] = omega arith
count_acks-length acks (p ∷ ps) = omega (arith, count_acks-length (acks + 1) ps)

ids-size :
    (ps : List (ℕ × String))
    → let ids : List ℕ = map (λ p. p.0) ps in
      (is_empty ids ≡ is_empty ps) × (is_empty ids ≡ false → 0 < length ids)
ids-size [] = (refl, λ e. cc)
ids-size (p ∷ ps) = (refl, λ _. omega arith)

-- An election is won exactly by a node with no peers.
pub start_election-outcome :
    {S : Type 0} (st : RaftStorage S) (c : Clock) (n : RaftNode S)
    → (start_election st c n).1 ≡ is_empty n.peers
unfolding start_election
start_election-outcome st c n = ground (arith, ids-size n.peers)

abbrev committed : LogEntry → RaftNode MemoryRaftStorage → RaftNode MemoryRaftStorage
committed entry n =
    let s = record (n.state) { commit_index = entry.index } in
    record n { state = s; storage = record (n.storage) { hard_state = hard_state s } }

-- With peers or without, an entry of the current term behind the commit index is committed.
commit_entry_lem :
    (entry : LogEntry) (n : RaftNode MemoryRaftStorage)
    → n.state.commit_index < entry.index
    → log_term_at n.state.log entry.index ≡ n.state.current_term
    → commit_entry memory entry n ≡ (committed entry n, ok tt)
unfolding commit_entry save_hard_state
commit_entry_lem entry n lt term = ground (arith, count_acks-length 1 n.peers)

last_log_index-length : (log : List LogEntry) → Contig 1 log → last_log_index log ≡ length log
last_log_index-length [] h = unfold last_log_index in refl
last_log_index-length (e ∷ es) h = omega (arith, last_log_index-Contig 1 e es h)

last_zero : (log : List LogEntry) → Contig 1 log → ltb 0 (last_log_index log) ≡ false → log ≡ []
last_zero [] h e = refl
last_zero (x ∷ xs) h e = absurd (ground (arith, last_log_index-Contig 1 x xs h))

-- A node made anew from a storage in memory has the log and the commit index of the storage.
restart_memory :
    (d : Clock) (id : ℕ) (peers : List (ℕ × String)) (m : MemoryRaftStorage)
    → Contig 1 m.log
    → ((new memory d id peers m).state.log ≡ m.log)
      × ((new memory d id peers m).state.commit_index ≡ m.hard_state.commit)
unfolding new restore_log restore_hard_state initial load_hard_state
restart_memory d id peers m h =
    ground (arith, get_entries-all 1 m (omega arith) h, last_zero m.log h, last_index-eq m)
  where
    last_index-eq : (m : MemoryRaftStorage) → last_index m ≡ last_log_index m.log
    last_index-eq m = unfold last_index last_log_index in refl

entry_index :
    (payload : List ℕ) (s : RaftState)
    → Contig 1 s.log
    → suc (length s.log) < u64_mod
    → (next_entry payload s).index ≡ suc (length s.log)
unfolding next_entry
entry_index payload s h room = omega (arith, last_log_index-length s.log h)

-- The leader with the entry in its log and its storage.
abbrev proposed : List ℕ → RaftNode MemoryRaftStorage → RaftNode MemoryRaftStorage
proposed payload n =
    let entry = next_entry payload n.state in
    record n {
      state = record (n.state) { log = n.state.log ++ entry ∷ [] };
      storage = record (n.storage) { log = append_log n.storage.log (entry ∷ []) };
    }

propose_lem :
    (payload : List ℕ) (n : RaftNode MemoryRaftStorage)
    → n.state.role ≡ leader
    → propose memory payload n
      ≡ commit_entry memory (next_entry payload n.state) (proposed payload n)
unfolding propose append_entries
propose_lem payload n role = rw role

-- A leader in a term that is not 0, over a storage in memory that holds its log, whose log has
-- consecutive indices from 1 on, reaches the commit index and leaves room in u64: a proposal
-- succeeds, with peers or without; its entry is the last of the log and is committed; a node made
-- anew from the storage has the same log and commit index.
pub propose-durable :
    (payload : List ℕ) (d : Clock) (n : RaftNode MemoryRaftStorage)
    → n.state.role ≡ leader
    → n.storage.log ≡ n.state.log
    → Contig 1 n.state.log
    → 0 < n.state.current_term
    → n.state.commit_index ≤ last_log_index n.state.log
    → suc (length n.state.log) < u64_mod
    → let n' = (propose memory payload n).0 in
      let m = new memory d n.id n.peers n'.storage in
      ((propose memory payload n).1 ≡ ok tt)
      × (n'.state.log ≡ n.state.log ++ next_entry payload n.state ∷ [])
      × (n'.state.commit_index ≡ suc (length n.state.log))
      × (m.state.log ≡ n'.state.log)
      × (m.state.commit_index ≡ n'.state.commit_index)
propose-durable payload d n role same h pos le room =
    let entry = next_entry payload n.state in
    let log = n.state.log in
    let index : entry.index ≡ suc (length log) = entry_index payload n.state h room in
    let run : Contig (suc (length log)) (entry ∷ []) = (index, (unfold next_entry in pos), tt) in
    let whole : Contig 1 (log ++ entry ∷ []) =
      Contig-append 1 (suc (length log)) log (entry ∷ []) (omega arith) h run in
    let stored : append_log n.storage.log (entry ∷ []) ≡ log ++ entry ∷ [] = rw same (
      rw append-nil at (
        append_log-replace 1 (suc (length log)) log [] entry [] (omega arith) h (omega arith) tt
          run)) in
    let done : propose memory payload n ≡ (committed entry (proposed payload n), ok tt) =
      propose_lem payload n role
      ∙ commit_entry_lem entry (proposed payload n) (omega (arith, last_log_index-length log h)) (
          log_term_at-next 1 entry.index log [] entry (omega arith) h (omega arith) refl
          ∙ (unfold next_entry in refl)) in
    let back =
      restart_memory d n.id n.peers (committed entry (proposed payload n)).storage
        (rw stored whole) in
    rw done (refl, refl, index, back.0 ∙ stored, back.1)
