-- ===== src/Raft/Commit.antt =====
-- `RaftState::advance_commit_index` of crates/fundb-raft/src/raft.rs.
pub mod Majority
use fundb.Prelude.{
  ℕ, ◌/◌, Bool, true, false, ◌&&◌, Option, none, some, List, [], ◌∷◌, ◌++◌, map, ltb, leb, ◌==◌,
  if◌then◌else◌, length, get_or,
}
use fundb.Assoc
use fundb.Raft.Types.{RaftState}
use fundb.Raft.State.{last_log_index, log_term_at}

unfoldable pub insert_sorted : ℕ → List ℕ → List ℕ
insert_sorted x [] = x ∷ []
insert_sorted x (y ∷ ys) = if leb x y then x ∷ (y ∷ ys) else y ∷ insert_sorted x ys

-- `sort_unstable` on numbers.
unfoldable pub sort : List ℕ → List ℕ
unfolding insert_sorted
sort [] = []
sort (x ∷ xs) = insert_sorted x (sort xs)

abbrev pub or_default : Option ℕ → ℕ
or_default none = 0
or_default (some v) = v

-- What the peers are known to hold, and the leader's own last index.
unfoldable pub all_match : List ℕ → RaftState → List ℕ
all_match peer_ids s =
    map (λ id. or_default (Assoc.get id s.match_index)) peer_ids ++ last_log_index s.log ∷ []

-- The element at position ⌊total / 2⌋ of the sorted list.
unfoldable pub new_commit : List ℕ → RaftState → ℕ
new_commit peer_ids s =
    let sorted = sort (all_match peer_ids s) in get_or sorted (length sorted / 2) 0

unfoldable pub advance_commit_index : List ℕ → RaftState → RaftState × Bool
advance_commit_index peer_ids s =
    let commit = new_commit peer_ids s in
    if ltb s.commit_index commit && log_term_at s.log commit == s.current_term
    then (record s { commit_index = commit }, true)
    else (s, false)
