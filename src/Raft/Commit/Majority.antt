-- ===== src/Raft/Commit/Majority.antt =====
-- How many nodes hold what `advance_commit_index` commits.
use fundb.Prelude.{
  ℕ, zero, suc, ◌+◌, ◌-◌, ◌*◌, ◌/◌, ◌≤◌, ◌<◌, ◌≡◌, true, List, [], ◌∷◌, map, arith, leb,
  if◌then◌else◌, length, get_or, length-append, length-map, refl,
}
use fundb.Assoc
use fundb.Raft.Types.{RaftState}
use fundb.Raft.State.{last_log_index, log_term_at}
use fundb.Raft.Commit.{insert_sorted, sort, or_default, all_match, new_commit, advance_commit_index}

-- How many numbers of a list are at least `v`.
unfoldable pub count_at_least : ℕ → List ℕ → ℕ
count_at_least v [] = 0
count_at_least v (x ∷ xs) = (if leb v x then 1 else 0) + count_at_least v xs

count-insert_sorted :
    (v x : ℕ) (xs : List ℕ) → count_at_least v (insert_sorted x xs) ≡ count_at_least v (x ∷ xs)
unfolding count_at_least insert_sorted
count-insert_sorted v x [] = omega arith
count-insert_sorted v x (y ∷ ys) = ground (arith, count-insert_sorted v x ys)

count-sort : (v : ℕ) (xs : List ℕ) → count_at_least v (sort xs) ≡ count_at_least v xs
unfolding sort count_at_least
count-sort v [] = refl
count-sort v (x ∷ xs) = ground (arith, count-insert_sorted v x (sort xs), count-sort v xs)

length-insert_sorted : (x : ℕ) (xs : List ℕ) → length (insert_sorted x xs) ≡ suc (length xs)
unfolding insert_sorted
length-insert_sorted x [] = refl
length-insert_sorted x (y ∷ ys) = ground (arith, length-insert_sorted x ys)

length-sort : (xs : List ℕ) → length (sort xs) ≡ length xs
unfolding sort
length-sort [] = refl
length-sort (x ∷ xs) = omega (arith, length-insert_sorted x (sort xs), length-sort xs)

-- Ascending, with every element at least `lo`.
abbrev Ascending : ℕ → List ℕ → Type 0
Ascending lo [] = Unit {0}
Ascending lo (x ∷ xs) = (lo ≤ x) × Ascending x xs

insert_sorted-Ascending :
    (lo x : ℕ) (xs : List ℕ) → lo ≤ x → Ascending lo xs → Ascending lo (insert_sorted x xs)
unfolding insert_sorted
insert_sorted-Ascending lo x [] h a = (h, tt)
insert_sorted-Ascending lo x (y ∷ ys) h a = ground (arith, insert_sorted-Ascending y x ys)

sort-Ascending : (xs : List ℕ) → Ascending 0 (sort xs)
unfolding sort
sort-Ascending [] = tt
sort-Ascending (x ∷ xs) = insert_sorted-Ascending 0 x (sort xs) (omega arith) (sort-Ascending xs)

count_all : (lo v : ℕ) (xs : List ℕ) → Ascending lo xs → v ≤ lo → length xs ≤ count_at_least v xs
unfolding count_at_least
count_all lo v [] a h = omega arith
count_all lo v (x ∷ xs) a h = ground (arith, count_all x v xs a.1)

-- In an ascending list everything from position `i` on is at least the element there.
count_from :
    (lo i : ℕ) (xs : List ℕ) → Ascending lo xs → length xs - i ≤ count_at_least (get_or xs i 0) xs
unfolding count_at_least
count_from lo i [] a = omega arith
count_from lo zero (x ∷ xs) a = ground (arith, count_all x x xs a.1)
count_from lo (suc i) (x ∷ xs) a = ground (arith, count_from x i xs a.1)

new_commit-count :
    (peer_ids : List ℕ) (s : RaftState)
    → length (all_match peer_ids s)
      ≤ 2 * count_at_least (new_commit peer_ids s) (all_match peer_ids s)
unfolding new_commit
new_commit-count peer_ids s =
    let m = all_match peer_ids s in
    omega (
      arith,
      length-sort m,
      count_from 0 (length (sort m) / 2) (sort m) (sort-Ascending m),
      count-sort (get_or (sort m) (length (sort m) / 2) 0) m,
    )

length-all_match :
    (peer_ids : List ℕ) (s : RaftState) → length (all_match peer_ids s) ≡ suc (length peer_ids)
unfolding all_match
length-all_match peer_ids s =
    let own = last_log_index s.log ∷ [] in
    let get_match = λ (id : ℕ). or_default (Assoc.get id s.match_index) in
    omega (arith, length-append (map get_match peer_ids) own, length-map peer_ids get_match)

-- When the commit index advances, it grows, to an entry of the current term that at least half
-- of the nodes hold, the leader counted; nothing else of the state changes.
pub advance_commit_index-held :
    (peer_ids : List ℕ) (s : RaftState)
    → (advance_commit_index peer_ids s).1 ≡ true
    → let s' = (advance_commit_index peer_ids s).0 in
      (s.commit_index < s'.commit_index)
      × (log_term_at s.log s'.commit_index ≡ s.current_term)
      × (suc (length peer_ids) ≤ 2 * count_at_least s'.commit_index (all_match peer_ids s))
      × (s' ≡ record s { commit_index = s'.commit_index })
unfolding advance_commit_index
advance_commit_index-held peer_ids s h =
    ground (arith, new_commit-count peer_ids s, length-all_match peer_ids s)

-- With two nodes the leader commits its last entry, if that is of its term and behind the commit
-- index, whatever its only peer holds of it.
pub advance_commit_index-two_nodes :
    (peer : ℕ) (s : RaftState)
    → or_default (Assoc.get peer s.match_index) ≤ last_log_index s.log
    → s.commit_index < last_log_index s.log
    → log_term_at s.log (last_log_index s.log) ≡ s.current_term
    → advance_commit_index (peer ∷ []) s ≡ (record s { commit_index = last_log_index s.log }, true)
unfolding advance_commit_index new_commit all_match sort insert_sorted
advance_commit_index-two_nodes peer s le lt term = ground arith
