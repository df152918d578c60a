-- ===== src/Storage/Wal/Tests.antt =====
-- The theorems on wal.rs at a small codec and concrete logs.
use fundb.Prelude.{
  ℕ, ◌+◌, ◌≡◌, refl, Option, none, some, List, [], ◌∷◌, ◌++◌, arith, take, ◌==◌, if◌then◌else◌,
}
use fundb.Storage.Wal.{
  WalEntry, Codec, txn_commit, txn_abort, checkpoint, to_frame, to_le_bytes, checksum, recover,
  open_wal, append,
}
use fundb.Storage.Wal.Frames.{raw_frame}
use fundb.Storage.Wal.Recovery.{
  AllFit, frames, append_all, recover_torn, append_after_corruption, recover-append_all,
}

abbrev sum : List ℕ → ℕ
sum [] = 0
sum (x ∷ xs) = x + sum xs

-- An encoding of the entries that hold one number: a tag and the number.
abbrev to_vec : WalEntry → List ℕ
to_vec (txn_commit t) = 1 ∷ (t ∷ [])
to_vec (txn_abort t) = 2 ∷ (t ∷ [])
to_vec (checkpoint t) = 3 ∷ (t ∷ [])
to_vec _ = []

abbrev from_slice : List ℕ → Option WalEntry
from_slice (tag ∷ (t ∷ [])) =
    if tag == 1
    then some (txn_commit t)
    else if tag == 2
    then some (txn_abort t)
    else if tag == 3
    then some (checkpoint t)
    else none
from_slice _ = none

abbrev codec : Codec
codec = record { to_vec = to_vec; from_slice = from_slice; xxh3_64 = sum }

abbrev commits : List WalEntry
commits = txn_commit 5 ∷ (txn_abort 6 ∷ [])

commits-AllFit : AllFit codec commits
commits-AllFit = ((omega arith, refl), ((omega arith, refl), tt))

recover-append_all_example :
    recover codec (append_all codec commits (open_wal codec [])).file ≡ commits
recover-append_all_example = recover-append_all codec commits commits-AllFit

recover_torn_example :
    recover codec (frames codec commits ++ take 7 (to_frame codec (checkpoint 2))) ≡ commits
unfolding to_frame to_le_bytes
recover_torn_example =
    recover_torn codec 7 commits (checkpoint 2) commits-AllFit (omega arith, refl) (omega arith)

-- The second entry's checksum is wrong on disk.
append_after_corruption_example :
    recover codec
      (append codec (checkpoint 2) (
        open_wal codec
          (frames codec (txn_commit 5 ∷ []) ++ raw_frame codec (2 ∷ (6 ∷ [])) 99))).file
    ≡ txn_commit 5 ∷ []
unfolding checksum
append_after_corruption_example =
    append_after_corruption codec (txn_commit 5 ∷ []) (2 ∷ (6 ∷ [])) 99 (checkpoint 2)
      ((omega arith, refl), tt) (omega arith) (omega arith) (λ e. absurd (omega arith))
