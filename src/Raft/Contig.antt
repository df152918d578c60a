-- ===== src/Raft/Contig.antt =====
-- Logs with consecutive indices, and how `log_term_at` and `retain` read them.
use fundb.Prelude.{
  ℕ, zero, suc, ◌+◌, ◌≤◌, ◌<◌, ◌≡◌, subst, refl, none, List, [], ◌∷◌, ◌++◌, arith, ltb, ◌==◌, find,
  retain, length, take, drop,
}
use fundb.Raft.Types.{LogEntry}
use fundb.Raft.State.{last_log_index, log_term_at}

-- Indices k, k + 1, …, and terms that are not 0.
abbrev pub Contig : ℕ → List LogEntry → Type 0
Contig k [] = Unit {0}
Contig k (e ∷ es) = (e.index ≡ k) × (0 < e.term) × Contig (suc k) es

pub Contig-snoc :
    (f : ℕ) (pre : List LogEntry) (x : LogEntry)
    → Contig f pre
    → x.index ≡ f + length pre
    → 0 < x.term
    → Contig f (pre ++ x ∷ [])
Contig-snoc f [] x h e t = (omega arith, t, tt)
Contig-snoc f (y ∷ ys) x h e t = (h.0, h.1, Contig-snoc (suc f) ys x h.2 (omega arith) t)

-- Past its end a run of entries holds no index.
pub find_past :
    (f k : ℕ) (pre rest : List LogEntry)
    → Contig f pre
    → k ≡ f + length pre
    → find (λ e. e.index == k) (pre ++ rest) ≡ find (λ e. e.index == k) rest
find_past f k [] rest h e = refl
find_past f k (y ∷ ys) rest h e = ground (arith, find_past (suc f) k ys rest h.2 (omega arith))

-- Nor below its start.
pub find_below :
    (f k : ℕ) (es : List LogEntry) → Contig f es → k < f → find (λ e. e.index == k) es ≡ none
find_below f k [] h lt = refl
find_below f k (y ∷ ys) h lt = ground (arith, find_below (suc f) k ys h.2 (omega arith))

pub log_term_at-next :
    (f k : ℕ) (pre suf : List LogEntry) (x : LogEntry)
    → 0 < f
    → Contig f pre
    → k ≡ f + length pre
    → x.index ≡ k
    → log_term_at (pre ++ x ∷ suf) k ≡ x.term
unfolding log_term_at
log_term_at-next f k pre suf x pos h e xi = ground (arith, find_past f k pre (x ∷ suf) h e)

retain_none :
    (k m : ℕ) (suf : List LogEntry) → Contig m suf → k ≤ m → retain (λ x. ltb x.index k) suf ≡ []
retain_none k m [] h le = refl
retain_none k m (y ∷ ys) h le = ground (arith, retain_none k (suc m) ys h.2 (omega arith))

-- Cutting at an index keeps the entries before it.
pub retain_prefix :
    (f k : ℕ) (pre suf : List LogEntry)
    → Contig f pre
    → k ≡ f + length pre
    → Contig k suf
    → retain (λ x. ltb x.index k) (pre ++ suf) ≡ pre
retain_prefix f k [] suf h e hs = retain_none k k suf hs (omega arith)
retain_prefix f k (y ∷ ys) suf h e hs =
    ground (arith, retain_prefix (suc f) k ys suf h.2 (omega arith) hs)

-- An index with a term that is not 0 splits the log behind it.
pub log_term_at-le :
    (f k : ℕ) (log : List LogEntry)
    → Contig f log
    → 0 < log_term_at log k
    → (f ≤ k) × (k < f + length log)
unfolding log_term_at
log_term_at-le f k [] h pos = absurd (ground arith)
log_term_at-le f k (y ∷ ys) h pos = ground (arith, log_term_at-le (suc f) k ys h.2)

pub log_term_at-past :
    (f k : ℕ) (log : List LogEntry) → Contig f log → f + length log ≤ k → log_term_at log k ≡ 0
log_term_at-past f k log h le = ground (arith, log_term_at-le f k log h)

pub last_log_index-Contig :
    (f : ℕ) (e : LogEntry) (es : List LogEntry)
    → Contig f (e ∷ es)
    → last_log_index (e ∷ es) ≡ f + length es
unfolding last_log_index
last_log_index-Contig f e [] h = omega arith
last_log_index-Contig f e (y ∷ ys) h = omega (arith, last_log_index-Contig (suc f) y ys h.2)

pub Contig-take : (n f : ℕ) (log : List LogEntry) → Contig f log → Contig f (take n log)
Contig-take zero f log h = tt
Contig-take (suc n) f [] h = tt
Contig-take (suc n) f (y ∷ ys) h = (h.0, h.1, Contig-take n (suc f) ys h.2)

pub Contig-drop :
    (n f k : ℕ) (log : List LogEntry)
    → Contig f log
    → n ≤ length log
    → k ≡ f + n
    → Contig k (drop n log)
Contig-drop zero f k log h le e = subst (λ i. Contig i log) (omega arith) h
Contig-drop (suc n) f k [] h le e = tt
Contig-drop (suc n) f k (y ∷ ys) h le e = Contig-drop n (suc f) k ys h.2 (omega arith) (omega arith)

pub Contig-append :
    (f k : ℕ) (xs ys : List LogEntry)
    → k ≡ f + length xs
    → Contig f xs
    → Contig k ys
    → Contig f (xs ++ ys)
Contig-append f k [] ys e h hy = subst (λ i. Contig i ys) (omega arith) hy
Contig-append f k (x ∷ xs) ys e h hy =
    (h.0, h.1, Contig-append (suc f) k xs ys (omega arith) h.2 hy)
