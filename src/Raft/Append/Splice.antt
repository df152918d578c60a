-- ===== src/Raft/Append/Splice.antt =====
-- What steps 4 and 5 of `handle_append_entries` do to a log, against a direct description.
use fundb.Prelude.{
  ℕ, suc, ◌+◌, ◌-◌, ◌≤◌, ◌<◌, ◌≡◌, subst, sym, ltb, retain, refl, ap, ◌∙◌, true, List, [], ◌∷◌,
  ◌++◌, append_assoc, append-nil, arith, ◌==◌, if◌then◌else◌, length, length-append, drop,
  length-take, take-append-drop, take,
}
use fundb.Raft.Types.{LogEntry, AppendEntriesRequest, Clock}
use fundb.Raft.Contig.{
  Contig, Contig-snoc, log_term_at-past, log_term_at-next, retain_prefix, Contig-append,
  Contig-take, log_term_at-le, Contig-drop,
}
use fundb.Raft.Append.{
  truncate_conflicts, append_missing, observe_leader, prev_matches, handle_append_entries,
  RaftState, log-observe_leader, log-accept_entries, handle_append_entries_cases,
}

-- The entries of a log that a request leaves in place.
abbrev cut : List LogEntry → List LogEntry → List LogEntry
cut xs [] = xs
cut [] (e ∷ es) = []
cut (x ∷ xs) (e ∷ es) = if x.term == e.term then x ∷ cut xs es else []

-- Raft's rule for the entries behind the previous index: what agrees stays, and from the first
-- conflict or the end on the request's entries follow.
abbrev pub splice : List LogEntry → List LogEntry → List LogEntry
splice xs [] = xs
splice [] (e ∷ es) = e ∷ es
splice (x ∷ xs) (e ∷ es) = if x.term == e.term then x ∷ splice xs es else e ∷ es

module _ (f : ℕ) (pos : 0 < f) where
  truncate_past :
      (k : ℕ) (pre es : List LogEntry)
      → Contig f pre
      → f + length pre ≤ k
      → Contig k es
      → truncate_conflicts pre es ≡ pre
  unfolding truncate_conflicts
  truncate_past k pre [] h e he = refl
  truncate_past k pre (y ∷ ys) h e he =
      ground
        (arith, log_term_at-past f y.index pre h, truncate_past (suc k) pre ys h (omega arith) he.2)

  truncate_lem :
      (k : ℕ) (pre suf es : List LogEntry)
      → k ≡ f + length pre
      → Contig f pre
      → Contig k suf
      → Contig k es
      → truncate_conflicts (pre ++ suf) es ≡ pre ++ cut suf es
  unfolding truncate_conflicts
  truncate_lem k pre suf [] e h hs he = refl
  truncate_lem k pre [] (y ∷ ys) e h hs he =
      simp append-nil (truncate_past k pre (y ∷ ys) h (omega arith) he)
  truncate_lem k pre (x ∷ xs) (y ∷ ys) e h hs he = ground (
    arith,
    log_term_at-next f y.index pre xs x pos h (omega arith) (omega arith),
    append_assoc pre (x ∷ []) xs,
    append_assoc pre (x ∷ []) (cut xs ys),
    append-nil pre,
    subst (λ i. retain (λ z. ltb z.index i) (pre ++ x ∷ xs) ≡ pre) (sym he.0)
        (retain_prefix f k pre (x ∷ xs) h e hs),
    truncate_past (suc k) pre ys h (omega arith) he.2,
    truncate_lem (suc k) (pre ++ x ∷ []) xs ys (omega (arith, length-append pre (x ∷ [])))
        (Contig-snoc f pre x h (omega arith) hs.1) hs.2 he.2,
  )

  append_past :
      (k : ℕ) (pre es : List LogEntry)
      → k ≡ f + length pre
      → Contig f pre
      → Contig k es
      → append_missing pre es ≡ pre ++ es
  unfolding append_missing
  append_past k pre [] e h he = simp append-nil
  append_past k pre (y ∷ ys) e h he = ground (
    arith,
    log_term_at-past f y.index pre h,
    append_past (suc k) (pre ++ y ∷ []) ys (omega (arith, length-append pre (y ∷ [])))
        (Contig-snoc f pre y h (omega arith) he.1) he.2,
    append_assoc pre (y ∷ []) ys,
  )

  append_lem :
      (k : ℕ) (pre suf es : List LogEntry)
      → k ≡ f + length pre
      → Contig f pre
      → Contig k suf
      → Contig k es
      → append_missing (pre ++ cut suf es) es ≡ pre ++ splice suf es
  unfolding append_missing
  append_lem k pre suf [] e h hs he = refl
  append_lem k pre [] (y ∷ ys) e h hs he = simp append-nil (append_past k pre (y ∷ ys) e h he)
  append_lem k pre (x ∷ xs) (y ∷ ys) e h hs he = ground (
    arith,
    log_term_at-next f y.index pre (cut xs ys) x pos h (omega arith) (omega arith),
    append_assoc pre (x ∷ []) (cut xs ys),
    append_assoc pre (x ∷ []) (splice xs ys),
    append-nil pre,
    append_past k pre (y ∷ ys) e h he,
    append_lem (suc k) (pre ++ x ∷ []) xs ys (omega (arith, length-append pre (x ∷ [])))
        (Contig-snoc f pre x h (omega arith) hs.1) hs.2 he.2,
  )

-- How far into a log that starts at `f` the entries behind `prev` lie.
abbrev pub offset : ℕ → ℕ → ℕ
offset f prev = suc prev - f

pub splice-Contig :
    (k : ℕ) (xs es : List LogEntry) → Contig k xs → Contig k es → Contig k (splice xs es)
splice-Contig k xs [] h he = h
splice-Contig k [] (e ∷ es) h he = he
splice-Contig k (x ∷ xs) (e ∷ es) h he = ground (arith, splice-Contig (suc k) xs es h.2 he.2)

module _ (f : ℕ) (pos : 0 < f) (req : AppendEntriesRequest) (starts : f ≤ suc req.prev_log_index)
    (consecutive : Contig (suc req.prev_log_index) req.entries) where
  accept_lem :
      (log : List LogEntry)
      → Contig f log
      → suc req.prev_log_index ≤ f + length log
      → append_missing (truncate_conflicts log req.entries) req.entries
        ≡ take (offset f req.prev_log_index) log
          ++ splice (drop (offset f req.prev_log_index) log) req.entries
  accept_lem log h le =
      let n = offset f req.prev_log_index in
      let pre = take n log in
      let suf = drop n log in
      let e : suc req.prev_log_index ≡ f + length pre = omega (arith, length-take n log) in
      let hp : Contig f pre = Contig-take n f log h in
      let hs : Contig (suc req.prev_log_index) suf =
        Contig-drop n f (suc req.prev_log_index) log h (omega arith) (omega arith) in
      ap (λ l. append_missing (truncate_conflicts l req.entries) req.entries)
        (sym (take-append-drop n log))
      ∙ ap (λ l. append_missing l req.entries)
          (truncate_lem f pos (suc req.prev_log_index) pre suf req.entries e hp hs consecutive)
      ∙ append_lem f pos (suc req.prev_log_index) pre suf req.entries e hp hs consecutive

  accept-Contig :
      (log : List LogEntry)
      → Contig f log
      → suc req.prev_log_index ≤ f + length log
      → Contig f (append_missing (truncate_conflicts log req.entries) req.entries)
  accept-Contig log h le =
      let n = offset f req.prev_log_index in
      rw (accept_lem log h le) (
        Contig-append f (suc req.prev_log_index) (take n log) _ (omega (arith, length-take n log))
          (Contig-take n f log h)
          (splice-Contig (suc req.prev_log_index) (drop n log) req.entries
            (Contig-drop n f (suc req.prev_log_index) log h (omega arith) (omega arith))
            consecutive))

  module _ (termed : 0 < req.prev_log_index → 0 < req.prev_log_term) where
    prev_in_log :
        (log : List LogEntry)
        → Contig f log
        → prev_matches log req ≡ true
        → suc req.prev_log_index ≤ f + length log
    unfolding prev_matches
    prev_in_log log h m = ground (arith, log_term_at-le f req.prev_log_index log h, termed)

    -- An accepted request leaves the log up to the previous index and splices its entries behind
    -- it: agreeing entries stay, and from the first conflict or the end on the request's follow.
    -- The log has consecutive indices from `f` on, which is not 0, and terms that are not 0; the
    -- request's entries have them from its previous index on, which is `f - 1` at least; a
    -- previous index that is not 0 has a term that is not 0.
    pub handle_append_entries-splice :
        (c : Clock) (s : RaftState)
        → Contig f s.log
        → (handle_append_entries c req s).1.success ≡ true
        → (handle_append_entries c req s).0.log
          ≡ take (offset f req.prev_log_index) s.log
            ++ splice (drop (offset f req.prev_log_index) s.log) req.entries
    unfolding handle_append_entries
    handle_append_entries-splice c s h ok =
        let s' = observe_leader c req s in
        ground (
          arith,
          log-observe_leader c req s,
          log-accept_entries req s',
          accept_lem s.log h,
          prev_in_log s.log h,
        )

    -- Whatever the answer, a log with consecutive indices from `f` on and terms that are not 0
    -- stays one, under the same conditions on `f` and the request.
    pub handle_append_entries-Contig :
        (c : Clock) (s : RaftState)
        → Contig f s.log
        → Contig f (handle_append_entries c req s).0.log
    handle_append_entries-Contig c s h =
        handle_append_entries_cases (λ t. Contig f t.log) c req s (λ _. h)
          (λ _. rw log-observe_leader h)
          (λ _ m.
            rw (log-accept_entries, log-observe_leader)
              (accept-Contig s.log h (prev_in_log s.log h m)))
