-- ===== src/Indexes/Graph/Search.antt =====
-- The breadth-first search ends, and reports no node twice.
use fundb.Prelude.{
  ℕ, zero, suc, ◌+◌, ◌≤◌, ◌≡◌, refl, false, Option, none, some, List, [], ◌∷◌, ◌++◌, arith, length,
  length-append, ◌==◌, if◌then◌else◌, Bool-cases, inl, inr,
}
use fundb.Assoc
use fundb.Assoc.{Assoc}
use fundb.Indexes.Graph.{
  Edge, GraphIndex, Visit, has, edges_of, next_visits, reported, expanded, bfs_from, bfs,
  count_edges,
}

-- The edges of the nodes that are not visited.
remaining : List ℕ → Assoc (List Edge) → ℕ
remaining visited [] = 0
remaining visited ((node, edges) ∷ rest) =
    (if has node visited then 0 else length edges) + remaining visited rest

remaining-nil : (m : Assoc (List Edge)) → remaining [] m ≡ count_edges m
unfolding remaining count_edges
remaining-nil [] = refl
remaining-nil ((node, edges) ∷ rest) = omega (arith, remaining-nil rest)

remaining_mono :
    (n : ℕ) (visited : List ℕ) (m : Assoc (List Edge))
    → remaining (n ∷ visited) m ≤ remaining visited m
unfolding remaining
remaining_mono n visited [] = omega arith
remaining_mono n visited ((node, edges) ∷ rest) = ground (arith, remaining_mono n visited rest)

-- A visit takes the edges of its node away.
remaining_visit :
    (n : ℕ) (visited : List ℕ) (m : Assoc (List Edge))
    → has n visited ≡ false
    → remaining (n ∷ visited) m + length (edges_of n m) ≤ remaining visited m
unfolding remaining edges_of Assoc.get
remaining_visit n visited [] fresh = omega arith
remaining_visit n visited ((node, edges) ∷ rest) fresh = elim (Bool-cases (node == n)) [
  | inl same ↦
      let e : node ≡ n = ground arith in
      rw e (rw fresh (ground (arith, remaining_mono n visited rest)))
  | inr other ↦ rw other (ground (arith, remaining_visit n visited rest fresh))
]

module _ (times : ℕ → ℕ → ℕ) (start : ℕ) (predicate : List ℕ) (max_depth : ℕ) where
  length-next_visits :
      (v : Visit) (visited : List ℕ) (es : List Edge)
      → length (next_visits times start predicate max_depth v visited es) ≤ length es
  unfolding next_visits
  length-next_visits v visited [] = omega arith
  length-next_visits v visited (e ∷ es) = ground (arith, length-next_visits v visited es)

  length-expanded :
      (v : Visit) (visited : List ℕ) (g : GraphIndex)
      → length (expanded times start predicate max_depth v visited g)
        ≤ length (edges_of v.node g.outgoing)
  unfolding expanded
  length-expanded v visited g =
      ground (arith, length-next_visits v (v.node ∷ visited) (edges_of v.node g.outgoing))

  -- Nodes that are not visited, not the start, and each different from those before it.
  abbrev pub AreNew : List ℕ → List Visit → Type 0
  AreNew visited [] = Unit {0}
  AreNew visited (v ∷ vs) =
      (has v.node visited ≡ false) × (v.node == start ≡ false) × AreNew (v.node ∷ visited) vs

  -- There is a result, of new nodes.
  abbrev pub Reports : List ℕ → Option (List Visit) → Type 0
  Reports visited none = zero ≡ suc zero
  Reports visited (some vs) = AreNew visited vs

  -- Every node of the one list is in the other.
  abbrev IsIn : List ℕ → List ℕ → Type 0
  IsIn xs ys = (x : ℕ) → has x ys ≡ false → has x xs ≡ false

  AreNew-IsIn : (xs ys : List ℕ) (vs : List Visit) → IsIn xs ys → AreNew ys vs → AreNew xs vs
  AreNew-IsIn xs ys [] sub h = tt
  AreNew-IsIn xs ys (v ∷ vs) sub h = (
    sub v.node h.0,
    h.1,
    AreNew-IsIn (v.node ∷ xs) (v.node ∷ ys) vs (λ x fresh. ground (arith, sub x)) h.2,
  )

  Reports-visit :
      (v : Visit) (visited : List ℕ) (o : Option (List Visit))
      → has v.node visited ≡ false
      → Reports (v.node ∷ visited) o
      → Reports visited (elim o [
        | none ↦ none
        | some vs ↦ some (reported times start predicate max_depth v ++ vs)
      ])
  Reports-visit v visited none fresh h = absurd (omega arith)
  Reports-visit v visited (some vs) fresh h = elim (Bool-cases (v.node == start)) [
    | inl same ↦ rw same (AreNew-IsIn visited (v.node ∷ visited) vs (λ x out. ground arith) h)
    | inr other ↦ rw other (fresh, other, h)
  ]

  Reports-bfs_from :
      (fuel : ℕ) (queue : List Visit) (visited : List ℕ) (g : GraphIndex)
      → length queue + remaining visited g.outgoing ≤ fuel
      → Reports visited (bfs_from times start predicate max_depth fuel queue visited g)
  unfolding bfs_from
  Reports-bfs_from zero [] visited g enough = tt
  Reports-bfs_from (suc fuel) [] visited g enough = tt
  Reports-bfs_from zero (v ∷ queue) visited g enough = absurd (omega arith)
  Reports-bfs_from (suc fuel) (v ∷ queue) visited g enough =
      elim (Bool-cases (has v.node visited)) [
        | inl seen ↦ rw (bfs_from, seen) (Reports-bfs_from fuel queue visited g (omega arith))
        | inr fresh ↦
            let more = expanded times start predicate max_depth v visited g in
            rw (bfs_from, fresh)
              (Reports-visit v visited
                (bfs_from times start predicate max_depth fuel (queue ++ more) (v.node ∷ visited) g)
                fresh
                (Reports-bfs_from fuel (queue ++ more) (v.node ∷ visited) g (
                  omega (
                    arith,
                    length-append queue more,
                    length-expanded v visited g,
                    remaining_visit v.node visited g.outgoing fresh,
                  ))))
      ]

  -- On every graph, cycles included, the search ends within its fuel, and it reports each node at
  -- most once, and never the start.
  pub bfs-Reports :
      (one : ℕ) (g : GraphIndex) → Reports [] (bfs times one start predicate max_depth g)
  unfolding bfs
  bfs-Reports one g =
      Reports-bfs_from (suc (count_edges g.outgoing))
        (record { node = start; depth = 0; strength = one } ∷ []) [] g
        (omega (arith, remaining-nil g.outgoing))
