-- ===== src/Indexes/Graph.antt =====
-- `GraphIndex` of crates/fundb-indexes/src/graph.rs. The product of two confidences is a parameter.
pub mod Mirror
pub mod Search
pub mod Paths
use fundb.Prelude.{
  ℕ, zero, suc, ◌+◌, ◌*◌, Bool, true, false, not, ◌&&◌, ◌||◌, Option, none, some, List, [], ◌∷◌,
  ◌++◌, retain, ltb, leb, length, ◌==◌, if◌then◌else◌,
}
use fundb.Assoc
use fundb.Assoc.{Assoc}
use fundb.Order.{is_eq}
use fundb.Order.Bytes.{cmp_bytes}

pub record Edge : Type 0 where
  pub subject : ℕ
  pub predicate : List ℕ
  pub object : ℕ
  pub confidence : ℕ
  pub props : List ℕ

pub record GraphIndex : Type 0 where
  pub outgoing : Assoc (List Edge)
  pub incoming : Assoc (List Edge)

abbrev pub new : GraphIndex
new = record { outgoing = []; incoming = [] }

abbrev pub or_empty : Option (List Edge) → List Edge
or_empty none = []
or_empty (some edges) = edges

-- The edges of a node; none if the map does not have it.
unfoldable pub edges_of : ℕ → Assoc (List Edge) → List Edge
edges_of node m = or_empty (Assoc.get node m)

-- `entry(node).or_default().push(edge)`
unfoldable pub push_edge : ℕ → Edge → Assoc (List Edge) → Assoc (List Edge)
unfolding edges_of
push_edge node edge m = Assoc.insert node (edges_of node m ++ edge ∷ []) m

unfoldable pub insert_edge : ℕ → List ℕ → ℕ → ℕ → List ℕ → GraphIndex → GraphIndex
unfolding push_edge
insert_edge s predicate o confidence props g =
    let edge : Edge = record {
      subject = s;
      predicate = predicate;
      object = o;
      confidence = confidence;
      props = props;
    } in
    record { outgoing = push_edge s edge g.outgoing; incoming = push_edge o edge g.incoming }

abbrev pub has_predicate : List ℕ → Edge → Bool
has_predicate predicate e = is_eq (cmp_bytes e.predicate predicate)

abbrev pub is_triple : ℕ → List ℕ → ℕ → Edge → Bool
is_triple s predicate o e = e.subject == s && (has_predicate predicate e && e.object == o)

-- `if let Some(edges) = get_mut(node)`
unfoldable pub retain_edges : ℕ → (Edge → Bool) → Assoc (List Edge) → Assoc (List Edge)
retain_edges node test m = elim (Assoc.get node m) [
  | none ↦ m
  | some edges ↦ Assoc.insert node (retain test edges) m
]

unfoldable pub delete_edge : ℕ → List ℕ → ℕ → GraphIndex → GraphIndex
unfolding retain_edges
delete_edge s predicate o g = record {
  outgoing = retain_edges s (λ e. not (is_triple s predicate o e)) g.outgoing;
  incoming = retain_edges o (λ e. not (is_triple s predicate o e)) g.incoming;
}

abbrev pub matching : Option (List ℕ) → List Edge → List Edge
matching none edges = edges
matching (some p) edges = retain (has_predicate p) edges

unfoldable pub outgoing : ℕ → Option (List ℕ) → GraphIndex → List Edge
unfolding edges_of
outgoing subject predicate g = matching predicate (edges_of subject g.outgoing)

unfoldable pub incoming : ℕ → Option (List ℕ) → GraphIndex → List Edge
unfolding edges_of
incoming object predicate g = matching predicate (edges_of object g.incoming)

abbrev pub has : ℕ → List ℕ → Bool
has x [] = false
has x (y ∷ ys) = x == y || has x ys

-- A node that waits in the queue: its depth, and the strength of the path to it.
pub record Visit : Type 0 where
  pub node : ℕ
  pub depth : ℕ
  pub strength : ℕ

module _ (times : ℕ → ℕ → ℕ) (start : ℕ) (predicate : List ℕ) (max_depth : ℕ) where
  -- The nodes that the edges put into the queue.
  unfoldable pub next_visits : Visit → List ℕ → List Edge → List Visit
  next_visits v visited [] = []
  next_visits v visited (e ∷ es) =
      let rest = next_visits v visited es in
      if has_predicate predicate e && not (has e.object visited)
      then record { node = e.object; depth = v.depth + 1; strength = times v.strength e.confidence }
        ∷ rest
      else rest

  -- One visit: the result that it adds, and what it puts into the queue.
  abbrev pub reported : Visit → List Visit
  reported v = if v.node == start then [] else v ∷ []

  unfoldable pub expanded : Visit → List ℕ → GraphIndex → List Visit
  unfolding next_visits edges_of
  expanded v visited g =
      if ltb v.depth max_depth
      then next_visits v (v.node ∷ visited) (edges_of v.node g.outgoing)
      else []

  -- The loop on the queue; `none` if the fuel does not do.
  unfoldable pub bfs_from : ℕ → List Visit → List ℕ → GraphIndex → Option (List Visit)
  unfolding expanded
  bfs_from fuel [] visited g = some []
  bfs_from zero (v ∷ queue) visited g = none
  bfs_from (suc fuel) (v ∷ queue) visited g = elim (has v.node visited) [
    | true ↦ bfs_from fuel queue visited g
    | false ↦ elim (bfs_from fuel (queue ++ expanded v visited g) (v.node ∷ visited) g) [
      | none ↦ none
      | some result ↦ some (reported v ++ result)
    ]
  ]

-- All edges of the forward index.
unfoldable pub count_edges : Assoc (List Edge) → ℕ
count_edges [] = 0
count_edges ((node, edges) ∷ rest) = length edges + count_edges rest

-- `one` is the bits of 1.0. Each edge is put into the queue once at most.
unfoldable pub bfs : (ℕ → ℕ → ℕ) → ℕ → ℕ → List ℕ → ℕ → GraphIndex → Option (List Visit)
unfolding bfs_from count_edges
bfs times one start predicate max_depth g =
    bfs_from times start predicate max_depth (suc (count_edges g.outgoing))
      (record { node = start; depth = 0; strength = one } ∷ []) [] g

-- The loop of `dfs` over the edges of a node; `go` is the call for an edge's node, with the path
-- and the visited nodes that it gets. Behind the call both are as they were.
unfoldable pub follow :
    (ℕ → List ℕ → List ℕ → List (List ℕ)) → List ℕ → List ℕ → List Edge → List (List ℕ)
follow go path visited [] = []
follow go path visited (e ∷ es) =
    let rest = follow go path visited es in
    if has e.object visited
    then rest
    else go e.object (path ++ e.object ∷ []) (e.object ∷ visited) ++ rest

-- `left` is `max_depth - depth`.
unfoldable pub dfs : GraphIndex → ℕ → ℕ → ℕ → List ℕ → List ℕ → List (List ℕ)
unfolding follow edges_of
dfs g target zero current path visited = if current == target then path ∷ [] else []
dfs g target (suc left) current path visited =
    if current == target
    then path ∷ []
    else follow (dfs g target left) path visited (edges_of current g.outgoing)

unfoldable pub path : ℕ → ℕ → ℕ → GraphIndex → List (List ℕ)
unfolding dfs
path from to max_depth g = dfs g to max_depth from (from ∷ []) (from ∷ [])
