-- ===== src/Indexes/Tests.antt =====
-- The theorems on crates/fundb-indexes at a concrete graph.
use fundb.Prelude.{ℕ, ◌*◌, ◌≡◌, refl, some, List, [], ◌∷◌}
use fundb.Prelude.Text.{codes}
use fundb.Assoc
use fundb.Order.Bytes.{cmp_bytes}
use fundb.Indexes.Graph
use fundb.Indexes.Graph.{GraphIndex, Visit, insert_edge, delete_edge, edges_of, bfs, path}
use fundb.Indexes.Graph.Mirror.{IsMirrored, insert_edge-IsMirrored}
use fundb.Indexes.Graph.Paths.{AllPaths, path-IsPath}
use fundb.Indexes.Graph.Search.{Reports, bfs-Reports}

abbrev cites : List ℕ
cites = codes "cites"

-- A cycle of two nodes, and a way out of it.
abbrev graph : GraphIndex
graph =
    insert_edge 1 cites 2 5 [] (insert_edge 2 cites 1 7 [] (insert_edge 2 cites 3 2 [] Graph.new))

empty-IsMirrored : IsMirrored Graph.new
unfolding edges_of Assoc.get
empty-IsMirrored s o = refl

graph-IsMirrored : IsMirrored graph
graph-IsMirrored =
    insert_edge-IsMirrored 1 cites 2 5 []
      (insert_edge 2 cites 1 7 [] (insert_edge 2 cites 3 2 [] Graph.new))
      (insert_edge-IsMirrored 2 cites 1 7 [] (insert_edge 2 cites 3 2 [] Graph.new)
        (insert_edge-IsMirrored 2 cites 3 2 [] Graph.new empty-IsMirrored))

cycle_search :
    bfs (λ a b. a * b) 1 1 cites 9 graph
    ≡ some (
        record { node = 2; depth = 1; strength = 5 }
        ∷ (record { node = 3; depth = 2; strength = 10 } ∷ []))
unfolding bfs insert_edge Assoc.get Assoc.insert cmp_bytes
cycle_search = refl

bfs-Reports_example : Reports (λ a b. a * b) 1 cites 9 [] (bfs (λ a b. a * b) 1 1 cites 9 graph)
bfs-Reports_example = bfs-Reports (λ a b. a * b) 1 cites 9 1 graph

path-IsPath_example : AllPaths graph 3 3 (path 1 3 2 graph)
path-IsPath_example = path-IsPath 1 3 2 graph

-- The way from the first node to the third.
path_to_third : path 1 3 2 graph ≡ (1 ∷ (2 ∷ (3 ∷ []))) ∷ []
unfolding path insert_edge Assoc.get Assoc.insert
path_to_third = refl
