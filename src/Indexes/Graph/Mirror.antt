-- ===== src/Indexes/Graph/Mirror.antt =====
-- The two maps of a graph index hold the same edges.
use fundb.Prelude.{
  ap₂, append-nil, ℕ, ◌≡◌, refl, sym, ap, ◌∙◌, Bool, true, not, ◌&&◌, Option, none, some, List, [],
  ◌∷◌, ◌++◌, arith, retain, ◌==◌, if◌then◌else◌, Bool-cases, inl, inr,
}
use fundb.Assoc
use fundb.Assoc.{Assoc, get-insert}
use fundb.Indexes.Graph.{
  Edge, GraphIndex, edges_of, push_edge, insert_edge, is_triple, retain_edges, delete_edge,
}

-- Between any two nodes both maps have the same edges, in the same order.
abbrev pub IsMirrored : GraphIndex → Type 0
IsMirrored g =
    (s o : ℕ)
    → retain (λ e. e.object == o) (edges_of s g.outgoing)
      ≡ retain (λ e. e.subject == s) (edges_of o g.incoming)

edges_of-push_edge :
    (node k : ℕ) (edge : Edge) (m : Assoc (List Edge))
    → edges_of k (push_edge node edge m)
      ≡ (if node == k then edges_of k m ++ edge ∷ [] else edges_of k m)
unfolding edges_of push_edge
edges_of-push_edge node k edge m =
    ground (arith, get-insert node k (edges_of node m ++ edge ∷ []) m)

edges_of-insert :
    (node k : ℕ) (edges : List Edge) (m : Assoc (List Edge))
    → edges_of k (Assoc.insert node edges m) ≡ (if node == k then edges else edges_of k m)
unfolding edges_of
edges_of-insert node k edges m = ground (arith, get-insert node k edges m)

edges_of-retain_edges :
    (node k : ℕ) (test : Edge → Bool) (m : Assoc (List Edge))
    → edges_of k (retain_edges node test m)
      ≡ (if node == k then retain test (edges_of k m) else edges_of k m)
unfolding edges_of retain_edges
edges_of-retain_edges node k test m = by_edges (Assoc.get node m) refl
  where
    by_edges :
        (o : Option (List Edge))
        → Assoc.get node m ≡ o
        → edges_of k (elim o [ none ↦ m | some edges ↦ Assoc.insert node (retain test edges) m ])
          ≡ (if node == k then retain test (edges_of k m) else edges_of k m)
    by_edges none e = ground arith
    by_edges (some edges) e = ground (arith, get-insert node k (retain test edges) m)

retain-append :
    (test : Edge → Bool) (xs ys : List Edge)
    → retain test (xs ++ ys) ≡ retain test xs ++ retain test ys
retain-append test [] ys = refl
retain-append test (x ∷ xs) ys = elim (Bool-cases (test x)) [
  | inl e ↦ rw e (ap (λ t. x ∷ t) (retain-append test xs ys))
  | inr e ↦ rw e (retain-append test xs ys)
]

retain_comm : (p q : Edge → Bool) (xs : List Edge) → retain p (retain q xs) ≡ retain q (retain p xs)
retain_comm p q [] = refl
retain_comm p q (x ∷ xs) = ground (arith, retain_comm p q xs)

-- A test that lets pass what `p` lets pass.
retain-retain :
    (p q : Edge → Bool) (xs : List Edge)
    → ((e : Edge) → p e ≡ true → q e ≡ true)
    → retain p (retain q xs) ≡ retain p xs
retain-retain p q [] h = refl
retain-retain p q (x ∷ xs) h = ground (arith, h x, retain-retain p q xs h)

-- What a new edge adds to the edges of a node, of which a test is asked.
retain-push_edge :
    (test : Edge → Bool) (node k : ℕ) (edge : Edge) (m : Assoc (List Edge))
    → retain test (edges_of k (push_edge node edge m))
      ≡ retain test (edges_of k m) ++ (if node == k && test edge then edge ∷ [] else [])
retain-push_edge test node k edge m =
    ap (retain test) (edges_of-push_edge node k edge m) ∙ elim (Bool-cases (node == k)) [
      | inl same ↦ rw same (retain-append test (edges_of k m) (edge ∷ []))
      | inr other ↦ rw other (sym (append-nil (retain test (edges_of k m))))
    ]

-- After an insertion both maps still have, between any two nodes, the same edges in the same order.
pub insert_edge-IsMirrored :
    (s0 : ℕ) (predicate : List ℕ) (o0 confidence : ℕ) (props : List ℕ) (g : GraphIndex)
    → IsMirrored g
    → IsMirrored (insert_edge s0 predicate o0 confidence props g)
unfolding insert_edge
insert_edge-IsMirrored s0 predicate o0 confidence props g mirrored s o =
    let edge : Edge = record {
      subject = s0;
      predicate = predicate;
      object = o0;
      confidence = confidence;
      props = props;
    } in
    let added : Bool → List Edge = λ b. if b then edge ∷ [] else [] in
    let both : (s0 == s && o0 == o) ≡ (o0 == o && s0 == s) = ground arith in
    retain-push_edge (λ e. e.object == o) s0 s edge g.outgoing
    ∙ ap₂ (λ xs b. xs ++ added b) (mirrored s o) both
    ∙ sym (retain-push_edge (λ e. e.subject == s) o0 o edge g.incoming)

-- After a deletion both maps still have, between any two nodes, the same edges in the same order.
pub delete_edge-IsMirrored :
    (s0 : ℕ) (predicate : List ℕ) (o0 : ℕ) (g : GraphIndex)
    → IsMirrored g
    → IsMirrored (delete_edge s0 predicate o0 g)
unfolding delete_edge
delete_edge-IsMirrored s0 predicate o0 g mirrored s o =
    let test = λ (e : Edge). not (is_triple s0 predicate o0 e) in
    ground (
      arith,
      mirrored s o,
      edges_of-retain_edges s0 s test g.outgoing,
      edges_of-retain_edges o0 o test g.incoming,
      retain_comm (λ e. e.object == o) test (edges_of s g.outgoing),
      retain_comm (λ e. e.subject == s) test (edges_of o g.incoming),
      retain-retain (λ e. e.object == o) test (edges_of s g.outgoing),
      retain-retain (λ e. e.subject == s) test (edges_of o g.incoming),
    )
