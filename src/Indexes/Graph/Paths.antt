-- ===== src/Indexes/Graph/Paths.antt =====
-- The paths that the depth-first search finds.
use fundb.Prelude.{
  ℕ, zero, suc, ◌+◌, ◌≤◌, ◌≡◌, refl, ap, ◌∙◌, true, false, ◌||◌, some, List, [], ◌∷◌, ◌++◌, arith,
  length, length-append, last, ◌==◌, Bool-cases, inl, inr,
}
use fundb.Indexes.Graph.{Edge, GraphIndex, has, edges_of, follow, dfs, path}

-- No node twice.
abbrev pub IsSimple : List ℕ → Type 0
IsSimple [] = Unit {0}
IsSimple (x ∷ xs) = (has x xs ≡ false) × IsSimple xs

has-snoc : (x y : ℕ) (xs : List ℕ) → has x (xs ++ y ∷ []) ≡ (has x xs || x == y)
has-snoc x y [] = ground arith
has-snoc x y (z ∷ xs) = ground (arith, has-snoc x y xs)

IsSimple-snoc : (x : ℕ) (xs : List ℕ) → has x xs ≡ false → IsSimple xs → IsSimple (xs ++ x ∷ [])
IsSimple-snoc x [] fresh h = (refl, tt)
IsSimple-snoc x (y ∷ ys) fresh h =
    (ground (arith, has-snoc y x ys, h.0), IsSimple-snoc x ys (ground arith) h.1)

last-snoc : (x : ℕ) (xs : List ℕ) → last (xs ++ x ∷ []) ≡ some x
last-snoc x [] = refl
last-snoc x (y ∷ []) = refl
last-snoc x (y ∷ (z ∷ zs)) = last-snoc x (z ∷ zs)

module _ (g : GraphIndex) (target bound : ℕ) where
  -- A simple path to the target, of so many nodes at most.
  abbrev pub IsPath : List ℕ → Type 0
  IsPath p = IsSimple p × (last p ≡ some target) × (length p ≤ bound)

  abbrev pub AllPaths : List (List ℕ) → Type 0
  AllPaths [] = Unit {0}
  AllPaths (p ∷ ps) = IsPath p × AllPaths ps

  AllPaths-append : (ps qs : List (List ℕ)) → AllPaths ps → AllPaths qs → AllPaths (ps ++ qs)
  AllPaths-append [] qs h k = k
  AllPaths-append (p ∷ ps) qs h k = (h.0, AllPaths-append ps qs h.1 k)

  -- The path so far: simple, up to the current node, with all its nodes visited.
  abbrev IsOpen : ℕ → ℕ → List ℕ → List ℕ → Type 0
  IsOpen left current p visited =
      IsSimple p
      × (last p ≡ some current)
      × (length p + left ≤ bound)
      × ((x : ℕ) → has x visited ≡ false → has x p ≡ false)

  abbrev Searches : ℕ → Type 0
  Searches left =
      (current : ℕ) (p visited : List ℕ)
      → IsOpen left current p visited
      → AllPaths (dfs g target left current p visited)

  AllPaths-follow :
      (left current : ℕ) (p visited : List ℕ) (es : List Edge)
      → Searches left
      → IsOpen (suc left) current p visited
      → AllPaths (follow (dfs g target left) p visited es)
  unfolding follow
  AllPaths-follow left current p visited [] ih h = tt
  AllPaths-follow left current p visited (e ∷ es) ih h = elim (Bool-cases (has e.object visited)) [
    | inl seen ↦ rw seen (AllPaths-follow left current p visited es ih h)
    | inr fresh ↦ rw fresh (
        AllPaths-append (dfs g target left e.object (p ++ e.object ∷ []) (e.object ∷ visited))
          (follow (dfs g target left) p visited es)
          (ih e.object (p ++ e.object ∷ []) (e.object ∷ visited) (
            IsSimple-snoc e.object p (h.3 e.object fresh) h.0,
            last-snoc e.object p,
            omega (arith, length-append p (e.object ∷ []), h.2),
            λ x out. ground (arith, has-snoc x e.object p, h.3 x),
          ))
          (AllPaths-follow left current p visited es ih h))
  ]

  AllPaths-found :
      (left current : ℕ) (p visited : List ℕ)
      → current == target ≡ true
      → IsOpen left current p visited
      → IsPath p
  AllPaths-found left current p visited found h =
      let e : current ≡ target = ground arith in (h.0, h.1 ∙ ap some e, omega (arith, h.2))

  AllPaths-dfs : (left : ℕ) → Searches left
  unfolding dfs
  AllPaths-dfs zero current p visited h = elim (Bool-cases (current == target)) [
    | inl found ↦ rw (dfs, found) (AllPaths-found zero current p visited found h, tt)
    | inr other ↦ rw (dfs, other) tt
  ]
  AllPaths-dfs (suc left) current p visited h = elim (Bool-cases (current == target)) [
    | inl found ↦ rw (dfs, found) (AllPaths-found (suc left) current p visited found h, tt)
    | inr other ↦
        rw (dfs, other)
          (AllPaths-follow left current p visited (edges_of current g.outgoing) (AllPaths-dfs left)
            h)
  ]

-- Each path that is found visits no node twice, ends at the target, and has at most `max_depth`
-- edges.
pub path-IsPath :
    (from to max_depth : ℕ) (g : GraphIndex)
    → AllPaths g to (suc max_depth) (path from to max_depth g)
unfolding path
path-IsPath from to max_depth g =
    AllPaths-dfs g to (suc max_depth) max_depth from (from ∷ []) (from ∷ [])
      ((refl, tt), refl, omega arith, λ x out. out)
