-- ===== src/Order/SortedMap.antt =====
-- `BTreeMap<K, V>`: the entries in ascending order of their keys.
use fundb.Prelude.{◌≡◌, refl, ◌&&◌, Option, none, some, List, [], ◌∷◌, arith, if◌then◌else◌}
use fundb.Order.{lt, eq, gt, Ord, is_eq, is_le}

module _ {K V : Type 0} ⦃o : Ord K⦄ where
  -- `BTreeMap::get`
  unfoldable pub get : K → List (K × V) → Option V
  get k [] = none
  get k ((j, v) ∷ m) = if is_eq (o.cmp k j) then some v else get k m

  -- `BTreeMap::insert`
  unfoldable pub insert : K → V → List (K × V) → List (K × V)
  insert k v [] = (k, v) ∷ []
  insert k v ((j, w) ∷ m) =
      let rest = insert k v m in
      elim (o.cmp k j) [ lt ↦ (k, v) ∷ ((j, w) ∷ m) | eq ↦ (k, v) ∷ m | gt ↦ (j, w) ∷ rest ]

  -- The entries with `from <= key <= to`.
  unfoldable pub range : K → K → List (K × V) → List (K × V)
  range from to [] = []
  range from to ((j, v) ∷ m) =
      let rest = range from to m in
      if is_le (o.cmp from j) && is_le (o.cmp j to) then (j, v) ∷ rest else rest

  -- Every key is above `k`.
  abbrev pub Above : K → List (K × V) → Type 0
  Above k [] = Unit {0}
  Above k ((j, v) ∷ m) = (o.cmp k j ≡ lt) × Above k m

  abbrev pub IsSorted : List (K × V) → Type 0
  IsSorted [] = Unit {0}
  IsSorted ((j, v) ∷ m) = Above j m × IsSorted m

  pub Above-trans : (k j : K) (m : List (K × V)) → o.cmp k j ≡ lt → Above j m → Above k m
  Above-trans k j [] h a = tt
  Above-trans k j ((i, v) ∷ m) h a = (o.lt_trans k j i h a.0, Above-trans k j m h a.1)

  Above-insert :
      (k j : K) (v : V) (m : List (K × V)) → o.cmp k j ≡ lt → Above k m → Above k (insert j v m)
  unfolding insert
  Above-insert k j v [] h a = (h, tt)
  Above-insert k j v ((i, w) ∷ m) h a = ground (arith, Above-insert k j v m)

  pub insert-IsSorted : (k : K) (v : V) (m : List (K × V)) → IsSorted m → IsSorted (insert k v m)
  unfolding insert
  insert-IsSorted k v [] s = (tt, tt)
  insert-IsSorted k v ((j, w) ∷ m) s = ground (
    arith,
    insert-IsSorted k v m s.1,
    Above-insert j k v m,
    Above-trans k j m,
    o.eq_of_cmp k j,
    o.lt_of_gt k j,
  )

  pub get-Above : (k : K) (m : List (K × V)) → Above k m → get k m ≡ none
  unfolding get
  get-Above k [] a = refl
  get-Above k ((j, v) ∷ m) a = ground (arith, get-Above k m a.1)

  pub get-insert :
      (k j : K) (v : V) (m : List (K × V))
      → get j (insert k v m) ≡ (if is_eq (o.cmp j k) then some v else get j m)
  unfolding get insert
  get-insert k j v [] = refl
  get-insert k j v ((i, w) ∷ m) =
      ground (arith, get-insert k j v m, o.eq_of_cmp k i, o.eq_of_cmp j k, o.eq_of_cmp j i)
