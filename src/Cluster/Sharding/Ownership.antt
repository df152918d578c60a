-- ===== src/Cluster/Sharding/Ownership.antt =====
-- Who owns the shards of the ring.
use fundb.Prelude.{
  ℕ, ◌<◌, ◌≡◌, refl, sym, ap, ◌∙◌, Option, none, some, List, [], ◌∷◌, ◌++◌, arith, leb, ◌==◌,
  if◌then◌else◌, Bool-cases, ◌⊎◌, inl, inr,
}
use fundb.Assoc
use fundb.Assoc.{Assoc, get-insert}
use fundb.Cluster.Sharding.{RingEntry, insert_entry, sort_ring, settle, moved, recompute_ownership}

abbrev pub All : (RingEntry → Type 0) → List RingEntry → Type 0
All P [] = Unit {0}
All P (e ∷ es) = P e × All P es

pub All-map :
    (P R : RingEntry → Type 0)
    → ((e : RingEntry) → P e → R e)
    → (es : List RingEntry) → All P es
    → All R es
All-map P R f [] h = tt
All-map P R f (e ∷ es) h = (f e h.0, All-map P R f es h.1)

pub All-append :
    (P : RingEntry → Type 0) (xs ys : List RingEntry) → All P xs → All P ys → All P (xs ++ ys)
All-append P [] ys h k = k
All-append P (x ∷ xs) ys h k = (h.0, All-append P xs ys h.1 k)

All-insert_entry :
    (P : RingEntry → Type 0) (x : RingEntry) (es : List RingEntry)
    → P x
    → All P es
    → All P (insert_entry x es)
unfolding insert_entry
All-insert_entry P x [] h k = (h, tt)
All-insert_entry P x (y ∷ ys) h k = elim (Bool-cases (leb x.hash y.hash)) [
  | inl e ↦ rw e (h, k)
  | inr e ↦ rw e (k.0, All-insert_entry P x ys h k.1)
]

pub All-sort_ring : (P : RingEntry → Type 0) (es : List RingEntry) → All P es → All P (sort_ring es)
unfolding sort_ring
All-sort_ring P [] h = tt
All-sort_ring P (e ∷ es) h = All-insert_entry P e (sort_ring es) h.0 (All-sort_ring P es h.1)

-- Two entries of one shard are of one node.
abbrev pub Agrees : RingEntry → RingEntry → Type 0
Agrees a b = a.shard_id ≡ b.shard_id → a.node_id ≡ b.node_id

abbrev pub Agree : List RingEntry → Type 0
Agree [] = Unit {0}
Agree (e ∷ es) = All (Agrees e) es × Agree es

Agree-insert_entry :
    (x : RingEntry) (es : List RingEntry) → All (Agrees x) es → Agree es → Agree (insert_entry x es)
unfolding insert_entry
Agree-insert_entry x [] h k = (tt, tt)
Agree-insert_entry x (y ∷ ys) h k = elim (Bool-cases (leb x.hash y.hash)) [
  | inl e ↦ rw e (h, k)
  | inr e ↦ rw e (
    All-insert_entry (Agrees y) x ys (λ s. sym (h.0 (sym s))) k.0,
    Agree-insert_entry x ys h.1 k.1,
  )
]

pub Agree-sort_ring : (es : List RingEntry) → Agree es → Agree (sort_ring es)
unfolding sort_ring
Agree-sort_ring [] h = tt
Agree-sort_ring (e ∷ es) h =
    Agree-insert_entry e (sort_ring es) (All-sort_ring (Agrees e) es h.0) (Agree-sort_ring es h.1)

pub Agree-append :
    (xs ys : List RingEntry)
    → Agree xs
    → Agree ys
    → All (λ x. All (Agrees x) ys) xs
    → Agree (xs ++ ys)
Agree-append [] ys h k a = k
Agree-append (x ∷ xs) ys h k a = (All-append (Agrees x) xs ys h.0 a.0, Agree-append xs ys h.1 k a.1)

-- The table gives the entry's shard to the entry's node.
abbrev pub IsOwned : Assoc ℕ → RingEntry → Type 0
IsOwned owners e = Assoc.get e.shard_id owners ≡ some e.node_id

-- The table gives it to no other node.
abbrev pub IsQuiet : Assoc ℕ → RingEntry → Type 0
IsQuiet owners e = (Assoc.get e.shard_id owners ≡ none) ⊎ IsOwned owners e

get-settle :
    (e : RingEntry) (owners : Assoc ℕ) (k : ℕ)
    → Assoc.get k (settle e owners)
      ≡ (if e.shard_id == k then some e.node_id else Assoc.get k owners)
unfolding settle
get-settle e owners k = ground (arith, get-insert e.shard_id k e.node_id owners)

IsQuiet-settle :
    (e x : RingEntry) (owners : Assoc ℕ)
    → Agrees e x
    → IsQuiet owners x
    → IsQuiet (settle e owners) x
IsQuiet-settle e x owners agrees quiet = elim (Bool-cases (e.shard_id == x.shard_id)) [
  | inl same ↦
      let s : e.shard_id ≡ x.shard_id = ground arith in
      inr (get-settle e owners x.shard_id ∙ rw same (ap some (agrees s)))
  | inr other ↦ rw (get-settle e owners x.shard_id, other) quiet
]

moved-quiet :
    (n : Option ℕ) (e : RingEntry) (owners : Assoc ℕ) → IsQuiet owners e → moved n e owners ≡ []
unfolding moved
moved-quiet n e owners (inl free) = ground arith
moved-quiet n e owners (inr own) = ground arith

pub All-both :
    (P R S : RingEntry → Type 0)
    → ((e : RingEntry) → P e → R e → S e)
    → (es : List RingEntry) → All P es
    → All R es
    → All S es
All-both P R S f [] h k = tt
All-both P R S f (e ∷ es) h k = (f e h.0 k.0, All-both P R S f es h.1 k.1)

-- The table behind `recompute_ownership`.
abbrev pub owners_after : Option ℕ → List RingEntry → Assoc ℕ → Assoc ℕ
owners_after n es owners = (recompute_ownership n es owners).0

-- An owner stays, if the entries of its shard are its own.
pub recompute-keeps :
    (n : Option ℕ) (k node : ℕ) (es : List RingEntry) (owners : Assoc ℕ)
    → Assoc.get k owners ≡ some node
    → All (λ x. k ≡ x.shard_id → node ≡ x.node_id) es
    → Assoc.get k (owners_after n es owners) ≡ some node
unfolding recompute_ownership
recompute-keeps n k node [] owners h a = h
recompute-keeps n k node (e ∷ es) owners h a =
    recompute-keeps n k node es (settle e owners)
      (get-settle e owners k ∙ elim (Bool-cases (e.shard_id == k)) [
        | inl same ↦ let s : k ≡ e.shard_id = ground arith in rw same (ap some (sym (a.0 s)))
        | inr other ↦ rw other h
      ])
      a.1

-- A shard of no entry is given to nobody.
pub recompute-absent :
    (n : Option ℕ) (k : ℕ) (es : List RingEntry) (owners : Assoc ℕ)
    → Assoc.get k owners ≡ none
    → All (λ x. x.shard_id < k) es
    → Assoc.get k (owners_after n es owners) ≡ none
unfolding recompute_ownership
recompute-absent n k [] owners h a = h
recompute-absent n k (e ∷ es) owners h a =
    let below = a.0 in
    recompute-absent n k es (settle e owners) (get-settle e owners k ∙ ground arith) a.1

-- If the entries agree, and the table gives none of their shards to another node, nothing moves,
-- and behind the loop each shard is owned.
pub recompute-quiet :
    (n : Option ℕ) (es : List RingEntry) (owners : Assoc ℕ)
    → Agree es
    → All (IsQuiet owners) es
    → ((recompute_ownership n es owners).1 ≡ []) × All (IsOwned (owners_after n es owners)) es
unfolding recompute_ownership
recompute-quiet n [] owners agree quiet = (refl, tt)
recompute-quiet n (e ∷ es) owners agree quiet =
    let ih = recompute-quiet n es (settle e owners) agree.1 (
      All-both (Agrees e) (IsQuiet owners) (IsQuiet (settle e owners))
        (λ x a q. IsQuiet-settle e x owners a q) es agree.0 quiet.1) in
    (
      rw (moved-quiet n e owners quiet.0) ih.0,
      (
        recompute-keeps n e.shard_id e.node_id es (settle e owners)
            (get-settle e owners e.shard_id ∙ ground arith) agree.0,
        ih.1,
      ),
    )
