-- ===== src/Cluster/Sharding/Leaving.antt =====
-- A node that leaves the ring.
use fundb.Prelude.{
  ℕ, zero, suc, ◌≡◌, ◌≢◌, Bool, true, false, not, ◌&&◌, Option, none, some, List, [], ◌∷◌, arith,
  is_empty, find, or_else, leb, map, ◌==◌, if◌then◌else◌, Bool-cases, inl, inr,
}
use fundb.Assoc
use fundb.Assoc.{Assoc, get-insert}
use fundb.Cluster.Hash.{fnv1a_64, le_bytes}
use fundb.Cluster.Sharding.{
  RingEntry, ShardMap, ShardMigration, contains, owned_shards, first_entry, new_owner, reassign,
  ring_without, drop_node, remove_node, node_for_shard,
}
use fundb.Cluster.Sharding.Ownership.{All}

-- Found, and of the list.
abbrev Finds : (RingEntry → Type 0) → Option RingEntry → Type 0
Finds P none = zero ≡ suc zero
Finds P (some e) = P e

holds-find :
    (P : RingEntry → Type 0) (test : RingEntry → Bool) (other : Option RingEntry)
    (es : List RingEntry)
    → All P es
    → Finds P other
    → Finds P (or_else (find test es) other)
holds-find P test other [] a h = h
holds-find P test other (e ∷ es) a h = elim (Bool-cases (test e)) [
  | inl yes' ↦ rw yes' a.0
  | inr no' ↦ rw no' (holds-find P test other es a.1 h)
]

abbrev pub IsOther : ℕ → RingEntry → Type 0
IsOther node e = e.node_id == node ≡ false

module _ (node : ℕ) (first : RingEntry) (rest : List RingEntry)
    (others : All (IsOther node) (first ∷ rest)) where
  Finds-new_owner : (shard : ℕ) → Finds (IsOther node) (new_owner node (first ∷ rest) shard)
  unfolding new_owner
  Finds-new_owner shard = by_entry (find (λ e. e.shard_id == shard) (first ∷ rest))
    where
      by_entry :
          (o : Option RingEntry)
          → Finds (IsOther node) (elim o [
            | some entry ↦
                or_else
                  (find (λ e. leb entry.hash e.hash && not (e.node_id == node)) (first ∷ rest))
                  (find (λ e. not (e.node_id == node)) (first ∷ rest))
            | none ↦
                or_else
                  (find (λ e. leb (fnv1a_64 (le_bytes shard)) e.hash) (first ∷ rest))
                  (first_entry (first ∷ rest))
          ])
      by_entry none =
          holds-find (IsOther node) (λ e. leb (fnv1a_64 (le_bytes shard)) e.hash) (some first)
            (first ∷ rest) others others.0
      by_entry (some entry) =
          holds-find (IsOther node) (λ e. leb entry.hash e.hash && not (e.node_id == node))
            (find (λ e. not (e.node_id == node)) (first ∷ rest)) (first ∷ rest) others
            (rw (others.0) others.0)

  -- The shards are enough to find what the node owns.
  abbrev Covers : ℕ → List ℕ → Assoc ℕ → Type 0
  Covers k shards owners = Assoc.get k owners ≡ some node → contains k shards ≡ true

  abbrev Clears : ℕ → List ℕ → Assoc ℕ → Type 0
  Clears k shards owners = Assoc.get k ((reassign node (first ∷ rest) shards owners).0) ≢ some node

  Clears-given :
      (k shard : ℕ) (shards : List ℕ) (owners : Assoc ℕ)
      → ((owners' : Assoc ℕ) → Covers k shards owners' → Clears k shards owners')
      → Covers k (shard ∷ shards) owners
      → (o : Option RingEntry) → Finds (IsOther node) o
      → let r : Assoc ℕ × List ShardMigration = elim o [
        | none ↦ reassign node (first ∷ rest) shards owners
        | some e ↦
            let (owners', migrations) =
              reassign node (first ∷ rest) shards (Assoc.insert shard e.node_id owners) in
            (
              owners',
              record { shard_id = shard; from_node = node; to_node = e.node_id } ∷ migrations,
            )
      ] in
        Assoc.get k (r.0) ≢ some node
  Clears-given k shard shards owners ih covers none found = absurd (omega arith)
  Clears-given k shard shards owners ih covers (some e) found =
      ih (Assoc.insert shard e.node_id owners) (λ owned.
        let other : IsOther node e = found in
        ground (arith, covers, get-insert shard k e.node_id owners))

  reassign-Clears :
      (k : ℕ) (shards : List ℕ) (owners : Assoc ℕ) → Covers k shards owners → Clears k shards owners
  unfolding reassign
  reassign-Clears k [] owners covers = λ e. absurd (let never = covers e in cc)
  reassign-Clears k (shard ∷ shards) owners covers =
      Clears-given k shard shards owners (reassign-Clears k shards) covers
        (new_owner node (first ∷ rest) shard) (Finds-new_owner shard)

owned_shards-Covers :
    (node k : ℕ) (owners : Assoc ℕ)
    → Assoc.get k owners ≡ some node
    → contains k (owned_shards node owners) ≡ true
unfolding owned_shards Assoc.get
owned_shards-Covers node k [] e = absurd cc
owned_shards-Covers node k ((shard, owner) ∷ rest) e =
    ground (arith, owned_shards-Covers node k rest)

ring_without-others :
    (node : ℕ) (ring : List RingEntry) → All (IsOther node) (ring_without node ring)
ring_without-others node [] = tt
ring_without-others node (e ∷ es) = elim (Bool-cases (e.node_id == node)) [
  | inl same ↦ rw same (ring_without-others node es)
  | inr other ↦ rw other (other, ring_without-others node es)
]

-- A node that is removed owns no shard afterwards, and no entry of the ring is its own.
pub remove_node-owners :
    (node shard : ℕ) (addr : List ℕ) (m : ShardMap)
    → Assoc.get node m.node_addrs ≡ some addr
    → (node_for_shard shard ((remove_node node m).0) ≢ some node)
      × All (IsOther node) ((remove_node node m).0.ring)
unfolding remove_node drop_node
remove_node-owners node shard addr m known =
    rw (remove_node, known) (by_ring (ring_without node m.ring) (ring_without-others node m.ring))
  where
    by_ring :
        (ring : List RingEntry)
        → All (IsOther node) ring
        → let shards = owned_shards node m.shard_owners in
          let r : ShardMap × List ShardMigration =
            if is_empty ring
            then (
              record m {
                ring = ring;
                node_addrs = Assoc.remove node m.node_addrs;
                shard_owners = [];
              },
              map (λ shard. record { shard_id = shard; from_node = node; to_node = 0 }) shards,
            )
            else (
              record m {
                ring = ring;
                node_addrs = Assoc.remove node m.node_addrs;
                shard_owners = (reassign node ring shards m.shard_owners).0;
              },
              (reassign node ring shards m.shard_owners).1,
            ) in
          (node_for_shard shard (r.0) ≢ some node) × All (IsOther node) (r.0.ring)
    by_ring [] others = (λ e. absurd (unfold node_for_shard Assoc.get in cc), tt)
    by_ring (first ∷ rest) others = (
      (unfold node_for_shard in
          reassign-Clears node first rest others shard (owned_shards node m.shard_owners)
            m.shard_owners (owned_shards-Covers node shard m.shard_owners)),
      others,
    )
