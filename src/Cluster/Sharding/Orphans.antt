-- ===== src/Cluster/Sharding/Orphans.antt =====
-- The shards of a removed node, and where records are routed.
use fundb.Prelude.{
  subst, ℕ, ◌≡◌, ◌≢◌, refl, sym, ◌∙◌, some, List, [], ◌∷◌, arith, is_empty, ◌==◌, Bool-cases, inl,
  inr,
}
use fundb.Assoc
use fundb.Assoc.{Assoc, get-insert}
use fundb.Cluster.Hash.{fnv1a_64, routing_key}
use fundb.Cluster.Sharding.{
  RingEntry, ShardMap, ring_without, drop_node, remove_node, node_for_shard, shard_for, note_shard,
  successor,
}
use fundb.Cluster.Sharding.Ownership.{All, IsOwned}
use fundb.Cluster.Sharding.Joining.{IsValid}
use fundb.Cluster.Sharding.Routing.{holds-successor}

-- The entry is not of the shard.
abbrev IsApart : ℕ → RingEntry → Type 0
IsApart shard e = e.shard_id ≢ shard

ring_without-IsApart :
    (node shard : ℕ) (owners : Assoc ℕ) (ring : List RingEntry)
    → Assoc.get shard owners ≡ some node
    → All (IsOwned owners) ring
    → All (IsApart shard) (ring_without node ring)
ring_without-IsApart node shard owners [] owner owned = tt
ring_without-IsApart node shard owners (e ∷ es) owner owned =
    elim (Bool-cases (e.node_id == node)) [
      | inl same ↦ rw same (ring_without-IsApart node shard owners es owner owned.1)
      | inr other ↦ rw other (
        λ s. absurd (let own = owned.0 in ground arith),
        ring_without-IsApart node shard owners es owner owned.1,
      )
    ]

shard_for-apart :
    (shard : ℕ) (collection record_id : List ℕ) (m : ShardMap)
    → All (IsApart shard) m.ring
    → m.ring ≢ []
    → (shard_for collection record_id m).1 ≢ shard
unfolding shard_for
shard_for-apart shard collection record_id m apart stay = by_ring (m.ring) apart stay
  where
    by_ring :
        (ring : List RingEntry)
        → All (IsApart shard) ring
        → ring ≢ []
        → let r : ShardMap × ℕ = elim ring [
          | [] ↦ (m, 0)
          | first ∷ rest ↦
              let s =
                (successor (fnv1a_64 (routing_key collection record_id)) first rest).shard_id in
              (record m { collection_shards = note_shard collection s m.collection_shards }, s)
        ] in
          r.1 ≢ shard
    by_ring [] apart full = absurd (full refl)
    by_ring (first ∷ rest) apart full =
        holds-successor (IsApart shard) (fnv1a_64 (routing_key collection record_id)) first rest
          apart

ring-drop_node : (node : ℕ) (m : ShardMap) → (drop_node node m).0.ring ≡ ring_without node m.ring
unfolding drop_node
ring-drop_node node m = elim (Bool-cases (is_empty (ring_without node m.ring))) [
  | inl empty ↦ rw empty refl
  | inr full ↦ rw full refl
]

-- When a node is removed from a valid map and others stay, no record is routed to a shard that the
-- node owned.
pub remove_node-unrouted :
    (node shard : ℕ) (addr collection record_id : List ℕ) (m : ShardMap)
    → IsValid m
    → Assoc.get node m.node_addrs ≡ some addr
    → node_for_shard shard m ≡ some node
    → ring_without node m.ring ≢ []
    → (shard_for collection record_id ((remove_node node m).0)).1 ≢ shard
unfolding remove_node
remove_node-unrouted node shard addr collection record_id m valid known owner stay =
    let same : (remove_node node m).0.ring ≡ ring_without node m.ring =
      rw (remove_node, known) (ring-drop_node node m) in
    shard_for-apart shard collection record_id ((remove_node node m).0)
      (subst (All (IsApart shard)) (sym same) (
        ring_without-IsApart node shard m.shard_owners m.ring (unfold node_for_shard in owner)
          valid.2))
      (λ none_left. stay (sym same ∙ none_left))
