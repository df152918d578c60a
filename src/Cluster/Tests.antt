-- ===== src/Cluster/Tests.antt =====
-- The theorems on crates/fundb-cluster at a concrete ring.
use fundb.Prelude.{◌≤◌, ◌^◌, ◌≡◌, ◌≢◌, refl, none, some, [], ◌∷◌, arith, length}
use fundb.Prelude.Text.{codes}
use fundb.Assoc
use fundb.Cluster.Hash.{fnv1a_64}
use fundb.Cluster.Sharding.{
  ShardMap, shard_for, ReplicationGroup, replication_group, followers_of, leader_addr,
  node_for_shard, add_node, remove_node,
}
use fundb.Cluster.Sharding.Joining.{IsValid, add_node-IsValid, add_node-migrations}
use fundb.Cluster.Sharding.Routing.{
  leader_addr-shard_for, replication_group-distinct, IsDistinctFrom,
}
use fundb.Cluster.Sharding.Leaving.{remove_node-owners, IsOther}
use fundb.Cluster.Sharding.Orphans.{remove_node-unrouted}
use fundb.Cluster.Sharding.Ownership.{All}

-- The known hash of a letter.
fnv1a_64_a : fnv1a_64 (codes "a") ≡ 0xaf63dc4c8601ec8c
unfolding fnv1a_64
fnv1a_64_a = refl

-- Two nodes with one entry each.
abbrev cluster : ShardMap
cluster = record {
  virtual_nodes = 1;
  ring =
      record { hash = 10; node_id = 7; shard_id = 0 }
      ∷ (record { hash = 2 ^ 63; node_id = 8; shard_id = 1 } ∷ []);
  node_addrs = (7, 1 ∷ []) ∷ ((8, 2 ∷ []) ∷ []);
  shard_owners = (0, 7) ∷ ((1, 8) ∷ []);
  collection_shards = [];
  replication_factor = 3;
  next_shard_id = 2;
}

cluster-IsValid : IsValid cluster
unfolding Assoc.get
cluster-IsValid = (
  ((λ same. absurd (omega arith), tt), (tt, tt)),
  (omega arith, (omega arith, tt)),
  (refl, (refl, tt)),
  (λ e. absurd cc, (λ e. absurd cc, tt)),
  λ k above. ground arith,
)

add_node-IsValid_example : IsValid ((add_node 9 (3 ∷ []) cluster).0)
add_node-IsValid_example = add_node-IsValid 9 (3 ∷ []) cluster cluster-IsValid (omega arith)

add_node-migrations_example : (add_node 9 (3 ∷ []) cluster).1 ≡ []
add_node-migrations_example = add_node-migrations 9 (3 ∷ []) cluster cluster-IsValid (omega arith)

leader_addr-shard_for_example :
    let (m, shard) = shard_for (codes "docs") (1 ∷ []) cluster in leader_addr shard m ≢ none
leader_addr-shard_for_example =
    leader_addr-shard_for (codes "docs") (1 ∷ []) cluster cluster-IsValid (λ e. absurd cc)

replication_group-distinct_example :
    let group : ReplicationGroup = record {
      shard_id = 0;
      leader = 7;
      followers = followers_of 7 cluster;
      replication_factor = 3;
    } in
    (replication_group 0 cluster ≡ some group)
    × IsDistinctFrom (7 ∷ []) group.followers
    × (length group.followers ≤ 2)
unfolding node_for_shard Assoc.get
replication_group-distinct_example = replication_group-distinct 0 7 cluster refl

remove_node-owners_example :
    (node_for_shard 0 ((remove_node 7 cluster).0) ≢ some 7)
    × All (IsOther 7) ((remove_node 7 cluster).0.ring)
unfolding Assoc.get
remove_node-owners_example = remove_node-owners 7 0 (1 ∷ []) cluster refl

remove_node-unrouted_example : (shard_for (codes "docs") (1 ∷ []) ((remove_node 7 cluster).0)).1 ≢ 0
unfolding node_for_shard Assoc.get
remove_node-unrouted_example =
    remove_node-unrouted 7 0 (1 ∷ []) (codes "docs") (1 ∷ []) cluster cluster-IsValid refl refl
      (λ e. absurd cc)
