-- ===== src/Cluster/Sharding.antt =====
-- `ShardMap` of crates/fundb-cluster/src/sharding.rs. An address is a byte string. A hash map is an
-- association list; the order in which the code visits one does not matter for the state.
pub mod Ownership
pub mod Joining
pub mod Routing
pub mod Leaving
pub mod Orphans
use fundb.Prelude.{
  ℕ, zero, suc, ◌+◌, ◌-◌, ◌%◌, ◌^◌, Bool, true, false, not, ◌&&◌, ◌||◌, Option, none, some, List,
  [], ◌∷◌, ◌++◌, map, length, is_empty, take, drop, retain, find, or_else, ltb, leb, ◌==◌,
  if◌then◌else◌,
}
use fundb.Assoc
use fundb.Assoc.{Assoc}
use fundb.Order.{is_eq}
use fundb.Order.Bytes.{cmp_bytes}
use fundb.Cluster.Hash.{fnv1a_64, routing_key, replica_key, le_bytes}

pub record ShardMigration : Type 0 where
  pub shard_id : ℕ
  pub from_node : ℕ
  pub to_node : ℕ

pub record ReplicationGroup : Type 0 where
  pub shard_id : ℕ
  pub leader : ℕ
  pub followers : List ℕ
  pub replication_factor : ℕ

pub record RingEntry : Type 0 where
  pub hash : ℕ
  pub node_id : ℕ
  pub shard_id : ℕ

pub record ShardMap : Type 0 where
  pub virtual_nodes : ℕ
  pub ring : List RingEntry
  pub node_addrs : Assoc (List ℕ)
  pub shard_owners : Assoc ℕ
  pub collection_shards : List (List ℕ × List ℕ)
  pub replication_factor : ℕ
  pub next_shard_id : ℕ

unfoldable pub new : ℕ → ShardMap
new virtual_nodes = record {
  virtual_nodes = virtual_nodes;
  ring = [];
  node_addrs = [];
  shard_owners = [];
  collection_shards = [];
  replication_factor = 1;
  next_shard_id = 0;
}

-- The ring behind `partition_point`.
unfoldable pub drop_below : ℕ → List RingEntry → List RingEntry
drop_below h [] = []
drop_below h (e ∷ es) = if ltb e.hash h then drop_below h es else e ∷ es

-- `successor_shard` on a ring that starts with `first`.
unfoldable pub successor : ℕ → RingEntry → List RingEntry → RingEntry
unfolding drop_below
successor h first rest = elim (drop_below h (first ∷ rest)) [ [] ↦ first | e ∷ es ↦ e ]

abbrev pub contains : ℕ → List ℕ → Bool
contains x [] = false
contains x (y ∷ ys) = x == y || contains x ys

abbrev pub add_to_set : ℕ → List ℕ → List ℕ
add_to_set x xs = if contains x xs then xs else xs ++ x ∷ []

unfoldable pub note_shard : List ℕ → ℕ → List (List ℕ × List ℕ) → List (List ℕ × List ℕ)
note_shard collection shard [] = (collection, shard ∷ []) ∷ []
note_shard collection shard ((name, shards) ∷ rest) =
    if is_eq (cmp_bytes collection name)
    then (name, add_to_set shard shards) ∷ rest
    else (name, shards) ∷ note_shard collection shard rest

unfoldable pub shard_for : List ℕ → List ℕ → ShardMap → ShardMap × ℕ
unfolding successor note_shard
shard_for collection record_id m = elim (m.ring) [
  | [] ↦ (m, 0)
  | first ∷ rest ↦
      let shard = (successor (fnv1a_64 (routing_key collection record_id)) first rest).shard_id in
      (record m { collection_shards = note_shard collection shard m.collection_shards }, shard)
]

unfoldable pub insert_number : ℕ → List ℕ → List ℕ
insert_number x [] = x ∷ []
insert_number x (y ∷ ys) = if leb x y then x ∷ (y ∷ ys) else y ∷ insert_number x ys

unfoldable pub sort_numbers : List ℕ → List ℕ
unfolding insert_number
sort_numbers [] = []
sort_numbers (x ∷ xs) = insert_number x (sort_numbers xs)

unfoldable pub shards_of : List ℕ → List (List ℕ × List ℕ) → List ℕ
shards_of collection [] = []
shards_of collection ((name, shards) ∷ rest) =
    if is_eq (cmp_bytes collection name) then shards else shards_of collection rest

unfoldable pub shards_for_collection : List ℕ → ShardMap → List ℕ
unfolding shards_of sort_numbers
shards_for_collection collection m = sort_numbers (shards_of collection m.collection_shards)

unfoldable pub node_for_shard : ℕ → ShardMap → Option ℕ
node_for_shard shard m = Assoc.get shard m.shard_owners

-- `none` where the code panics.
unfoldable pub leader_addr : ℕ → ShardMap → Option (List ℕ)
leader_addr shard m = elim (Assoc.get shard m.shard_owners) [
  | none ↦ none
  | some node ↦ Assoc.get node m.node_addrs
]

unfoldable pub insert_by_id : ℕ × List ℕ → Assoc (List ℕ) → Assoc (List ℕ)
insert_by_id x [] = x ∷ []
insert_by_id x (y ∷ ys) = if leb x.0 y.0 then x ∷ (y ∷ ys) else y ∷ insert_by_id x ys

unfoldable pub sort_by_id : Assoc (List ℕ) → Assoc (List ℕ)
unfolding insert_by_id
sort_by_id [] = []
sort_by_id (x ∷ xs) = insert_by_id x (sort_by_id xs)

unfoldable pub all_nodes : ShardMap → Assoc (List ℕ)
unfolding sort_by_id
all_nodes m = sort_by_id m.node_addrs

unfoldable pub virtual_entries : ℕ → ℕ → ℕ → ℕ → List RingEntry
virtual_entries node zero replica next = []
virtual_entries node (suc n) replica next =
    record { hash = fnv1a_64 (replica_key node replica); node_id = node; shard_id = next }
    ∷ virtual_entries node n (suc replica) ((next + 1) % 2 ^ 32)

unfoldable pub insert_entry : RingEntry → List RingEntry → List RingEntry
insert_entry x [] = x ∷ []
insert_entry x (y ∷ ys) = if leb x.hash y.hash then x ∷ (y ∷ ys) else y ∷ insert_entry x ys

unfoldable pub sort_ring : List RingEntry → List RingEntry
unfolding insert_entry
sort_ring [] = []
sort_ring (x ∷ xs) = insert_entry x (sort_ring xs)

-- The owner behind one round of `recompute_ownership`, and its migration.
unfoldable pub settle : RingEntry → Assoc ℕ → Assoc ℕ
settle e owners = elim (Assoc.get e.shard_id owners) [
  | none ↦ Assoc.insert e.shard_id e.node_id owners
  | some old ↦ if old == e.node_id then owners else Assoc.insert e.shard_id e.node_id owners
]

abbrev pub concerns : Option ℕ → ℕ → Bool
concerns none owner = true
concerns (some n) owner = owner == n

unfoldable pub moved : Option ℕ → RingEntry → Assoc ℕ → List ShardMigration
moved new_node e owners = elim (Assoc.get e.shard_id owners) [
  | none ↦ []
  | some old ↦
      if not (old == e.node_id) && concerns new_node e.node_id
      then record { shard_id = e.shard_id; from_node = old; to_node = e.node_id } ∷ []
      else []
]

unfoldable pub recompute_ownership :
    Option ℕ → List RingEntry → Assoc ℕ → Assoc ℕ × List ShardMigration
unfolding settle moved
recompute_ownership new_node [] owners = (owners, [])
recompute_ownership new_node (e ∷ es) owners =
    let (owners', migrations) = recompute_ownership new_node es (settle e owners) in
    (owners', moved new_node e owners ++ migrations)

-- A node that is not yet known.
unfoldable pub join_node : ℕ → List ℕ → ShardMap → ShardMap × List ShardMigration
unfolding virtual_entries sort_ring recompute_ownership
join_node node addr m =
    let ring = sort_ring (m.ring ++ virtual_entries node m.virtual_nodes 0 m.next_shard_id) in
    let (owners, migrations) = recompute_ownership (some node) ring m.shard_owners in
    (
      record m {
        ring = ring;
        node_addrs = Assoc.insert node addr m.node_addrs;
        shard_owners = owners;
        next_shard_id = (m.next_shard_id + m.virtual_nodes) % 2 ^ 32;
      },
      migrations,
    )

unfoldable pub add_node : ℕ → List ℕ → ShardMap → ShardMap × List ShardMigration
unfolding join_node
add_node node addr m = elim (Assoc.get node m.node_addrs) [
  | some known ↦ (m, [])
  | none ↦ join_node node addr m
]

unfoldable pub owned_shards : ℕ → Assoc ℕ → List ℕ
owned_shards node [] = []
owned_shards node ((shard, owner) ∷ rest) =
    let more = owned_shards node rest in if owner == node then shard ∷ more else more

abbrev pub first_entry : List RingEntry → Option RingEntry
first_entry [] = none
first_entry (e ∷ es) = some e

-- The entry whose node gets a shard of the removed node.
unfoldable pub new_owner : ℕ → List RingEntry → ℕ → Option RingEntry
new_owner node ring shard = elim (find (λ e. e.shard_id == shard) ring) [
  | some entry ↦
      or_else (find (λ e. leb entry.hash e.hash && not (e.node_id == node)) ring)
        (find (λ e. not (e.node_id == node)) ring)
  | none ↦ or_else (find (λ e. leb (fnv1a_64 (le_bytes shard)) e.hash) ring) (first_entry ring)
]

unfoldable pub reassign : ℕ → List RingEntry → List ℕ → Assoc ℕ → Assoc ℕ × List ShardMigration
unfolding new_owner
reassign node ring [] owners = (owners, [])
reassign node ring (shard ∷ shards) owners = elim (new_owner node ring shard) [
  | none ↦ reassign node ring shards owners
  | some e ↦
      let (owners', migrations) = reassign node ring shards (Assoc.insert shard e.node_id owners) in
      (owners', record { shard_id = shard; from_node = node; to_node = e.node_id } ∷ migrations)
]

abbrev pub ring_without : ℕ → List RingEntry → List RingEntry
ring_without node ring = retain (λ e. not (e.node_id == node)) ring

-- A node that is known.
unfoldable pub drop_node : ℕ → ShardMap → ShardMap × List ShardMigration
unfolding owned_shards reassign
drop_node node m =
    let shards = owned_shards node m.shard_owners in
    let ring = ring_without node m.ring in
    let m' = record m { ring = ring; node_addrs = Assoc.remove node m.node_addrs } in
    let (owners, migrations) = reassign node ring shards m.shard_owners in
    if is_empty ring
    then (
      record m' { shard_owners = [] },
      map (λ shard. record { shard_id = shard; from_node = node; to_node = 0 }) shards,
    )
    else (record m' { shard_owners = owners }, migrations)

unfoldable pub remove_node : ℕ → ShardMap → ShardMap × List ShardMigration
unfolding drop_node
remove_node node m = elim (Assoc.get node m.node_addrs) [
  | none ↦ (m, [])
  | some addr ↦ drop_node node m
]

-- The distinct nodes of the entries, but for those seen, `n` at most.
unfoldable pub pick_followers : ℕ → List RingEntry → List ℕ → List ℕ
pick_followers n [] seen = []
pick_followers n (e ∷ es) seen =
    let known = contains e.node_id seen in
    let rest =
      pick_followers (if known then n else n - 1) es (if known then seen else e.node_id ∷ seen) in
    if n == 0 then [] else if known then rest else e.node_id ∷ rest

unfoldable pub position : ℕ → List RingEntry → ℕ
position node [] = 0
position node (e ∷ es) = if e.node_id == node then 0 else suc (position node es)

-- The entries behind the position, round the ring, up to the one before it.
abbrev pub walk : ℕ → List RingEntry → List RingEntry
walk start ring = drop (suc start) ring ++ take start ring

unfoldable pub followers_of : ℕ → ShardMap → List ℕ
unfolding pick_followers position
followers_of leader m =
    let found = position leader m.ring in
    let start = if ltb found (length m.ring) then found else 0 in
    if ltb 1 m.replication_factor && ltb 1 (length m.ring)
    then pick_followers (m.replication_factor - 1) (walk start m.ring) (leader ∷ [])
    else []

unfoldable pub replication_group : ℕ → ShardMap → Option ReplicationGroup
unfolding followers_of
replication_group shard m = elim (Assoc.get shard m.shard_owners) [
  | none ↦ none
  | some leader ↦ some (record {
    shard_id = shard;
    leader = leader;
    followers = followers_of leader m;
    replication_factor = m.replication_factor;
  })
]

unfoldable pub set_replication_factor : ℕ → ShardMap → ShardMap
set_replication_factor factor m = record m { replication_factor = factor }
