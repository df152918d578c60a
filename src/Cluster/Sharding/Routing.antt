-- ===== src/Cluster/Sharding/Routing.antt =====
-- Routing a record, and the nodes that hold a shard.
use fundb.Prelude.{
  ℕ, ◌-◌, ◌≤◌, ◌≡◌, ◌≢◌, refl, false, ◌&&◌, none, some, List, [], ◌∷◌, arith, length, ltb, ◌==◌,
  if◌then◌else◌, Bool-cases, inl, inr,
}
use fundb.Assoc
use fundb.Assoc.{Assoc}
use fundb.Cluster.Hash.{fnv1a_64, routing_key}
use fundb.Cluster.Sharding.{
  RingEntry, ShardMap, drop_below, successor, shard_for, note_shard, node_for_shard, leader_addr,
  contains, pick_followers, followers_of, walk, position, ReplicationGroup, replication_group,
}
use fundb.Cluster.Sharding.Ownership.{All, All-both, IsOwned}
use fundb.Cluster.Sharding.Joining.{IsValid, HasAddr}

All-drop_below :
    (P : RingEntry → Type 0) (h : ℕ) (es : List RingEntry) → All P es → All P (drop_below h es)
unfolding drop_below
All-drop_below P h [] a = tt
All-drop_below P h (e ∷ es) a = elim (Bool-cases (ltb e.hash h)) [
  | inl below ↦ rw below (All-drop_below P h es a.1)
  | inr other ↦ rw other a
]

pub holds-successor :
    (P : RingEntry → Type 0) (h : ℕ) (first : RingEntry) (rest : List RingEntry)
    → All P (first ∷ rest)
    → P (successor h first rest)
unfolding successor
holds-successor P h first rest a =
    of_tail (drop_below h (first ∷ rest)) (All-drop_below P h (first ∷ rest) a)
  where
    of_tail : (es : List RingEntry) → All P es → P (elim es [ [] ↦ first | e ∷ more ↦ e ])
    of_tail [] h = a.0
    of_tail (e ∷ more) h = h.0

-- The owner has an address.
abbrev IsServed : ShardMap → RingEntry → Type 0
IsServed m e = leader_addr e.shard_id m ≢ none

IsServed-of_owned :
    (m : ShardMap) (e : RingEntry)
    → IsOwned m.shard_owners e
    → HasAddr m.node_addrs e
    → IsServed m e
unfolding leader_addr
IsServed-of_owned m e owned addr absent = addr (ground arith)

-- In a valid map whose ring is not empty, the shard that `shard_for` gives for a record has a
-- leader with an address, so `leader_addr` does not panic on it.
pub leader_addr-shard_for :
    (collection record_id : List ℕ) (m : ShardMap)
    → IsValid m
    → m.ring ≢ []
    → let (m', shard) = shard_for collection record_id m in leader_addr shard m' ≢ none
unfolding shard_for leader_addr
leader_addr-shard_for collection record_id m valid some_node =
    by_ring (m.ring)
      (All-both (IsOwned m.shard_owners) (HasAddr m.node_addrs) (IsServed m) (IsServed-of_owned m)
        m.ring valid.2 valid.3)
      some_node
  where
    by_ring :
        (ring : List RingEntry)
        → All (IsServed m) ring
        → ring ≢ []
        → let r : ShardMap × ℕ = elim ring [
          | [] ↦ (m, 0)
          | first ∷ rest ↦
              let shard =
                (successor (fnv1a_64 (routing_key collection record_id)) first rest).shard_id in
              (
                record m { collection_shards = note_shard collection shard m.collection_shards },
                shard,
              )
        ] in
          leader_addr (r.1) (r.0) ≢ none
    by_ring [] served full = absurd (full refl)
    by_ring (first ∷ rest) served full =
        holds-successor (IsServed m) (fnv1a_64 (routing_key collection record_id)) first rest served

-- Members of a list of nodes, each different from those before it and from those in `seen`.
abbrev pub IsDistinctFrom : List ℕ → List ℕ → Type 0
IsDistinctFrom seen [] = Unit {0}
IsDistinctFrom seen (x ∷ xs) = (contains x seen ≡ false) × IsDistinctFrom (x ∷ seen) xs

pick_followers-distinct :
    (n : ℕ) (es : List RingEntry) (seen : List ℕ)
    → IsDistinctFrom seen (pick_followers n es seen) × (length (pick_followers n es seen) ≤ n)
unfolding pick_followers
pick_followers-distinct n [] seen = (tt, omega arith)
pick_followers-distinct n (e ∷ es) seen = elim (Bool-cases (n == 0)) [
  | inl enough ↦ rw enough (tt, omega arith)
  | inr missing ↦
      let some_left : 1 ≤ n = ground arith in
      elim (Bool-cases (contains e.node_id seen)) [
        | inl known ↦ rw (missing, known) (pick_followers-distinct n es seen)
        | inr fresh ↦
            let ih = pick_followers-distinct (n - 1) es (e.node_id ∷ seen) in
            rw (missing, fresh) ((fresh, ih.0), omega (arith, ih.1))
      ]
]

-- As `replication_group` gives them for the leader.
abbrev AreFollowers : ℕ → ShardMap → List ℕ → Type 0
AreFollowers leader m followers =
    IsDistinctFrom (leader ∷ []) followers × (length followers ≤ m.replication_factor - 1)

AreFollowers-followers_of :
    (leader : ℕ) (m : ShardMap) → AreFollowers leader m (followers_of leader m)
unfolding followers_of
AreFollowers-followers_of leader m =
    elim (Bool-cases (ltb 1 m.replication_factor && ltb 1 (length m.ring))) [
      | inl replicated ↦ rw replicated (
          pick_followers-distinct (m.replication_factor - 1)
            (walk
              (if ltb (position leader m.ring) (length m.ring) then position leader m.ring else 0)
              m.ring)
            (leader ∷ []))
      | inr alone ↦ rw alone (tt, omega arith)
    ]

-- The group of a shard is led by its owner; its followers are distinct nodes, none of them the
-- leader, and at most one less than the replication factor.
pub replication_group-distinct :
    (shard leader : ℕ) (m : ShardMap)
    → node_for_shard shard m ≡ some leader
    → let group : ReplicationGroup = record {
      shard_id = shard;
      leader = leader;
      followers = followers_of leader m;
      replication_factor = m.replication_factor;
    } in
      (replication_group shard m ≡ some group)
      × IsDistinctFrom (leader ∷ []) group.followers
      × (length group.followers ≤ m.replication_factor - 1)
unfolding replication_group node_for_shard
replication_group-distinct shard leader m owner =
    let good = AreFollowers-followers_of leader m in
    let owned : Assoc.get shard m.shard_owners ≡ some leader = owner in
    (rw (replication_group, owned) refl, good.0, good.1)
