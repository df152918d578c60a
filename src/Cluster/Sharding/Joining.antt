-- ===== src/Cluster/Sharding/Joining.antt =====
-- A node that joins the ring.
use fundb.Prelude.{
  ℕ, zero, suc, ◌+◌, ◌%◌, ◌^◌, ◌≤◌, ◌<◌, ◌≡◌, ◌≢◌, refl, sym, ◌∙◌, Option, none, some, List, [],
  ◌∷◌, ◌++◌, arith, inl, inr,
}
use fundb.Assoc
use fundb.Assoc.{Assoc, get-insert}
use fundb.Cluster.Sharding.{
  RingEntry, ShardMap, ShardMigration, sort_ring, recompute_ownership, virtual_entries, join_node,
  add_node,
}
use fundb.Cluster.Sharding.Ownership.{
  All, All-map, All-append, All-sort_ring, Agrees, Agree, Agree-sort_ring, Agree-append, IsOwned,
  IsQuiet, owners_after, recompute-absent, recompute-quiet,
}

abbrev pub HasAddr : Assoc (List ℕ) → RingEntry → Type 0
HasAddr addrs e = Assoc.get e.node_id addrs ≢ none

-- The shards of the ring are below the counter, each is owned by the node of its entries, which has
-- an address; no shard from the counter on is owned.
abbrev pub IsValid : ShardMap → Type 0
IsValid m =
    Agree m.ring
    × All (λ e. e.shard_id < m.next_shard_id) m.ring
    × All (IsOwned m.shard_owners) m.ring
    × All (HasAddr m.node_addrs) m.ring
    × ((k : ℕ) → m.next_shard_id ≤ k → Assoc.get k m.shard_owners ≡ none)

-- A new entry of a node, of a shard between two bounds.
abbrev IsNew : ℕ → ℕ → ℕ → RingEntry → Type 0
IsNew node next end e = (node ≡ e.node_id) × (next ≤ e.shard_id) × (e.shard_id < end)

virtual_entries-IsNew :
    (node n replica next end : ℕ)
    → next + n ≤ end
    → end < 2 ^ 32
    → All (IsNew node next end) (virtual_entries node n replica next)
unfolding virtual_entries
virtual_entries-IsNew node zero replica next end h small = tt
virtual_entries-IsNew node (suc n) replica next end h small =
    let same : (next + 1) % 2 ^ 32 ≡ next + 1 = omega arith in
    (
      (refl, omega arith, omega arith),
      All-map (IsNew node ((next + 1) % 2 ^ 32) end) (IsNew node next end)
          (λ e k. let above = k.1 in (k.0, omega arith, k.2))
          (virtual_entries node n (suc replica) ((next + 1) % 2 ^ 32))
          (virtual_entries-IsNew node n (suc replica) ((next + 1) % 2 ^ 32) end (omega arith)
            small),
    )

Agree-IsNew : (node next end : ℕ) (es : List RingEntry) → All (IsNew node next end) es → Agree es
Agree-IsNew node next end [] h = tt
Agree-IsNew node next end (e ∷ es) h = (
  All-map (IsNew node next end) (Agrees e) (λ x k s. sym h.0.0 ∙ k.0) es h.1,
  Agree-IsNew node next end es h.1,
)

module _ (node : ℕ) (addr : List ℕ) (m : ShardMap) (valid : IsValid m)
    (small : m.next_shard_id + m.virtual_nodes < 2 ^ 32) where
  abbrev end : ℕ
  end = m.next_shard_id + m.virtual_nodes

  abbrev entries : List RingEntry
  entries = virtual_entries node m.virtual_nodes 0 m.next_shard_id

  abbrev joined : List RingEntry
  joined = m.ring ++ entries

  entries-IsNew : All (IsNew node m.next_shard_id end) entries
  entries-IsNew =
      virtual_entries-IsNew node m.virtual_nodes 0 m.next_shard_id end (omega arith) small

  joined-Agree : Agree joined
  joined-Agree =
      Agree-append m.ring entries valid.0
        (Agree-IsNew node m.next_shard_id end entries entries-IsNew)
        (All-map (λ e. e.shard_id < m.next_shard_id) (λ e. All (Agrees e) entries)
          (λ e below.
            All-map (IsNew node m.next_shard_id end) (Agrees e)
              (λ x k s. let above = k.1 in absurd (omega arith)) entries entries-IsNew)
          m.ring valid.1)

  joined-below : All (λ e. e.shard_id < end) joined
  joined-below =
      All-append (λ e. e.shard_id < end) m.ring entries
        (All-map (λ e. e.shard_id < m.next_shard_id) (λ e. e.shard_id < end) (λ e k. omega arith)
          m.ring valid.1)
        (All-map (IsNew node m.next_shard_id end) (λ e. e.shard_id < end) (λ e k. k.2) entries
          entries-IsNew)

  joined-IsQuiet : All (IsQuiet m.shard_owners) joined
  joined-IsQuiet =
      All-append (IsQuiet m.shard_owners) m.ring entries
        (All-map (IsOwned m.shard_owners) (IsQuiet m.shard_owners) (λ e k. inr k) m.ring valid.2)
        (All-map (IsNew node m.next_shard_id end) (IsQuiet m.shard_owners)
          (λ e k. inl (valid.4 e.shard_id k.1)) entries entries-IsNew)

  has_addr :
      (e : RingEntry) → HasAddr m.node_addrs e → HasAddr (Assoc.insert node addr m.node_addrs) e
  has_addr e h absent = h (ground (arith, get-insert node e.node_id addr m.node_addrs))

  joined-HasAddr : All (HasAddr (Assoc.insert node addr m.node_addrs)) joined
  joined-HasAddr =
      All-append (HasAddr (Assoc.insert node addr m.node_addrs)) m.ring entries
        (All-map (HasAddr m.node_addrs) (HasAddr (Assoc.insert node addr m.node_addrs)) has_addr
          m.ring valid.3)
        (All-map (IsNew node m.next_shard_id end) (HasAddr (Assoc.insert node addr m.node_addrs))
          (λ e k absent.
            let same = k.0 in absurd (ground (arith, get-insert node e.node_id addr m.node_addrs)))
          entries entries-IsNew)

  settled :
      ((recompute_ownership (some node) (sort_ring joined) m.shard_owners).1 ≡ [])
      × All
          (IsOwned (owners_after (some node) (sort_ring joined) m.shard_owners))
          (sort_ring joined)
  settled =
      recompute-quiet (some node) (sort_ring joined) m.shard_owners
        (Agree-sort_ring joined joined-Agree)
        (All-sort_ring (IsQuiet m.shard_owners) joined joined-IsQuiet)

  join_node-IsValid : IsValid ((join_node node addr m).0)
  unfolding join_node
  join_node-IsValid =
      let same : end % 2 ^ 32 ≡ end = omega arith in
      rw same (
        Agree-sort_ring joined joined-Agree,
        All-sort_ring (λ e. e.shard_id < end) joined joined-below,
        settled.1,
        All-sort_ring (HasAddr (Assoc.insert node addr m.node_addrs)) joined joined-HasAddr,
        λ k above.
            recompute-absent (some node) k (sort_ring joined) m.shard_owners
              (valid.4 k (omega arith))
              (All-map (λ e. e.shard_id < end) (λ e. e.shard_id < k) (λ e below. omega arith)
                (sort_ring joined) (All-sort_ring (λ e. e.shard_id < end) joined joined-below)),
      )

  -- Adding a node keeps a valid map valid, if the counter of shards does not wrap.
  pub add_node-IsValid : IsValid ((add_node node addr m).0)
  unfolding add_node
  add_node-IsValid = by_known (Assoc.get node m.node_addrs)
    where
      by_known :
          (o : Option (List ℕ))
          → let r : ShardMap × List ShardMigration = elim o [
            | some known ↦ (m, [])
            | none ↦ join_node node addr m
          ] in
            IsValid (r.0)
      by_known (some known) = valid
      by_known none = join_node-IsValid

  -- Adding a node to a valid map reports no migration at all, if the counter of shards does not
  -- wrap.
  pub add_node-migrations : (add_node node addr m).1 ≡ []
  unfolding add_node join_node
  add_node-migrations = by_known (Assoc.get node m.node_addrs)
    where
      by_known :
          (o : Option (List ℕ))
          → let r : ShardMap × List ShardMigration = elim o [
            | some known ↦ (m, [])
            | none ↦ join_node node addr m
          ] in
            r.1 ≡ []
      by_known (some known) = refl
      by_known none = settled.0
