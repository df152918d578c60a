-- ===== src/Storage/BlockCache/Eviction.antt =====
-- The bytes that the cache holds, and the order in which it gives them up.
use fundb.Prelude.{
  ℕ, ◌+◌, ◌^◌, ◌≤◌, ◌<◌, ◌≡◌, refl, sym, ap, ◌∙◌, subst, true, none, some, List, [], ◌∷◌, ◌++◌,
  arith, ltb, if◌then◌else◌, length, Option-cases, inl, inr, Bool-cases, ltb→le,
}
use fundb.Order.Bytes.{cmp_bytes_refl, eq_of_cmp_bytes}
use fundb.Storage.BlockCache.{
  CacheKey, Blocks, BlockCache, same_block, lookup, is_some, remove_block, remove_place, get,
  take_out, pop_oldest, evict, put, insert, sub_usize, add_usize,
}

same_block_refl : (a : CacheKey) → same_block a a ≡ true
unfolding same_block
same_block_refl a = ground (arith, cmp_bytes_refl a.file_id)

same_block_eq : (a b : CacheKey) → same_block a b ≡ true → a ≡ b
unfolding same_block
same_block_eq a b h = ground (arith, eq_of_cmp_bytes a.file_id b.file_id)

-- The bytes of all blocks.
unfoldable pub total : Blocks → ℕ
total [] = 0
total ((k, block) ∷ rest) = length block + total rest

-- No key twice.
abbrev pub Unique : Blocks → Type 0
Unique [] = Unit {0}
Unique ((k, block) ∷ rest) = (lookup k rest ≡ none) × Unique rest

-- The queue names each block of the cache once, and nothing else.
abbrev pub Tracks : List CacheKey → Blocks → Type 0
Tracks [] blocks = blocks ≡ []
Tracks (k ∷ ks) blocks = (is_some (lookup k blocks) ≡ true) × Tracks ks (remove_block k blocks)

-- The byte count is right and within the capacity, which stays below half of usize.
pub record IsValid (c : BlockCache) : Type 0 where
  pub counted : c.current_bytes ≡ total c.cache
  pub bounded : c.current_bytes ≤ c.capacity_bytes
  pub small : c.capacity_bytes < 2 ^ 63
  pub unique : Unique c.cache
  pub tracks : Tracks c.order c.cache

remove_absent : (k : CacheKey) (bs : Blocks) → lookup k bs ≡ none → remove_block k bs ≡ bs
unfolding lookup remove_block
remove_absent k [] e = refl
remove_absent k ((j, b) ∷ bs) e = ground (arith, remove_absent k bs)

lookup-remove_block :
    (j k : CacheKey) (bs : Blocks)
    → lookup j (remove_block k bs) ≡ (if same_block k j then none else lookup j bs)
unfolding lookup remove_block
lookup-remove_block j k [] = ground arith
lookup-remove_block j k ((i, b) ∷ bs) = ground (
  arith,
  lookup-remove_block j k bs,
  same_block_eq k i,
  same_block_eq j i,
  same_block_eq k j,
  same_block_refl k,
)

remove_block_comm :
    (j k : CacheKey) (bs : Blocks)
    → remove_block j (remove_block k bs) ≡ remove_block k (remove_block j bs)
unfolding remove_block
remove_block_comm j k [] = refl
remove_block_comm j k ((i, b) ∷ bs) = ground (arith, remove_block_comm j k bs)

Unique-remove_block : (k : CacheKey) (bs : Blocks) → Unique bs → Unique (remove_block k bs)
unfolding remove_block
Unique-remove_block k [] u = tt
Unique-remove_block k ((i, b) ∷ bs) u =
    ground (arith, Unique-remove_block k bs u.1, lookup-remove_block i k bs)

total-remove_block :
    (k : CacheKey) (bs : Blocks) (old : List ℕ)
    → Unique bs
    → lookup k bs ≡ some old
    → total bs ≡ length old + total (remove_block k bs)
unfolding lookup remove_block total
total-remove_block k [] old u e = cc
total-remove_block k ((i, b) ∷ bs) old u e =
    ground (arith, total-remove_block k bs old u.1, same_block_eq k i, remove_absent k bs)

Tracks-snoc :
    (k : CacheKey) (js : List CacheKey) (bs : Blocks)
    → is_some (lookup k bs) ≡ true
    → Tracks js (remove_block k bs)
    → Tracks (js ++ k ∷ []) bs
Tracks-snoc k [] bs here t = (here, t)
Tracks-snoc k (j ∷ js) bs here t = ground (
  arith,
  lookup-remove_block j k bs,
  lookup-remove_block k j bs,
  same_block_eq j k,
  same_block_refl k,
  Tracks-snoc k js (remove_block j bs),
  remove_block_comm j k bs,
)

Tracks-remove_place :
    (k : CacheKey) (js : List CacheKey) (bs : Blocks)
    → Tracks js bs
    → is_some (lookup k bs) ≡ true
    → Tracks (remove_place k js) (remove_block k bs)
unfolding remove_place
Tracks-remove_place k [] bs t here = absurd (
    let e : is_some (lookup k []) ≡ true = subst (λ b. is_some (lookup k b) ≡ true) t here in
    unfold lookup in cc)
Tracks-remove_place k (j ∷ js) bs t here = ground (
  arith,
  lookup-remove_block j k bs,
  lookup-remove_block k j bs,
  same_block_eq k j,
  same_block_eq j k,
  same_block_refl k,
  Tracks-remove_place k js (remove_block j bs),
  remove_block_comm j k bs,
)

-- A cache without one of its keys.
IsValid-without :
    (key : CacheKey) (old : List ℕ) (order : List CacheKey) (c : BlockCache)
    → IsValid c
    → lookup key c.cache ≡ some old
    → Tracks order (remove_block key c.cache)
    → IsValid (record c {
      current_bytes = sub_usize c.current_bytes (length old);
      cache = remove_block key c.cache;
      order = order;
    })
IsValid-without key old order c v e t = record {
  counted =
      omega (arith, v.counted, v.bounded, v.small, total-remove_block key c.cache old v.unique e);
  bounded =
      omega (arith, v.counted, v.bounded, v.small, total-remove_block key c.cache old v.unique e);
  small = v.small;
  unique = Unique-remove_block key c.cache v.unique;
  tracks = t;
}

IsValid-pop_oldest :
    (oldest : CacheKey) (rest : List CacheKey) (c : BlockCache)
    → IsValid c
    → c.order ≡ oldest ∷ rest
    → IsValid (pop_oldest oldest rest c)
unfolding pop_oldest
IsValid-pop_oldest oldest rest c v e =
    let (here, t) : Tracks (oldest ∷ rest) c.cache = subst (λ o. Tracks o c.cache) e v.tracks in
    elim (Option-cases (lookup oldest c.cache)) [
      | inl missing ↦ absurd (ground (arith, missing, here))
      | inr (old, found) ↦ rw (pop_oldest, found) (IsValid-without oldest old rest c v found t)
    ]

order-pop_oldest :
    (oldest : CacheKey) (rest : List CacheKey) (c : BlockCache)
    → (pop_oldest oldest rest c).order ≡ rest
unfolding pop_oldest
order-pop_oldest oldest rest c = ground arith

capacity-pop_oldest :
    (oldest : CacheKey) (rest : List CacheKey) (c : BlockCache)
    → (pop_oldest oldest rest c).capacity_bytes ≡ c.capacity_bytes
unfolding pop_oldest
capacity-pop_oldest oldest rest c = ground arith

pop_oldest-absent :
    (key oldest : CacheKey) (rest : List CacheKey) (c : BlockCache)
    → lookup key c.cache ≡ none
    → lookup key (pop_oldest oldest rest c).cache ≡ none
unfolding pop_oldest
pop_oldest-absent key oldest rest c a = ground (arith, lookup-remove_block key oldest c.cache)

IsValid-take_out : (key : CacheKey) (c : BlockCache) → IsValid c → IsValid (take_out key c)
unfolding take_out
IsValid-take_out key c v = elim (Option-cases (lookup key c.cache)) [
  | inl missing ↦ rw (take_out, missing) v
  | inr (old, found) ↦
      rw (take_out, found)
        (IsValid-without key old (remove_place key c.order) c v found
          (Tracks-remove_place key c.order c.cache v.tracks (ap is_some found)))
]

capacity-take_out :
    (key : CacheKey) (c : BlockCache) → (take_out key c).capacity_bytes ≡ c.capacity_bytes
unfolding take_out
capacity-take_out key c = ground arith

take_out-absent : (key : CacheKey) (c : BlockCache) → lookup key (take_out key c).cache ≡ none
unfolding take_out
take_out-absent key c = ground (arith, lookup-remove_block key key c.cache, same_block_refl key)

-- Eviction makes room for a block that fits into the cache, and brings no key in.
record Made (key : CacheKey) (data_len : ℕ) (c e : BlockCache) : Type 0 where
  valid : IsValid e
  capacity : e.capacity_bytes ≡ c.capacity_bytes
  room : e.current_bytes + data_len ≤ e.capacity_bytes
  absent : lookup key e.cache ≡ none

evict-Made :
    (key : CacheKey) (data_len : ℕ) (order : List CacheKey) (c : BlockCache)
    → IsValid c
    → c.order ≡ order
    → data_len ≤ c.capacity_bytes
    → lookup key c.cache ≡ none
    → Made key data_len c (evict data_len order c)
unfolding evict
evict-Made key data_len [] c v e fits a = record {
  valid = v;
  capacity = refl;
  room =
      let empty : c.cache ≡ [] = subst (λ o. Tracks o c.cache) e v.tracks in
      let nothing : total c.cache ≡ 0 = ap total empty ∙ (unfold total in refl) in
      omega (arith, v.counted);
  absent = a;
}
evict-Made key data_len (oldest ∷ rest) c v e fits a =
    elim (Bool-cases (ltb c.capacity_bytes (add_usize c.current_bytes data_len))) [
      | inl full ↦
          let c' = pop_oldest oldest rest c in
          let made : Made key data_len c' (evict data_len rest c') =
            evict-Made key data_len rest c' (IsValid-pop_oldest oldest rest c v e)
              (order-pop_oldest oldest rest c) (rw capacity-pop_oldest fits)
              (pop_oldest-absent key oldest rest c a) in
          rw full (record {
            valid = made.valid;
            capacity = made.capacity ∙ capacity-pop_oldest oldest rest c;
            room = made.room;
            absent = made.absent;
          })
      | inr free ↦ rw free (record {
        valid = v;
        capacity = refl;
        room = omega (arith, ltb→le _ _ free, v.bounded, v.small);
        absent = a;
      })
    ]

remove_put :
    (key : CacheKey) (block : List ℕ) (bs : Blocks)
    → lookup key bs ≡ none
    → remove_block key ((key, block) ∷ remove_block key bs) ≡ bs
remove_put key block bs a =
    rw (remove_absent key bs a)
      (unfold remove_block in ground (arith, same_block_refl key, remove_absent key bs))

IsValid-put :
    (key : CacheKey) (block : List ℕ) (c : BlockCache)
    → IsValid c
    → lookup key c.cache ≡ none
    → c.current_bytes + length block ≤ c.capacity_bytes
    → IsValid (put key block c)
unfolding put
IsValid-put key block c v a room = record {
  counted =
      unfold total in omega (arith, ap total (remove_absent key c.cache a), v.counted, v.small);
  bounded = omega (arith, room);
  small = v.small;
  unique = (
    ground (arith, lookup-remove_block key key c.cache, same_block_refl key),
    Unique-remove_block key c.cache v.unique,
  );
  tracks =
      Tracks-snoc key c.order ((key, block) ∷ remove_block key c.cache)
        (unfold lookup in ground (arith, same_block_refl key))
        (subst (Tracks c.order) (sym (remove_put key block c.cache a)) v.tracks);
}

-- An insertion keeps the byte count right and within the capacity, and the queue in step with
-- the blocks, whatever it has to evict.
pub insert-IsValid :
    (key : CacheKey) (block : List ℕ) (c : BlockCache) → IsValid c → IsValid (insert key block c)
unfolding insert
insert-IsValid key block c v = elim (Bool-cases (ltb c.capacity_bytes (length block))) [
  | inl large ↦ rw large v
  | inr fits ↦
      let c' = take_out key c in
      let made : Made key (length block) c' (evict (length block) c'.order c') =
        evict-Made key (length block) c'.order c' (IsValid-take_out key c v) refl
          (rw capacity-take_out (ltb→le _ _ fits)) (take_out-absent key c) in
      rw fits (IsValid-put key block _ made.valid made.absent made.room)
]

-- A lookup too, although it moves its key to the back of the queue.
pub get-IsValid : (key : CacheKey) (c : BlockCache) → IsValid c → IsValid (get key c).0
unfolding get
get-IsValid key c v = elim (Bool-cases (is_some (lookup key c.cache))) [
  | inl here ↦ rw here (record {
    counted = v.counted;
    bounded = v.bounded;
    small = v.small;
    unique = v.unique;
    tracks =
        Tracks-snoc key (remove_place key c.order) c.cache here
          (Tracks-remove_place key c.order c.cache v.tracks here);
  })
  | inr missing ↦ rw missing v
]

-- A block that fits into the cache is found after it was inserted, whatever was evicted; a block
-- that does not fit leaves the cache as it was.
pub get-insert_fits :
    (key : CacheKey) (block : List ℕ) (c : BlockCache)
    → (length block ≤ c.capacity_bytes → (get key (insert key block c)).1 ≡ some block)
      × (c.capacity_bytes < length block → insert key block c ≡ c)
unfolding get insert put
get-insert_fits key block c =
    (λ fits. unfold lookup in ground (arith, same_block_refl key), λ large. ground arith)
