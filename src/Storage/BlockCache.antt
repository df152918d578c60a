-- ===== src/Storage/BlockCache.antt =====
-- crates/fundb-storage/src/block_cache.rs. The hash map is a list of keys and blocks; a path is its
-- bytes.
pub mod Eviction
pub mod Tests
use fundb.Prelude.{
  ℕ, ◌+◌, ◌-◌, ◌%◌, ◌^◌, Bool, true, false, not, ◌&&◌, Option, none, some, List, [], ◌∷◌, ◌++◌, ltb,
  ◌==◌, if◌then◌else◌, length, retain,
}
use fundb.Order.{is_eq}
use fundb.Order.Bytes.{cmp_bytes}

pub record CacheKey : Type 0 where
  pub file_id : List ℕ
  pub block_offset : ℕ

abbrev pub Blocks : Type 0
Blocks = List (CacheKey × List ℕ)

pub record BlockCache : Type 0 where
  pub capacity_bytes : ℕ
  pub current_bytes : ℕ
  pub cache : Blocks
  pub order : List CacheKey

-- `a - b` and `a + b` on usize of 64 bits in a release build, which wrap.
abbrev pub sub_usize : ℕ → ℕ → ℕ
sub_usize a b = (a + 2 ^ 64 - b) % 2 ^ 64

abbrev pub add_usize : ℕ → ℕ → ℕ
add_usize a b = (a + b) % 2 ^ 64

-- The derived equality.
unfoldable pub same_block : CacheKey → CacheKey → Bool
same_block a b = is_eq (cmp_bytes a.file_id b.file_id) && a.block_offset == b.block_offset

abbrev pub new : ℕ → BlockCache
new capacity_bytes = record {
  capacity_bytes = capacity_bytes;
  current_bytes = 0;
  cache = [];
  order = [];
}

-- `HashMap::get`
unfoldable pub lookup : CacheKey → Blocks → Option (List ℕ)
lookup key [] = none
lookup key ((k, block) ∷ rest) = if same_block key k then some block else lookup key rest

abbrev pub is_some : Option (List ℕ) → Bool
is_some none = false
is_some (some block) = true

-- `HashMap::remove`
unfoldable pub remove_block : CacheKey → Blocks → Blocks
remove_block key blocks = retain (λ e. not (same_block key e.0)) blocks

-- The first place of a key in the queue, if there is one, is removed.
unfoldable pub remove_place : CacheKey → List CacheKey → List CacheKey
remove_place key [] = []
remove_place key (k ∷ ks) =
    let rest = remove_place key ks in if same_block key k then ks else k ∷ rest

unfoldable pub get : CacheKey → BlockCache → BlockCache × Option (List ℕ)
get key c =
    if is_some (lookup key c.cache)
    then (record c { order = remove_place key c.order ++ key ∷ [] }, lookup key c.cache)
    else (c, none)

-- A key that is there is taken out.
unfoldable pub take_out : CacheKey → BlockCache → BlockCache
take_out key c = elim (lookup key c.cache) [
  | none ↦ c
  | some old ↦ record c {
    current_bytes = sub_usize c.current_bytes (length old);
    cache = remove_block key c.cache;
    order = remove_place key c.order;
  }
]

-- The oldest key leaves the queue, and its block the cache.
unfoldable pub pop_oldest : CacheKey → List CacheKey → BlockCache → BlockCache
pop_oldest oldest rest c = elim (lookup oldest c.cache) [
  | none ↦ record c { order = rest }
  | some old ↦ record c {
    current_bytes = sub_usize c.current_bytes (length old);
    cache = remove_block oldest c.cache;
    order = rest;
  }
]

-- The loop of `insert`, which takes one key from the queue in each round.
unfoldable pub evict : ℕ → List CacheKey → BlockCache → BlockCache
evict data_len [] c = c
evict data_len (oldest ∷ rest) c =
    let evicted = evict data_len rest (pop_oldest oldest rest c) in
    if ltb c.capacity_bytes (add_usize c.current_bytes data_len) then evicted else c

unfoldable pub put : CacheKey → List ℕ → BlockCache → BlockCache
put key block c = record c {
  cache = (key, block) ∷ remove_block key c.cache;
  current_bytes = add_usize c.current_bytes (length block);
  order = c.order ++ key ∷ [];
}

unfoldable pub insert : CacheKey → List ℕ → BlockCache → BlockCache
insert key block c =
    let c' = take_out key c in
    if ltb c.capacity_bytes (length block)
    then c
    else put key block (evict (length block) c'.order c')
