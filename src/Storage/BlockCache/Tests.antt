-- ===== src/Storage/BlockCache/Tests.antt =====
-- The theorems on block_cache.rs at a small cache.
use fundb.Prelude.{ℕ, refl, [], ◌∷◌, arith}
use fundb.Order.Bytes.{cmp_bytes}
use fundb.Storage.BlockCache.{CacheKey, BlockCache, insert, lookup, remove_block, same_block}
use fundb.Storage.BlockCache.Eviction.{IsValid, total, insert-IsValid}

abbrev block_at : ℕ → CacheKey
block_at offset = record { file_id = 97 ∷ []; block_offset = offset }

-- Four bytes of five are taken.
abbrev two_blocks : BlockCache
two_blocks = record {
  capacity_bytes = 5;
  current_bytes = 4;
  cache = (block_at 0, 1 ∷ (2 ∷ [])) ∷ ((block_at 8, 3 ∷ (4 ∷ [])) ∷ []);
  order = block_at 8 ∷ (block_at 0 ∷ []);
}

two_blocks-IsValid : IsValid two_blocks
unfolding total lookup remove_block same_block cmp_bytes
two_blocks-IsValid = record {
  counted = refl;
  bounded = omega arith;
  small = omega arith;
  unique = (refl, (refl, tt));
  tracks = (refl, (refl, refl));
}

insert-IsValid_example : IsValid (insert (block_at 16) (5 ∷ (6 ∷ (7 ∷ []))) two_blocks)
insert-IsValid_example =
    insert-IsValid (block_at 16) (5 ∷ (6 ∷ (7 ∷ []))) two_blocks two_blocks-IsValid
