-- ===== src/Storage/Compaction.antt =====
-- crates/fundb-storage/src/compaction.rs, over files of any type.
use fundb.Prelude.{
  zero, suc, ap, true, ℕ, ◌+◌, ◌*◌, ◌/◌, ◌≤◌, ◌≡◌, refl, Bool, List, [], ◌∷◌, ◌++◌, arith, ltb, leb,
  ◌==◌, if◌then◌else◌, length, take, drop, length-take,
}

pub data CompactionPolicy : Type 0 where
  leveled : ℕ → ℕ → CompactionPolicy
  size_tiered : ℕ → CompactionPolicy

-- At least one level, or at least two files.
abbrev pub Sensible : CompactionPolicy → Type 0
Sensible (leveled level_size_ratio max_levels) = 1 ≤ max_levels
Sensible (size_tiered min_sstable_count) = 2 ≤ min_sstable_count

module _ {F : Type 0} where
  unfoldable pub should_compact : CompactionPolicy → List F → Bool
  should_compact (leveled level_size_ratio max_levels) files = ltb (max_levels * 4) (length files)
  should_compact (size_tiered min_sstable_count) files = leb min_sstable_count (length files)

  -- `div_ceil(2)`
  unfoldable pub select_files : CompactionPolicy → List F → List F
  select_files (leveled level_size_ratio max_levels) files =
      if length files == 0 then [] else take ((length files + 1) / 2) files
  select_files (size_tiered min_sstable_count) files =
      if ltb (length files) min_sstable_count then [] else take min_sstable_count files

  take_prefix : (n : ℕ) (xs : List F) → take n xs ++ drop (length (take n xs)) xs ≡ xs
  take_prefix zero xs = refl
  take_prefix (suc n) [] = refl
  take_prefix (suc n) (x ∷ xs) = ap (λ t. x ∷ t) (take_prefix n xs)

  -- What is selected is a prefix of the files: the oldest ones.
  pub select_files-prefix :
      (p : CompactionPolicy) (files : List F)
      → select_files p files ++ drop (length (select_files p files)) files ≡ files
  unfolding select_files
  select_files-prefix (leveled r levels) files =
      ground (arith, take_prefix ((length files + 1) / 2) files)
  select_files-prefix (size_tiered count) files = ground (arith, take_prefix count files)

  -- With one level at least, or a minimum of two files, a policy that asks for compaction
  -- selects two files at least, so that the compaction merges.
  pub select_files-two :
      (p : CompactionPolicy) (files : List F)
      → Sensible p
      → should_compact p files ≡ true
      → 2 ≤ length (select_files p files)
  unfolding select_files should_compact
  select_files-two (leveled r levels) files ok h =
      ground (arith, length-take ((length files + 1) / 2) files)
  select_files-two (size_tiered count) files ok h = ground (arith, length-take count files)
