-- ===== src/Core/Bloom.antt =====
-- `BloomFilter` of crates/fundb-core/src/page.rs. The two hash functions of the xxhash crate are
-- parameters; the number of words and of hash functions, which `new` computes with floats, are
-- the filter's own.
use fundb.Prelude.{
  ℕ, zero, suc, ◌+◌, ◌*◌, ◌/◌, ◌%◌, ◌^◌, ◌<◌, ◌≡◌, refl, Bool, true, false, List, arith, ◌==◌,
  if◌then◌else◌, length, get_or, set, length-set, get_or-set_self, get_or-set_ne, ℕ_discrete, ◌∙◌,
  ap, max, length-replicate, replicate,
}

pub record BloomFilter : Type 0 where
  pub bits : List ℕ
  pub k : ℕ

-- `new`, from the float formulas for the number of bits and of hash functions: whole words, and
-- at least one of each.
unfoldable pub new : ℕ → ℕ → BloomFilter
new optimal_bits optimal_k =
    let m_rounded = (max optimal_bits 64 + 63) / 64 * 64 in
    record { bits = replicate (m_rounded / 64) 0; k = max optimal_k 1 }

pub bits-new : (optimal_bits optimal_k : ℕ) → 0 < length (new optimal_bits optimal_k).bits
unfolding new
bits-new b k = omega (arith, length-replicate {A = ℕ} ((max b 64 + 63) / 64 * 64 / 64) 0)

-- `word & (1 << b) != 0`
unfoldable pub test_bit : ℕ → ℕ → Bool
test_bit word zero = word % 2 == 1
test_bit word (suc b) = test_bit (word / 2) b

-- `word | (1 << b)`
unfoldable pub set_bit : ℕ → ℕ → ℕ
set_bit word zero = if word % 2 == 1 then word else word + 1
set_bit word (suc b) = 2 * set_bit (word / 2) b + word % 2

-- The number of bits.
unfoldable pub m : BloomFilter → ℕ
m f = length f.bits * 64

unfoldable pub bit_at : List ℕ → ℕ → Bool
unfolding test_bit
bit_at bits bit = test_bit (get_or bits (bit / 64) 0) (bit % 64)

unfoldable pub put_bit : ℕ → List ℕ → List ℕ
unfolding set_bit
put_bit bit bits = set bits (bit / 64) (set_bit (get_or bits (bit / 64) 0) (bit % 64))

module _ (xxh3_64 : List ℕ → ℕ) (xxh3_64_with_seed : List ℕ → ℕ → ℕ) where
  -- The `i`-th position of a key, by double hashing on u64.
  unfoldable pub bit_index : ℕ → List ℕ → ℕ → ℕ
  bit_index bit_count key i =
      let h1 = xxh3_64 key in
      let h2 = xxh3_64_with_seed key h1 in (h1 + i * h2 % 2 ^ 64) % 2 ^ 64 % bit_count

  -- The rounds `i`, `i + 1`, … of `insert`, `rounds` of them.
  unfoldable pub insert_from : ℕ → List ℕ → ℕ → ℕ → List ℕ → List ℕ
  insert_from bit_count key i zero bits = bits
  insert_from bit_count key i (suc rounds) bits =
      insert_from bit_count key (suc i) rounds (put_bit (bit_index bit_count key i) bits)

  unfoldable pub insert : List ℕ → BloomFilter → BloomFilter
  unfolding insert_from m
  insert key f = record f { bits = insert_from (m f) key 0 f.k f.bits }

  unfoldable pub contains_from : ℕ → List ℕ → ℕ → ℕ → List ℕ → Bool
  contains_from bit_count key i zero bits = true
  contains_from bit_count key i (suc rounds) bits =
      let rest = contains_from bit_count key (suc i) rounds bits in
      if bit_at bits (bit_index bit_count key i) then rest else false

  unfoldable pub contains : List ℕ → BloomFilter → Bool
  unfolding contains_from m
  contains key f = contains_from (m f) key 0 f.k f.bits

half-set_zero : (w : ℕ) → set_bit w 0 / 2 ≡ w / 2
unfolding set_bit
half-set_zero w = ground arith

half-set_suc : (w b : ℕ) → set_bit w (suc b) / 2 ≡ set_bit (w / 2) b
unfolding set_bit
half-set_suc w b = omega arith

test-set_self : (w b : ℕ) → test_bit (set_bit w b) b ≡ true
unfolding test_bit
test-set_self w zero = unfold set_bit in ground arith
test-set_self w (suc b) = rw half-set_suc (test-set_self (w / 2) b)

test-set_mono : (w b c : ℕ) → test_bit w c ≡ true → test_bit (set_bit w b) c ≡ true
unfolding test_bit
test-set_mono w zero zero h = unfold set_bit in ground arith
test-set_mono w zero (suc c) h = rw half-set_zero h
test-set_mono w (suc b) zero h = unfold set_bit in ground arith
test-set_mono w (suc b) (suc c) h = rw half-set_suc (test-set_mono (w / 2) b c h)

length-put_bit : (b : ℕ) (bits : List ℕ) → length (put_bit b bits) ≡ length bits
unfolding put_bit
length-put_bit b bits = length-set bits (b / 64) _

bit_at-put_self : (b : ℕ) (bits : List ℕ) → b < length bits * 64 → bit_at (put_bit b bits) b ≡ true
unfolding bit_at put_bit
bit_at-put_self b bits h =
    rw (get_or-set_self bits (b / 64) _ 0 (omega arith)) (test-set_self _ (b % 64))

bit_at-put_mono :
    (b c : ℕ) (bits : List ℕ)
    → c < length bits * 64
    → bit_at bits c ≡ true
    → bit_at (put_bit b bits) c ≡ true
bit_at-put_mono b c bits le h = elim (ℕ_discrete (b / 64) (c / 64)) [
  | yes same ↦
      unfold bit_at put_bit in
      rw (← same, get_or-set_self bits (b / 64) _ 0 (omega arith))
        (test-set_mono _ (b % 64) (c % 64) (rw same (unfold bit_at in h)))
  | no other ↦ unfold bit_at put_bit in rw (get_or-set_ne bits (b / 64) (c / 64) _ 0 other) h
]

module _ (xxh3_64 : List ℕ → ℕ) (xxh3_64_with_seed : List ℕ → ℕ → ℕ) where
  abbrev index : ℕ → List ℕ → ℕ → ℕ
  index = bit_index xxh3_64 xxh3_64_with_seed

  bit_index-lt : (n : ℕ) (key : List ℕ) (i : ℕ) → 0 < n → index n key i < n
  unfolding bit_index
  bit_index-lt n key i h = omega arith

  length-insert_from :
      (n : ℕ) (key : List ℕ) (i rounds : ℕ) (bits : List ℕ)
      → length (insert_from xxh3_64 xxh3_64_with_seed n key i rounds bits) ≡ length bits
  unfolding insert_from
  length-insert_from n key i zero bits = refl
  length-insert_from n key i (suc r) bits =
      length-insert_from n key (suc i) r _ ∙ length-put_bit (index n key i) bits

  -- A bit that is set stays set.
  insert_from_mono :
      (n : ℕ) (key : List ℕ) (i rounds c : ℕ) (bits : List ℕ)
      → c < length bits * 64
      → bit_at bits c ≡ true
      → bit_at (insert_from xxh3_64 xxh3_64_with_seed n key i rounds bits) c ≡ true
  unfolding insert_from
  insert_from_mono n key i zero c bits le h = h
  insert_from_mono n key i (suc r) c bits le h =
      insert_from_mono n key (suc i) r c (put_bit (index n key i) bits)
        (omega (arith, length-put_bit (index n key i) bits))
        (bit_at-put_mono (index n key i) c bits le h)

  -- Every position that an insertion sets is found by the lookup.
  contains-insert_from :
      (n : ℕ) (key : List ℕ) (i rounds : ℕ) (bits : List ℕ)
      → 0 < n
      → n ≡ length bits * 64
      → contains_from xxh3_64 xxh3_64_with_seed n key i rounds
          (insert_from xxh3_64 xxh3_64_with_seed n key i rounds bits)
        ≡ true
  unfolding insert_from contains_from
  contains-insert_from n key i zero bits pos e = refl
  contains-insert_from n key i (suc r) bits pos e =
      let here = index n key i in
      let lt : here < length bits * 64 = omega (arith, bit_index-lt n key i pos) in
      let bits' = put_bit here bits in
      rw
        (insert_from_mono n key (suc i) r here bits' (omega (arith, length-put_bit here bits))
          (bit_at-put_self here bits lt))
        (contains-insert_from n key (suc i) r bits' pos (omega (arith, length-put_bit here bits)))

  contains_from_mono :
      (n : ℕ) (key : List ℕ) (i rounds : ℕ) (bits bits' : List ℕ)
      → ((c : ℕ) → c < n → bit_at bits c ≡ true → bit_at bits' c ≡ true)
      → 0 < n
      → contains_from xxh3_64 xxh3_64_with_seed n key i rounds bits ≡ true
      → contains_from xxh3_64 xxh3_64_with_seed n key i rounds bits' ≡ true
  unfolding contains_from
  contains_from_mono n key i zero bits bits' keep pos h = refl
  contains_from_mono n key i (suc r) bits bits' keep pos h = ground (
    arith,
    keep (index n key i) (bit_index-lt n key i pos),
    contains_from_mono n key (suc i) r bits bits' keep pos,
  )

  -- A filter with at least one word has no false negatives: a key that was inserted is found.
  pub contains-insert_self :
      (key : List ℕ) (f : BloomFilter)
      → 0 < length f.bits
      → contains xxh3_64 xxh3_64_with_seed key (insert xxh3_64 xxh3_64_with_seed key f) ≡ true
  unfolding contains insert
  contains-insert_self key f h =
      rw (ap (λ (l : ℕ). l * 64) (length-insert_from (length f.bits * 64) key 0 f.k f.bits))
        (contains-insert_from (length f.bits * 64) key 0 f.k f.bits (omega arith) refl)

  pub bits-insert :
      (key : List ℕ) (f : BloomFilter)
      → length (insert xxh3_64 xxh3_64_with_seed key f).bits ≡ length f.bits
  unfolding insert
  bits-insert key f = length-insert_from (length f.bits * 64) key 0 f.k f.bits

  -- A key that is found in a filter with at least one word is still found after any other
  -- insertion.
  pub contains-insert :
      (key other : List ℕ) (f : BloomFilter)
      → 0 < length f.bits
      → contains xxh3_64 xxh3_64_with_seed key f ≡ true
      → contains xxh3_64 xxh3_64_with_seed key (insert xxh3_64 xxh3_64_with_seed other f) ≡ true
  unfolding contains insert
  contains-insert key other f h found =
      rw (ap (λ (l : ℕ). l * 64) (length-insert_from (length f.bits * 64) other 0 f.k f.bits)) (
        contains_from_mono (length f.bits * 64) key 0 f.k f.bits _
          (λ c le. insert_from_mono (length f.bits * 64) other 0 f.k c f.bits le) (omega arith)
          found)
