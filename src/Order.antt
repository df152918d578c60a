-- ===== src/Order.antt =====
-- Ordered keys, as Rust's `Ord` compares them, and `BTreeMap` as a list with ascending keys.
pub mod Bytes
pub mod SortedMap
pub use Prim.Native.Nat.{Ordering, lt, eq, gt}
use fundb.Prelude.{◌≡◌, Bool, true, false}

pub record Ord (K : Type 0) : Type 0 where
  pub cmp : K → K → Ordering
  pub cmp_refl : (a : K) → cmp a a ≡ eq
  pub eq_of_cmp : (a b : K) → cmp a b ≡ eq → a ≡ b
  pub gt_of_lt : (a b : K) → cmp a b ≡ lt → cmp b a ≡ gt
  pub lt_of_gt : (a b : K) → cmp a b ≡ gt → cmp b a ≡ lt
  pub lt_trans : (a b c : K) → cmp a b ≡ lt → cmp b c ≡ lt → cmp a c ≡ lt

abbrev pub is_eq : Ordering → Bool
is_eq eq = true
is_eq _ = false

abbrev pub is_le : Ordering → Bool
is_le gt = false
is_le _ = true
