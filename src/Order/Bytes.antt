-- ===== src/Order/Bytes.antt =====
-- Byte strings in lexicographic order, and pairs of them: the derived order of `RecordKey`.
use Prim.Native.Nat.{compare}
use fundb.Prelude.{ℕ, ◌≡◌, refl, List, [], ◌∷◌, arith}
use fundb.Order.{Ordering, lt, eq, gt, Ord}

abbrev pub then_cmp : Ordering → Ordering → Ordering
then_cmp eq o = o
then_cmp lt o = lt
then_cmp gt o = gt

unfoldable pub cmp_bytes : List ℕ → List ℕ → Ordering
cmp_bytes [] [] = eq
cmp_bytes [] (y ∷ ys) = lt
cmp_bytes (x ∷ xs) [] = gt
cmp_bytes (x ∷ xs) (y ∷ ys) = then_cmp (compare x y) (cmp_bytes xs ys)

pub cmp_bytes_refl : (a : List ℕ) → cmp_bytes a a ≡ eq
unfolding cmp_bytes
cmp_bytes_refl [] = refl
cmp_bytes_refl (x ∷ xs) = ground (arith, cmp_bytes_refl xs)

pub eq_of_cmp_bytes : (a b : List ℕ) → cmp_bytes a b ≡ eq → a ≡ b
unfolding cmp_bytes
eq_of_cmp_bytes [] [] h = refl
eq_of_cmp_bytes [] (y ∷ ys) h = cc
eq_of_cmp_bytes (x ∷ xs) [] h = cc
eq_of_cmp_bytes (x ∷ xs) (y ∷ ys) h = ground (arith, eq_of_cmp_bytes xs ys)

pub gt_of_lt_bytes : (a b : List ℕ) → cmp_bytes a b ≡ lt → cmp_bytes b a ≡ gt
unfolding cmp_bytes
gt_of_lt_bytes [] [] h = cc
gt_of_lt_bytes [] (y ∷ ys) h = refl
gt_of_lt_bytes (x ∷ xs) [] h = cc
gt_of_lt_bytes (x ∷ xs) (y ∷ ys) h = ground (arith, gt_of_lt_bytes xs ys)

pub lt_of_gt_bytes : (a b : List ℕ) → cmp_bytes a b ≡ gt → cmp_bytes b a ≡ lt
unfolding cmp_bytes
lt_of_gt_bytes [] [] h = cc
lt_of_gt_bytes [] (y ∷ ys) h = cc
lt_of_gt_bytes (x ∷ xs) [] h = refl
lt_of_gt_bytes (x ∷ xs) (y ∷ ys) h = ground (arith, lt_of_gt_bytes xs ys)

pub lt_trans_bytes : (a b c : List ℕ) → cmp_bytes a b ≡ lt → cmp_bytes b c ≡ lt → cmp_bytes a c ≡ lt
unfolding cmp_bytes
lt_trans_bytes [] [] c h k = k
lt_trans_bytes [] (y ∷ ys) [] h k = cc
lt_trans_bytes [] (y ∷ ys) (z ∷ zs) h k = refl
lt_trans_bytes (x ∷ xs) [] c h k = cc
lt_trans_bytes (x ∷ xs) (y ∷ ys) [] h k = k
lt_trans_bytes (x ∷ xs) (y ∷ ys) (z ∷ zs) h k = ground (arith, lt_trans_bytes xs ys zs)

instance abbrev pub bytes_ord : Ord (List ℕ)
bytes_ord = record {
  cmp = cmp_bytes;
  cmp_refl = cmp_bytes_refl;
  eq_of_cmp = eq_of_cmp_bytes;
  gt_of_lt = gt_of_lt_bytes;
  lt_of_gt = lt_of_gt_bytes;
  lt_trans = lt_trans_bytes;
}
