-- ===== src/Core/Record.antt =====
-- `RecordKey` of crates/fundb-core/src/types.rs and `FunRecord` of record.rs. A string is its
-- UTF-8 bytes, a float its bit pattern, and an i64 the number that its order gives it: the value
-- plus 2 ^ 63, so that `i64::MAX` is 2 ^ 64 - 1.
use fundb.Prelude.{
  ℕ, ◌-◌, ◌^◌, ◌*◌, ◌+◌, ◌≡◌, Bool, Option, List, arith, ◌||◌, ◌==◌, ◌/◌, ◌%◌, length, max, [], ◌∷◌,
}
use fundb.Order.{Ordering, lt, eq, gt, Ord}
use fundb.Order.Bytes.{
  cmp_bytes, cmp_bytes_refl, eq_of_cmp_bytes, gt_of_lt_bytes, lt_of_gt_bytes, lt_trans_bytes,
  then_cmp,
}

-- Unix nanoseconds, shifted as said above.
abbrev pub Timestamp : Type 0
Timestamp = ℕ

abbrev pub i64_max : Timestamp
i64_max = 2 ^ 64 - 1

pub record RecordKey : Type 0 where
  pub collection : List ℕ
  pub id : List ℕ

pub data SourceMethod : Type 0 where
  inference observation aggregation imported manual_annotation : SourceMethod

pub data CausalType : Type 0 where
  caused influenced correlated preceded : CausalType

pub data CausalOrigin : Type 0 where
  user_declared : CausalOrigin
  granger : ℕ → ℕ → CausalOrigin
  temporal_precedence : ℕ → CausalOrigin
  llm_validated : List ℕ → ℕ → CausalOrigin

pub data StabilityStatus : Type 0 where
  stable unstable provisional not_applicable : StabilityStatus

pub data DirectionStatus : Type 0 where
  confirmed direction_uncertain : DirectionStatus

pub record Edge : Type 0 where
  pub label : List ℕ
  pub target : List ℕ
  pub props : List ℕ
  pub confidence : ℕ

pub record Sample : Type 0 where
  pub ts : Timestamp
  pub value : ℕ

pub record Source : Type 0 where
  pub origin : List ℕ
  pub timestamp : Timestamp
  pub method : SourceMethod
  pub confidence : ℕ

pub record Ref : Type 0 where
  pub id : List ℕ
  pub strength : ℕ

pub record CausalEdge : Type 0 where
  pub source_id : List ℕ
  pub target_id : List ℕ
  pub relation : CausalType
  pub strength : ℕ
  pub mechanism : Option (List ℕ)
  pub origin : CausalOrigin
  pub confidence : ℕ
  pub stability_score : Option ℕ
  pub stability_status : StabilityStatus
  pub direction_status : DirectionStatus
  pub discovery_algo : Option (List ℕ)

pub record FunRecord : Type 0 where
  pub id : List ℕ
  pub collection : List ℕ
  pub tenant : ℕ
  pub sys_from : Timestamp
  pub sys_to : Timestamp
  pub valid_from : Timestamp
  pub valid_to : Timestamp
  pub payload : List ℕ
  pub vectors : List (List ℕ × List ℕ)
  pub edges : List Edge
  pub timeseries : List Sample
  pub confidence : ℕ
  pub sources : List Source
  pub supports : List Ref
  pub contradicts : List Ref
  pub caused_by : List CausalEdge
  pub effects : List CausalEdge

-- The derived order: by collection, then by id.
unfoldable pub cmp_key : RecordKey → RecordKey → Ordering
cmp_key a b = then_cmp (cmp_bytes a.collection b.collection) (cmp_bytes a.id b.id)

pub cmp_key_refl : (a : RecordKey) → cmp_key a a ≡ eq
unfolding cmp_key
cmp_key_refl a = ground (arith, cmp_bytes_refl a.collection, cmp_bytes_refl a.id)

pub eq_of_cmp_key : (a b : RecordKey) → cmp_key a b ≡ eq → a ≡ b
unfolding cmp_key
eq_of_cmp_key a b h =
    ground (arith, eq_of_cmp_bytes a.collection b.collection, eq_of_cmp_bytes a.id b.id)

pub gt_of_lt_key : (a b : RecordKey) → cmp_key a b ≡ lt → cmp_key b a ≡ gt
unfolding cmp_key
gt_of_lt_key a b h = ground (
  arith,
  gt_of_lt_bytes a.collection b.collection,
  gt_of_lt_bytes a.id b.id,
  eq_of_cmp_bytes a.collection b.collection,
  cmp_bytes_refl a.collection,
)

pub lt_of_gt_key : (a b : RecordKey) → cmp_key a b ≡ gt → cmp_key b a ≡ lt
unfolding cmp_key
lt_of_gt_key a b h = ground (
  arith,
  lt_of_gt_bytes a.collection b.collection,
  lt_of_gt_bytes a.id b.id,
  eq_of_cmp_bytes a.collection b.collection,
  cmp_bytes_refl a.collection,
)

pub lt_trans_key : (a b c : RecordKey) → cmp_key a b ≡ lt → cmp_key b c ≡ lt → cmp_key a c ≡ lt
unfolding cmp_key
lt_trans_key a b c h k = ground (
  arith,
  lt_trans_bytes a.collection b.collection c.collection,
  lt_trans_bytes a.id b.id c.id,
  eq_of_cmp_bytes a.collection b.collection,
  eq_of_cmp_bytes b.collection c.collection,
  cmp_bytes_refl a.collection,
)

instance abbrev pub key_ord : Ord RecordKey
key_ord = record {
  cmp = cmp_key;
  cmp_refl = cmp_key_refl;
  eq_of_cmp = eq_of_cmp_key;
  gt_of_lt = gt_of_lt_key;
  lt_of_gt = lt_of_gt_key;
  lt_trans = lt_trans_key;
}

-- `_confidence == 0.0` on the bits of an f32: the two zeros.
unfoldable pub is_zero_f32 : ℕ → Bool
is_zero_f32 bits = bits == 0 || bits == 2 ^ 31

sum_dims : List (List ℕ × List ℕ) → ℕ
sum_dims [] = 0
sum_dims ((name, v) ∷ rest) = length v + sum_dims rest

-- crates/fundb-core/src/codec.rs; the result is cut to u32.
unfoldable pub estimate_tokens : FunRecord → ℕ
unfolding sum_dims
estimate_tokens r = max (length r.payload / 4) (sum_dims r.vectors * 6 + 10 * 3) % 2 ^ 32
