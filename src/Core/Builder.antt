-- ===== src/Core/Builder.antt =====
-- `FunRecordBuilder` of crates/fundb-core/src/builder.rs. `build` takes the new UUID and the
-- clock's nanoseconds as arguments.
use fundb.Prelude.{ℕ, ◌^◌, List, [], ◌∷◌, ◌++◌}
use fundb.Order.Bytes.{bytes_ord}
use fundb.Order.SortedMap
use fundb.Core.Record.{Timestamp, FunRecord, Edge, Sample, Source, Ref, CausalEdge, i64_max}

pub record FunRecordBuilder : Type 0 where
  pub collection : List ℕ
  pub tenant : ℕ
  pub payload : List ℕ
  pub vectors : List (List ℕ × List ℕ)
  pub edges : List Edge
  pub timeseries : List Sample
  pub confidence : ℕ
  pub sources : List Source
  pub supports : List Ref
  pub contradicts : List Ref
  pub caused_by : List CausalEdge
  pub effects : List CausalEdge
  pub valid_from : Timestamp
  pub valid_to : Timestamp

-- The bits of the f32 1.0.
abbrev pub one_f32 : ℕ
one_f32 = 0x3f800000

unfoldable pub new : List ℕ → FunRecordBuilder
new collection = record {
  collection = collection;
  tenant = 0;
  payload = [];
  vectors = [];
  edges = [];
  timeseries = [];
  confidence = one_f32;
  sources = [];
  supports = [];
  contradicts = [];
  caused_by = [];
  effects = [];
  valid_from = 2 ^ 63;
  valid_to = i64_max;
}

unfoldable pub set_payload : List ℕ → FunRecordBuilder → FunRecordBuilder
set_payload payload b = record b { payload = payload }

unfoldable pub set_vector : List ℕ → List ℕ → FunRecordBuilder → FunRecordBuilder
set_vector name v b = record b { vectors = SortedMap.insert name v b.vectors }

unfoldable pub set_confidence : ℕ → FunRecordBuilder → FunRecordBuilder
set_confidence c b = record b { confidence = c }

unfoldable pub set_valid_time : Timestamp → Timestamp → FunRecordBuilder → FunRecordBuilder
set_valid_time from to b = record b { valid_from = from; valid_to = to }

unfoldable pub set_tenant : ℕ → FunRecordBuilder → FunRecordBuilder
set_tenant id b = record b { tenant = id }

unfoldable pub add_edge : Edge → FunRecordBuilder → FunRecordBuilder
add_edge edge b = record b { edges = b.edges ++ edge ∷ [] }

unfoldable pub add_sample : Sample → FunRecordBuilder → FunRecordBuilder
add_sample sample b = record b { timeseries = b.timeseries ++ sample ∷ [] }

unfoldable pub add_source : Source → FunRecordBuilder → FunRecordBuilder
add_source s b = record b { sources = b.sources ++ s ∷ [] }

unfoldable pub add_support : Ref → FunRecordBuilder → FunRecordBuilder
add_support r b = record b { supports = b.supports ++ r ∷ [] }

unfoldable pub add_contradiction : Ref → FunRecordBuilder → FunRecordBuilder
add_contradiction r b = record b { contradicts = b.contradicts ++ r ∷ [] }

unfoldable pub add_cause : CausalEdge → FunRecordBuilder → FunRecordBuilder
add_cause edge b = record b { caused_by = b.caused_by ++ edge ∷ [] }

unfoldable pub add_effect : CausalEdge → FunRecordBuilder → FunRecordBuilder
add_effect edge b = record b { effects = b.effects ++ edge ∷ [] }

unfoldable pub build : List ℕ → Timestamp → FunRecordBuilder → FunRecord
build new_record_id now_ns b = record {
  id = new_record_id;
  collection = b.collection;
  tenant = b.tenant;
  sys_from = now_ns;
  sys_to = i64_max;
  valid_from = b.valid_from;
  valid_to = b.valid_to;
  payload = b.payload;
  vectors = b.vectors;
  edges = b.edges;
  timeseries = b.timeseries;
  confidence = b.confidence;
  sources = b.sources;
  supports = b.supports;
  contradicts = b.contradicts;
  caused_by = b.caused_by;
  effects = b.effects;
}
