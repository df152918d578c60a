-- ===== src/Indexes/Temporal.antt =====
-- `TemporalIndex` of crates/fundb-indexes/src/temporal.rs. A timestamp is its i64 raised by 2 ^ 63.
use fundb.Prelude.{
  ℕ, ◌≤◌, ◌<◌, ◌≡◌, refl, Bool, true, false, not, ◌&&◌, List, [], ◌∷◌, ◌++◌, arith, map, retain,
  ltb, leb, ◌==◌,
}
use fundb.Core.Record.{Timestamp}
use fundb.Indexes.Graph.{has}

pub record Interval : Type 0 where
  pub id : ℕ
  pub valid_from : Timestamp
  pub valid_to : Timestamp

unfoldable pub insert : ℕ → Timestamp → Timestamp → List Interval → List Interval
insert id valid_from valid_to intervals =
    intervals ++ record { id = id; valid_from = valid_from; valid_to = valid_to } ∷ []

abbrev pub holds_at : Timestamp → Interval → Bool
holds_at at iv = leb iv.valid_from at && ltb at iv.valid_to

unfoldable pub point_query : Timestamp → List Interval → List ℕ
point_query at intervals = map (λ iv. iv.id) (retain (holds_at at) intervals)

abbrev pub overlaps : Timestamp → Timestamp → Interval → Bool
overlaps from to iv = ltb iv.valid_from to && ltb from iv.valid_to

unfoldable pub range_query : Timestamp → Timestamp → List Interval → List ℕ
range_query from to intervals = map (λ iv. iv.id) (retain (overlaps from to) intervals)

unfoldable pub delete : ℕ → List Interval → List Interval
delete id intervals = retain (λ iv. not (iv.id == id)) intervals

-- A record that holds at a time of a window is among those of the window.
pub range_query-point_query :
    (from to at : Timestamp) (id : ℕ) (intervals : List Interval)
    → from ≤ at
    → at < to
    → has id (point_query at intervals) ≡ true
    → has id (range_query from to intervals) ≡ true
unfolding point_query range_query
range_query-point_query from to at id [] above below h = h
range_query-point_query from to at id (iv ∷ rest) above below h =
    ground (arith, range_query-point_query from to at id rest above below)

-- A record that was deleted is in no answer.
pub point_query-delete :
    (at : Timestamp) (id : ℕ) (intervals : List Interval)
    → has id (point_query at (delete id intervals)) ≡ false
unfolding point_query delete
point_query-delete at id [] = refl
point_query-delete at id (iv ∷ rest) = ground (arith, point_query-delete at id rest)
