-- ===== src/Sql/Plan.antt =====
-- crates/fundb-sql/src/logical_plan.rs. A name is its UTF-8 bytes, a float its bit pattern, an i64
-- the number that its order gives it, and a hash map the list of its entries.
use fundb.Prelude.{ℕ, Bool, Option, List}

pub data Literal : Type 0 where
  int : ℕ → Literal
  float : ℕ → Literal
  string : List ℕ → Literal
  bool : Bool → Literal
  null : Literal
  vector : List ℕ → Literal

pub data BinaryOp : Type 0 where
  eq ne lt le gt ge and or add sub mul div vector_dist : BinaryOp

pub data UnaryOp : Type 0 where
  not neg : UnaryOp

mutual
  pub data Expr : Type 0 where
    column : List ℕ → Expr
    literal : Literal → Expr
    binary_op : BinaryOp → Expr → Expr → Expr
    unary_op : UnaryOp → Expr → Expr
    function_call : List ℕ → Exprs → Expr
    param : List ℕ → Expr
    vector_ref : List ℕ → Expr
    star : Expr

  -- `Vec<Expr>`
  pub data Exprs : Type 0 where
    no_exprs : Exprs
    expr : Expr → Exprs → Exprs

pub record SortExpr : Type 0 where
  pub key : Expr
  pub asc : Bool

pub data AggFunc : Type 0 where
  count sum avg min max : AggFunc

pub record AggExpr : Type 0 where
  pub func : AggFunc
  pub arg : Expr
  pub alias : Option (List ℕ)

pub record ContextOptions : Type 0 where
  pub max_tokens : Option ℕ
  pub coherence : Option ℕ
  pub diversity : Option ℕ
  pub include_contradictions : Option Bool

pub record UnderstandOptions : Type 0 where
  pub min_confidence : Option ℕ
  pub within_days : Option ℕ
  pub depth : Option ℕ
  pub collection : Option (List ℕ)
  pub vector_field : Option (List ℕ)
  pub min_similarity : Option ℕ

-- `HashMap<String, f64>`
abbrev pub Vars : Type 0
Vars = List (List ℕ × ℕ)

pub data LogicalPlan : Type 0 where
  scan : List ℕ → Option Expr → Exprs → LogicalPlan
  vector_scan : List ℕ → List ℕ → List ℕ → ℕ → LogicalPlan
  graph_traverse : Expr → List ℕ → ℕ → ℕ → LogicalPlan
  causal_trace : Expr → Expr → ℕ → ℕ → Option ℕ → LogicalPlan
  filter : LogicalPlan → Expr → LogicalPlan
  project : LogicalPlan → Exprs → LogicalPlan
  join : LogicalPlan → LogicalPlan → Expr → LogicalPlan
  aggregate : LogicalPlan → Exprs → List AggExpr → LogicalPlan
  sort : LogicalPlan → List SortExpr → LogicalPlan
  limit : LogicalPlan → ℕ → LogicalPlan
  context_optimize : LogicalPlan → ContextOptions → LogicalPlan
  understand : List ℕ → UnderstandOptions → LogicalPlan
  estimate_effect : List ℕ → Vars → List ℕ → LogicalPlan
  counterfactual : List ℕ → Vars → Vars → List ℕ → LogicalPlan
  insert : List ℕ → List (List ℕ) → List Exprs → LogicalPlan
  empty : LogicalPlan
