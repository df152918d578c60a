-- ===== src/Sql/Ast.antt =====
-- crates/fundb-sql/src/ast.rs. A name is the list of its characters, a literal's number its value,
-- a float's its bit pattern. The types that hold one another are one block, where a `Vec` or an
-- `Option` of them is a type of its own. Every subquery is a `SELECT`.
use fundb.Prelude.{ℕ, Bool, Option, none, some, List, [], ◌∷◌}

abbrev pub Name : Type 0
Name = List ℕ

pub data JoinType : Type 0 where
  inner left right cross full : JoinType

pub record TableRef : Type 0 where
  pub name : Name
  pub alias : Option Name
  pub is_agent_memory : Bool

pub data Literal : Type 0 where
  int float : ℕ → Literal
  string : Name → Literal
  bool : Bool → Literal
  null : Literal

pub data BinaryOp : Type 0 where
  eq not_eq lt lt_eq gt gt_eq and or add sub mul div modulo like not_like in_op not_in_op between_op
        arrow :
      BinaryOp

pub data UnaryOp : Type 0 where
  neg not_op is_null_op is_not_null_op : UnaryOp

mutual
  pub data Expr : Type 0 where
    literal : Literal → Expr
    ident param : Name → Expr
    binary_op : BinaryOp → Expr → Expr → Expr
    unary_op : UnaryOp → Expr → Expr
    function_call : Name → Exprs → Expr
    vector_dist : Name → Expr → Expr
    in_list : Expr → Exprs → Expr
    is_null is_not_null not_expr : Expr → Expr
    between : Expr → Expr → Expr → Expr
    subquery : SelectStmt → Expr
    star : Expr
    array : Exprs → Expr
    qualified : Name → Name → Expr
    case_expr : MaybeExpr → Whens → MaybeExpr → Expr
    cast : Expr → Name → Expr

  pub data Exprs : Type 0 where
    no_exprs : Exprs
    expr : Expr → Exprs → Exprs

  pub data MaybeExpr : Type 0 where
    no_expr : MaybeExpr
    some_expr : Expr → MaybeExpr

  -- `Vec<(Expr, Expr)>`
  pub data Whens : Type 0 where
    no_whens : Whens
    when_then : Expr → Expr → Whens → Whens

  pub data SelectItem : Type 0 where
    wildcard : SelectItem
    item : Expr → Option Name → SelectItem

  -- `Vec<SelectItem>`
  pub data SelectItems : Type 0 where
    no_items : SelectItems
    select_item : SelectItem → SelectItems → SelectItems

  pub data JoinClause : Type 0 where
    join_clause : JoinType → TableRef → MaybeExpr → JoinClause

  -- `Vec<JoinClause>`
  pub data Joins : Type 0 where
    no_joins : Joins
    join : JoinClause → Joins → Joins

  pub data OrderByItem : Type 0 where
    order_by_item : Expr → (asc : Bool) → OrderByItem

  -- `Vec<OrderByItem>`
  pub data OrderBys : Type 0 where
    no_order : OrderBys
    order_by : OrderByItem → OrderBys → OrderBys

  -- `Option<AsOfClause>`
  pub data AsOf : Type 0 where
    no_as_of : AsOf
    system_time valid_time_at : Expr → AsOf
    valid_time_between : Expr → Expr → AsOf

  -- `Option<ContextOptions>`
  pub data Context : Type 0 where
    no_context : Context
    context_options :
        (max_tokens coherence diversity : MaybeExpr) → Option Bool → (priority : OrderBys) → Context

  -- `Option<TraverseClause>`
  pub data Traverse : Type 0 where
    no_traverse : Traverse
    traverse_clause :
        (relation : Name)
        → (chain : List Name) → (depth_min depth_max : MaybeExpr) → Option Name
        → Traverse

  -- `Option<TraceCausalityClause>`
  pub data Trace : Type 0 where
    no_trace : Trace
    trace_clause : (start goal max_depth min_strength min_stability : MaybeExpr) → Trace

  pub data RecallWeight : Type 0 where
    semantic_similarity : (query : Expr) → MaybeExpr → RecallWeight
    recency : (decay half_life : Option Name) → MaybeExpr → RecallWeight
    importance : MaybeExpr → RecallWeight

  -- `Vec<RecallWeight>`
  pub data Weights : Type 0 where
    no_weights : Weights
    weight : RecallWeight → Weights → Weights

  -- `Option<RecallByClause>`
  pub data Recall : Type 0 where
    no_recall : Recall
    recall_by : Weights → Recall

  pub data SelectStmt : Type 0 where
    select_stmt :
        (distinct : Bool)
        → (projections : SelectItems) → (source : Option TableRef) → Joins
        → (where_clause : MaybeExpr) → (group_by : Exprs) → (having : MaybeExpr)
        → (order : OrderBys) → (limit offset : MaybeExpr) → Context
        → AsOf
        → Traverse
        → Trace
        → (return_items : SelectItems) → Recall
        → SelectStmt

pub record InsertStmt : Type 0 where
  pub table : Name
  pub columns : List Name
  pub values : List (List Expr)

pub record UpdateStmt : Type 0 where
  pub table : Name
  pub alias : Option Name
  pub assignments : List (Name × Expr)
  pub where_clause : Option Expr

pub record DeleteStmt : Type 0 where
  pub table : Name
  pub where_clause : Option Expr

pub record ColumnDef : Type 0 where
  pub name : Name
  pub ty : Name
  pub nullable : Bool

pub record CreateCollectionStmt : Type 0 where
  pub name : Name
  pub if_not_exists : Bool
  pub columns : List ColumnDef

pub record CreateIndexStmt : Type 0 where
  pub name : Name
  pub table : Name
  pub columns : List Name
  pub unique : Bool

pub record ForgetStmt : Type 0 where
  pub agent_id : Expr
  pub filter : Option Expr

-- What stands in a `Vec` of the block, and what a parser's loop pushes to.
abbrev pub exprs : List Expr → Exprs
exprs [] = no_exprs
exprs (e ∷ es) = expr e (exprs es)

abbrev pub whens : List (Expr × Expr) → Whens
whens [] = no_whens
whens ((c, r) ∷ rest) = when_then c r (whens rest)

abbrev pub items : List SelectItem → SelectItems
items [] = no_items
items (i ∷ rest) = select_item i (items rest)

abbrev pub joins : List JoinClause → Joins
joins [] = no_joins
joins (j ∷ rest) = join j (joins rest)

abbrev pub orders : List OrderByItem → OrderBys
orders [] = no_order
orders (o ∷ rest) = order_by o (orders rest)

abbrev pub weights : List RecallWeight → Weights
weights [] = no_weights
weights (w ∷ rest) = weight w (weights rest)

abbrev pub maybe : Option Expr → MaybeExpr
maybe none = no_expr
maybe (some e) = some_expr e

pub record TraceCausalityStmt : Type 0 where
  pub collection : Name
  pub start : Expr
  pub goal : Expr
  pub max_depth : MaybeExpr
  pub min_strength : MaybeExpr
  pub min_stability : MaybeExpr
  pub return_fields : List SelectItem

pub data UnderstandOption : Type 0 where
  confidence depth min_similarity : Expr → UnderstandOption
  within in_collection using_vector : Name → UnderstandOption

pub record UnderstandStmt : Type 0 where
  pub intent : Name
  pub options : List UnderstandOption

pub data CausalModelMode : Type 0 where
  standard equilibrium : CausalModelMode

pub record CausalVariable : Type 0 where
  pub name : Name
  pub ty : Name

pub record CausalEquation : Type 0 where
  pub variable : Name
  pub rhs : Expr
  pub learn_from : Option Name

pub record CreateCausalModelStmt : Type 0 where
  pub name : Name
  pub mode : CausalModelMode
  pub variables : List CausalVariable
  pub structure : List (Name × Name)
  pub equations : List CausalEquation

pub record EstimateEffectStmt : Type 0 where
  pub projections : List SelectItem
  pub model : Name
  pub set_vars : List (Name × Expr)
  pub predict : Name
  pub given : Option (List (Name × Expr))

pub data CounterfactualGiven : Type 0 where
  given_subquery : SelectStmt → CounterfactualGiven
  given_pairs : List (Name × Expr) → CounterfactualGiven

pub record CounterfactualStmt : Type 0 where
  pub projections : SelectItems
  pub model : Name
  pub given : Option CounterfactualGiven
  pub had : List (Name × Expr)
  pub predict : Name

pub record DiscoverCausalStmt : Type 0 where
  pub collection : Name
  pub algorithm : Option Name
  pub min_confidence : Option Expr
  pub store_as : Option Name
  pub variables : List Name

pub record RememberStmt : Type 0 where
  pub content : Name
  pub agent_id : Expr
  pub importance : Option Expr
  pub memory_type : Option Name

pub record RecallByStmt : Type 0 where
  pub weights : List RecallWeight
  pub agent_id : Expr
  pub limit : Option Expr

pub data Statement : Type 0 where
  select : SelectStmt → Statement
  insert : InsertStmt → Statement
  update : UpdateStmt → Statement
  delete : DeleteStmt → Statement
  create_collection : CreateCollectionStmt → Statement
  create_index : CreateIndexStmt → Statement
  create_causal_model : CreateCausalModelStmt → Statement
  understand : UnderstandStmt → Statement
  trace_causality : TraceCausalityStmt → Statement
  estimate_effect : EstimateEffectStmt → Statement
  counterfactual : CounterfactualStmt → Statement
  discover_causal : DiscoverCausalStmt → Statement
  remember : RememberStmt → Statement
  recall_by_stmt : RecallByStmt → Statement
  forget : ForgetStmt → Statement
