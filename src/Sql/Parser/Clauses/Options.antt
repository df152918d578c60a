-- ===== src/Sql/Parser/Clauses/Options.antt =====
-- `TRAVERSE`, `TRACE CAUSALITY`, `WITHIN CONTEXT` and `AS OF` in crates/fundb-sql/src/parser.rs.
use fundb.Prelude.{Bool, true, false, Option, none, some, List, [], ◌||◌, if◌then◌else◌}
use fundb.Prelude.Text.{codes}
use fundb.Order.{is_eq}
use fundb.Order.Bytes.{cmp_bytes}
use fundb.Sql.Token.{Token}
use fundb.Sql.Chars.{to_ascii_lowercase}
use fundb.Sql.Ast
use fundb.Sql.Ast.{
  Name, Expr, TableRef, JoinType, JoinClause, SelectItem, MaybeExpr, OrderByItem, RecallWeight,
  AsOf, Context, Traverse, Trace, Recall,
}
use fundb.Sql.Parser.{
  Parser, ◌>>=◌, pure, peek, match_token, when_word, if_eat, eat, expect, error, is, is_word, go_on,
  stop, loop, expected_time, expected_true_or_false, unknown_context_option,
}
use fundb.Sql.Parser.Names.{expect_ident}
use fundb.Sql.Parser.Exprs.{Inner, parse_primary_expr, parse_expr}
use fundb.Sql.Parser.Clauses.Items.{parse_order_by_list, parse_chain}

abbrev pub is_depth : Token → Option (Unit {0})
is_depth Token.depth_kw = some tt
is_depth t = elim (is_word (codes "depth") t) [ true ↦ some tt | false ↦ none ]

-- The bounds behind `(`.
unfoldable pub parse_depths : Inner → Parser (MaybeExpr × MaybeExpr)
parse_depths l = do
  _ ← match_token is_depth (λ _. eat Token.colon) (λ _. pure false)
  low ← parse_primary_expr l
  depths ←
      if_eat Token.dot_dot
        (parse_primary_expr l >>= λ high. pure (Ast.some_expr low, Ast.some_expr high))
        (pure (Ast.some_expr low, Ast.some_expr low))
  _ ← expect Token.r_paren
  pure depths

unfoldable pub parse_traverse_clause : Inner → Parser Traverse
parse_traverse_clause l = do
  _ ← expect Token.traverse_kw
  relation ← expect_ident
  (depth_min, depth_max) ← if_eat Token.l_paren (parse_depths l) (pure (Ast.no_expr, Ast.no_expr))
  chain ← parse_chain relation
  pure (Ast.traverse_clause relation chain depth_min depth_max none)

-- The variables of the loops over a `TRACE CAUSALITY`.
pub record TraceParts : Type 0 where
  pub start : MaybeExpr
  pub goal : MaybeExpr
  pub max_depth : MaybeExpr
  pub min_strength : MaybeExpr
  pub min_stability : MaybeExpr

pub data TraceKey : Type 0 where
  start_key goal_key max_depth_key min_strength_key min_stability_key : TraceKey

unfoldable pub trace_key : Token → Option TraceKey
trace_key Token.from_kw = some start_key
trace_key Token.max_depth_kw = some max_depth_key
trace_key Token.min_strength_kw = some min_strength_key
trace_key Token.min_stability_kw = some min_stability_key
trace_key t = elim (is_word (codes "to") t) [ true ↦ some goal_key | false ↦ none ]

abbrev pub trace_value : Inner → TraceKey → Parser Expr
trace_value l start_key = parse_primary_expr l
trace_value l goal_key = parse_primary_expr l
trace_value l _ = parse_expr l

abbrev pub set_part : TraceKey → Expr → TraceParts → TraceParts
set_part start_key e p = record p { start = Ast.some_expr e }
set_part goal_key e p = record p { goal = Ast.some_expr e }
set_part max_depth_key e p = record p { max_depth = Ast.some_expr e }
set_part min_strength_key e p = record p { min_strength = Ast.some_expr e }
set_part min_stability_key e p = record p { min_stability = Ast.some_expr e }

abbrev pub no_parts : TraceParts
no_parts = record {
  start = Ast.no_expr;
  goal = Ast.no_expr;
  max_depth = Ast.no_expr;
  min_strength = Ast.no_expr;
  min_stability = Ast.no_expr;
}

unfoldable pub parse_trace_causality_clause : Inner → Parser TraceParts
parse_trace_causality_clause l = do
  _ ← expect Token.trace_kw
  _ ← expect Token.causality_kw
  loop
      (λ (p : TraceParts).
        match_token trace_key (λ key. trace_value l key >>= λ e. pure (go_on (set_part key e p)))
          (λ _. pure (stop p)))
      no_parts

abbrev pub word_is : Name → Name → Bool
word_is word name = is_eq (cmp_bytes (to_ascii_lowercase name) word)

abbrev pub bool_of : Token → Option Bool
bool_of Token.true_kw = some true
bool_of Token.false_kw = some false
bool_of _ = none

pub record ContextParts : Type 0 where
  pub max_tokens : MaybeExpr
  pub coherence : MaybeExpr
  pub diversity : MaybeExpr
  pub include_contradictions : Option Bool
  pub priority : List OrderByItem

-- The value of one option, behind its colon.
unfoldable pub parse_context_option : Inner → Name → ContextParts → Parser ContextParts
parse_context_option l key p =
    if word_is (codes "max_tokens") key
    then (parse_expr l >>= λ e. pure (record p { max_tokens = Ast.some_expr e }))
    else if word_is (codes "coherence") key
    then (parse_expr l >>= λ e. pure (record p { coherence = Ast.some_expr e }))
    else if word_is (codes "diversity") key
    then (parse_expr l >>= λ e. pure (record p { diversity = Ast.some_expr e }))
    else if word_is (codes "include_contradictions") key
    then match_token bool_of (λ b. pure (record p { include_contradictions = some b }))
        (λ t. error (expected_true_or_false t))
    else if word_is (codes "priority") key
    then if_eat Token.l_bracket
        (parse_order_by_list l >>= λ os.
          expect Token.r_bracket >>= λ _. pure (record p { priority = os }))
        (parse_order_by_list l >>= λ os. pure (record p { priority = os }))
    else error (unknown_context_option (to_ascii_lowercase key))

abbrev pub ends_options : Token → Bool
ends_options t = is Token.r_paren t || is Token.eof t

unfoldable pub parse_context_options : Inner → Parser ContextParts
parse_context_options l =
    loop
      (λ (p : ContextParts). peek >>= λ t. if ends_options t then pure (stop p) else (do
        key ← expect_ident
        _ ← expect Token.colon
        q ← parse_context_option l key p
        _ ← eat Token.comma
        pure (go_on q)))
      (record {
        max_tokens = Ast.no_expr;
        coherence = Ast.no_expr;
        diversity = Ast.no_expr;
        include_contradictions = none;
        priority = [];
      })

unfoldable pub parse_within_context : Inner → Parser ContextParts
parse_within_context l = do
  _ ← expect Token.within_kw
  _ ← expect Token.context_kw
  _ ← expect Token.l_paren
  p ← parse_context_options l
  _ ← expect Token.r_paren
  pure p

pub data TimeKind : Type 0 where
  system valid system_word valid_word : TimeKind

unfoldable pub time_kind : Token → Option TimeKind
time_kind Token.system_time_kw = some system
time_kind Token.valid_time_kw = some valid
time_kind t =
    if is_word (codes "system") t
    then some system_word
    else if is_word (codes "valid") t
    then some valid_word
    else none

unfoldable pub parse_valid_time : Inner → Parser AsOf
parse_valid_time l =
    if_eat Token.between_kw
      (do
        low ← parse_primary_expr l
        _ ← expect Token.and_kw
        high ← parse_primary_expr l
        pure (Ast.valid_time_between low high))
      (parse_primary_expr l >>= λ e. pure (Ast.valid_time_at e))

unfoldable pub parse_system_time : Inner → Parser AsOf
parse_system_time l = parse_primary_expr l >>= λ e. pure (Ast.system_time e)

abbrev pub after_time_kind : Inner → TimeKind → Parser AsOf
after_time_kind l system = parse_system_time l
after_time_kind l valid = parse_valid_time l
after_time_kind l system_word =
    match_token (when_word (codes "time")) (λ _. parse_system_time l) (λ _. parse_system_time l)
after_time_kind l valid_word =
    match_token (when_word (codes "time")) (λ _. parse_valid_time l) (λ _. parse_valid_time l)

unfoldable pub parse_as_of_body : Inner → Parser AsOf
parse_as_of_body l = match_token time_kind (after_time_kind l) (λ t. error (expected_time t))
