-- ===== src/Sql/Parser/Understand.antt =====
-- `TRACE CAUSALITY` as a statement and `UNDERSTAND` in crates/fundb-sql/src/parser.rs.
use fundb.Prelude.{
  ℕ, zero, suc, ◌+◌, ◌/◌, ◌%◌, ltb, true, false, Option, none, some, List, [], ◌∷◌, ◌++◌,
  if◌then◌else◌,
}
use fundb.Prelude.Text.{codes}
use fundb.Sql.Token.{Token}
use fundb.Sql.Chars.{to_ascii_lowercase}
use fundb.Sql.Ast
use fundb.Sql.Ast.{
  Name, Expr, SelectItem, MaybeExpr, TraceCausalityStmt, UnderstandOption, UnderstandStmt,
}
use fundb.Sql.Parser.{
  Parser, Message, ◌>>=◌, pure, peek, advance, match_token, if_eat, expect, error, is_word, go_on,
  stop, loop, trace_requires_from, trace_requires_to, understand_expects_string,
  expected_option_name, unknown_understand_option,
}
use fundb.Sql.Parser.Names.{expect_ident, expect_string_or_ident, string_of}
use fundb.Sql.Parser.Exprs.{Inner, parse_primary_expr, parse_expr}
use fundb.Sql.Parser.Clauses.{
  TraceKey, start_key, goal_key, trace_key, TraceParts, no_parts, set_part, parse_projection_list,
  parse_order_by_list, word_is,
}
use fundb.Sql.Parser.Causal.{eat_either}

pub data TopKey : Type 0 where
  part_key : TraceKey → TopKey
  return_key order_key : TopKey

unfoldable pub top_key : Token → Option TopKey
top_key Token.return_kw = some return_key
top_key Token.order_kw = some order_key
top_key t = elim (trace_key t) [ some key ↦ some (part_key key) | none ↦ none ]

-- An end of the trace, with a condition that may follow.
unfoldable pub parse_trace_end : Inner → Parser Expr
parse_trace_end l = do
  base ← parse_primary_expr l
  if_eat Token.where_kw (parse_expr l >>= λ cond. pure (Ast.binary_op Ast.and base cond))
      (pure base)

abbrev pub top_value : Inner → TraceKey → Parser Expr
top_value l start_key = parse_trace_end l
top_value l goal_key = parse_trace_end l
top_value l _ = parse_expr l

-- The variables of the loop, where the order is dropped.
pub record TopParts : Type 0 where
  pub parts : TraceParts
  pub return_fields : List SelectItem

unfoldable pub trace_top_part : Inner → TopParts → TopKey → Parser TopParts
trace_top_part l p (part_key key) =
    top_value l key >>= λ e. pure (record p { parts = set_part key e (p.parts) })
trace_top_part l p return_key =
    parse_projection_list l >>= λ is. pure (record p { return_fields = is })
trace_top_part l p order_key = expect Token.by_kw >>= λ _. parse_order_by_list l >>= λ _. pure p

-- `ok_or_else`
unfoldable pub required : Message → MaybeExpr → Parser Expr
required message (Ast.some_expr e) = pure e
required message Ast.no_expr = error message

unfoldable pub parse_trace_causality_top : Inner → Parser TraceCausalityStmt
parse_trace_causality_top l = do
  _ ← expect Token.trace_kw
  _ ← expect Token.causality_kw
  p ←
      loop
        (λ (p : TopParts).
          match_token top_key (λ key. trace_top_part l p key >>= λ q. pure (go_on q))
            (λ _. pure (stop p)))
        (record { parts = no_parts; return_fields = [] })
  start ← required trace_requires_from (p.parts.start)
  goal ← required trace_requires_to (p.parts.goal)
  pure (record {
    collection = [];
    start = start;
    goal = goal;
    max_depth = p.parts.max_depth;
    min_strength = p.parts.min_strength;
    min_stability = p.parts.min_stability;
    return_fields = p.return_fields;
  })

-- The decimal digits of `n`, of which `i64` has 19 at most, before those of `rest`.
unfoldable pub digits : ℕ → ℕ → List ℕ → List ℕ
digits zero n rest = rest
digits (suc fuel) n rest =
    let more = digits fuel (n / 10) ((b'0' + n % 10) ∷ rest) in
    if ltb n 10 then (b'0' + n) ∷ rest else more

-- `to_string`
abbrev pub decimal : ℕ → List ℕ
decimal n = digits 20 n []

-- The word that a token adds to a span of time.
unfoldable pub within_word : Token → Option Name
within_word (Token.ident s) = some s
within_word (Token.int_literal n) = some (decimal n)
within_word (Token.string_literal s) = some s
within_word _ = none

-- `parts.join(" ")`, of the words so far and one more.
abbrev pub joined : Option Name → Name → Option Name
joined none word = some word
joined (some words) word = some (words ++ b' ' ∷ word)

abbrev pub text_of : Option Name → Name
text_of none = []
text_of (some words) = words

unfoldable pub parse_within : Parser Name
parse_within = do
  words ←
      loop
        (λ (words : Option Name).
          match_token within_word (λ word. pure (go_on (joined words word)))
            (λ _. pure (stop words)))
        none
  pure (text_of words)

unfoldable pub option_name : Token → Option Name
option_name (Token.ident s) = some (to_ascii_lowercase s)
option_name Token.confidence_kw = some (codes "confidence")
option_name Token.min_confidence_kw = some (codes "min_confidence")
option_name _ = none

-- Behind `WITH`, where `name` is the name of the option that comes next.
unfoldable pub with_option : Inner → Token → Option Name → Parser UnderstandOption
with_option l t none = error (expected_option_name t)
with_option l t (some name) =
    if word_is (codes "confidence") name
    then (parse_expr l >>= λ e. pure (Ast.confidence e))
    else if word_is (codes "min_similarity") name
    then (advance >>= λ _. parse_expr l >>= λ e. pure (Ast.min_similarity e))
    else error (unknown_understand_option name)

pub data UnderstandKey : Type 0 where
  with_key within_key depth_key in_key using_key : UnderstandKey

unfoldable pub understand_key : Token → Option UnderstandKey
understand_key Token.with_kw = some with_key
understand_key Token.within_kw = some within_key
understand_key Token.depth_kw = some depth_key
understand_key Token.in_kw = some in_key
understand_key t = elim (is_word (codes "using") t) [ true ↦ some using_key | false ↦ none ]

unfoldable pub understand_option : Inner → UnderstandKey → Parser UnderstandOption
understand_option l with_key = peek >>= λ t. with_option l t (option_name t)
understand_option l within_key = parse_within >>= λ words. pure (Ast.within words)
understand_option l depth_key = parse_expr l >>= λ e. pure (Ast.depth e)
understand_option l in_key = do
  _ ← eat_either Token.collection_kw (codes "collection")
  name ← expect_ident
  pure (Ast.in_collection name)
understand_option l using_key = do
  _ ← eat_either Token.vector_kw (codes "vector")
  field ← expect_string_or_ident
  pure (Ast.using_vector field)

unfoldable pub parse_understand : Inner → Parser UnderstandStmt
parse_understand l = do
  _ ← expect Token.understand_kw
  intent ← match_token string_of pure (λ t. error (understand_expects_string t))
  options ←
      loop
        (λ (os : List UnderstandOption).
          match_token understand_key
            (λ key. understand_option l key >>= λ o. pure (go_on (os ++ o ∷ [])))
            (λ _. pure (stop os)))
        []
  pure (record { intent = intent; options = options })
