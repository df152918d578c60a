-- ===== src/Sql/Parser/Statements.antt =====
-- Statements on data and memories in crates/fundb-sql/src/parser.rs.
use fundb.Prelude.{Bool, true, false, Option, none, some, List, [], ◌∷◌, if◌then◌else◌}
use fundb.Prelude.Text.{codes}
use fundb.Sql.Token.{Token}
use fundb.Sql.Chars.{to_ascii_lowercase}
use fundb.Sql.Ast
use fundb.Sql.Ast.{
  Name, Expr, InsertStmt, UpdateStmt, DeleteStmt, ColumnDef, CreateCollectionStmt, CreateIndexStmt,
  ForgetStmt, RememberStmt, RecallByStmt, RecallWeight, CausalVariable, CausalEquation,
  CausalModelMode, CreateCausalModelStmt, Statement,
}
use fundb.Sql.Parser.{
  Parser, Message, ◌>>=◌, pure, peek, match_token, if_eat, eat, expect, error, go_on, stop, loop,
  separated, expected_agent_after_forget, expected_agent_after_remember,
  expected_agent_after_recall, remember_expects_string, unknown_remember_option,
}
use fundb.Sql.Parser.Names.{expect_ident, string_of, parse_qualified_name}
use fundb.Sql.Parser.Exprs.{Inner, parse_primary_expr, parse_expr}
use fundb.Sql.Parser.Clauses.{optional, word_is, parse_order_by_list}
use fundb.Sql.Parser.Weights.{parse_recall_weights}

-- `FOR AGENT` or `WITHIN CONTEXT`
unfoldable pub parse_agent : Inner → Message → Parser Expr
parse_agent l message =
    if_eat Token.for_kw (expect Token.agent_kw >>= λ _. parse_primary_expr l) (
      if_eat Token.within_kw (expect Token.context_kw >>= λ _. parse_primary_expr l)
        (error message))

unfoldable pub parse_forget : Inner → Parser ForgetStmt
parse_forget l = do
  _ ← expect Token.forget_kw
  agent_id ← parse_agent l expected_agent_after_forget
  filter ← optional Token.where_kw (parse_expr l)
  pure (record { agent_id = agent_id; filter = filter })

-- `( … , … )` behind its `(`.
unfoldable pub listed : {A : Type 0} → Parser A → Parser (List A)
listed p = do xs ← separated Token.comma p; _ ← expect Token.r_paren; pure xs

unfoldable pub parse_row : Inner → Parser (List Expr)
parse_row l = expect Token.l_paren >>= λ _. listed (parse_expr l)

unfoldable pub parse_insert : Inner → Parser InsertStmt
parse_insert l = do
  _ ← expect Token.insert_kw
  _ ← expect Token.into_kw
  table ← parse_qualified_name
  columns ← if_eat Token.l_paren (listed expect_ident) (pure [])
  _ ← expect Token.values_kw
  values ← separated Token.comma (parse_row l)
  pure (record { table = table; columns = columns; values = values })

unfoldable pub parse_assignment : Inner → Parser (Name × Expr)
parse_assignment l = do
  name ← expect_ident
  _ ← if_eat Token.assign (pure true) (eat Token.eq)
  val ← parse_expr l
  pure (name, val)

unfoldable pub parse_assignment_list : Inner → Parser (List (Name × Expr))
parse_assignment_list l = separated Token.comma (parse_assignment l)

unfoldable pub parse_update : Inner → Parser UpdateStmt
parse_update l = do
  _ ← expect Token.update_kw
  table ← parse_qualified_name
  alias ← optional Token.as_kw expect_ident
  _ ← expect Token.set_kw
  assignments ← parse_assignment_list l
  where_clause ← optional Token.where_kw (parse_expr l)
  pure (record {
    table = table;
    alias = alias;
    assignments = assignments;
    where_clause = where_clause;
  })

unfoldable pub parse_delete : Inner → Parser DeleteStmt
parse_delete l = do
  _ ← expect Token.delete_kw
  _ ← expect Token.from_kw
  table ← parse_qualified_name
  where_clause ← optional Token.where_kw (parse_expr l)
  pure (record { table = table; where_clause = where_clause })

pub data RememberKey : Type 0 where
  with_key importance_key as_key : RememberKey

abbrev pub remember_key : Token → Option RememberKey
remember_key Token.with_kw = some with_key
remember_key Token.importance_kw = some importance_key
remember_key Token.as_kw = some as_key
remember_key _ = none

-- The variables of the loop over the options of `REMEMBER`.
pub record RememberParts : Type 0 where
  pub importance : Option Expr
  pub memory_type : Option Name

unfoldable pub remember_option : Inner → RememberParts → RememberKey → Parser RememberParts
remember_option l p with_key = do
  key ← expect_ident
  if word_is (codes "importance") key
      then (parse_primary_expr l >>= λ e. pure (record p { importance = some e }))
      else if word_is (codes "_confidence") key
      then (eat Token.assign >>= λ _. eat Token.eq >>= λ _.
          parse_primary_expr l >>= λ e. pure (record p { importance = some e }))
      else error (unknown_remember_option (to_ascii_lowercase key))
remember_option l p importance_key =
    parse_primary_expr l >>= λ e. pure (record p { importance = some e })
remember_option l p as_key = expect_ident >>= λ ty. pure (record p { memory_type = some ty })

unfoldable pub parse_remember : Inner → Parser RememberStmt
parse_remember l = do
  _ ← expect Token.remember_kw
  content ← match_token string_of pure (λ t. error (remember_expects_string t))
  agent_id ← parse_agent l expected_agent_after_remember
  p ←
      loop
        (λ (p : RememberParts).
          match_token remember_key (λ key. remember_option l p key >>= λ q. pure (go_on q))
            (λ _. pure (stop p)))
        (record { importance = none; memory_type = none })
  pure (record {
    content = content;
    agent_id = agent_id;
    importance = p.importance;
    memory_type = p.memory_type;
  })

-- The clauses behind a `RECALL BY`, of which the limit alone is kept.
pub data RecallKey : Type 0 where
  where_key order_key limit_key : RecallKey

abbrev pub recall_key : Token → Option RecallKey
recall_key Token.where_kw = some where_key
recall_key Token.order_kw = some order_key
recall_key Token.limit_kw = some limit_key
recall_key _ = none

unfoldable pub recall_clause : Inner → Option Expr → RecallKey → Parser (Option Expr)
recall_clause l limit where_key = parse_expr l >>= λ _. pure limit
recall_clause l limit order_key =
    expect Token.by_kw >>= λ _. parse_order_by_list l >>= λ _. pure limit
recall_clause l limit limit_key = parse_expr l >>= λ e. pure (some e)

abbrev pub is_string : Token → Bool
is_string (Token.string_literal _) = true
is_string _ = false

unfoldable pub parse_recall_by : Inner → Parser RecallByStmt
parse_recall_by l = do
  _ ← expect Token.recall_kw
  _ ← expect Token.by_kw
  t ← peek
  ws ←
      if is_string t
      then (parse_primary_expr l >>= λ query. pure (Ast.semantic_similarity query Ast.no_expr ∷ []))
      else parse_recall_weights l
  agent_id ← parse_agent l expected_agent_after_recall
  limit ←
      loop
        (λ (limit : Option Expr).
          match_token recall_key (λ key. recall_clause l limit key >>= λ b. pure (go_on b))
            (λ _. pure (stop limit)))
        none
  pure (record { weights = ws; agent_id = agent_id; limit = limit })
