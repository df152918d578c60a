-- ===== src/Sql/Parser/Clauses/Items.antt =====
-- Projections, tables, joins and orders in crates/fundb-sql/src/parser.rs.
use fundb.Prelude.{
  Bool, true, false, Option, none, some, List, [], ◌∷◌, ◌++◌, ◌&&◌, if◌then◌else◌, not,
}
use fundb.Prelude.Text.{codes}
use fundb.Sql.Token.{Token}
use fundb.Sql.Ast
use fundb.Sql.Ast.{
  Name, Expr, TableRef, JoinType, JoinClause, SelectItem, MaybeExpr, OrderByItem, RecallWeight,
  AsOf, Context, Traverse, Trace, Recall,
}
use fundb.Sql.Parser.{
  Parser, ◌>>=◌, pure, peek, peek2, advance, match_token, if_eat, eat, expect, error, is, is_word,
  go_on, stop, loop, separated, expected_join_keyword,
}
use fundb.Sql.Parser.Names.{expect_ident, parse_qualified_name}
use fundb.Sql.Parser.Exprs.{Inner, parse_expr, is_ident}

-- `if self.eat(tok) { Some(p()?) } else { None }`
unfoldable pub optional : {A : Type 0} → Token → Parser A → Parser (Option A)
optional tok p = if_eat tok (p >>= λ a. pure (some a)) (pure none)

unfoldable pub optional_expr : Token → Parser Expr → Parser MaybeExpr
optional_expr tok p = if_eat tok (p >>= λ e. pure (Ast.some_expr e)) (pure Ast.no_expr)

abbrev pub is_clause_keyword : Token → Bool
is_clause_keyword Token.where_kw = true
is_clause_keyword Token.join_kw = true
is_clause_keyword Token.inner_kw = true
is_clause_keyword Token.left_kw = true
is_clause_keyword Token.right_kw = true
is_clause_keyword Token.cross_kw = true
is_clause_keyword Token.outer_kw = true
is_clause_keyword Token.order_kw = true
is_clause_keyword Token.group_kw = true
is_clause_keyword Token.having_kw = true
is_clause_keyword Token.limit_kw = true
is_clause_keyword Token.offset_kw = true
is_clause_keyword Token.within_kw = true
is_clause_keyword Token.as_of_kw = true
is_clause_keyword Token.as_kw = true
is_clause_keyword Token.traverse_kw = true
is_clause_keyword Token.trace_kw = true
is_clause_keyword Token.return_kw = true
is_clause_keyword Token.recall_kw = true
is_clause_keyword Token.eof = true
is_clause_keyword Token.semicolon = true
is_clause_keyword _ = false

-- An identifier that may be an alias without `AS`.
unfoldable pub bare_alias : Parser (Option Name)
bare_alias = peek >>= λ t.
    if is_ident t && not (is_clause_keyword t)
    then (expect_ident >>= λ a. pure (some a))
    else pure none

unfoldable pub parse_alias : Parser (Option Name)
parse_alias = if_eat Token.as_kw (expect_ident >>= λ a. pure (some a)) bare_alias

unfoldable pub parse_select_item : Inner → Parser SelectItem
parse_select_item l =
    if_eat Token.star (pure Ast.wildcard)
      (do e ← parse_expr l; alias ← parse_alias; pure (Ast.item e alias))

unfoldable pub parse_projection_list : Inner → Parser (List SelectItem)
parse_projection_list l = separated Token.comma (parse_select_item l)

abbrev pub is_of : Option Token → Bool
is_of (some t) = is_word (codes "of") t
is_of none = false

-- The alias of a named table: an `AS` before `OF` begins a clause instead.
unfoldable pub table_alias : Parser (Option Name)
table_alias = do
  t ← peek
  u ← peek2
  if is Token.as_kw t && not (is_of u)
      then (advance >>= λ _. expect_ident >>= λ a. pure (some a))
      else bare_alias

unfoldable pub parse_table_ref : Inner → Parser TableRef
parse_table_ref l =
    if_eat Token.agent_kw
      (do
        _ ← expect Token.memory_kw
        name ← expect_ident
        pure (record { name = name; alias = none; is_agent_memory = true }))
      (if_eat Token.l_paren
        (do
          _ ← l.select_inner
          _ ← expect Token.r_paren
          alias ← parse_alias
          pure (record { name = codes "<subquery>"; alias = alias; is_agent_memory = false }))
        (do
          name ← parse_qualified_name
          alias ← table_alias
          pure (record { name = name; alias = alias; is_agent_memory = false })))

abbrev pub join_type_of : Token → Option (JoinType × Bool)
join_type_of Token.inner_kw = some (Ast.inner, false)
join_type_of Token.left_kw = some (Ast.left, true)
join_type_of Token.right_kw = some (Ast.right, true)
join_type_of Token.cross_kw = some (Ast.cross, false)
join_type_of Token.outer_kw = some (Ast.full, false)
join_type_of _ = none

-- Behind the keywords of a join.
unfoldable pub after_join : Inner → JoinType → Parser JoinClause
after_join l kind_of_join = do
  table ← parse_table_ref l
  on_expr ← optional_expr Token.on_kw (parse_expr l)
  pure (Ast.join_clause kind_of_join table on_expr)

-- `OUTER` may follow `LEFT` and `RIGHT`, and `JOIN` every keyword but itself.
unfoldable pub parse_join : Inner → Parser JoinClause
parse_join l =
    match_token join_type_of
      (λ (join_type, outer). do
        _ ← if outer then eat Token.outer_kw else pure false
        _ ← eat Token.join_kw
        after_join l join_type)
      (λ t. if_eat Token.join_kw (after_join l Ast.inner) (error (expected_join_keyword t)))

unfoldable pub parse_order_by_item : Inner → Parser OrderByItem
parse_order_by_item l = do
  e ← parse_expr l
  if_eat Token.desc_kw (pure (Ast.order_by_item e false))
      (eat Token.asc_kw >>= λ _. pure (Ast.order_by_item e true))

-- A `]` behind a comma ends the list.
unfoldable pub parse_order_by_list : Inner → Parser (List OrderByItem)
parse_order_by_list l = do
  o ← parse_order_by_item l
  loop
      (λ (os : List OrderByItem).
        if_eat Token.comma
          (peek >>= λ t.
            if is Token.r_bracket t
            then pure (stop os)
            else (parse_order_by_item l >>= λ x. pure (go_on (os ++ x ∷ []))))
          (pure (stop os)))
      (o ∷ [])

unfoldable pub parse_expr_list : Inner → Parser (List Expr)
parse_expr_list l = separated Token.comma (parse_expr l)

-- The names behind the arrows.
unfoldable pub parse_chain : Name → Parser (List Name)
parse_chain start =
    loop
      (λ (names : List Name).
        if_eat Token.arrow (expect_ident >>= λ x. pure (go_on (names ++ x ∷ [])))
          (pure (stop names)))
      (start ∷ [])
