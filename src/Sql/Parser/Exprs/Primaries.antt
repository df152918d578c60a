-- ===== src/Sql/Parser/Exprs/Primaries.antt =====
-- Primary expressions of crates/fundb-sql/src/parser.rs.
use fundb.Prelude.{Bool, true, false, Option, none, some, List, [], ◌∷◌, ◌++◌, ◌&&◌, if◌then◌else◌}
use fundb.Prelude.Text.{codes}
use fundb.Sql.Token.{Token}
use fundb.Sql.Ast
use fundb.Sql.Ast.{Name, Expr, BinaryOp, Literal, SelectStmt, MaybeExpr, exprs, whens}
use fundb.Sql.Parser.{
  Parser, ◌>>=◌, pure, peek, peek2, match_token, if_eat, expect, error, is, go_on, stop, loop,
  unexpected_in_expression,
}
use fundb.Sql.Parser.Names.{keyword_as_ident, expect_ident, expect_string_or_ident}

-- The parsers that the parser of one level of nesting calls for the levels inside it.
pub record Inner : Type 0 where
  pub expr : Parser Expr
  pub not_expr : Parser Expr
  pub primary : Parser Expr
  pub select_inner : Parser SelectStmt

-- What the first token of a primary expression announces.
pub data Primary : Type 0 where
  of_literal : Literal → Primary
  of_param word : Name → Primary
  a_star a_vector a_group an_array exists an_interval : Primary

unfoldable pub primary_of : Token → Option Primary
primary_of (Token.int_literal n) = some (of_literal (Ast.int n))
primary_of (Token.float_literal f) = some (of_literal (Ast.float f))
primary_of (Token.string_literal s) = some (of_literal (Ast.string s))
primary_of Token.true_kw = some (of_literal (Ast.bool true))
primary_of Token.false_kw = some (of_literal (Ast.bool false))
primary_of Token.null_kw = some (of_literal Ast.null)
primary_of (Token.param name) = some (of_param name)
primary_of Token.star = some a_star
primary_of Token.vector_kw = some a_vector
primary_of Token.l_paren = some a_group
primary_of Token.l_bracket = some an_array
primary_of Token.exists_kw = some exists
primary_of Token.interval_kw = some an_interval
primary_of t = elim (keyword_as_ident t) [ some name ↦ some (word name) | none ↦ none ]

abbrev pub string_call : Name → Name → Expr
string_call function s = Ast.function_call function (exprs (Ast.literal (Ast.string s) ∷ []))

abbrev pub is_ident : Token → Bool
is_ident (Token.ident _) = true
is_ident _ = false

abbrev pub is_colon : Option Token → Bool
is_colon (some t) = is Token.colon t
is_colon none = false

-- The elements behind the first one, up to `close`, which may follow a comma.
unfoldable pub more_elements : Token → Parser Expr → List Expr → Parser (List Expr)
more_elements close element = loop (λ (es : List Expr).
    if_eat Token.comma
      (peek >>= λ t.
        if is close t then pure (stop es) else (element >>= λ e. pure (go_on (es ++ e ∷ []))))
      (pure (stop es)))

-- The arguments of a call behind its `(`, up to and with its `)`.
unfoldable pub arguments : Inner → Parser Expr → Parser (List Expr)
arguments l argument = do
  t ← peek
  args ←
      if is Token.r_paren t
      then pure []
      else (l.expr >>= λ e. more_elements Token.r_paren argument (e ∷ []))
  _ ← expect Token.r_paren
  pure args

-- An argument that may have a key, which is dropped.
unfoldable pub named_argument : Inner → Parser Expr
named_argument l = do
  t ← peek
  u ← peek2
  if is_ident t && is_colon u
      then (expect_ident >>= λ key. expect Token.colon >>= λ _. l.expr)
      else l.expr

-- Behind `_vector`.
unfoldable pub after_vector : Inner → Parser Expr
after_vector l =
    if_eat Token.vector_dist
      (l.primary >>= λ value. pure (Ast.vector_dist (codes "_default") value))
      (do
        _ ← expect Token.l_paren
        field ← expect_string_or_ident
        _ ← expect Token.r_paren
        if_eat Token.vector_dist (l.primary >>= λ value. pure (Ast.vector_dist field value))
            (pure (string_call (codes "_vector") field)))

-- Behind `name.`
unfoldable pub after_dot : Inner → Name → Parser Expr
after_dot l name = if_eat Token.star (pure (Ast.qualified name (codes "*"))) (
    if_eat Token.vector_kw (after_vector l) (do
      field ← expect_ident
      if_eat Token.l_paren
          (arguments l (l.expr) >>= λ args.
            pure (Ast.function_call (name ++ b'.' ∷ field) (exprs args)))
          (pure (Ast.qualified name field))))

-- Behind an identifier.
unfoldable pub after_word : Inner → Name → Parser Expr
after_word l name =
    if_eat Token.l_paren
      (arguments l (named_argument l) >>= λ args. pure (Ast.function_call name (exprs args)))
      (if_eat Token.dot (after_dot l name) (pure (Ast.ident name)))

-- Behind `(`.
unfoldable pub after_paren : Inner → Parser Expr
after_paren l = do
  t ← peek
  if is Token.select_kw t
      then (l.select_inner >>= λ sub. expect Token.r_paren >>= λ _. pure (Ast.subquery sub))
      else (l.expr >>= λ e. expect Token.r_paren >>= λ _. pure e)

-- Behind `[`.
unfoldable pub after_bracket : Inner → Parser Expr
after_bracket l = if_eat Token.r_bracket (pure (Ast.array Ast.no_exprs)) (do
  e ← l.expr
  es ← more_elements Token.r_bracket (l.expr) (e ∷ [])
  _ ← expect Token.r_bracket
  pure (Ast.array (exprs es)))

abbrev pub interval_of : Token → Option Name
interval_of (Token.string_literal s) = some s
interval_of _ = none

unfoldable pub after_primary : Inner → Primary → Parser Expr
after_primary l (of_literal a) = pure (Ast.literal a)
after_primary l (of_param name) = pure (Ast.param name)
after_primary l a_star = pure Ast.star
after_primary l a_vector = after_vector l
after_primary l a_group = after_paren l
after_primary l an_array = after_bracket l
after_primary l exists = do
  _ ← expect Token.l_paren
  sub ← l.select_inner
  _ ← expect Token.r_paren
  pure (Ast.subquery sub)
after_primary l an_interval =
    match_token interval_of (λ s. pure (string_call (codes "interval") s))
      (λ _. pure (Ast.ident (codes "interval")))
after_primary l (word name) = after_word l name

-- One `WHEN … THEN …` after another.
unfoldable pub when_clauses : Inner → Parser (List (Expr × Expr))
when_clauses l =
    loop
      (λ (ws : List (Expr × Expr)).
        if_eat Token.when_kw
          (do
            cond ← l.expr
            _ ← expect Token.then_kw
            result ← l.expr
            pure (go_on (ws ++ (cond, result) ∷ [])))
          (pure (stop ws)))
      []

-- Behind `CASE`.
unfoldable pub after_case : Inner → Parser Expr
after_case l = do
  t ← peek
  operand ←
      if is Token.when_kw t then pure Ast.no_expr else (l.expr >>= λ e. pure (Ast.some_expr e))
  ws ← when_clauses l
  else_clause ← if_eat Token.else_kw (l.expr >>= λ e. pure (Ast.some_expr e)) (pure Ast.no_expr)
  _ ← expect Token.end_kw
  pure (Ast.case_expr operand (whens ws) else_clause)

unfoldable pub parse_primary_expr : Inner → Parser Expr
parse_primary_expr l =
    match_token primary_of (after_primary l)
      (λ t. if_eat Token.case_kw (after_case l) (error (unexpected_in_expression t)))
