-- ===== src/Sql/Parser/Create.antt =====
-- `CREATE` of tables, indexes and causal models in crates/fundb-sql/src/parser.rs.
use fundb.Prelude.{Bool, true, false, Option, none, some, List, [], ◌∷◌, ◌++◌, ◌||◌, if◌then◌else◌}
use fundb.Prelude.Text.{codes}
use fundb.Sql.Token.{Token}
use fundb.Sql.Ast
use fundb.Sql.Ast.{
  Name, Expr, InsertStmt, UpdateStmt, DeleteStmt, ColumnDef, CreateCollectionStmt, CreateIndexStmt,
  ForgetStmt, RememberStmt, RecallByStmt, RecallWeight, CausalVariable, CausalEquation,
  CausalModelMode, CreateCausalModelStmt, Statement,
}
use fundb.Sql.Parser.{
  Parser, ◌>>=◌, pure, peek, match_token, when_word, if_eat, eat, eat_word, expect, error, is_word,
  go_on, stop, loop, unexpected_create_target,
}
use fundb.Sql.Parser.Names.{expect_ident}
use fundb.Sql.Parser.Exprs.{Inner, parse_primary_expr}
use fundb.Sql.Parser.Clauses.{ends_options}
use fundb.Sql.Parser.Statements.{listed}

unfoldable pub parse_column : Parser ColumnDef
parse_column = do
  name ← expect_ident
  ty ← expect_ident
  nullable ← if_eat Token.not_kw (expect Token.null_kw >>= λ _. pure false) (pure true)
  pure (record { name = name; ty = ty; nullable = nullable })

-- A comma between two columns is optional.
unfoldable pub parse_columns : Parser (List ColumnDef)
parse_columns =
    loop
      (λ (cs : List ColumnDef). peek >>= λ t.
        if ends_options t
        then pure (stop cs)
        else (parse_column >>= λ c. eat Token.comma >>= λ _. pure (go_on (cs ++ c ∷ []))))
      []

unfoldable pub parse_create_table_body : Parser CreateCollectionStmt
parse_create_table_body = do
  name ← expect_ident
  columns ←
      if_eat Token.l_paren (parse_columns >>= λ cs. expect Token.r_paren >>= λ _. pure cs) (pure [])
  pure (record { name = name; if_not_exists = false; columns = columns })

unfoldable pub parse_create_index_body : Parser CreateIndexStmt
parse_create_index_body = do
  name ← expect_ident
  _ ← expect Token.on_kw
  table ← expect_ident
  _ ← expect Token.l_paren
  cols ← listed expect_ident
  pure (record { name = name; table = table; columns = cols; unique = false })

pub data Section : Type 0 where
  variables structure equations : Section

-- `none` for a token that ends the sections, and `some none` for one that is skipped.
unfoldable pub section_of : Token → Option (Option Section)
section_of Token.r_paren = none
section_of Token.eof = none
section_of Token.variables_kw = some (some variables)
section_of Token.structure_kw = some (some structure)
section_of Token.equations_kw = some (some equations)
section_of t = some (
    if is_word (codes "variables") t
    then some variables
    else if is_word (codes "structure") t
    then some structure
    else if is_word (codes "equations") t
    then some equations
    else none)

unfoldable pub is_next_section_or_end : Token → Bool
is_next_section_or_end Token.variables_kw = true
is_next_section_or_end Token.structure_kw = true
is_next_section_or_end Token.equations_kw = true
is_next_section_or_end Token.r_paren = true
is_next_section_or_end Token.eof = true
is_next_section_or_end t =
    is_word (codes "variables") t
    || (is_word (codes "structure") t || is_word (codes "equations") t)

-- Entries up to the next section, with or without commas between them.
unfoldable pub entries : {A : Type 0} → Parser A → List A → Parser (List A)
entries {A} p = loop (λ (xs : List A). peek >>= λ t.
    if is_next_section_or_end t
    then pure (stop xs)
    else (p >>= λ x. eat Token.comma >>= λ _. pure (go_on (xs ++ x ∷ []))))

unfoldable pub parse_variable : Parser CausalVariable
parse_variable =
    expect_ident >>= λ name. expect_ident >>= λ ty. pure (record { name = name; ty = ty })

unfoldable pub parse_edge : Parser (Name × Name)
parse_edge = do
  start ← expect_ident
  _ ← expect Token.arrow
  goal ← expect_ident
  pure (start, goal)

abbrev pub from_or_word : Token → Option (Unit {0})
from_or_word Token.from_kw = some tt
from_or_word t = elim (is_word (codes "from") t) [ true ↦ some tt | false ↦ none ]

unfoldable pub parse_equation : Inner → Parser CausalEquation
parse_equation l = do
  name ← expect_ident
  _ ← eat Token.assign
  _ ← eat Token.eq
  rhs ← parse_primary_expr l
  learn_from ←
      match_token (when_word (codes "learn"))
        (λ _. do
          _ ← match_token from_or_word (λ _. pure true) (λ _. pure false)
          source ← expect_ident
          pure (some source))
        (λ _. pure none)
  pure (record { variable = name; rhs = rhs; learn_from = learn_from })

-- The variables of the loop over the sections of a causal model.
pub record ModelParts : Type 0 where
  pub variables : List CausalVariable
  pub structure : List (Name × Name)
  pub equations : List CausalEquation

unfoldable pub parse_section : Inner → ModelParts → Option Section → Parser ModelParts
parse_section l p none = pure p
parse_section l p (some variables) = do
  _ ← eat Token.colon
  vs ← entries parse_variable (p.variables)
  pure (record p { variables = vs })
parse_section l p (some structure) = do
  _ ← eat Token.colon
  es ← entries parse_edge (p.structure)
  pure (record p { structure = es })
parse_section l p (some equations) = do
  _ ← eat Token.colon
  es ← entries (parse_equation l) (p.equations)
  pure (record p { equations = es })

unfoldable pub parse_sections : Inner → Parser ModelParts
parse_sections l =
    loop
      (λ (p : ModelParts).
        match_token section_of (λ section. parse_section l p section >>= λ q. pure (go_on q))
          (λ _. pure (stop p)))
      (record { variables = []; structure = []; equations = [] })

unfoldable pub parse_create_causal_model_body : Inner → Parser CreateCausalModelStmt
parse_create_causal_model_body l = do
  name ← expect_ident
  mode ← if_eat Token.mode_equilibrium_kw (pure Ast.equilibrium) (pure Ast.standard)
  _ ← eat Token.as_kw
  _ ← expect Token.l_paren
  p ← parse_sections l
  _ ← expect Token.r_paren
  pure (record {
    name = name;
    mode = mode;
    variables = p.variables;
    structure = p.structure;
    equations = p.equations;
  })

pub data CreateTarget : Type 0 where
  a_table an_index a_model : CreateTarget

unfoldable pub create_target : Token → Option CreateTarget
create_target Token.table_kw = some a_table
create_target Token.collection_kw = some a_table
create_target Token.index_kw = some an_index
create_target t = elim (is_word (codes "causal") t) [ true ↦ some a_model | false ↦ none ]

unfoldable pub after_create : Inner → CreateTarget → Parser Statement
after_create l a_table = parse_create_table_body >>= λ s. pure (Ast.create_collection s)
after_create l an_index = parse_create_index_body >>= λ s. pure (Ast.create_index s)
after_create l a_model = eat_word (codes "model") >>= λ _.
    parse_create_causal_model_body l >>= λ s. pure (Ast.create_causal_model s)

unfoldable pub parse_create : Inner → Parser Statement
parse_create l = do
  _ ← expect Token.create_kw
  match_token create_target (after_create l) (λ t. error (unexpected_create_target t))
