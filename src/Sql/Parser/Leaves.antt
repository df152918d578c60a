-- ===== src/Sql/Parser/Leaves.antt =====
-- What parse_primary_expr of crates/fundb-sql/src/parser.rs reads of a literal, a parameter, a column
-- and a qualified column.
use fundb.Prelude.{◌≡◌, refl, true, false}
use fundb.Sql.Token.{Token}
use fundb.Sql.Chars.{Span}
use fundb.Sql.Ast
use fundb.Sql.Ast.{Name, Expr, BinaryOp, Literal}
use fundb.Sql.Parser.{Stream, done, pure, kind, is, first, match_token}
use fundb.Sql.Parser.Names.{keyword_as_ident, expect_ident}
use fundb.Sql.Parser.Exprs.{
  Inner, primary_of, after_primary, after_word, after_dot, parse_primary_expr, word,
}
use fundb.Sql.Parser.Printed.{leaf_token, put}
use fundb.Sql.Parser.Steps.{bind-done, match-some, if_eat-not, if_eat-yes}

-- A token that does not go on with an identifier.
abbrev pub IsCalm : Token → Type 0
IsCalm t = (is Token.l_paren t ≡ false) × (is Token.dot t ≡ false)

pub leaf-read :
    (x : Span) (l : Inner) (a : Literal) (s : Stream)
    → parse_primary_expr l (put x (leaf_token a) s) ≡ done (Ast.literal a) s
unfolding parse_primary_expr primary_of after_primary match_token pure
leaf-read x l (Ast.int n) s = refl
leaf-read x l (Ast.float n) s = refl
leaf-read x l (Ast.string n) s = refl
leaf-read x l (Ast.bool true) s = refl
leaf-read x l (Ast.bool false) s = refl
leaf-read x l Ast.null s = refl

pub param-read :
    (x : Span) (l : Inner) (name : Name) (s : Stream)
    → parse_primary_expr l (put x (Token.param name) s) ≡ done (Ast.param name) s
unfolding parse_primary_expr primary_of after_primary match_token pure
param-read x l name s = refl

pub column-read :
    (x : Span) (l : Inner) (name : Name) (s : Stream)
    → IsCalm (first s)
    → parse_primary_expr l (put x (Token.ident name) s) ≡ done (Ast.ident name) s
unfolding parse_primary_expr primary_of keyword_as_ident after_primary after_word pure
column-read x l name s c =
    match-some primary_of _ _ (word name) (put x (Token.ident name) s) (done (Ast.ident name) s)
      refl
      (if_eat-not Token.l_paren _ _ s (done (Ast.ident name) s) (c.0)
        (if_eat-not Token.dot _ _ s (done (Ast.ident name) s) (c.1) refl))

pub qualified-read :
    (x : Span) (l : Inner) (table field : Name) (s : Stream)
    → IsCalm (first s)
    → parse_primary_expr l
        (put x (Token.ident table) (put x Token.dot (put x (Token.ident field) s)))
      ≡ done (Ast.qualified table field) s
unfolding parse_primary_expr primary_of keyword_as_ident after_primary after_word after_dot kind
    pure expect_ident
qualified-read x l table field s c =
    let whole = Ast.qualified table field in
    let named = put x (Token.ident field) s in
    let dotted = put x Token.dot named in
    match-some primary_of _ _ (word table) (put x (Token.ident table) dotted) (done whole s) refl (
      if_eat-not Token.l_paren _ _ dotted (done whole s) refl (
        if_eat-yes Token.dot _ _ dotted (done whole s) refl (
          if_eat-not Token.star _ _ named (done whole s) refl (
            if_eat-not Token.vector_kw _ _ named (done whole s) refl (
              bind-done _ _ field named s (done whole s)
                (match-some keyword_as_ident _ _ field named (done field s) refl refl)
                (if_eat-not Token.l_paren _ _ s (done whole s) (c.0) refl))))))
