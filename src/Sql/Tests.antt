-- ===== src/Sql/Tests.antt =====
-- The lexer at concrete texts, where every character is ASCII unless a test says otherwise.
use fundb.Prelude.{arith, ◌≡◌, refl, false, some, List, [], ◌∷◌, map}
use fundb.Prelude.Text.{codes}
use fundb.Order.Bytes.{cmp_bytes}
use fundb.Sql.Token
use fundb.Sql.Token.{Token}
use fundb.Sql.Chars.{Library, Outcome, done, panicked, Span, is_blank}
use fundb.Sql.Lexer.{tokenize}
use fundb.Sql.Lexer.Ends.{tokenize_panics}

-- No letters but those of ASCII, and a float is the number of its characters.
abbrev library : Library
library = record { is_alphabetic = λ c. false; is_numeric = λ c. false; parse_f64 = λ raw. some 5 }

abbrev kinds : Outcome (List (Token × Span)) → List Token
kinds (done tokens) = map (λ t. t.0) tokens
kinds _ = []

select_tokens :
    kinds (
      tokenize library
        (codes "SELECT * FROM x1 -- all\n WHERE a <-> :q <= 4.5 .. /* b **/ 'it''s'->7;"))
    ≡ Token.select_kw
      ∷ Token.star
      ∷ Token.from_kw
      ∷ Token.ident (codes "x1")
      ∷ Token.where_kw
      ∷ Token.ident (codes "a")
      ∷ Token.vector_dist
      ∷ Token.param (codes "q")
      ∷ Token.lt_eq
      ∷ Token.float_literal 5
      ∷ Token.dot_dot
      ∷ Token.string_literal (codes "it's")
      ∷ Token.arrow
      ∷ Token.int_literal 7
      ∷ Token.semicolon
      ∷ Token.eof
      ∷ []
unfolding tokenize Token.keyword Token.find_keyword cmp_bytes
select_tokens = refl

-- The literal 'é'.
tokenize_panics_example : tokenize library (b'\'' ∷ (0xe9 ∷ (b'\'' ∷ []))) ≡ panicked
unfolding is_blank
tokenize_panics_example =
    tokenize_panics library b'\'' 0xe9 (b'\'' ∷ []) refl (omega arith) (omega arith)
