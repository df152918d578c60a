-- ===== src/Sql/Lexer.antt =====
-- `Lexer` of crates/fundb-sql/src/lexer.rs: `next_token` and `tokenize`.
pub mod Rest
pub mod Skips
pub mod Reads
pub mod Ends
use fundb.Prelude.{
  ℕ, zero, suc, ◌+◌, Bool, true, false, ◌&&◌, ◌||◌, Option, none, some, List, [], ◌∷◌, length, leb,
  ◌==◌, if◌then◌else◌,
}
use fundb.Sql.Token
use fundb.Sql.Token.{Token, eof, newline}
use fundb.Sql.Chars.{
  Library, Place, Span, LexMessage, unexpected_bang, unexpected_character, Outcome, done, failed,
  out_of_fuel, ◌>>=◌, fail_at, step, span_between, is_digit, starts_word, first_is,
}
use fundb.Sql.Comments.{skip_whitespace_and_comments}
use fundb.Sql.Literals.{Lexed, lex_number, lex_word, lex_string, lex_param}

-- The tokens of one character.
abbrev pub single : ℕ → Option Token
single c =
    if c == b'+'
    then some Token.plus
    else if c == b'%'
    then some Token.percent
    else if c == b'/'
    then some Token.slash
    else if c == b'*'
    then some Token.star
    else if c == b'('
    then some Token.l_paren
    else if c == b')'
    then some Token.r_paren
    else if c == b'{'
    then some Token.l_brace
    else if c == b'}'
    then some Token.r_brace
    else if c == b'['
    then some Token.l_bracket
    else if c == b']'
    then some Token.r_bracket
    else if c == b','
    then some Token.comma
    else if c == b';'
    then some Token.semicolon
    else none

-- One token if the next character is `d`, which is then taken, and another one if it is not.
abbrev pub longer :
    ℕ → Outcome Token → Outcome Token → List ℕ → Place → Outcome (Token × (List ℕ × Place))
longer d long short [] p = short >>= (λ t. done (t, ([], p)))
longer d long short (c ∷ cs) p =
    if c == d
    then long >>= (λ t. done (t, (cs, step c p)))
    else short >>= (λ t. done (t, (c ∷ cs, p)))

-- Behind a `<`: `<->` before `<=` and `<>`.
abbrev pub lex_less : List ℕ → Place → Outcome (Token × (List ℕ × Place))
lex_less [] p = done (Token.lt, ([], p))
lex_less (c ∷ cs) p =
    if c == b'-' && first_is (λ d. d == b'>') cs
    then longer b'>' (done Token.vector_dist) (done Token.lt) cs (step c p)
    else if c == b'='
    then done (Token.lt_eq, (cs, step c p))
    else if c == b'>'
    then done (Token.not_eq, (cs, step c p))
    else done (Token.lt, (c ∷ cs, p))

-- `p` is the place of `c`, and `cs` what follows it.
unfoldable pub lex_long_operator : ℕ → List ℕ → Place → Outcome (Token × (List ℕ × Place))
lex_long_operator c cs p =
    let q = step c p in
    if c == b'='
    then longer b'=' (done Token.eq) (done Token.assign) cs q
    else if c == b'!'
    then longer b'=' (done Token.not_eq) (fail_at unexpected_bang p) cs q
    else if c == b'<'
    then lex_less cs q
    else if c == b'>'
    then longer b'=' (done Token.gt_eq) (done Token.gt) cs q
    else if c == b'-'
    then longer b'>' (done Token.arrow) (done Token.minus) cs q
    else if c == b'.'
    then longer b'.' (done Token.dot_dot) (done Token.dot) cs q
    else fail_at (unexpected_character c) p

unfoldable pub lex_operator : ℕ → List ℕ → Place → Outcome (Token × (List ℕ × Place))
unfolding lex_long_operator
lex_operator c cs p = elim (single c) [
  | some t ↦ done (t, (cs, step c p))
  | none ↦ lex_long_operator c cs p
]

unfoldable pub next_token : Library → ℕ → List ℕ → Place → Outcome Lexed
unfolding lex_number lex_word lex_string lex_param lex_operator
next_token l c cs p =
    if is_digit c || c == b'.' && first_is is_digit cs
    then lex_number l (c ∷ cs) p
    else if starts_word l c
    then done (lex_word l (c ∷ cs) p)
    else if c == b'\''
    then lex_string c cs p
    else if c == b':'
    then if first_is (starts_word l) cs
      then done (lex_param l c cs p)
      else done ((Token.colon, record { line = p.line; col = p.col; len = 1 }), (cs, step c p))
    else lex_operator c cs p >>= (λ (t, rest). done ((t, span_between p rest.1), rest))

-- A newline token would be dropped.
abbrev pub keep_token : Token × Span → List (Token × Span) → List (Token × Span)
keep_token (newline, span) tokens = tokens
keep_token tok tokens = tok ∷ tokens

-- What the loop does behind skipped comments; `more` is the rest of the loop.
unfoldable pub token_then :
    Library
    → (List ℕ → Place → Outcome (List (Token × Span)))
    → List ℕ
    → Place
    → Outcome (List (Token × Span))
unfolding next_token
token_then l more [] q = done ((eof, record { line = q.line; col = q.col; len = 0 }) ∷ [])
token_then l more (c ∷ cs) q =
    next_token l c cs q
    >>= (λ (tok, (rest, r)). more rest r >>= (λ tokens. done (keep_token tok tokens)))

unfoldable pub tokenize_from : ℕ → Library → List ℕ → Place → Outcome (List (Token × Span))
unfolding token_then skip_whitespace_and_comments
tokenize_from zero l cs p = out_of_fuel
tokenize_from (suc n) l cs p =
    skip_whitespace_and_comments (suc (length cs)) cs p
    >>= (λ (ds, q). token_then l (tokenize_from n l) ds q)

unfoldable pub tokenize : Library → List ℕ → Outcome (List (Token × Span))
unfolding tokenize_from
tokenize l input =
    tokenize_from (suc (length input)) l input (record { pos = 0; line = 1; col = 1 })
