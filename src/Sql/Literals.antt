-- ===== src/Sql/Literals.antt =====
-- `lex_number`, `lex_word`, `lex_string` and `lex_param` of crates/fundb-sql/src/lexer.rs.
use fundb.Prelude.{
  ℕ, ◌+◌, ◌-◌, ◌*◌, ◌^◌, Bool, true, false, not, ◌&&◌, ◌||◌, Option, none, some, List, [], ◌∷◌, ltb,
  ◌==◌, if◌then◌else◌,
}
use fundb.Sql.Token.{Token, keyword}
use fundb.Sql.Chars.{
  Library, Place, Span, unterminated_string, invalid_float, invalid_int, Outcome, done, ◌>>=◌,
  fail_at, step, span_between, is_digit, to_ascii_lowercase, continues_word, first_is,
}

-- A token, its span, and what is left.
abbrev pub Lexed : Type 0
Lexed = (Token × Span) × (List ℕ × Place)

-- The characters that a loop takes, and what is left.
abbrev pub Taken : Type 0
Taken = List ℕ × (List ℕ × Place)

abbrev pub taking : ℕ → Taken → Taken
taking c (raw, rest) = (c ∷ raw, rest)

-- The digits, with a dot if there was none. A dot before another one is not taken.
unfoldable pub take_number : Bool → List ℕ → Place → Taken
unfolding step
take_number has_dot [] p = ([], ([], p))
take_number has_dot (c ∷ cs) p =
    let more = taking c (take_number (has_dot || c == b'.') cs (step c p)) in
    if is_digit c || c == b'.' && (not has_dot && not (first_is (λ d. d == b'.') cs))
    then more
    else ([], (c ∷ cs, p))

abbrev pub has_dot : List ℕ → Bool
has_dot [] = false
has_dot (c ∷ cs) = if c == b'.' then true else has_dot cs

unfoldable pub digits_value : ℕ → List ℕ → ℕ
digits_value n [] = n
digits_value n (c ∷ cs) = digits_value (10 * n + (c - b'0')) cs

-- `str::parse::<i64>` on digits.
unfoldable pub parse_i64 : List ℕ → Option ℕ
unfolding digits_value
parse_i64 raw = if ltb (digits_value 0 raw) (2 ^ 63) then some (digits_value 0 raw) else none

unfoldable pub number_token : Library → List ℕ → Place → Outcome Token
unfolding parse_i64
number_token l raw p =
    if has_dot raw
    then elim (l.parse_f64 raw) [
      | none ↦ fail_at (invalid_float raw) p
      | some v ↦ done (Token.float_literal v)
    ]
    else elim (parse_i64 raw) [
      | none ↦ fail_at (invalid_int raw) p
      | some v ↦ done (Token.int_literal v)
    ]

-- The leading dot is taken before the loop.
unfoldable pub take_digits : List ℕ → Place → Taken
unfolding take_number
take_digits [] p = ([], ([], p))
take_digits (c ∷ cs) p =
    if c == b'.' then taking c (take_number true cs (step c p)) else take_number false (c ∷ cs) p

unfoldable pub lex_number : Library → List ℕ → Place → Outcome Lexed
unfolding take_digits number_token
lex_number l cs p =
    let (raw, rest) = take_digits cs p in
    number_token l raw p >>= (λ tok. done ((tok, span_between p rest.1), rest))

-- While alphanumeric, or `_`.
unfoldable pub take_word : Library → List ℕ → Place → Taken
unfolding continues_word step
take_word l [] p = ([], ([], p))
take_word l (c ∷ cs) p =
    let more = taking c (take_word l cs (step c p)) in
    if continues_word l c then more else ([], (c ∷ cs, p))

unfoldable pub word_token : List ℕ → Token
unfolding to_ascii_lowercase
word_token raw = elim (keyword (to_ascii_lowercase raw)) [ some kw ↦ kw | none ↦ Token.ident raw ]

unfoldable pub lex_word : Library → List ℕ → Place → Lexed
unfolding take_word word_token
lex_word l cs p =
    let (raw, rest) = take_word l cs p in ((word_token raw, span_between p rest.1), rest)

-- Behind the opening quote; `none` if the text ends first. The flag says that a quote was just
-- read: a second one makes it a character of the literal, anything else is left behind it.
unfoldable pub take_string : Bool → List ℕ → Place → Option Taken
unfolding step
take_string false [] p = none
take_string true [] p = some ([], ([], p))
take_string quoted (c ∷ cs) p =
    let more = take_string (not quoted && c == b'\'') cs (step c p) in
    if c == b'\'' && not quoted
    then more
    else if quoted && not (c == b'\'')
    then some ([], (c ∷ cs, p))
    else elim more [ none ↦ none | some t ↦ some (taking c t) ]

-- `c` is the opening quote.
unfoldable pub lex_string : ℕ → List ℕ → Place → Outcome Lexed
unfolding take_string
lex_string c cs p = elim (take_string false cs (step c p)) [
  | none ↦ fail_at unterminated_string p
  | some (s, rest) ↦ done ((Token.string_literal s, span_between p rest.1), rest)
]

-- `c` is the colon.
unfoldable pub lex_param : Library → ℕ → List ℕ → Place → Lexed
unfolding take_word
lex_param l c cs p =
    let (name, rest) = take_word l cs (step c p) in
    ((Token.param name, span_between p rest.1), rest)
