-- ===== src/Sql/Parser.antt =====
-- The parser of crates/fundb-sql/src/parser.rs over the tokens behind its position. The lexer's
-- tokens end in `Eof`, which `advance` never passes; so there is always a first token.
use fundb.Prelude.{
  ℕ, zero, suc, ◌+◌, Bool, true, false, ◌&&◌, ◌||◌, Option, none, some, List, [], ◌∷◌, ◌++◌, ◌==◌,
  length, if◌then◌else◌,
}
mod Kind
pub mod Names
pub mod Exprs
pub mod Clauses
pub mod Weights
pub mod Select
pub mod Statements
pub mod Create
pub mod Causal
pub mod Understand
pub mod Top
pub mod Takes
pub mod Primaries
pub mod Levels
pub mod ClauseTakes
pub mod SelectTakes
pub mod StatementTakes
pub mod CreateTakes
pub mod CausalTakes
pub mod UnderstandTakes
pub mod Total
pub mod Printed
pub mod Steps
pub mod Operands
pub mod Comparisons
pub mod Leaves
pub mod RoundTrip
use fundb.Prelude.Text.{codes}
use fundb.Order.{is_eq}
use fundb.Order.Bytes.{cmp_bytes}
unfoldable pub use Kind.{kind}
use fundb.Sql.Token
use fundb.Sql.Token.{Token}
use fundb.Sql.Chars.{Span, to_ascii_lowercase}
use fundb.Sql.Ast.{Name}

-- What an error says: the formatted text's kind and arguments.
pub data Message : Type 0 where
  expected : (wanted found : Token) → Message
  expected_identifier unexpected_token unexpected_in_expression expected_join_keyword expected_time
        expected_true_or_false unexpected_create_target understand_expects_string
        remember_expects_string expected_option_name :
      (found : Token) → Message
  unexpected_end expected_like_or_in expected_in_or_from trace_requires_from trace_requires_to
        expected_agent_after_forget expected_agent_after_remember expected_agent_after_recall :
      Message
  unknown_context_option unknown_recall_weight unknown_remember_option unknown_understand_option :
      Name → Message

pub record ParseError : Type 0 where
  pub message : Message
  pub line : ℕ
  pub col : ℕ

-- The first token and those behind it.
abbrev pub Stream : Type 0
Stream = (Token × Span) × List (Token × Span)

pub data Parsed (A : Type 0) : Type 0 where
  done : A → Stream → Parsed A
  failed : ParseError → Parsed A
  out_of_fuel : Parsed A

abbrev pub Parser : Type 0 → Type 0
Parser A = Stream → Parsed A

unfoldable pub and_then : {A B : Type 0} → Parsed A → (A → Parser B) → Parsed B
and_then (done a s) f = f a s
and_then (failed e) f = failed e
and_then out_of_fuel f = out_of_fuel

infixl 5 ◌>>=◌ ◌>>◌
unfoldable pub ◌>>=◌ : {A B : Type 0} → Parser A → (A → Parser B) → Parser B
◌>>=◌ p f = λ s. and_then (p s) f

unfoldable pub ◌>>◌ : {A B : Type 0} → Parser A → Parser B → Parser B
◌>>◌ p q = λ s. and_then (p s) (λ _. q)

unfoldable pub pure : {A : Type 0} → A → Parser A
pure a = λ s. done a s

-- Whether `t` is `wanted`, a token without a value.
abbrev pub is : Token → Token → Bool
is wanted t = kind t == kind wanted

-- `peek`
abbrev pub first : Stream → Token
first s = s.0.0

-- `peek2`
abbrev pub second : Stream → Option Token
second (t, []) = none
second (t, u ∷ us) = some (u.0)

abbrev pub step_past : Stream → Stream
step_past (t, []) = (t, [])
step_past (t, u ∷ us) = (u, us)

unfoldable pub peek : Parser Token
peek = λ s. done (first s) s

unfoldable pub peek2 : Parser (Option Token)
peek2 = λ s. done (second s) s

unfoldable pub advance : Parser Token
advance = λ s. done (first s) (step_past s)

unfoldable pub error : {A : Type 0} → Message → Parser A
error message = λ s. failed (record { message = message; line = s.0.1.line; col = s.0.1.col })

-- What one token decides: `some b` for a token that is taken.
unfoldable pub match_token :
    {A B : Type 0} → (Token → Option B) → (B → Parser A) → (Token → Parser A) → Parser A
match_token f taken kept =
    λ s. elim (f (first s)) [ some b ↦ taken b (step_past s) | none ↦ kept (first s) s ]

unfoldable pub when_is : Token → Token → Option (Unit {0})
when_is wanted t = elim (is wanted t) [ true ↦ some tt | false ↦ none ]

-- `if self.eat(tok) { … } else { … }`
unfoldable pub if_eat : {A : Type 0} → Token → Parser A → Parser A → Parser A
if_eat wanted taken kept = match_token (when_is wanted) (λ _. taken) (λ _. kept)

unfoldable pub eat : Token → Parser Bool
eat wanted = if_eat wanted (pure true) (pure false)

unfoldable pub expect : Token → Parser (Unit {0})
expect wanted = match_token (when_is wanted) (λ _. pure tt) (λ t. error (expected wanted t))

-- Whether a token is the identifier `word`, whatever the case of its letters.
abbrev pub is_word : Name → Token → Bool
is_word word (Token.ident name) = is_eq (cmp_bytes (to_ascii_lowercase name) word)
is_word word _ = false

unfoldable pub when_word : Name → Token → Option (Unit {0})
when_word word t = elim (is_word word t) [ true ↦ some tt | false ↦ none ]

-- `eat_keyword_or_ident`
unfoldable pub eat_word : Name → Parser Bool
eat_word word = match_token (when_word word) (λ _. pure true) (λ _. pure false)

-- How a round of a loop ends, with the loop's variables.
pub data Round (A : Type 0) : Type 0 where
  go_on stop : A → Round A

unfoldable pub loop_at : ℕ → {A : Type 0} → (A → Parser (Round A)) → A → Parser A
loop_at zero body a = λ s. out_of_fuel
loop_at (suc n) body a = body a >>= λ r. elim r [ go_on b ↦ loop_at n body b | stop b ↦ pure b ]

-- A loop each of whose rounds takes a token.
unfoldable pub loop : {A : Type 0} → (A → Parser (Round A)) → A → Parser A
loop body a = λ s. loop_at (suc (length (s.1))) body a s

-- `vec![p()?]`, then a push for each `separator`.
unfoldable pub separated : {A : Type 0} → Token → Parser A → Parser (List A)
separated {A} separator p = do
  x ← p
  loop (λ (xs : List A). if_eat separator (p >>= λ y. pure (go_on (xs ++ y ∷ []))) (pure (stop xs)))
      (x ∷ [])
