-- ===== src/Sql/Front/Total.antt =====
-- The end of `parse`, on any text.
use fundb.Prelude.{ℕ, zero, suc, ◌<◌, ◌≡◌, ◌≢◌, refl, subst, List, [], ◌∷◌, arith, length}
use fundb.Sql.Token.{Token}
use fundb.Sql.Chars.{Library, Place, Span, Outcome, done, failed, panicked, out_of_fuel, ◌>>=◌}
use fundb.Sql.Comments.{skip_whitespace_and_comments}
use fundb.Sql.Lexer.{next_token, keep_token, token_then, tokenize_from, tokenize}
use fundb.Sql.Lexer.Rest.{All}
use fundb.Sql.Lexer.Ends.{tokenize-fuel, tokenize-ascii}
use fundb.Sql.Ast.{Statement}
use fundb.Sql.Parser
use fundb.Sql.Parser.{Parsed}
use fundb.Sql.Parser.Top.{parse_statement}
use fundb.Sql.Parser.Takes.{LastIsEof, Ends}
use fundb.Sql.Parser.Total.{parse_statement-takes}
use fundb.Sql.Front
use fundb.Sql.Front.{Answer, answer_of, parse_tokens, parse_lexed, parse}

-- There is a token, and the last one is `Eof`.
abbrev Closed : List (Token × Span) → Type 0
Closed [] = zero ≡ suc zero
Closed (t ∷ ts) = LastIsEof (t.0) ts

abbrev Closes : Outcome (List (Token × Span)) → Type 0
Closes (done tokens) = Closed tokens
Closes _ = Unit {0}

Closes-bind :
    {A : Type 0} (o : Outcome A) (f : A → Outcome (List (Token × Span)))
    → ((a : A) → Closes (f a))
    → Closes (o >>= f)
Closes-bind (done a) f h = h a
Closes-bind (failed e) f h = tt
Closes-bind panicked f h = tt
Closes-bind out_of_fuel f h = tt

Closed-cons : (tok : Token × Span) (ts : List (Token × Span)) → Closed ts → Closed (tok ∷ ts)
Closed-cons tok [] h = absurd (omega (arith, h))
Closed-cons tok (t ∷ ts) h = h

Closed-keep_token :
    (tok : Token × Span) (ts : List (Token × Span)) → Closed ts → Closed (keep_token tok ts)
Closed-keep_token (Token.newline, x) ts h = h
Closed-keep_token (t, x) ts h = Closed-cons (t, x) ts h

Closes-keep :
    (tok : Token × Span) (o : Outcome (List (Token × Span)))
    → Closes o
    → Closes (o >>= (λ tokens. done (keep_token tok tokens)))
Closes-keep tok (done ts) h = Closed-keep_token tok ts h
Closes-keep tok (failed e) h = tt
Closes-keep tok panicked h = tt
Closes-keep tok out_of_fuel h = tt

Closes-token_then :
    (l : Library) (more : List ℕ → Place → Outcome (List (Token × Span)))
    → ((cs : List ℕ) (p : Place) → Closes (more cs p))
    → (cs : List ℕ) (p : Place) → Closes (token_then l more cs p)
unfolding token_then
Closes-token_then l more h [] p = refl
Closes-token_then l more h (c ∷ cs) p =
    Closes-bind (next_token l c cs p) _
      (λ t. Closes-keep (t.0) (more (t.1.0) (t.1.1)) (h (t.1.0) (t.1.1)))

Closes-tokenize_from :
    (n : ℕ) (l : Library) (cs : List ℕ) (p : Place) → Closes (tokenize_from n l cs p)
unfolding tokenize_from
Closes-tokenize_from zero l cs p = tt
Closes-tokenize_from (suc n) l cs p =
    Closes-bind (skip_whitespace_and_comments (suc (length cs)) cs p) _
      (λ t. Closes-token_then l (tokenize_from n l) (Closes-tokenize_from n l) (t.0) (t.1))

Closes-tokenize : (l : Library) (input : List ℕ) → Closes (tokenize l input)
unfolding tokenize
Closes-tokenize l input = Closes-tokenize_from (suc (length input)) l input _

-- A statement or an error.
abbrev IsAnswered : Answer → Type 0
IsAnswered (Front.parsed stmt) = Unit {0}
IsAnswered (Front.syntactic e) = Unit {0}
IsAnswered (Front.lexical e) = Unit {0}
IsAnswered Front.panicked = zero ≡ suc zero
IsAnswered Front.out_of_fuel = zero ≡ suc zero

parse_tokens-answers : (ts : List (Token × Span)) → Closed ts → IsAnswered (parse_tokens ts)
unfolding parse_tokens
parse_tokens-answers [] h = h
parse_tokens-answers (t ∷ ts) h =
    by_parsed (parse_statement (t, ts)) (parse_statement-takes (t, ts) h)
  where
    by_parsed :
        (o : Parsed Statement) → Ends (λ (_ : Statement). 1) (t, ts) o → IsAnswered (answer_of o)
    by_parsed (Parser.done stmt rest) e = tt
    by_parsed (Parser.failed _) e = tt
    by_parsed Parser.out_of_fuel e = e

parse_lexed-answers :
    (o : Outcome (List (Token × Span)))
    → Closes o
    → o ≢ panicked
    → o ≢ out_of_fuel
    → IsAnswered (parse_lexed o)
unfolding parse_lexed
parse_lexed-answers (done ts) h p f = parse_tokens-answers ts h
parse_lexed-answers (failed e) h p f = tt
parse_lexed-answers panicked h p f = absurd (p refl)
parse_lexed-answers out_of_fuel h p f = absurd (f refl)

Answered-apart : (a : Answer) → IsAnswered a → (a ≢ Front.panicked) × (a ≢ Front.out_of_fuel)
Answered-apart a h = (
  λ q. absurd (omega (arith, subst IsAnswered q h)),
  λ q. absurd (omega (arith, subst IsAnswered q h)),
)

-- On a text of ASCII characters `parse` gives a statement or an error: neither the lexer nor the
-- parser panics, and the levels of nesting that the number of tokens allows are enough for every
-- statement.
pub parse-ascii :
    (l : Library) (input : List ℕ)
    → All (λ c. c < 0x80) input
    → (parse l input ≢ Front.panicked) × (parse l input ≢ Front.out_of_fuel)
unfolding parse
parse-ascii l input ascii =
    let lexed = tokenize-ascii l input ascii in
    Answered-apart (parse l input)
      (parse_lexed-answers (tokenize l input) (Closes-tokenize l input) (lexed.0) (lexed.1))

abbrev HasEnded : Answer → Type 0
HasEnded Front.out_of_fuel = zero ≡ suc zero
HasEnded _ = Unit {0}

IsAnswered-HasEnded : (a : Answer) → IsAnswered a → HasEnded a
IsAnswered-HasEnded (Front.parsed stmt) h = tt
IsAnswered-HasEnded (Front.syntactic e) h = tt
IsAnswered-HasEnded (Front.lexical e) h = tt
IsAnswered-HasEnded Front.panicked h = tt
IsAnswered-HasEnded Front.out_of_fuel h = h

parse_lexed-ends :
    (o : Outcome (List (Token × Span))) → Closes o → o ≢ out_of_fuel → HasEnded (parse_lexed o)
unfolding parse_lexed
parse_lexed-ends (done ts) h f = IsAnswered-HasEnded (parse_tokens ts) (parse_tokens-answers ts h)
parse_lexed-ends (failed e) h f = tt
parse_lexed-ends panicked h f = tt
parse_lexed-ends out_of_fuel h f = absurd (f refl)

-- On every text `parse` ends: the fuel of the lexer's loops and the levels of nesting that the
-- parser is given are enough.
pub parse-fuel : (l : Library) (input : List ℕ) → parse l input ≢ Front.out_of_fuel
unfolding parse
parse-fuel l input q = absurd (
    omega (
      arith,
      subst HasEnded q
          (parse_lexed-ends (tokenize l input) (Closes-tokenize l input) (tokenize-fuel l input)),
    ))
