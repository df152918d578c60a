-- ===== src/Sql/Parser/Steps.antt =====
-- How one step of a parser goes, for each way of combining parsers.
use fundb.Prelude.{◌≡◌, refl, true, false, Option, none, some}
use fundb.Sql.Token.{Token}
use fundb.Sql.Chars.{Span}
use fundb.Sql.Parser.{
  Stream, Parser, Parsed, done, and_then, ◌>>=◌, pure, is, first, step_past, match_token, when_is,
  if_eat, Round, loop, loop_at, go_on, stop,
}
use fundb.Sql.Parser.Printed.{put}

pub bind-done :
    {A B : Type 0} (p : Parser A) (f : A → Parser B) (a : A) (s r : Stream) (o : Parsed B)
    → p s ≡ done a r
    → f a r ≡ o
    → ◌>>=◌ p f s ≡ o
unfolding ◌>>=◌ and_then
bind-done p f a s r o h g = rw (and_then, h) g

pub match-none :
    {A B : Type 0} (f : Token → Option B) (taken : B → Parser A) (kept : Token → Parser A)
    (s : Stream) (o : Parsed A)
    → f (first s) ≡ none
    → kept (first s) s ≡ o
    → match_token f taken kept s ≡ o
unfolding match_token
match-none f taken kept s o h g = rw (match_token, h) g

pub match-some :
    {A B : Type 0} (f : Token → Option B) (taken : B → Parser A) (kept : Token → Parser A) (b : B)
    (s : Stream) (o : Parsed A)
    → f (first s) ≡ some b
    → taken b (step_past s) ≡ o
    → match_token f taken kept s ≡ o
unfolding match_token
match-some f taken kept b s o h g = rw (match_token, h) g

pub if_eat-not :
    {A : Type 0} (wanted : Token) (p q : Parser A) (s : Stream) (o : Parsed A)
    → is wanted (first s) ≡ false
    → q s ≡ o
    → if_eat wanted p q s ≡ o
unfolding if_eat when_is
if_eat-not wanted p q s o h g =
    match-none (when_is wanted) (λ _. p) (λ _. q) s o (rw (when_is, h) refl) g

pub if_eat-yes :
    {A : Type 0} (wanted : Token) (p q : Parser A) (s : Stream) (o : Parsed A)
    → is wanted (first s) ≡ true
    → p (step_past s) ≡ o
    → if_eat wanted p q s ≡ o
unfolding if_eat when_is
if_eat-yes wanted p q s o h g =
    match-some (when_is wanted) (λ _. p) (λ _. q) tt s o (rw (when_is, h) refl) g

pub loop-stop :
    {A : Type 0} (body : A → Parser (Round A)) (a b : A) (s r : Stream)
    → body a s ≡ done (stop b) r
    → loop body a s ≡ done b r
unfolding loop loop_at pure ◌>>=◌ and_then
loop-stop body a b s r h = rw (and_then, h) refl

-- A round that goes on, from a stream of two tokens at least, and one that stops.
pub loop-go :
    {A : Type 0} (body : A → Parser (Round A)) (a b c : A) (x : Span) (t : Token) (s r q : Stream)
    → body a (put x t s) ≡ done (go_on b) r
    → body b r ≡ done (stop c) q
    → loop body a (put x t s) ≡ done c q
unfolding loop loop_at pure ◌>>=◌ and_then
loop-go body a b c x t s r q h g = rw (and_then, h) rw (and_then, g) refl
