-- ===== src/Sql/Lexer/Ends.antt =====
-- How the lexer ends on every text.
use fundb.Prelude.{
  ◌∙◌, ap, subst, ℕ, zero, suc, ◌≤◌, ◌<◌, ◌≡◌, ◌≢◌, refl, false, List, [], ◌∷◌, arith, length,
}
use fundb.Sql.Token.{Token}
use fundb.Sql.Chars.{
  is_blank, Library, Place, Span, Outcome, done, panicked, out_of_fuel, ◌>>=◌, len_utf8,
}
use fundb.Sql.Comments.{
  Opening, no_comment, line_comment, block_comment, inside_char, opening, skip_opening, skip_blanks,
  skip_line, skip_whitespace_and_comments,
}
use fundb.Sql.Literals.{Lexed}
use fundb.Sql.Lexer.{next_token, tokenize_from, tokenize, token_then, keep_token}
use fundb.Sql.Lexer.Rest.{Ends, Ends-bind, All, Rest}
use fundb.Sql.Lexer.Skips.{Splits, Ends-skip}
use fundb.Sql.Lexer.Reads.{Reads-next_token}

module _ (Ok : ℕ → Type 0) (Panics : Type 0) where
  Ends-token_then :
      (l : Library) (n : ℕ) (more : List ℕ → Place → Outcome (List (Token × Span)))
      → ((cs : List ℕ) (p : Place)
          → length cs < n
          → All Ok cs
          → Ends {A = List (Token × Span)} Panics (λ t. Unit {0}) (more cs p))
      → (ds : List ℕ) (q : Place) → length ds ≤ n
      → All Ok ds
      → Ends {A = List (Token × Span)} Panics (λ t. Unit {0}) (token_then l more ds q)
  unfolding token_then
  Ends-token_then l n more ih [] q fuel ok = tt
  Ends-token_then l n more ih (c ∷ es) q fuel ok =
      Ends-bind {A = Lexed} Panics (λ t. Rest Ok es (t.1.0)) (λ t. Unit {0}) (next_token l c es q)
        (λ (tok, (rest, r)). more rest r >>= (λ tokens. done (keep_token tok tokens)))
        (Reads-next_token Ok Panics l c es q)
        (λ t rest.
          Ends-bind Panics (λ t. Unit {0}) (λ t. Unit {0}) (more (t.1.0) (t.1.1))
            (λ tokens. done (keep_token (t.0) tokens))
            (ih (t.1.0) (t.1.1) (omega (arith, rest.0)) (rest.1 ok.1)) (λ tokens h. tt))

  pub Ends-tokenize_from :
      Splits Ok Panics
      → (l : Library) (n : ℕ) (cs : List ℕ) (p : Place) → length cs < n
      → All Ok cs
      → Ends {A = List (Token × Span)} Panics (λ t. Unit {0}) (tokenize_from n l cs p)
  unfolding tokenize_from
  Ends-tokenize_from splits l zero cs p fuel ok = absurd (omega arith)
  Ends-tokenize_from splits l (suc n) cs p fuel ok =
      Ends-bind Panics (λ t. Rest Ok cs (t.0)) (λ t. Unit {0})
        (skip_whitespace_and_comments (suc (length cs)) cs p)
        (λ t. token_then l (tokenize_from n l) (t.0) (t.1))
        (Ends-skip Ok Panics splits (suc (length cs)) cs p (omega arith) ok)
        (λ t rest.
          Ends-token_then l n (tokenize_from n l) (Ends-tokenize_from splits l n) (t.0) (t.1)
            (omega (arith, rest.0)) (rest.1 ok))

-- What holds of no number.
abbrev Never : Type 0
Never = zero ≡ suc zero

Ends-fuel :
    {A : Type 0} (Panics : Type 0) (P : A → Type 0) (o : Outcome A)
    → Ends Panics P o
    → o ≢ out_of_fuel
Ends-fuel Panics P o h e =
    let never : Never = subst (λ o. Ends Panics P o) e h in absurd (omega arith)

Ends-panic : {A : Type 0} (P : A → Type 0) (o : Outcome A) → Ends Never P o → o ≢ panicked
Ends-panic P o h e = let never : Never = subst (λ o. Ends Never P o) e h in absurd (omega arith)

All-unit : (cs : List ℕ) → All (λ c. Unit {0}) cs
All-unit [] = tt
All-unit (c ∷ cs) = (tt, All-unit cs)

ascii-Splits : Splits (λ c. c < 0x80) Never
unfolding opening len_utf8
ascii-Splits [] ok e = absurd cc
ascii-Splits (c ∷ []) ok e = let below = ok.0 in absurd (ground arith)
ascii-Splits (c ∷ (d ∷ cs)) ok e = let below = ok.0 in let next = ok.1.0 in absurd (ground arith)

-- The lexer ends on every text: it gives tokens, an error or a panic, and is never out of fuel.
pub tokenize-fuel : (l : Library) (input : List ℕ) → tokenize l input ≢ out_of_fuel
tokenize-fuel l input =
    let start : Place = record { pos = 0; line = 1; col = 1 } in
    Ends-fuel (Unit {0}) (λ t. Unit {0}) (tokenize l input)
      (unfold tokenize in
        Ends-tokenize_from (λ c. Unit {0}) (Unit {0}) (λ cs ok e. tt) l (suc (length input)) input
          start (omega arith) (All-unit input))

-- On a text of ASCII characters the lexer gives tokens or an error: it neither panics nor is out of
-- fuel.
pub tokenize-ascii :
    (l : Library) (input : List ℕ)
    → All (λ c. c < 0x80) input
    → (tokenize l input ≢ panicked) × (tokenize l input ≢ out_of_fuel)
tokenize-ascii l input ascii =
    let start : Place = record { pos = 0; line = 1; col = 1 } in
    (
      Ends-panic (λ t. Unit {0}) (tokenize l input)
          (unfold tokenize in
            Ends-tokenize_from (λ c. c < 0x80) Never ascii-Splits l (suc (length input)) input start
              (omega arith) ascii),
      tokenize-fuel l input,
    )

opening-inside :
    (c d : ℕ) (rest : List ℕ) → c < 0x80 → 0x80 ≤ d → opening (c ∷ (d ∷ rest)) ≡ inside_char
unfolding opening len_utf8
opening-inside c d rest ascii wide = ground arith

skip_blanks-ink :
    (c : ℕ) (cs : List ℕ) (p : Place) → is_blank c ≡ false → skip_blanks (c ∷ cs) p ≡ (c ∷ cs, p)
unfolding skip_blanks
skip_blanks-ink c cs p ink = rw (ink) refl

skip_panics :
    (n c d : ℕ) (rest : List ℕ) (p : Place)
    → is_blank c ≡ false
    → c < 0x80
    → 0x80 ≤ d
    → skip_whitespace_and_comments (suc n) (c ∷ (d ∷ rest)) p ≡ panicked
unfolding skip_whitespace_and_comments
skip_panics n c d rest p ink ascii wide =
    let cs = c ∷ (d ∷ rest) in
    let continue : Opening → List ℕ × Place → Outcome (List ℕ × Place) = λ o t. elim o [
      | no_comment ↦ done t
      | inside_char ↦ panicked
      | line_comment ↦ let (es, r) = skip_line (t.0) (t.1) in skip_whitespace_and_comments n es r
      | block_comment ↦
          skip_opening (t.0) (t.1) >>= (λ (es, r). skip_whitespace_and_comments n es r)
    ] in
    ap (λ t. continue (opening (t.0)) t) (skip_blanks-ink c (d ∷ rest) p ink)
    ∙ ap (λ o. continue o (cs, p)) (opening-inside c d rest ascii wide)

-- A text that starts with an ASCII character which is no blank, followed by a character outside
-- ASCII, makes the lexer panic. A string literal whose first character is not ASCII is one.
pub tokenize_panics :
    (l : Library) (c d : ℕ) (rest : List ℕ)
    → is_blank c ≡ false
    → c < 0x80
    → 0x80 ≤ d
    → tokenize l (c ∷ (d ∷ rest)) ≡ panicked
unfolding tokenize
tokenize_panics l c d rest ink ascii wide =
    let start : Place = record { pos = 0; line = 1; col = 1 } in
    ap (λ o. o >>= (λ t. token_then l (tokenize_from (suc (suc (length rest))) l) (t.0) (t.1)))
      (skip_panics (suc (suc (length rest))) c d rest start ink ascii wide)
