-- ===== src/Sql/Lexer/Skips.antt =====
-- Skipping blanks and comments ends, and leaves an end of the text.
use fundb.Prelude.{ℕ, zero, suc, ◌<◌, ◌≡◌, refl, List, [], ◌∷◌, arith, length}
use fundb.Sql.Chars.{Place, Outcome, done, panicked, ◌>>=◌, step}
use fundb.Sql.Comments.{
  Opening, no_comment, line_comment, block_comment, inside_char, opening, skip_opening, skip_blanks,
  skip_line, skip_block, skip_whitespace_and_comments,
}
use fundb.Sql.Lexer.Rest.{
  Ends, Ends-bind, Ends-map, All, Rest, Rest-refl, Rest-trans, Rest-cons, Rest-skip_blanks,
  Rest-skip_line, Rest-skip_block,
}

-- A property of characters, and whether a text of such characters may make the lexer panic.
module _ (Ok : ℕ → Type 0) (Panics : Type 0) where
  abbrev pub Splits : Type 0
  Splits = (cs : List ℕ) → All Ok cs → opening cs ≡ inside_char → Panics

  abbrev Skipped : List ℕ → Outcome (List ℕ × Place) → Type 0
  Skipped cs = Ends Panics (λ t. Rest Ok cs (t.0))

  -- The lexer skips within this fuel.
  abbrev Skips : ℕ → Type 0
  Skips n =
      (cs : List ℕ) (p : Place)
      → length cs < n
      → All Ok cs
      → Skipped cs (skip_whitespace_and_comments n cs p)

  Skips-next :
      (n : ℕ)
      → Skips n
      → (cs ds : List ℕ) (p : Place) → length ds < n
      → Rest Ok cs ds
      → All Ok cs
      → Skipped cs (skip_whitespace_and_comments n ds p)
  Skips-next n skips cs ds p fuel rest ok =
      Ends-map Panics (λ t. Rest Ok ds (t.0)) (λ t. Rest Ok cs (t.0))
        (skip_whitespace_and_comments n ds p) (λ t h. Rest-trans Ok cs ds (t.0) rest h)
        (skips ds p fuel (rest.1 ok))

  module _ (splits : Splits) (n : ℕ) (skips : Skips n) where
    Ends-comment :
        (o : Opening) (ds : List ℕ) (q : Place)
        → opening ds ≡ o
        → length ds < suc n
        → All Ok ds
        → Skipped ds (elim o [
          | no_comment ↦ done (ds, q)
          | inside_char ↦ panicked
          | line_comment ↦ let (es, r) = skip_line ds q in skip_whitespace_and_comments n es r
          | block_comment ↦ skip_opening ds q >>= (λ (es, r). skip_whitespace_and_comments n es r)
        ])
    unfolding opening skip_opening
    Ends-comment no_comment ds q e fuel ok = Rest-refl Ok ds
    Ends-comment inside_char ds q e fuel ok = splits ds ok e
    Ends-comment line_comment [] q e fuel ok = absurd cc
    Ends-comment line_comment (c ∷ cs) q e fuel ok =
        let (es, r) = skip_line (c ∷ cs) q in
        let rest = Rest-skip_line Ok c cs q in
        Skips-next n skips (c ∷ cs) es r (omega (arith, rest.0)) (Rest-cons Ok c cs es rest) ok
    Ends-comment block_comment [] q e fuel ok = absurd cc
    Ends-comment block_comment (c ∷ []) q e fuel ok = absurd (ground arith)
    Ends-comment block_comment (c ∷ (d ∷ cs)) q e fuel ok =
        Ends-bind Panics (λ t. Rest Ok cs (t.0)) (λ t. Rest Ok (c ∷ (d ∷ cs)) (t.0))
          (skip_block cs (step d (step c q))) (λ t. skip_whitespace_and_comments n (t.0) (t.1))
          (Rest-skip_block Ok Panics cs (step d (step c q)))
          (λ t rest.
            Skips-next n skips (c ∷ (d ∷ cs)) (t.0) (t.1) (omega (arith, rest.0))
              (Rest-cons Ok c (d ∷ cs) (t.0) (Rest-cons Ok d cs (t.0) rest)) ok)

  pub Ends-skip : Splits → (n : ℕ) → Skips n
  unfolding skip_whitespace_and_comments
  Ends-skip splits zero cs p fuel ok = absurd (omega arith)
  Ends-skip splits (suc n) cs p fuel ok =
      let (ds, q) = skip_blanks cs p in
      let rest = Rest-skip_blanks Ok cs p in
      Ends-map Panics (λ t. Rest Ok ds (t.0)) (λ t. Rest Ok cs (t.0))
        (skip_whitespace_and_comments (suc n) cs p) (λ t h. Rest-trans Ok cs ds (t.0) rest h)
        (Ends-comment splits n (Ends-skip splits n) (opening ds) ds q refl (omega (arith, rest.0))
          (rest.1 ok))
