-- ===== src/Sql/Comments.antt =====
-- `Lexer::skip_whitespace_and_comments` of crates/fundb-sql/src/lexer.rs.
use fundb.Prelude.{ℕ, zero, suc, ◌&&◌, List, [], ◌∷◌, leb, ◌==◌, if◌then◌else◌}
use fundb.Sql.Chars.{
  Place, unterminated_comment, Outcome, done, panicked, out_of_fuel, ◌>>=◌, fail_at, len_utf8, step,
  is_blank,
}

unfoldable pub skip_blanks : List ℕ → Place → List ℕ × Place
unfolding is_blank step
skip_blanks [] p = ([], p)
skip_blanks (c ∷ cs) p =
    let rest = skip_blanks cs (step c p) in if is_blank c then rest else (c ∷ cs, p)

-- To behind the end of the line.
unfoldable pub skip_line : List ℕ → Place → List ℕ × Place
unfolding step
skip_line [] p = ([], p)
skip_line (c ∷ cs) p =
    let rest = skip_line cs (step c p) in if c == b'\n' then (cs, step c p) else rest

-- To behind `*/`. Where the text ends, the error is at the end.
unfoldable pub skip_block : List ℕ → Place → Outcome (List ℕ × Place)
unfolding step
skip_block [] p = fail_at unterminated_comment p
skip_block (c ∷ []) p = fail_at unterminated_comment (step c p)
skip_block (c ∷ (d ∷ cs)) p =
    let rest = skip_block (d ∷ cs) (step c p) in
    if c == b'*' && d == b'/' then done (cs, step d (step c p)) else rest

-- What the two bytes at the position are: the slice is taken if two bytes are left, and it panics
-- if its end is inside a character.
pub data Opening : Type 0 where
  no_comment line_comment block_comment inside_char : Opening

unfoldable pub opening : List ℕ → Opening
unfolding len_utf8
opening [] = no_comment
opening (c ∷ []) = if leb (len_utf8 c) 2 then no_comment else inside_char
opening (c ∷ (d ∷ cs)) =
    if len_utf8 c == 1
    then if len_utf8 d == 1
      then if c == b'-' && d == b'-'
        then line_comment
        else if c == b'/' && d == b'*'
        then block_comment
        else no_comment
      else inside_char
    else if len_utf8 c == 2
    then no_comment
    else inside_char

-- The `/` and the `*`.
unfoldable pub skip_opening : List ℕ → Place → Outcome (List ℕ × Place)
unfolding skip_block
skip_opening (c ∷ (d ∷ cs)) p = skip_block cs (step d (step c p))
skip_opening cs p = skip_block [] p

unfoldable pub skip_whitespace_and_comments : ℕ → List ℕ → Place → Outcome (List ℕ × Place)
unfolding skip_blanks skip_line opening skip_opening
skip_whitespace_and_comments zero cs p = out_of_fuel
skip_whitespace_and_comments (suc n) cs p =
    let (ds, q) = skip_blanks cs p in
    elim (opening ds) [
      | no_comment ↦ done (ds, q)
      | inside_char ↦ panicked
      | line_comment ↦ let (es, r) = skip_line ds q in skip_whitespace_and_comments n es r
      | block_comment ↦ skip_opening ds q >>= (λ (es, r). skip_whitespace_and_comments n es r)
    ]
