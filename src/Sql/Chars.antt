-- ===== src/Sql/Chars.antt =====
-- Characters and positions of crates/fundb-sql/src/lexer.rs. A text is the list of its code points;
-- what is left of the input takes the place of the slice behind `pos`. The tables of Unicode and the
-- parser of floats are parameters.
use fundb.Prelude.{
  ℕ, ◌+◌, ◌-◌, ◌%◌, ◌^◌, Bool, false, ◌&&◌, ◌||◌, Option, List, [], ◌∷◌, ltb, leb, ◌==◌,
  if◌then◌else◌,
}

pub record Library : Type 0 where
  pub is_alphabetic : ℕ → Bool
  pub is_numeric : ℕ → Bool
  pub parse_f64 : List ℕ → Option ℕ

pub record Place : Type 0 where
  pub pos : ℕ
  pub line : ℕ
  pub col : ℕ

pub record Span : Type 0 where
  pub line : ℕ
  pub col : ℕ
  pub len : ℕ

pub data LexMessage : Type 0 where
  unterminated_comment unterminated_string unexpected_bang : LexMessage
  unexpected_character : ℕ → LexMessage
  invalid_float invalid_int : List ℕ → LexMessage

pub record LexError : Type 0 where
  pub message : LexMessage
  pub line : ℕ
  pub col : ℕ

-- How a function of the lexer ends. Slicing a text inside a character panics.
pub data Outcome (A : Type 0) : Type 0 where
  done : A → Outcome A
  failed : LexError → Outcome A
  panicked : Outcome A
  out_of_fuel : Outcome A

infixl 5 ◌>>=◌
abbrev pub ◌>>=◌ : {A B : Type 0} → Outcome A → (A → Outcome B) → Outcome B
done a >>= f = f a
failed e >>= f = failed e
panicked >>= f = panicked
out_of_fuel >>= f = out_of_fuel

abbrev pub fail_at : {A : Type 0} → LexMessage → Place → Outcome A
fail_at message p = failed (record { message = message; line = p.line; col = p.col })

-- `char::len_utf8`
unfoldable pub len_utf8 : ℕ → ℕ
len_utf8 c = if ltb c 0x80 then 1 else if ltb c 0x800 then 2 else if ltb c 0x10000 then 3 else 4

-- `advance`, past the character `c`.
unfoldable pub step : ℕ → Place → Place
unfolding len_utf8
step c p =
    if c == b'\n'
    then record { pos = p.pos + len_utf8 c; line = (p.line + 1) % 2 ^ 32; col = 1 }
    else record { pos = p.pos + len_utf8 c; line = p.line; col = (p.col + 1) % 2 ^ 32 }

-- `span_at`, for what was read between two places.
abbrev pub span_between : Place → Place → Span
span_between p q = record { line = p.line; col = p.col; len = q.pos - p.pos }

abbrev pub is_digit : ℕ → Bool
is_digit c = leb b'0' c && leb c b'9'

abbrev pub is_upper : ℕ → Bool
is_upper c = leb b'A' c && leb c b'Z'

abbrev pub is_lower : ℕ → Bool
is_lower c = leb b'a' c && leb c b'z'

unfoldable pub to_ascii_lowercase : List ℕ → List ℕ
to_ascii_lowercase [] = []
to_ascii_lowercase (c ∷ cs) = (if is_upper c then c + 32 else c) ∷ to_ascii_lowercase cs

unfoldable pub is_blank : ℕ → Bool
is_blank c = c == b' ' || (c == b'\t' || (c == b'\r' || c == b'\n'))

-- `char::is_alphabetic() || '_'`
unfoldable pub starts_word : Library → ℕ → Bool
starts_word l c = (if ltb c 0x80 then is_upper c || is_lower c else l.is_alphabetic c) || c == b'_'

-- `char::is_alphanumeric() || '_'`
unfoldable pub continues_word : Library → ℕ → Bool
unfolding starts_word
continues_word l c = starts_word l c || (if ltb c 0x80 then is_digit c else l.is_numeric c)

abbrev pub first_is : (ℕ → Bool) → List ℕ → Bool
first_is test [] = false
first_is test (c ∷ cs) = test c
