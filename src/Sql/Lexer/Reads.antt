-- ===== src/Sql/Lexer/Reads.antt =====
-- Reading one token ends, and leaves less of the text.
use fundb.Prelude.{
  ℕ, ◌≡◌, true, false, ◌&&◌, ◌||◌, Option, none, some, List, [], ◌∷◌, arith, ◌==◌, Bool-cases, inl,
  inr,
}
use fundb.Sql.Token.{Token}
use fundb.Sql.Chars.{
  unterminated_string, unexpected_bang, fail_at, Library, Place, Outcome, done, ◌>>=◌, step,
  span_between, first_is, is_digit, starts_word,
}
use fundb.Sql.Literals.{
  Lexed, Taken, take_digits, take_number, take_string, number_token, lex_number, lex_word,
  lex_string, lex_param,
}
use fundb.Sql.Lexer.{single, longer, lex_less, lex_operator, lex_long_operator, next_token}
use fundb.Sql.Lexer.Rest.{
  Ends, Ends-bind, Ends-map, either, Rest, RestOption, Rest-refl, Rest-cons, Rest-take_word,
  Rest-take_number, Rest-take_string,
}

module _ (Ok : ℕ → Type 0) (Panics : Type 0) where
  Ends-number_token :
      (l : Library) (raw : List ℕ) (p : Place)
      → Ends {A = Token} Panics (λ t. Unit {0}) (number_token l raw p)
  unfolding number_token
  Ends-number_token l raw p = ground arith

  -- A token is read behind the text `cs`.
  abbrev pub Reads : List ℕ → Outcome Lexed → Type 0
  Reads cs = Ends Panics (λ t. Rest Ok cs (t.1.0))

  Rest-take_digits :
      (c : ℕ) (cs : List ℕ) (p : Place)
      → is_digit c || c == b'.' && first_is is_digit cs ≡ true
      → Rest Ok cs ((take_digits (c ∷ cs) p).1.0)
  unfolding take_digits take_number
  Rest-take_digits c cs p starts = elim (Bool-cases (c == b'.')) [
    | inl dot ↦ rw dot (Rest-take_number Ok true cs (step c p))
    | inr other ↦
        let digit : is_digit c ≡ true = ground arith in
        rw (digit, other) (Rest-take_number Ok false cs (step c p))
  ]

  Reads-lex_number :
      (l : Library) (c : ℕ) (cs : List ℕ) (p : Place)
      → is_digit c || c == b'.' && first_is is_digit cs ≡ true
      → Reads cs (lex_number l (c ∷ cs) p)
  unfolding lex_number
  Reads-lex_number l c cs p starts =
      let (raw, rest) = take_digits (c ∷ cs) p in
      Ends-bind Panics (λ t. Unit {0}) (λ t. Rest Ok cs (t.1.0)) (number_token l raw p)
        (λ tok. done ((tok, span_between p rest.1), rest)) (Ends-number_token l raw p)
        (λ tok h. Rest-take_digits c cs p starts)

  Reads-lex_string : (c : ℕ) (cs : List ℕ) (p : Place) → Reads cs (lex_string c cs p)
  unfolding lex_string
  Reads-lex_string c cs p =
      from_taken (take_string false cs (step c p)) (Rest-take_string Ok false cs (step c p))
    where
      from_taken :
          (o : Option Taken)
          → RestOption Ok cs o
          → Reads cs (elim o [
            | none ↦ fail_at unterminated_string p
            | some (s, rest) ↦ done ((Token.string_literal s, span_between p rest.1), rest)
          ])
      from_taken none h = tt
      from_taken (some t) h = h

  -- An operator is read behind the text `cs`.
  abbrev Operates : List ℕ → Outcome (Token × (List ℕ × Place)) → Type 0
  Operates cs = Ends Panics (λ t. Rest Ok cs (t.1.0))

  abbrev IsEnd : Outcome Token → Type 0
  IsEnd = Ends Panics (λ t. Unit {0})

  Operates-longer :
      (d : ℕ) (long short : Outcome Token) (cs : List ℕ) (p : Place)
      → IsEnd long
      → IsEnd short
      → Operates cs (longer d long short cs p)
  Operates-longer d long short [] p hl hs =
      Ends-bind Panics (λ t. Unit {0}) (λ t. Rest Ok [] (t.1.0)) short (λ t. done (t, ([], p))) hs
        (λ t h. Rest-refl Ok [])
  Operates-longer d long short (c ∷ cs) p hl hs =
      let read = long >>= (λ t. done (t, (cs, step c p))) in
      let left = short >>= (λ t. done (t, (c ∷ cs, p))) in
      either (Operates (c ∷ cs)) (c == d) read left
        (Ends-bind Panics (λ t. Unit {0}) (λ t. Rest Ok (c ∷ cs) (t.1.0)) long
          (λ t. done (t, (cs, step c p))) hl (λ t h. Rest-cons Ok c cs cs (Rest-refl Ok cs)))
        (Ends-bind Panics (λ t. Unit {0}) (λ t. Rest Ok (c ∷ cs) (t.1.0)) short
          (λ t. done (t, (c ∷ cs, p))) hs (λ t h. Rest-refl Ok (c ∷ cs)))

  Operates-cons :
      (c : ℕ) (cs : List ℕ) (o : Outcome (Token × (List ℕ × Place)))
      → Operates cs o
      → Operates (c ∷ cs) o
  Operates-cons c cs o h =
      Ends-map Panics (λ t. Rest Ok cs (t.1.0)) (λ t. Rest Ok (c ∷ cs) (t.1.0)) o
        (λ t k. Rest-cons Ok c cs (t.1.0) k) h

  Operates-lex_less : (cs : List ℕ) (p : Place) → Operates cs (lex_less cs p)
  Operates-lex_less [] p = Rest-refl Ok []
  Operates-lex_less (c ∷ cs) p =
      let taken = Rest-cons Ok c cs cs (Rest-refl Ok cs) in
      elim (Bool-cases (c == b'-' && first_is (λ d. d == b'>') cs)) [
        | inl e ↦ rw e (
            Operates-cons c cs (longer b'>' (done Token.vector_dist) (done Token.lt) cs (step c p))
              (Operates-longer b'>' (done Token.vector_dist) (done Token.lt) cs (step c p) tt tt))
        | inr e ↦ rw e (elim (Bool-cases (c == b'=')) [
          | inl e ↦ rw e (taken)
          | inr e ↦ rw e (elim (Bool-cases (c == b'>')) [
            | inl e ↦ rw e (taken)
            | inr e ↦ rw e (Rest-refl Ok (c ∷ cs))
          ])
        ])
      ]

  Operates-lex_long_operator :
      (c : ℕ) (cs : List ℕ) (p : Place) → Operates cs (lex_long_operator c cs p)
  unfolding lex_long_operator
  Operates-lex_long_operator c cs p =
      let q = step c p in
      elim (Bool-cases (c == b'=')) [
        | inl e ↦ rw e (Operates-longer b'=' (done Token.eq) (done Token.assign) cs q tt tt)
        | inr e ↦ rw e (elim (Bool-cases (c == b'!')) [
          | inl e ↦
              rw e (Operates-longer b'=' (done Token.not_eq) (fail_at unexpected_bang p) cs q tt tt)
          | inr e ↦ rw e (elim (Bool-cases (c == b'<')) [
            | inl e ↦ rw e (Operates-lex_less cs q)
            | inr e ↦ rw e (elim (Bool-cases (c == b'>')) [
              | inl e ↦ rw e (Operates-longer b'=' (done Token.gt_eq) (done Token.gt) cs q tt tt)
              | inr e ↦ rw e (elim (Bool-cases (c == b'-')) [
                | inl e ↦
                    rw e (Operates-longer b'>' (done Token.arrow) (done Token.minus) cs q tt tt)
                | inr e ↦ rw e (elim (Bool-cases (c == b'.')) [
                  | inl e ↦
                      rw e (Operates-longer b'.' (done Token.dot_dot) (done Token.dot) cs q tt tt)
                  | inr e ↦ rw e (tt)
                ])
              ])
            ])
          ])
        ])
      ]

  Operates-lex_operator : (c : ℕ) (cs : List ℕ) (p : Place) → Operates cs (lex_operator c cs p)
  unfolding lex_operator
  Operates-lex_operator c cs p = from_single (single c)
    where
      from_single :
          (o : Option Token)
          → Operates cs
              (elim o [ some t ↦ done (t, (cs, step c p)) | none ↦ lex_long_operator c cs p ])
      from_single (some t) = Rest-refl Ok cs
      from_single none = Operates-lex_long_operator c cs p

  pub Reads-next_token :
      (l : Library) (c : ℕ) (cs : List ℕ) (p : Place) → Reads cs (next_token l c cs p)
  unfolding next_token lex_param lex_word
  Reads-next_token l c cs p = elim (Bool-cases (is_digit c || c == b'.' && first_is is_digit cs)) [
    | inl e ↦ rw e (Reads-lex_number l c cs p e)
    | inr e ↦ rw e (elim (Bool-cases (starts_word l c)) [
      | inl e ↦ rw e (Rest-take_word Ok l cs (step c p))
      | inr e ↦ rw e (elim (Bool-cases (c == b'\'')) [
        | inl e ↦ rw e (Reads-lex_string c cs p)
        | inr e ↦ rw e (elim (Bool-cases (c == b':')) [
          | inl e ↦ rw e (elim (Bool-cases (first_is (starts_word l) cs)) [
            | inl e ↦ rw e (Rest-take_word Ok l cs (step c p))
            | inr e ↦ rw e (Rest-refl Ok cs)
          ])
          | inr e ↦ rw e (
              Ends-bind Panics (λ t. Rest Ok cs (t.1.0)) (λ t. Rest Ok cs (t.1.0))
                (lex_operator c cs p) (λ (t, rest). done ((t, span_between p rest.1), rest))
                (Operates-lex_operator c cs p) (λ t h. h))
        ])
      ])
    ])
  ]
