-- ===== src/Sql/Parser/Takes.antt =====
-- How many tokens a parser takes, and that it ends.
use fundb.Prelude.{
  ℕ, zero, suc, ◌+◌, ◌-◌, ◌≤◌, ◌≡◌, refl, sym, ◌∙◌, ap, Bool, true, false, Option, none, some, List,
  [], ◌∷◌, arith, length, if◌then◌else◌,
}
use fundb.Sql.Token.{Token}
use fundb.Sql.Chars.{Span}
use fundb.Sql.Parser.{
  Stream, Parsed, done, failed, out_of_fuel, Parser, ◌>>=◌, and_then, pure, peek, peek2, first,
  second, step_past, error, Message, match_token, when_is, if_eat, eat, advance, expect, is, Round,
  go_on, stop, loop_at, loop, separated,
}

abbrev pub size : Stream → ℕ
size s = suc (length (s.1))

abbrev pub LastIsEof : Token → List (Token × Span) → Type 0
LastIsEof t [] = t ≡ Token.eof
LastIsEof t (u ∷ us) = LastIsEof (u.0) us

-- The last token is `Eof`.
abbrev pub IsClosed : Stream → Type 0
IsClosed s = LastIsEof (first s) (s.1)

-- A result behind at least `k` tokens of a closed stream, or an error.
abbrev pub Ends : {A : Type 0} → (A → ℕ) → Stream → Parsed A → Type 0
Ends k s (done a r) = IsClosed r × (k a + size r ≤ size s)
Ends k s (failed e) = Unit {0}
Ends k s out_of_fuel = zero ≡ suc zero

-- On a closed stream of at most `m` tokens.
pub record Takes {A : Type 0} (m : ℕ) (k : A → ℕ) (p : Parser A) : Type 0 where
  pub run : (s : Stream) → IsClosed s → size s ≤ m → Ends k s (p s)

-- A round of a loop takes a token, unless it is the last one.
abbrev pub by_round : {A : Type 0} → Round A → ℕ
by_round (go_on a) = 1
by_round (stop a) = 0

-- What is taken of the rest of a stream is taken of the stream.
pub Ends-behind :
    {A : Type 0} (j : ℕ) (k : A → ℕ) (s r : Stream) (o : Parsed A)
    → j + size r ≤ size s
    → Ends (λ a. k a - j) r o
    → Ends k s o
Ends-behind j k s r (done a q) l e = (e.0, omega (arith, e.1, l))
Ends-behind j k s r (failed _) l e = tt
Ends-behind j k s r out_of_fuel l e = e

Ends-and_then :
    {A B : Type 0} (j : ℕ) (k : B → ℕ) (s : Stream) (o : Parsed A) (f : A → Parser B)
    → Ends (λ _. j) s o
    → ((a : A) (r : Stream) → IsClosed r → j + size r ≤ size s → Ends (λ b. k b - j) r (f a r))
    → Ends k s (and_then o f)
unfolding and_then
Ends-and_then j k s (done a r) f h g = Ends-behind j k s r (f a r) (h.1) (g a r (h.0) (h.1))
Ends-and_then j k s (failed e) f h g = tt
Ends-and_then j k s out_of_fuel f h g = h

pub Takes-bind :
    {A B : Type 0} {m : ℕ} (j : ℕ) {k : B → ℕ} {p : Parser A} {f : A → Parser B}
    → Takes m (λ _. j) p
    → ((a : A) → Takes m (λ b. k b - j) (f a))
    → Takes m k (p >>= f)
unfolding ◌>>=◌
Takes-bind j {k} {p} {f} h g = record {
  run = λ s c b.
      Ends-and_then j k s (p s) f (h.run s c b) (λ a r d l. (g a).run r d (omega (arith, l, b)));
}

-- Behind a parser that takes a token, one level of nesting less is left.
pub Takes-then :
    {A B : Type 0} {n : ℕ} {k : B → ℕ} {p : Parser A} {f : A → Parser B}
    → Takes (suc n) (λ _. 1) p
    → ((a : A) → Takes n (λ b. k b - 1) (f a))
    → Takes (suc n) k (p >>= f)
unfolding ◌>>=◌
Takes-then {k} {p} {f} h g = record {
  run = λ s c b.
      Ends-and_then 1 k s (p s) f (h.run s c b) (λ a r d l. (g a).run r d (omega (arith, l, b)));
}

pub Takes-pure : {A : Type 0} {m : ℕ} {k : A → ℕ} (a : A) → k a ≡ 0 → Takes m k (pure a)
unfolding pure
Takes-pure a h = record { run = λ s c b. (c, omega (arith, h)) }

pub Takes-peek :
    {B : Type 0} {m : ℕ} {k : B → ℕ} {f : Token → Parser B}
    → ((t : Token) → Takes m k (f t))
    → Takes m k (peek >>= f)
unfolding peek ◌>>=◌ and_then
Takes-peek h = record { run = λ s c b. (h (first s)).run s c b }

pub Takes-peek2 :
    {B : Type 0} {m : ℕ} {k : B → ℕ} {f : Option Token → Parser B}
    → ((t : Option Token) → Takes m k (f t))
    → Takes m k (peek2 >>= f)
unfolding peek2 ◌>>=◌ and_then
Takes-peek2 h = record { run = λ s c b. (h (second s)).run s c b }

pub Takes-if :
    {A : Type 0} {m : ℕ} {k : A → ℕ} (b : Bool) {p q : Parser A}
    → Takes m k p
    → Takes m k q
    → Takes m k (if b then p else q)
Takes-if true h g = h
Takes-if false h g = g

step_past-IsClosed :
    (t : Token) (x : Span) (us : List (Token × Span))
    → LastIsEof t us
    → (t ≡ Token.eof → zero ≡ suc zero)
    → IsClosed (step_past ((t, x), us)) × (1 + size (step_past ((t, x), us)) ≤ size ((t, x), us))
step_past-IsClosed t x [] c h = absurd (omega (arith, h c))
step_past-IsClosed t x (u ∷ us) c h = (c, omega arith)

clash : {A : Type 0} {o : Option A} {x : A} → o ≡ none → o ≡ some x → zero ≡ suc zero
clash {A} h g = ap is_some (sym h ∙ g)
  where
    is_some : Option A → ℕ
    is_some none = 0
    is_some (some _) = 1

-- Behind a token that is taken, fewer tokens are left.
pub Takes-match :
    {A B : Type 0} {m n : ℕ} {k : A → ℕ} (f : Token → Option B) {taken : B → Parser A}
    {kept : Token → Parser A}
    → m ≤ suc n
    → f Token.eof ≡ none
    → ((x : B) → Takes n (λ a. k a - 1) (taken x))
    → ((t : Token) → Takes m k (kept t))
    → Takes m k (match_token f taken kept)
unfolding match_token
Takes-match {A} {B} {m} {n} {k} f {taken} {kept} l e h g = record {
  run = λ s c b. by_first s c b (f (first s)) refl;
}
  where
    by_first :
        (s : Stream)
        → IsClosed s
        → size s ≤ m
        → (o : Option B) → f (first s) ≡ o
        → Ends k s (elim o [ some x ↦ taken x (step_past s) | none ↦ kept (first s) s ])
    by_first s c b none _ = (g (first s)).run s c b
    by_first s c b (some x) eq =
        let behind =
          step_past-IsClosed (first s) (s.0.1) (s.1) c (λ q. clash e (ap f (sym q) ∙ eq)) in
        Ends-behind 1 k s (step_past s) (taken x (step_past s)) (omega (arith, behind.1))
          ((h x).run (step_past s) (behind.0) (omega (arith, behind.1, b, l)))

pub Takes-error : {A : Type 0} {m : ℕ} {k : A → ℕ} (e : Message) → Takes m k (error e)
unfolding error
Takes-error e = record { run = λ s c b. tt }

pub Takes-if_eat :
    {A : Type 0} {m n : ℕ} {k : A → ℕ} (wanted : Token) {p q : Parser A}
    → m ≤ suc n
    → is wanted Token.eof ≡ false
    → Takes n (λ a. k a - 1) p
    → Takes m k q
    → Takes m k (if_eat wanted p q)
unfolding if_eat when_is
Takes-if_eat wanted l e h g =
    Takes-match (when_is wanted) l (rw (when_is, e) refl) (λ _. h) (λ _. g)

pub Takes-expect :
    {m : ℕ} (wanted : Token) → is wanted Token.eof ≡ false → Takes m (λ _. 1) (expect wanted)
unfolding expect when_is
Takes-expect {m} wanted e =
    Takes-match {n = m} (when_is wanted) (omega arith) (rw (when_is, e) refl)
      (λ _. Takes-pure _ refl) (λ t. Takes-error _)

-- Fewer tokens of fewer.
pub Takes-less :
    {A : Type 0} {m n : ℕ} {j k : A → ℕ} {p : Parser A}
    → m ≤ n
    → ((a : A) → j a ≤ k a)
    → Takes n k p
    → Takes m j p
Takes-less {A} {m} {n} {j} {k} {p} l d h = record {
  run = λ s c b. by_parsed s (p s) (h.run s c (omega (arith, b, l)));
}
  where
    by_parsed : (s : Stream) (o : Parsed A) → Ends k s o → Ends j s o
    by_parsed s (done a q) e = (e.0, omega (arith, e.1, d a))
    by_parsed s (failed _) e = tt
    by_parsed s out_of_fuel e = e

-- `one` token at least, or none.
abbrev pub one : {A : Type 0} → A → ℕ
one _ = 1

abbrev pub any : {A : Type 0} → A → ℕ
any _ = 0

pub Takes-any : {A : Type 0} {m : ℕ} {p : Parser A} → Takes m one p → Takes m any p
Takes-any {m = m} h = Takes-less {n = m} {k = one} (omega arith) (λ _. omega arith) h

Ends-round :
    {A : Type 0} {m n : ℕ} (body : A → Parser (Round A))
    → ((a : A) (r : Stream)
        → IsClosed r
        → size r ≤ m
        → size r ≤ n
        → Ends (λ _. 0) r (loop_at n body a r))
    → (s : Stream) (o : Parsed (Round A)) → size s ≤ m
    → size s ≤ suc n
    → Ends by_round s o
    → Ends (λ _. 0) s (and_then o (λ r. elim r [ go_on x ↦ loop_at n body x | stop x ↦ pure x ]))
unfolding and_then pure
Ends-round {n = n} body ih s (done (go_on x) r) b d e =
    Ends-behind 0 (λ _. 0) s r (loop_at n body x r) (omega (arith, e.1))
      (ih x r (e.0) (omega (arith, e.1, b)) (omega (arith, e.1, d)))
Ends-round body ih s (done (stop x) r) b d e = e
Ends-round body ih s (failed _) b d e = tt
Ends-round body ih s out_of_fuel b d e = e

Takes-loop_at :
    {A : Type 0} {m : ℕ} {body : A → Parser (Round A)} (n : ℕ)
    → ((a : A) → Takes m by_round (body a))
    → (a : A) (s : Stream) → IsClosed s
    → size s ≤ m
    → size s ≤ n
    → Ends (λ _. 0) s (loop_at n body a s)
unfolding loop_at ◌>>=◌ and_then pure
Takes-loop_at zero h a s c b d = absurd (omega (arith, d))
Takes-loop_at {A} {m} {body} (suc n) h a s c b d =
    Ends-round body (Takes-loop_at n h) s (body a s) b d ((h a).run s c b)

pub Takes-loop :
    {A : Type 0} {m : ℕ} {body : A → Parser (Round A)} (a : A)
    → ((a : A) → Takes m by_round (body a))
    → Takes m (λ _. 0) (loop body a)
unfolding loop
Takes-loop a h = record { run = λ s c b. Takes-loop_at (size s) h a s c b (omega arith) }

pub Takes-separated :
    {A : Type 0} {m : ℕ} (separator : Token) {p : Parser A}
    → is separator Token.eof ≡ false
    → Takes m (λ _. 1) p
    → Takes m (λ _. 1) (separated separator p)
unfolding separated
Takes-separated {m = m} separator e h = Takes-bind 1 h (λ x. Takes-loop (x ∷ []) (λ xs.
    Takes-if_eat {n = m} separator (omega arith) e (Takes-bind 1 h (λ y. Takes-pure _ refl))
      (Takes-pure _ refl)))

pub Takes-eat : {m : ℕ} (wanted : Token) → is wanted Token.eof ≡ false → Takes m any (eat wanted)
unfolding eat
Takes-eat {m} wanted e =
    Takes-if_eat {n = m} wanted (omega arith) e (Takes-pure _ refl) (Takes-pure _ refl)

-- The last token stays.
pub Takes-advance : {m : ℕ} → Takes m any advance
unfolding advance
Takes-advance = record { run = λ s c b. by_rest s c }
  where
    by_rest : (s : Stream) → IsClosed s → Ends any s (done (first s) (step_past s))
    by_rest (t, []) c = (c, omega arith)
    by_rest (t, u ∷ us) c = (c, omega arith)
