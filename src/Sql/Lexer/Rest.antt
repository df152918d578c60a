-- ===== src/Sql/Lexer/Rest.antt =====
-- What the loops of the lexer leave of a text.
use fundb.Prelude.{
  ℕ, zero, suc, ◌≤◌, ◌≡◌, Bool, true, false, not, ◌&&◌, ◌||◌, Option, none, some, List, [], ◌∷◌,
  arith, length, ◌==◌, if◌then◌else◌,
}
use fundb.Sql.Chars.{
  Library, Place, Outcome, done, failed, panicked, out_of_fuel, ◌>>=◌, step, is_blank, first_is,
  is_digit, continues_word,
}
use fundb.Sql.Comments.{skip_blanks, skip_line, skip_block}
use fundb.Sql.Literals.{Taken, taking, take_number, take_word, take_string}

-- An end that is no lack of fuel: a result with the property, an error, or a panic where `Panics`.
abbrev pub Ends : {A : Type 0} → Type 0 → (A → Type 0) → Outcome A → Type 0
Ends Panics P (done a) = P a
Ends Panics P (failed e) = Unit {0}
Ends Panics P panicked = Panics
Ends Panics P out_of_fuel = zero ≡ suc zero

pub Ends-bind :
    {A B : Type 0} (Panics : Type 0) (P : A → Type 0) (R : B → Type 0) (o : Outcome A)
    (f : A → Outcome B)
    → Ends Panics P o
    → ((a : A) → P a → Ends Panics R (f a))
    → Ends Panics R (o >>= f)
Ends-bind Panics P R (done a) f h k = k a h
Ends-bind Panics P R (failed e) f h k = tt
Ends-bind Panics P R panicked f h k = h
Ends-bind Panics P R out_of_fuel f h k = absurd (omega arith)

pub Ends-map :
    {A : Type 0} (Panics : Type 0) (P R : A → Type 0) (o : Outcome A)
    → ((a : A) → P a → R a)
    → Ends Panics P o
    → Ends Panics R o
Ends-map Panics P R (done a) k h = k a h
Ends-map Panics P R (failed e) k h = tt
Ends-map Panics P R panicked k h = h
Ends-map Panics P R out_of_fuel k h = h

-- What holds of both branches holds of a conditional.
pub either : {A : Type 0} (P : A → Type 0) (b : Bool) (x y : A) → P x → P y → P (if b then x else y)
either P true x y h k = h
either P false x y h k = k

module _ (Ok : ℕ → Type 0) where
  abbrev pub All : List ℕ → Type 0
  All [] = Unit {0}
  All (c ∷ cs) = Ok c × All cs

  -- No longer, and made of the same characters.
  abbrev pub Rest : List ℕ → List ℕ → Type 0
  Rest cs ds = (length ds ≤ length cs) × (All cs → All ds)

  pub Rest-refl : (cs : List ℕ) → Rest cs cs
  Rest-refl cs = (omega arith, λ h. h)

  pub Rest-trans : (cs ds es : List ℕ) → Rest cs ds → Rest ds es → Rest cs es
  Rest-trans cs ds es h k = (omega (arith, h.0, k.0), λ a. k.1 (h.1 a))

  pub Rest-cons : (c : ℕ) (cs ds : List ℕ) → Rest cs ds → Rest (c ∷ cs) ds
  Rest-cons c cs ds h = (omega (arith, h.0), λ a. h.1 a.1)

  pub Rest-skip_blanks : (cs : List ℕ) (p : Place) → Rest cs ((skip_blanks cs p).0)
  unfolding skip_blanks
  Rest-skip_blanks [] p = Rest-refl []
  Rest-skip_blanks (c ∷ cs) p =
      let rest = skip_blanks cs (step c p) in
      either (λ t. Rest (c ∷ cs) (t.0)) (is_blank c) rest (c ∷ cs, p)
        (Rest-cons c cs (rest.0) (Rest-skip_blanks cs (step c p))) (Rest-refl (c ∷ cs))

  pub Rest-skip_line : (c : ℕ) (cs : List ℕ) (p : Place) → Rest cs ((skip_line (c ∷ cs) p).0)
  unfolding skip_line
  Rest-skip_line c [] p =
      either {A = List ℕ × Place} (λ t. Rest [] (t.0)) (c == b'\n') ([], step c p) ([], step c p)
        (Rest-refl []) (Rest-refl [])
  Rest-skip_line c (d ∷ cs) p =
      let rest = skip_line (d ∷ cs) (step c p) in
      either (λ t. Rest (d ∷ cs) (t.0)) (c == b'\n') (d ∷ cs, step c p) rest (Rest-refl (d ∷ cs))
        (Rest-cons d cs (rest.0) (Rest-skip_line d cs (step c p)))

  pub Rest-skip_block :
      (Panics : Type 0) (cs : List ℕ) (p : Place)
      → Ends Panics (λ t. Rest cs (t.0)) (skip_block cs p)
  unfolding skip_block
  Rest-skip_block Panics [] p = tt
  Rest-skip_block Panics (c ∷ []) p = tt
  Rest-skip_block Panics (c ∷ (d ∷ cs)) p =
      let Good = Ends {A = List ℕ × Place} Panics (λ t. Rest (c ∷ (d ∷ cs)) (t.0)) in
      let rest = skip_block (d ∷ cs) (step c p) in
      either Good (c == b'*' && d == b'/') (done (cs, step d (step c p))) rest
        (Rest-cons c (d ∷ cs) cs (Rest-cons d cs cs (Rest-refl cs)))
        (Ends-map Panics (λ t. Rest (d ∷ cs) (t.0)) (λ t. Rest (c ∷ (d ∷ cs)) (t.0)) rest
          (λ t h. Rest-cons c (d ∷ cs) (t.0) h) (Rest-skip_block Panics (d ∷ cs) (step c p)))

  pub Rest-take_word : (l : Library) (cs : List ℕ) (p : Place) → Rest cs ((take_word l cs p).1.0)
  unfolding take_word
  Rest-take_word l [] p = Rest-refl []
  Rest-take_word l (c ∷ cs) p =
      let more = take_word l cs (step c p) in
      either (λ t. Rest (c ∷ cs) (t.1.0)) (continues_word l c) (taking c more) ([], (c ∷ cs, p))
        (Rest-cons c cs (more.1.0) (Rest-take_word l cs (step c p))) (Rest-refl (c ∷ cs))

  pub Rest-take_number :
      (dot : Bool) (cs : List ℕ) (p : Place) → Rest cs ((take_number dot cs p).1.0)
  unfolding take_number
  Rest-take_number dot [] p = Rest-refl []
  Rest-take_number dot (c ∷ cs) p =
      let more = take_number (dot || c == b'.') cs (step c p) in
      either (λ t. Rest (c ∷ cs) (t.1.0))
        (is_digit c || c == b'.' && (not dot && not (first_is (λ d. d == b'.') cs))) (taking c more)
        ([], (c ∷ cs, p))
        (Rest-cons c cs (more.1.0) (Rest-take_number (dot || c == b'.') cs (step c p)))
        (Rest-refl (c ∷ cs))

  -- A string literal that is read leaves a rest.
  abbrev pub RestOption : List ℕ → Option Taken → Type 0
  RestOption cs none = Unit {0}
  RestOption cs (some t) = Rest cs (t.1.0)

  RestOption-taking :
      (c : ℕ) (cs : List ℕ) (o : Option Taken)
      → RestOption cs o
      → RestOption (c ∷ cs) (elim o [ none ↦ none | some t ↦ some (taking c t) ])
  RestOption-taking c cs none h = tt
  RestOption-taking c cs (some t) h = Rest-cons c cs (t.1.0) h

  RestOption-cons :
      (c : ℕ) (cs : List ℕ) (o : Option Taken) → RestOption cs o → RestOption (c ∷ cs) o
  RestOption-cons c cs none h = tt
  RestOption-cons c cs (some t) h = Rest-cons c cs (t.1.0) h

  pub Rest-take_string :
      (quoted : Bool) (cs : List ℕ) (p : Place) → RestOption cs (take_string quoted cs p)
  unfolding take_string
  Rest-take_string false [] p = tt
  Rest-take_string true [] p = Rest-refl []
  Rest-take_string quoted (c ∷ cs) p =
      let more = take_string (not quoted && c == b'\'') cs (step c p) in
      let stop : Option Taken = some ([], (c ∷ cs, p)) in
      let longer : Option Taken = elim more [ none ↦ none | some t ↦ some (taking c t) ] in
      let ih = Rest-take_string (not quoted && c == b'\'') cs (step c p) in
      either (RestOption (c ∷ cs)) (c == b'\'' && not quoted) more
        (if quoted && not (c == b'\'') then stop else longer) (RestOption-cons c cs more ih)
        (either (RestOption (c ∷ cs)) (quoted && not (c == b'\'')) stop longer (Rest-refl (c ∷ cs))
          (RestOption-taking c cs more ih))
