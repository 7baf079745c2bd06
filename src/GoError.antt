-- ===== src/GoError.antt =====
-- Go's `error` values as the program builds them, results with errors, and hashicorp/go-multierror
-- as a parameter.
use nacp.Common.{
  String, ◌<>◌, ◌≡◌, refl, ◌⊎◌, ◌↔◌, inl, inr, Option, none, some, List, [], ◌∷◌, ◌++◌,
}
use mathlib.Core.List.{flat_map}

mutual
  -- `message` is `errors.New`, or `fmt.Errorf` without `%w`; `wrap` is `fmt.Errorf("…: %w", …, err)`;
  -- `multi` is a `*multierror.Error` with its public field `Errors`.
  pub data GoError : Type 0 where
    message : String → GoError
    wrap : String → GoError → GoError
    multi : ErrorList → GoError

  pub data ErrorList : Type 0 where
    nil : ErrorList
    cons : GoError → ErrorList → ErrorList

abbrev pub errors : ErrorList → List GoError
errors nil = []
errors (cons e es) = e ∷ errors es

abbrev pub of_errors : List GoError → ErrorList
of_errors [] = nil
of_errors (e ∷ es) = cons e (of_errors es)

pub errors-of_errors : (es : List GoError) → errors (of_errors es) ≡ es
errors-of_errors [] = refl
errors-of_errors (e ∷ es) = λ i. e ∷ errors-of_errors es i

-- The errors that one error stands for when `multierror.Append` flattens it.
abbrev pub parts : GoError → List GoError
parts (message s) = message s ∷ []
parts (wrap s e) = wrap s e ∷ []
parts (multi es) = errors es

abbrev pub parts? : Option GoError → List GoError
parts? none = []
parts? (some e) = parts e

-- The library go-multierror: `Append`, and the text that `Error()` gives.
pub record Multierror : Type 0 where
  pub append : Option GoError → List GoError → GoError
  pub format : List GoError → String

-- What its documentation says of `Append`: a multierror comes back, `nil` starts a new one, and
-- multierrors are flattened one level.
pub record IsFlattening (M : Multierror) : Type 0 where
  pub append-eq :
      (e : Option GoError) (es : List GoError)
      → M.append e es ≡ multi (of_errors (parts? e ++ flat_map parts es))

-- `err.Error()`
unfoldable pub text : Multierror → GoError → String
text M (message s) = s
text M (wrap s e) = s <> ": " <> text M e
text M (multi es) = M.format (errors es)

-- A value, or the error that is returned in its place.
pub data Result {ℓ} (A : Type ℓ) : Type ℓ where
  err : GoError → Result A
  ok : A → Result A

-- `if err != nil { return …, err }`, and the rest.
infixl 5 ◌>>=◌
abbrev pub ◌>>=◌ {ℓ μ} : {A : Type ℓ} {C : Type μ} → Result A → (A → Result C) → Result C
err e >>= rest = err e
ok x >>= rest = rest x

-- `fmt.Errorf("…: %w", err)` on the error path.
abbrev pub wrapping {ℓ} : {A : Type ℓ} → String → Result A → Result A
wrapping s (ok a) = ok a
wrapping s (err e) = err (wrap s e)

pub Result-cases {ℓ} :
    {A : Type ℓ} (r : Result A) → ((e : GoError) × (r ≡ err e)) ⊎ ((a : A) × (r ≡ ok a))
Result-cases (ok a) = inr (a, refl)
Result-cases (err e) = inl (e, refl)

-- What succeeded, where a sequence of two steps has succeeded.
pub >>=-eq-ok {ℓ μ} :
    {A : Type ℓ} {C : Type μ} (first : Result A) (rest : A → Result C) {c : C}
    → (first >>= rest) ≡ ok c
    → (x : A) × (first ≡ ok x) × (rest x ≡ ok c)
>>=-eq-ok (err e) rest done = cc
>>=-eq-ok (ok x) rest done = (x, refl, done)

pub wrapping-eq-ok {ℓ} :
    {A : Type ℓ} (s : String) (r : Result A) {a : A} → wrapping s r ≡ ok a → r ≡ ok a
wrapping-eq-ok s (ok a) h = h
wrapping-eq-ok s (err e) h = cc

-- A call that has panicked, or has returned.
pub data Built (A : Type 0) : Type 0 where
  panicked : GoError → Built A
  returns : Result A → Built A

-- The panic at a nil pointer.
abbrev pub nil_dereference : GoError
nil_dereference = message "runtime error: invalid memory address or nil pointer dereference"

-- The rest of a function behind a call; it does not run where the call panics or returns an error.
infixl 20 ◌and_on◌
abbrev pub ◌and_on◌ : {A B : Type 0} → Built A → (A → Built B) → Built B
panicked e and_on f = panicked e
returns (err e) and_on f = returns (err e)
returns (ok a) and_on f = f a

-- `wrapping`, which lets a panic pass.
abbrev pub wrapping_built : {A : Type 0} → String → Built A → Built A
wrapping_built s (panicked e) = panicked e
wrapping_built s (returns r) = returns (wrapping s r)

pub and_on-eq-ok :
    {A B : Type 0} (first : Built A) (rest : A → Built B) {b : B}
    → (first and_on rest) ≡ returns (ok b)
    → (a : A) × (first ≡ returns (ok a)) × (rest a ≡ returns (ok b))
and_on-eq-ok (panicked e) rest h = absurd (cc h)
and_on-eq-ok (returns (err e)) rest h = absurd (cc h)
and_on-eq-ok (returns (ok a)) rest h = (a, refl, h)

pub and_on-eq-panicked :
    {A B : Type 0} (first : Built A) (rest : A → Built B) {e : GoError}
    → (first and_on rest) ≡ panicked e
    → (first ≡ panicked e) ⊎ ((a : A) × (first ≡ returns (ok a)) × (rest a ≡ panicked e))
and_on-eq-panicked (panicked e) rest h = inl (cc h)
and_on-eq-panicked (returns (err e)) rest h = absurd (cc h)
and_on-eq-panicked (returns (ok a)) rest h = inr (a, refl, h)

-- `errors.Join`, of errors that may be nil.
pub record Joiner : Type 0 where
  pub join : Option GoError → Option GoError → Option GoError

-- What its documentation says: it returns nil if every error that it is given is nil.
pub record IsJoining (E : Joiner) : Type 0 where
  pub join-eq-none : (e f : Option GoError) → (E.join e f ≡ none) ↔ ((e ≡ none) × (f ≡ none))
