-- ===== src/Prelude/Errors.antt =====
-- Go's `(value, error)` pair: a call returns a value, or an error and no value.
use mathlib.Core.Path.{◌≡◌, Path, refl, ap}
use mathlib.Core.Logic.{◌≢◌, ◌⊎◌, inl, inr}

pub data Result {ℓ} (E A : Type ℓ) : Type ℓ where
  ok : A → Result E A
  err : E → Result E A

-- `if err != nil { return …, err }` between two calls.
infixl 5 ◌>>=◌
abbrev pub ◌>>=◌ {ℓ} : {E A B : Type ℓ} (call : Result E A) (rest : A → Result E B) → Result E B
(err e) >>= rest = err e
(ok value) >>= rest = rest value

-- `fmt.Errorf("…: %w", err)`: the error is wrapped.
abbrev pub map_err {ℓ} : {E F A : Type ℓ} → (E → F) → Result E A → Result F A
map_err f (ok a) = ok a
map_err f (err e) = err (f e)

-- A bind that succeeds: the value of its first call, and the success of the rest on it.
pub >>=-eq-ok {ℓ} :
    {E A B : Type ℓ} {b : B} (call : Result E A) (rest : A → Result E B)
    (done : (call >>= rest) ≡ ok b)
    → (value : A) × (call ≡ ok value) × (rest value ≡ ok b)
>>=-eq-ok (err e) rest done = cc
>>=-eq-ok (ok value) rest done = (value, refl, done)

pub Result-cases {ℓ} :
    {E A : Type ℓ} (r : Result E A) → ((a : A) × (r ≡ ok a)) ⊎ ((e : E) × (r ≡ err e))
Result-cases (ok a) = inl (a, refl)
Result-cases (err e) = inr (e, refl)

-- What returns no error returns a value.
pub ok_of_never_err {ℓ} :
    {E A : Type ℓ} (r : Result E A) → ((e : E) → r ≢ err e) → (a : A) × (r ≡ ok a)
ok_of_never_err (ok a) h = (a, refl)
ok_of_never_err (err e) h = absurd (h e refl)

pub ok_inj {ℓ} : {E A : Type ℓ} (a b : A) → Path (Result E A) (ok a) (ok b) → a ≡ b
ok_inj {E = E} {A = A} a b e = ap (λ (r : Result E A). elim r [ ok x ↦ x | err x ↦ a ]) e
