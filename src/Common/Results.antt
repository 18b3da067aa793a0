-- ===== src/Common/Results.antt =====
-- Exceptions as values, alone and over a state. The messages of the exceptions are left out; each
-- constructor is the exception's class.
use mathlib.Core.Bool.{Bool, true, false}
use mathlib.Core.Path.{◌≡◌, refl}
use mathlib.Core.Logic.{◌⊎◌, inl, inr}
use mathlib.Core.Option.{Option, none, some}

pub data HttpError : Type 0 where
  bad_request unauthorized forbidden not_found conflict unavailable : HttpError
  -- a `SyntaxError` or another exception that no handler catches
  internal : HttpError

pub data Result {ℓ} (A : Type ℓ) : Type ℓ where
  ok : A → Result A
  err : HttpError → Result A

pub ok_injective {ℓ} : {A : Type ℓ} (x y : A) → ok x ≡ ok y → x ≡ y
ok_injective x y e = cc

pub some_injective {ℓ} : {A : Type ℓ} (x y : A) → some x ≡ some y → x ≡ y
some_injective x y e = cc

pub err_ne_ok {ℓ} : {A : Type ℓ} (e : HttpError) (a : A) → ¬ (err e ≡ ok a)
err_ne_ok e a h = cc

pub none_ne_some {ℓ} : {A : Type ℓ} (x : A) → ¬ (none ≡ some x)
none_ne_some x e = cc

pub Result-cases {ℓ} :
    {A : Type ℓ} (r : Result A) → ((a : A) × (r ≡ ok a)) ⊎ ((e : HttpError) × (r ≡ err e))
Result-cases (ok a) = inl (a, refl)
Result-cases (err e) = inr (e, refl)

-- A method of an object: the new state comes back after a throw too, since what was written stays.
abbrev pub Method : Type 0 → Type 0 → Type 0
Method S A = S → Result A × S

module _ {S A : Type 0} where
  abbrev pub pure : A → Method S A
  pure a s = (ok a, s)

  abbrev pub throw : HttpError → Method S A
  throw e s = (err e, s)

  abbrev pub gets : (S → A) → Method S A
  gets f s = (ok (f s), s)

  abbrev pub or_throw : Option A → HttpError → Method S A
  or_throw none e s = (err e, s)
  or_throw (some a) e s = (ok a, s)

  abbrev pub lift : Result A → Method S A
  lift r s = (r, s)

module _ {S : Type 0} where
  abbrev pub throw_if : Bool → HttpError → Method S (Unit {0})
  throw_if true e s = (err e, s)
  throw_if false e s = (ok tt, s)

  abbrev pub modify : (S → S) → Method S (Unit {0})
  modify f s = (ok tt, f s)

infixl 5 ◌>>=◌ ◌>>◌
abbrev pub ◌>>=◌ : {S A B : Type 0} → Method S A → (A → Method S B) → Method S B
◌>>=◌ m f s = let (r, s') = m s in elim r [ ok a ↦ f a s' | err e ↦ (err e, s') ]

abbrev pub ◌>>◌ : {S A B : Type 0} → Method S A → Method S B → Method S B
m >> k = m >>= λ _. k
