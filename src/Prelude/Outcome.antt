-- ===== src/Prelude/Outcome.antt =====
-- A call that returns or raises.
use mathlib.Core.Path.{◌≡◌, refl, subst}
use mathlib.Core.Logic.{◌⊎◌, inl, inr}
use mathlib.Core.Bool.{Bool, true, false}

pub data Result {ℓ} (E A : Type ℓ) : Type ℓ where
  ok : A → Result E A
  err : E → Result E A

infixl 5 ◌>>=◌ ◌>>◌
abbrev pub ◌>>=◌ {ℓ} : {E A B : Type ℓ} → Result E A → (A → Result E B) → Result E B
ok a >>= f = f a
err e >>= f = err e

abbrev pub ◌>>◌ {ℓ} : {E B : Type ℓ} → Result E (Unit {ℓ}) → Result E B → Result E B
m >> k = m >>= λ _. k

-- `if test: raise e`
abbrev pub raise_if : {E : Type 0} → Bool → E → Result E (Unit {0})
raise_if true e = err e
raise_if false e = ok tt

pub Result-cases :
    {E A : Type 0} (r : Result E A) → ((a : A) × (r ≡ ok a)) ⊎ ((e : E) × (r ≡ err e))
Result-cases (ok a) = inl (a, refl)
Result-cases (err e) = inr (e, refl)

-- What a chain that returns says of its first call.
pub ok-inj : {E A : Type 0} {a b : A} → (let r : Result E A = ok a in r ≡ ok b) → a ≡ b
ok-inj q = cc

module _ {E B : Type 0} {b : B} where
  pub after :
      {A : Type 0} (m : Result E A) (f : A → Result E B)
      → (m >>= f) ≡ ok b
      → (a : A) × (m ≡ ok a) × (f a ≡ ok b)
  after (ok a) f h = (a, refl, h)
  after (err e) f h = absurd cc

  pub after_raise :
      (t : Bool) (e : E) (k : Result E B) → (raise_if t e >> k) ≡ ok b → (t ≡ false) × (k ≡ ok b)
  after_raise false e k h = (refl, h)
  after_raise true e k h = absurd cc

-- what holds of the value that is returned
pub ok-subst :
    {E A : Type 0} (P : A → Type 0) {a b : A} → (let r : Result E A = ok a in r ≡ ok b) → P a → P b
ok-subst P e h = subst P (ok-inj e) h
