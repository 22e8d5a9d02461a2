-- ===== src/Outcome.antt =====
-- How a method ends where it may also end the process, by an exception that reaches a
-- `noexcept` or a destructor. No catch clause takes that.
use rito.Exception.{Thrown}
use rito.Result.{Result, ok, throw}
use rito.Common.{◌≡◌, refl, ◌⊎◌, inl, inr}

pub data Outcome {ℓ} (A : Type ℓ) : Type ℓ where
  returns : A → Outcome A
  throws : Thrown → Outcome A
  terminates : Outcome A

abbrev pub outcome {ℓ} : {A : Type ℓ} → Result A → Outcome A
outcome (ok a) = returns a
outcome (throw e) = throws e

abbrev pub Method {ℓ κ} : Type ℓ → Type κ → Type (ℓ ⊔ κ)
Method S A = S → Outcome A × S

abbrev pub Done : Type 0
Done = Unit {0}

module _ {ℓ κ} {S : Type ℓ} {A : Type κ} where
  abbrev pub pure : A → Method S A
  pure a s = (returns a, s)

  abbrev pub after {μ} : {B : Type μ} → Outcome A × S → (A → Method S B) → Outcome B × S
  after (returns a, s) f = f a s
  after (throws e, s) f = (throws e, s)
  after (terminates, s) f = (terminates, s)

  -- `catch (...)`
  abbrev pub rescue : Outcome A × S → Method S A → Outcome A × S
  rescue (returns a, s) h = (returns a, s)
  rescue (throws e, s) h = h s
  rescue (terminates, s) h = (terminates, s)

  abbrev pub no_throw : Outcome A × S → Outcome A × S
  no_throw (returns a, s) = (returns a, s)
  no_throw (throws e, s) = (terminates, s)
  no_throw (terminates, s) = (terminates, s)

  abbrev pub catch_all : Method S A → Method S A → Method S A
  catch_all m h s = rescue (m s) h

  -- The body of a `noexcept` function, or of a destructor.
  abbrev pub noexcept : Method S A → Method S A
  noexcept m s = no_throw (m s)

infixl 5 ◌>>=◌ ◌>>◌
abbrev pub ◌>>=◌ {ℓ κ μ} :
    {S : Type ℓ} {A : Type κ} {B : Type μ} → Method S A → (A → Method S B) → Method S B
◌>>=◌ m f s = after (m s) f

abbrev pub ◌>>◌ {ℓ κ μ} :
    {S : Type ℓ} {A : Type κ} {B : Type μ} → Method S A → Method S B → Method S B
◌>>◌ m k s = after (m s) (λ _. k)

pub Method-cases {ℓ κ} :
    {S : Type ℓ} {A : Type κ} (p : Outcome A × S)
    → ((a : A) × (s : S) × (p ≡ (returns a, s)))
      ⊎ ((e : Thrown) × (s : S) × (p ≡ (throws e, s)))
      ⊎ ((s : S) × (p ≡ (terminates, s)))
Method-cases (returns a, s) = inl (a, s, refl)
Method-cases (throws e, s) = inr (inl (e, s, refl))
Method-cases (terminates, s) = inr (inr (s, refl))
