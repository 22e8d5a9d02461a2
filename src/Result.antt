-- ===== src/Result.antt =====
-- Code that returns a value or throws, and reads no state.
use rito.Common.{◌≡◌, refl, ◌⊎◌, inl, inr}
use rito.Exception.{Thrown}

pub data Result {ℓ} (A : Type ℓ) : Type ℓ where
  ok : A → Result A
  throw : Thrown → Result A

pub Result-cases {ℓ} :
    {A : Type ℓ} (r : Result A) → ((a : A) × (r ≡ ok a)) ⊎ ((e : Thrown) × (r ≡ throw e))
Result-cases (ok a) = inl (a, refl)
Result-cases (throw e) = inr (e, refl)

infixl 5 ◌>>=◌
abbrev pub ◌>>=◌ {ℓ κ} : {A : Type ℓ} {B : Type κ} → Result A → (A → Result B) → Result B
ok a >>= f = f a
throw e >>= f = throw e
