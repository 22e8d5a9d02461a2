-- ===== src/Act.antt =====
-- A method takes the state of its object (and of what lies outside the program), and returns or
-- throws with the state that it leaves.
use rito.Common.{◌≡◌, refl, ◌⊎◌, inl, inr}
use rito.Exception.{Thrown}
use rito.Result.{Result, ok, throw}

abbrev pub Act {ℓ κ} : Type ℓ → Type κ → Type (ℓ ⊔ κ)
Act S A = S → Result A × S

abbrev pub Done : Type 0
Done = Unit {0}

module _ {ℓ κ} {S : Type ℓ} {A : Type κ} where
  abbrev pub pure : A → Act S A
  pure a s = (ok a, s)

  abbrev pub raise : Thrown → Act S A
  raise e s = (throw e, s)

  -- What a completed action hands on.
  abbrev pub after {μ} : {B : Type μ} → Result A × S → (A → Act S B) → Result B × S
  after (ok a, s) f = f a s
  after (throw e, s) f = (throw e, s)

  -- `try { … } catch`: the handler gets the exception and the state at the throw.
  abbrev pub rescue : Result A × S → (Thrown → Act S A) → Result A × S
  rescue (ok a, s) h = (ok a, s)
  rescue (throw e, s) h = h e s

infixl 5 ◌>>=◌ ◌>>◌
abbrev pub ◌>>=◌ {ℓ κ μ} :
    {S : Type ℓ} {A : Type κ} {B : Type μ} → Act S A → (A → Act S B) → Act S B
◌>>=◌ m f s = after (m s) f

abbrev pub ◌>>◌ {ℓ κ} : {S : Type ℓ} {B : Type κ} → Act S Done → Act S B → Act S B
◌>>◌ m k s = after (m s) (λ _. k)

abbrev pub try_catch {ℓ κ} : {S : Type ℓ} {A : Type κ} → Act S A → (Thrown → Act S A) → Act S A
try_catch m h s = rescue (m s) h

-- An action that has run has returned or thrown.
pub Act-cases {ℓ κ} :
    {S : Type ℓ} {A : Type κ} (p : Result A × S)
    → ((a : A) × (s : S) × (p ≡ (ok a, s))) ⊎ ((e : Thrown) × (s : S) × (p ≡ (throw e, s)))
Act-cases (ok a, s) = inl (a, s, refl)
Act-cases (throw e, s) = inr (e, s, refl)
