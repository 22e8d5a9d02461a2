-- ===== src/Common/Lists.antt =====
-- Lists measured by native numbers, and predicates on all their elements.
use Prim.Native.Nat.{ℕ, suc, ◌+◌}
use mathlib.Core.Path.{◌≡◌}
use mathlib.Core.Bool.{Bool, true, ◌&&◌}
use mathlib.Core.List.{List, [], ◌∷◌, ◌++◌}
use native.Mathlib.Omega.{arith}

module _ {ℓ} {A : Type ℓ} where
  abbrev pub length : List A → ℕ
  length [] = 0
  length (x ∷ xs) = suc (length xs)

  pub length-append : (xs ys : List A) → length (xs ++ ys) ≡ length xs + length ys
  length-append [] ys = omega arith
  length-append (x ∷ xs) ys = omega (arith, length-append xs ys)

  -- `std::all_of`
  abbrev pub all : (A → Bool) → List A → Bool
  all p [] = true
  all p (x ∷ xs) = p x && all p xs

  -- The same as a proposition.
  abbrev pub All {κ} : (A → Type κ) → List A → Type κ
  All P [] = Unit
  All P (x ∷ xs) = P x × All P xs

  pub All-append {κ} : (P : A → Type κ) (xs ys : List A) → All P xs → All P ys → All P (xs ++ ys)
  All-append P [] ys h k = k
  All-append P (x ∷ xs) ys h k = (h.0, All-append P xs ys h.1 k)

  -- Two splits of a list at one place have the same second part.
  pub tails_eq : (a b t u : List A) → a ++ t ≡ b ++ u → length a ≡ length b → t ≡ u
  tails_eq [] [] t u e h = e
  tails_eq [] (y ∷ b) t u e h = absurd (omega arith)
  tails_eq (x ∷ a) [] t u e h = absurd (omega arith)
  tails_eq (x ∷ a) (y ∷ b) t u e h = tails_eq a b t u (ground arith) (omega arith)
