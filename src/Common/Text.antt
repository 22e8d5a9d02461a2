-- ===== src/Common/Text.antt =====
-- `std::string` as a list of bytes.
use Prim.Native.Nat.{ℕ}
use Prim.Native.Char.{code}
use Prim.Native.String.{String}
use mathlib.Core.Path.{◌≡◌, refl, ap}
use mathlib.Core.Logic.{inl, inr}
use mathlib.Core.Bool.{Bool, true, false, ◌&&◌, ◌||◌}
use mathlib.Core.List.{List, [], ◌∷◌, ◌++◌}
use native.Mathlib.Omega.{arith}
use rito.Common.Tests.{leb, ◌==◌, Bool-cases}

abbrev pub Bytes : Type 0
Bytes = List ℕ

-- The code points of a literal: its bytes, since every literal of the source is ASCII.
abbrev pub codes : String → Bytes
codes String.[] = []
codes (String.◌∷◌ c s) = code c ∷ codes s

-- `operator==` of two strings
unfoldable pub equal : Bytes → Bytes → Bool
equal [] [] = true
equal (x ∷ xs) (y ∷ ys) = x == y && equal xs ys
equal _ _ = false

-- `std::string::empty`
abbrev pub empty : Bytes → Bool
empty [] = true
empty (_ ∷ _) = false

-- Does the text begin with `p`?
unfoldable pub starts_with : Bytes → Bytes → Bool
starts_with s [] = true
starts_with [] (c ∷ p) = false
starts_with (x ∷ s) (c ∷ p) = x == c && starts_with s p

-- `s.find(p) != std::string::npos`
unfoldable pub contains : Bytes → Bytes → Bool
unfolding starts_with
contains [] p = starts_with [] p
contains (x ∷ s) p = starts_with (x ∷ s) p || contains s p

-- `std::isdigit` in the C locale
unfoldable pub is_digit : ℕ → Bool
is_digit c = leb b'0' c && leb c b'9'

pub starts_with-append : (p r : Bytes) → starts_with (p ++ r) p ≡ true
unfolding starts_with
starts_with-append [] r = refl
starts_with-append (c ∷ p) r = ground (arith, starts_with-append p r)

pub starts_with-split : (s p : Bytes) → starts_with s p ≡ true → (r : Bytes) × (s ≡ p ++ r)
unfolding starts_with
starts_with-split s [] h = (s, refl)
starts_with-split [] (c ∷ p) h = cc
starts_with-split (x ∷ s) (c ∷ p) h =
    let (r, e) = starts_with-split s p (ground arith) in (r, ground arith)

pub contains-split :
    (s p : Bytes) → contains s p ≡ true → (a : Bytes) × (r : Bytes) × (s ≡ a ++ (p ++ r))
unfolding contains
contains-split [] p h = let (r, e) = starts_with-split [] p h in ([], r, e)
contains-split (x ∷ s) p h = elim (Bool-cases (starts_with (x ∷ s) p)) [
  | inl here ↦ let (r, e) = starts_with-split (x ∷ s) p here in ([], r, e)
  | inr later ↦ let (a, r, e) = contains-split s p (rw later at h) in (x ∷ a, r, ap (◌∷◌ x) e)
]

pub contains-append : (a p r : Bytes) → contains (a ++ (p ++ r)) p ≡ true
unfolding contains
contains-append [] [] [] = refl
contains-append [] [] (x ∷ r) = refl
contains-append [] (c ∷ p) r = rw (starts_with-append (c ∷ p) r)
contains-append (x ∷ a) p r = ground (arith, contains-append a p r)
