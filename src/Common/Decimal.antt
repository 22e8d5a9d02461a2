-- ===== src/Common/Decimal.antt =====
-- `std::to_string` of a number that is not negative, and the number that a text of digits stands for.
use rito.Common.{
  ℕ, zero, suc, ◌+◌, ◌-◌, ◌*◌, ◌/◌, ◌%◌, ◌<◌, true, [], ◌∷◌, Bytes, all, is_digit, ltb,
  if◌then◌else◌, ◌≡◌, ◌≢◌, refl, ◌∙◌, ap, inl, inr, Bool-cases, arith,
}

-- Each round divides by ten, so the fuel of `to_string` is enough.
digits : ℕ → ℕ → Bytes → Bytes
digits zero n out = out
digits (suc f) n out =
    let rest = digits f (n / 10) ((b'0' + n % 10) ∷ out) in
    if ltb n 10 then (b'0' + n) ∷ out else rest

unfoldable pub to_string : ℕ → Bytes
unfolding digits
to_string n = digits (suc n) n []

unfoldable pub value_from : ℕ → Bytes → ℕ
value_from n [] = n
value_from n (c ∷ s) = value_from (n * 10 + (c - b'0')) s

value_from-digits :
    (f n : ℕ) (out : Bytes) → n < f → value_from 0 (digits f n out) ≡ value_from n out
unfolding digits value_from
value_from-digits zero n out h = absurd (omega arith)
value_from-digits (suc f) n out h = elim (Bool-cases (ltb n 10)) [
  | inl small ↦ rw small (ap (λ k. value_from k out) (omega arith))
  | inr big ↦ rw big (
      value_from-digits f (n / 10) ((b'0' + n % 10) ∷ out) (ground arith)
      ∙ ap (λ k. value_from k out) (omega arith))
]

pub value_from-to_string : (n : ℕ) → value_from 0 (to_string n) ≡ n
unfolding to_string value_from
value_from-to_string n = value_from-digits (suc n) n [] (omega arith)

digits_lem :
    (f n : ℕ) (out : Bytes)
    → n < f
    → all is_digit out ≡ true
    → (all is_digit (digits f n out) ≡ true) × (digits f n out ≢ [])
unfolding digits is_digit
digits_lem zero n out h e = absurd (omega arith)
digits_lem (suc f) n out h e = elim (Bool-cases (ltb n 10)) [
  | inl small ↦ rw small (ground arith, ground arith)
  | inr big ↦ rw big (digits_lem f (n / 10) ((b'0' + n % 10) ∷ out) (ground arith) (ground arith))
]

pub all_digits-to_string : (n : ℕ) → all is_digit (to_string n) ≡ true
unfolding to_string
all_digits-to_string n = (digits_lem (suc n) n [] (omega arith) refl).0

pub to_string-ne-nil : (n : ℕ) → to_string n ≢ []
unfolding to_string
to_string-ne-nil n = (digits_lem (suc n) n [] (omega arith) refl).1
