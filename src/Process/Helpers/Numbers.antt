-- ===== src/Process/Helpers/Numbers.antt =====
-- The port between its text and its 16 bits.
use rito.Common.{
  ℕ, ◌≤◌, ◌<◌, [], ◌∷◌, Bytes, codes, ltb, ◌≡◌, ◌≢◌, refl, ◌⊎◌, inl, inr, Bool-cases, arith,
}
use rito.Common.Decimal.{value_from, to_string, value_from-to_string, to_string-ne-nil}
use rito.Exception.{out_of_range}
use rito.Result.{ok, throw}
use rito.Process.Helpers.{int_max, stoi}

stoi-value : (s : Bytes) → s ≢ [] → value_from 0 s ≤ int_max → stoi s ≡ ok (value_from 0 s)
unfolding stoi
stoi-value [] h k = absurd (h refl)
stoi-value (c ∷ s) h k = ground arith

-- A number that fits an int is read back from its decimal text.
pub stoi-to_string : (n : ℕ) → n ≤ int_max → stoi (to_string n) ≡ ok n
stoi-to_string n h =
    ground (arith, stoi-value (to_string n) (to_string-ne-nil n), value_from-to_string n)

-- A text of digits whose value does not fit an int makes std::stoi throw.
pub stoi-overflow :
    (s : Bytes) → int_max < value_from 0 s → stoi s ≡ throw (out_of_range (codes "stoi"))
unfolding stoi value_from
stoi-overflow [] h = absurd (omega arith)
stoi-overflow (c ∷ s) h = ground arith

-- std::stoi succeeds on every text of digits that is not empty and fits, and throws no other way.
pub stoi-cases :
    (s : Bytes)
    → s ≢ []
    → ((stoi s ≡ ok (value_from 0 s)) × (value_from 0 s ≤ int_max))
      ⊎ ((stoi s ≡ throw (out_of_range (codes "stoi"))) × (int_max < value_from 0 s))
stoi-cases s h = elim (Bool-cases (ltb int_max (value_from 0 s))) [
  | inl big ↦ inr (stoi-overflow s (ground arith), ground arith)
  | inr small ↦ inl (stoi-value s h (ground arith), ground arith)
]
