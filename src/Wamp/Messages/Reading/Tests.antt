-- ===== src/Wamp/Messages/Reading/Tests.antt =====
-- Texts that the reader takes, and texts that it does not.
use rito.Common.{none, some, [], ◌∷◌, ◌++◌, codes, is_digit, ◌≡◌, refl}
use rito.Wamp.Messages.Reading.{skip_space, read_items, read_number, read_array, read_message}

spaces :
    (read_message (codes "[5,\"e\"]") ≡ some (5, codes "e" ∷ []))
    × (read_message (codes " [ 5 , \"e\" ] ") ≡ some (5, codes "e" ∷ []))
unfolding read_message read_array read_number read_items skip_space is_digit
spaces = (refl, refl)

-- A line feed in a string, a missing bracket, and a text behind the bracket.
refused :
    (read_message (codes "[5, \"" ++ (10 ∷ codes "\"]")) ≡ none)
    × (read_message (codes "[5, \"e\"") ≡ none)
    × (read_message (codes "[5, \"e\"]x") ≡ none)
unfolding read_message read_array read_number read_items skip_space is_digit
refused = (refl, refl, refl)
