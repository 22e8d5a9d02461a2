-- ===== src/Process/Regex.antt =====
-- What the helpers use of std::regex: a pattern of single characters with one capture group
-- `([…]+)`, matched as ECMAScript prescribes: leftmost, greedy, and backtracking.
mod Meaning
pub mod Search
use rito.Common.{
  ℕ, Bool, true, false, Option, none, some, List, [], ◌∷◌, ◌++◌, map, Bytes, ◌==◌, not,
}

pub data Piece : Type 0 where
  lit : ℕ → Piece
  one_of : (ℕ → Bool) → Piece
  group_plus : (ℕ → Bool) → Piece

abbrev pub Regex : Type 0
Regex = List Piece

-- `k` matches the rest of the pattern; `taken` is what the group holds so far.
pub greedy : (ℕ → Bool) → (Bytes → Bytes → Option Bytes) → Bytes → Bytes → Option Bytes
greedy p k taken [] = k taken []
greedy p k taken (c ∷ s) = elim (p c) [
  | false ↦ k taken (c ∷ s)
  | true ↦ elim (greedy p k (taken ++ c ∷ []) s) [
    | some group ↦ some group
    | none ↦ k taken (c ∷ s)
  ]
]

-- A match at the start of the text gives what the group captured.
pub match_here : Regex → Bytes → Bytes → Option Bytes
unfolding greedy
match_here [] group s = some group
match_here (_ ∷ _) group [] = none
match_here (lit x ∷ r) group (c ∷ s) = elim (c == x) [ true ↦ match_here r group s | false ↦ none ]
match_here (one_of p ∷ r) group (c ∷ s) = elim (p c) [ true ↦ match_here r group s | false ↦ none ]
match_here (group_plus p ∷ r) group (c ∷ s) = elim (p c) [
  | true ↦ greedy p (match_here r) (c ∷ []) s
  | false ↦ none
]

-- `std::regex_search` with `match[1]`
unfoldable pub regex_search : Regex → Bytes → Option Bytes
unfolding match_here
regex_search r [] = match_here r [] []
regex_search r (c ∷ s) = elim (match_here r [] (c ∷ s)) [
  | some group ↦ some group
  | none ↦ regex_search r s
]

-- prefix([p]+)[^p]
unfoldable pub delimited : Bytes → (ℕ → Bool) → Regex
delimited prefix p = map lit prefix ++ group_plus p ∷ one_of (λ c. not (p c)) ∷ []
