-- ===== src/Wamp/Messages/Reading.antt =====
-- A reader for some of the arrays of RFC 8259: a number of one digit, then strings with no escapes,
-- with whitespace where the grammar allows it. It reads no text that the grammar forbids, but for
-- bytes of its strings that are not UTF-8, which it does not look at.
mod Tests
use mathlib.Core.List.{append_assoc, append-nil}
use mathlib.Core.Option
use rito.Common.{
  ℕ, ◌-◌, ◌≤◌, true, Bool, ◌||◌, all, ltb, false, ◌&&◌, Option, none, some, List, [], ◌∷◌, ◌++◌,
  Bytes, codes, is_digit, ◌==◌, if◌then◌else◌, ◌≡◌, ◌≢◌, refl, ap, sym, subst, ◌∙◌, All, arith,
}
use rito.Wamp.Messages.{
  call, number, subscribe, subscribe_message, unsubscribe_message, call_message, argument_list,
  call_with_message,
}

data Mode : Type 0 where
  after_item before_text in_text : Mode

-- Space, tab, line feed and carriage return.
abbrev pub is_space : ℕ → Bool
is_space c = c == b' ' || c == 9 || c == 10 || c == 13

abbrev pub IsSpace : Bytes → Type 0
IsSpace = All (λ c. is_space c ≡ true)

skip_space : Bytes → Bytes
skip_space [] = []
skip_space (c ∷ s) = let rest = skip_space s in if is_space c then rest else c ∷ s

-- `text` is what the string being read holds so far.
read_items : Mode → Bytes → Bytes → Option (List Bytes)
read_items mode text [] = none
read_items after_item text (c ∷ s) =
    let spaced = read_items after_item [] s in
    let more = read_items before_text [] s in
    if c == b']'
    then if all is_space s then some [] else none
    else if c == b','
    then more
    else if is_space c
    then spaced
    else none
read_items before_text text (c ∷ s) =
    let spaced = read_items before_text [] s in
    let more = read_items in_text [] s in
    if c == b'"' then more else if is_space c then spaced else none
read_items in_text text (c ∷ s) =
    let closed = read_items after_item [] s in
    let more = read_items in_text (text ++ c ∷ []) s in
    if c == b'"'
    then Option.map (◌∷◌ text) closed
    else if c == b'\\' || ltb c 32
    then none
    else more

read_number : Bytes → Option (ℕ × List Bytes)
unfolding read_items is_digit
read_number [] = none
read_number (d ∷ s) =
    if is_digit d
    then Option.map (λ items. (d - b'0', items)) (read_items after_item [] s)
    else none

read_array : Bytes → Option (ℕ × List Bytes)
unfolding read_number skip_space
read_array [] = none
read_array (o ∷ s) = if o == b'[' then read_number (skip_space s) else none

pub read_message : Bytes → Option (ℕ × List Bytes)
unfolding read_array skip_space
read_message m = read_array (skip_space m)

-- A text that stands in a JSON string as it is.
abbrev pub IsPlain : Bytes → Type 0
IsPlain = All (λ c. (c ≢ b'"') × (c ≢ b'\\') × (32 ≤ c))

-- No array of RFC 8259: each ends in a bracket, with whitespace behind it at most.
abbrev pub IsNoArray : Bytes → Type 0
IsNoArray m = (before space : Bytes) → IsSpace space → m ≢ before ++ (b']' ∷ space)

read_items-text :
    (s text rest : Bytes)
    → IsPlain s
    → read_items in_text text (s ++ b'"' ∷ rest)
      ≡ Option.map (◌∷◌ (text ++ s)) (read_items after_item [] rest)
unfolding read_items
read_items-text [] text rest h = rw append-nil
read_items-text (c ∷ s) text rest h =
    ground (arith, read_items-text s (text ++ c ∷ []) rest h.1, append_assoc text (c ∷ []) s)

-- One more string of an array.
read_items-item :
    (s rest : Bytes)
    → IsPlain s
    → read_items after_item [] (b',' ∷ b' ' ∷ b'"' ∷ (s ++ b'"' ∷ rest))
      ≡ Option.map (◌∷◌ s) (read_items after_item [] rest)
unfolding read_items
read_items-item s rest h = read_items-text s [] rest h

read_items-argument_list :
    (arg : Bytes) (args : List Bytes)
    → IsPlain arg
    → All IsPlain args
    → read_items after_item [] (argument_list arg args ++ codes "]") ≡ some (arg ∷ args)
unfolding argument_list
read_items-argument_list arg [] h hs =
    rw (append_assoc arg (codes "\"") (codes "]"), read_items-item arg (codes "]") h)
      (unfold read_items in refl)
read_items-argument_list arg (next ∷ args) h hs =
    let tail = argument_list next args ++ codes "]" in
    ap (read_items after_item []) (
      append_assoc (codes ", \"" ++ (arg ++ codes "\"")) (argument_list next args) (codes "]")
      ∙ append_assoc (codes ", \"" ++ arg) (codes "\"") tail)
    ∙ read_items-item arg tail h
    ∙ rw (read_items-argument_list next args hs.0 hs.1)

-- A call with arguments is the array of the number 2, the identifier, the function and the
-- arguments in their order, for plain texts.
pub read_message-call_with :
    (identifier function arg : Bytes) (args : List Bytes)
    → IsPlain identifier
    → IsPlain function
    → IsPlain arg
    → All IsPlain args
    → read_message (call_with_message identifier function arg args)
      ≡ some (2, identifier ∷ function ∷ arg ∷ args)
unfolding read_message call_with_message
read_message-call_with identifier function arg args hi hf ha has =
    let tail = argument_list arg args ++ codes "]" in
    ap (Option.map (λ items. (2, items))) (
      read_items-item identifier _ hi
      ∙ ap (Option.map (◌∷◌ identifier)) (
          read_items-item function tail hf
          ∙ ap (Option.map (◌∷◌ function)) (read_items-argument_list arg args ha has)))

-- A call without arguments is the array of the identifier and the function too, but its number is 5,
-- that of a subscription.
pub read_message-call :
    (identifier function : Bytes)
    → IsPlain identifier
    → IsPlain function
    → read_message (call_message identifier function) ≡ some (5, identifier ∷ function ∷ [])
unfolding read_message call_message
read_message-call identifier function hi hf = ap (Option.map (λ items. (5, items))) (
    read_items-item identifier _ hi
    ∙ ap (Option.map (◌∷◌ identifier)) (read_items-item function _ hf ∙ unfold read_items in refl))

-- A quotation mark is no whitespace, and no bracket.
no-IsSpace : (s : Bytes) → ¬ IsSpace (s ++ codes "\"")
no-IsSpace [] h = ground arith
no-IsSpace (c ∷ s) h = no-IsSpace s h.1

quote-IsNoArray : (s : Bytes) → IsNoArray (s ++ codes "\"")
quote-IsNoArray [] [] space h e = ground arith
quote-IsNoArray [] (b ∷ []) space h e = ground arith
quote-IsNoArray [] (b ∷ c ∷ bs) space h e = ground arith
quote-IsNoArray (c ∷ s) [] space h e =
    no-IsSpace s (subst IsSpace (ap (λ l. elim l [ [] ↦ [] | _ ∷ t ↦ t ]) (sym e)) h)
quote-IsNoArray (c ∷ s) (b ∷ bs) space h e = quote-IsNoArray s bs space h (ground arith)

-- With the bracket that it lacks, a text is the array of a number and one string.
abbrev pub IsUnclosed : ℕ → Bytes → Bytes → Type 0
IsUnclosed k name m = IsNoArray m × (read_message (m ++ codes "]") ≡ some (k, name ∷ []))

unclosed_lem :
    (name : Bytes)
    → IsPlain name
    → read_items after_item [] (codes ", \"" ++ ((name ++ codes "\"") ++ codes "]"))
      ≡ some (name ∷ [])
unclosed_lem name h =
    rw (append_assoc name (codes "\"") (codes "]"), read_items-item name (codes "]") h)
      (unfold read_items in refl)

pub subscribe_message-IsUnclosed :
    (name : Bytes) → IsPlain name → IsUnclosed 5 name (subscribe_message name)
unfolding read_message subscribe_message
subscribe_message-IsUnclosed name h = (
  quote-IsNoArray (codes "[5, \"" ++ name),
  ap (Option.map (λ items. (5, items))) (unclosed_lem name h),
)

pub unsubscribe_message-IsUnclosed :
    (name : Bytes) → IsPlain name → IsUnclosed 6 name (unsubscribe_message name)
unfolding read_message unsubscribe_message
unsubscribe_message-IsUnclosed name h = (
  quote-IsNoArray (codes "[6, \"" ++ name),
  ap (Option.map (λ items. (6, items))) (unclosed_lem name h),
)
