-- ===== src/Process/Regex/Search.antt =====
-- A search for prefix([p]+)[^p] finds the leftmost place where the text reads so.
use rito.Common.{
  ℕ, suc, ◌≤◌, Bool, some, [], ◌∷◌, ◌++◌, Bytes, ◌≡◌, ◌≢◌, ◌↔◌, refl, sym, ap, ◌∙◌, arith, length,
  tails_eq, ◌⊎◌, inl, inr, Option-cases,
}
use rito.Process.Regex.{match_here, regex_search, delimited}
use rito.Process.Regex.Meaning.{
  Stops, grouped, match_here-grouped, grouped-match_here, match_here-lit, match_here-lit_split,
}

module _ (prefix : Bytes) (p : ℕ → Bool) where
  -- The text is a prefix, a group of characters of the class, and one character outside it.
  pub record Field (s group : Bytes) : Type 0 where
    pub rest : Bytes
    pub splits : s ≡ prefix ++ rest
    pub group_stops : Stops p rest group
    pub group_ne_nil : group ≢ []

  match_here-Field :
      (s : Bytes) {group : Bytes}
      → match_here (delimited prefix p) [] s ≡ some group
      → Field s group
  unfolding delimited
  match_here-Field s h =
      let (t, e, m) = match_here-lit_split (grouped p) prefix s h in
      let (stops, ne) = match_here-grouped p t m in
      record { rest = t; splits = e; group_stops = stops; group_ne_nil = ne }

  Field-match_here :
      (s : Bytes) {group : Bytes}
      → Field s group
      → match_here (delimited prefix p) [] s ≡ some group
  unfolding delimited
  Field-match_here s {group} f = rw f.splits (
      match_here-lit (grouped p) prefix f.rest
      ∙ grouped-match_here p f.rest group f.group_stops f.group_ne_nil)

  -- Somewhere in the text, behind `before`, such a field stands.
  pub record Occurs (s group : Bytes) : Type 0 where
    pub before : Bytes
    pub tail : Bytes
    pub located : s ≡ before ++ tail
    pub field : Field tail group

  -- No field stands further to the left.
  abbrev pub IsLeftmost : {s group : Bytes} → Occurs s group → Type 0
  IsLeftmost {s} o = (g : Bytes) (o' : Occurs s g) → length o.before ≤ length o'.before

  abbrev Occurs-here : {s group : Bytes} → Field s group → Occurs s group
  Occurs-here {s} f = record { before = []; tail = s; located = refl; field = f }

  abbrev Occurs-later : {s group : Bytes} (c : ℕ) → Occurs s group → Occurs (c ∷ s) group
  Occurs-later c o = record {
    before = c ∷ o.before;
    tail = o.tail;
    located = ap (◌∷◌ c) o.located;
    field = o.field;
  }

  Occurs-nil : {group : Bytes} → Occurs [] group → Field [] group
  Occurs-nil o = go o.before o.tail o.located o.field
    where
      go : (b t : Bytes) {g : Bytes} → [] ≡ b ++ t → Field t g → Field [] g
      go [] t e f = rw e f
      go (x ∷ b) t e f = cc

  Occurs-cons :
      (c : ℕ) (s : Bytes) {group : Bytes} (o : Occurs (c ∷ s) group)
      → Field (c ∷ s) group ⊎ ((o' : Occurs s group) × (length o.before ≡ suc (length o'.before)))
  Occurs-cons c s o = go o.before o.tail o.located o.field
    where
      go :
          (b t : Bytes) {g : Bytes}
          → c ∷ s ≡ b ++ t
          → Field t g
          → Field (c ∷ s) g ⊎ ((o' : Occurs s g) × (length b ≡ suc (length o'.before)))
      go [] t e f = inl (rw e f)
      go (x ∷ b) t e f =
          inr (record { before = b; tail = t; located = ground arith; field = f }, refl)

  -- A search that succeeds has found the leftmost field of the text.
  pub regex_search-Occurs :
      (s : Bytes) {group : Bytes}
      → regex_search (delimited prefix p) s ≡ some group
      → (o : Occurs s group) × IsLeftmost o
  unfolding regex_search
  regex_search-Occurs [] h = (Occurs-here (match_here-Field [] h), λ g o'. omega arith)
  regex_search-Occurs (c ∷ s) {group} h =
      elim (Option-cases (match_here (delimited prefix p) [] (c ∷ s))) [
        | inr (g, e) ↦
            let q : g ≡ group = ground arith in
            (Occurs-here (match_here-Field (c ∷ s) (rw q at e)), λ g' o'. omega arith)
        | inl e ↦
            let (o, first) = regex_search-Occurs s (rw (e, regex_search) at h) in
            (
              Occurs-later c o,
              λ g' o'. elim (Occurs-cons c s o') [
                | inl f ↦ absurd (ground (arith, Field-match_here (c ∷ s) f))
                | inr (o'', n) ↦ omega (arith, first g' o'')
              ],
            )
      ]

  -- A text with such a field is never missed.
  pub regex_search_complete :
      (s : Bytes) {group : Bytes}
      → Occurs s group
      → (g : Bytes) × (regex_search (delimited prefix p) s ≡ some g)
  unfolding regex_search
  regex_search_complete [] {group} o = (group, Field-match_here [] (Occurs-nil o))
  regex_search_complete (c ∷ s) {group} o =
      elim (Option-cases (match_here (delimited prefix p) [] (c ∷ s))) [
        | inr (g, e) ↦ (g, rw (e, regex_search))
        | inl e ↦ elim (Occurs-cons c s o) [
          | inl f ↦ absurd (ground (arith, Field-match_here (c ∷ s) f))
          | inr (o', _) ↦ let (g, q) = regex_search_complete s o' in (g, rw (e, regex_search) q)
        ]
      ]

  -- A search answers `group` exactly if the leftmost field of the text holds it.
  pub regex_search_iff :
      (s group : Bytes)
      → (regex_search (delimited prefix p) s ≡ some group) ↔ ((o : Occurs s group) × IsLeftmost o)
  regex_search_iff s group = (regex_search-Occurs s, back)
    where
      back : (o : Occurs s group) × IsLeftmost o → regex_search (delimited prefix p) s ≡ some group
      back (o, first) =
          let (g, e) = regex_search_complete s o in
          let (o', first') = regex_search-Occurs s e in
          let same =
            tails_eq o.before o'.before o.tail o'.tail (sym o.located ∙ o'.located)
              (omega (arith, first g o', first' group o)) in
          let left = Field-match_here o.tail o.field in
          let right = Field-match_here o'.tail o'.field in e ∙ sym right ∙ rw (← same) left
